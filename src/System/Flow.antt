-- ===== src/System/Flow.antt =====
-- What each endpoint that writes answers and leaves where nothing stands in the way, row by row.
pub mod Unmentioned
pub mod Terms
pub mod Served
pub mod FirstRisk
pub mod Guarded
use ktayl_underwriting.Prelude.{
  ℕ, suc, ◌≡◌, ◌≢◌, refl, sym, ap, ◌∙◌, String, true, some, none, List, [], ◌∷◌, ◌++◌,
}
use ktayl_underwriting.Prelude.Int.{pos}
use ktayl_underwriting.Prelude.Text.{upper}
use ktayl_underwriting.Enums.{lob_value, occupancy_value, accept, Outcome, ReasonCode}
use ktayl_underwriting.Appetite.{RulesetSpec, from_rules as read_ruleset, assess}
use ktayl_underwriting.Rating.Engine.{QuoteBreakdown, RateTableSpec, Rated, rate}
use ktayl_underwriting.Rating.Tables.{from_rules}
use ktayl_underwriting.Store.Rows.{
  Counterparty, Submission, AppetiteRuleset, RateTable, Decision, PricedFacts, Quote, Db, Env,
  Result, ok, or_raise, created, assessed, quoted, is_bigint, submission_not_found, no_ruleset,
  no_rate_table, key_error,
}
use ktayl_underwriting.Store.Queries.{
  find_submission, get_submission, by_submission, latest_decision, current_ruleset,
  current_rate_table, add_counterparty, add_quote, append_audit, entry,
}
use ktayl_underwriting.Workbench.Submissions
use ktayl_underwriting.Workbench.Submissions.{
  SubmissionCreate, add_submission, add_decision, facts_of,
}
use ktayl_underwriting.Workbench.Quotes
use ktayl_underwriting.Workbench.Quotes.{rating_facts_of, quotable, rated, manifest}
use ktayl_underwriting.Api.Routes
use ktayl_underwriting.Api.Routes.{reply, answer}
use ktayl_underwriting.System.Answers.{Fits, then_ok}

module _ (env : Env) (actor : String) where
  abbrev pub counterparty_row : SubmissionCreate → Db → Counterparty
  counterparty_row payload db = record {
    id = env.uuid db.drawn;
    name = payload.counterparty.name;
    country = upper payload.counterparty.country;
    created_at = env.now db.drawn;
  }

  abbrev pub submission_row : SubmissionCreate → Db → Submission
  submission_row payload db = record {
    id = env.uuid (suc db.drawn);
    counterparty_id = env.uuid db.drawn;
    line_of_business = lob_value payload.line_of_business;
    tiv_eur = payload.tiv_eur;
    occupancy = occupancy_value payload.occupancy;
    country = upper payload.country;
    postcode = payload.postcode;
    requested_cover = payload.requested_cover;
    broker_ref = payload.broker_ref;
    created_at = env.now (suc db.drawn);
  }

  abbrev pub after_create : SubmissionCreate → Db → Db
  after_create payload db =
      let s = submission_row payload db in
      record db {
        counterparties = db.counterparties ++ counterparty_row payload db ∷ [];
        submissions = db.submissions ++ s ∷ [];
        audit =
            db.audit
            ++ entry env (suc (suc db.drawn)) s.id "submission.created" actor none none
                (created s.line_of_business s.tiv_eur)
              ∷ [];
        drawn = suc (suc (suc db.drawn));
      }

  pub create_route :
      (payload : SubmissionCreate) (db : Db)
      → is_bigint (pos payload.tiv_eur) ≡ true
      → Routes.create_submission env payload actor db
        ≡ (reply 201 (submission_row payload db), after_create payload db)
  unfolding Routes.create_submission Submissions.create_submission add_counterparty add_submission
      append_audit
  create_route payload db fits = rw fits refl

  abbrev pub decision_row : ℕ → Outcome → List ReasonCode → ℕ → Db → Decision
  decision_row submission_id outcome codes version db = record {
    id = env.uuid db.drawn;
    submission_id = submission_id;
    outcome = outcome;
    reason_codes = codes;
    appetite_version = version;
    decided_by = actor;
    decided_at = env.now db.drawn;
  }

  abbrev pub after_assess : ℕ → Outcome → List ReasonCode → ℕ → Db → Db
  after_assess submission_id outcome codes version db = record db {
    decisions = db.decisions ++ decision_row submission_id outcome codes version db ∷ [];
    audit =
        db.audit
        ++ entry env (suc db.drawn) submission_id "submission.assessed" actor (some version)
            (some outcome) (assessed codes)
          ∷ [];
    drawn = suc (suc db.drawn);
  }

  pub assess_route :
      (id : ℕ) (db : Db) (s : Submission) (r : AppetiteRuleset) (spec : RulesetSpec)
      → find_submission db id ≡ some s
      → by_submission db id ≡ none
      → current_ruleset db ≡ some r
      → read_ruleset r.version r.rules ≡ some spec
      → (let (outcome, codes) = assess (facts_of s) spec in
          Routes.assess_submission env id actor db ≡ (
            reply 200 (decision_row s.id outcome codes r.version db),
            after_assess s.id outcome codes r.version db,
          ))
  unfolding Routes.assess_submission Submissions.assess_submission get_submission add_decision
      append_audit
  assess_route id db s r spec found free current readable =
      let (outcome, codes) = assess (facts_of s) spec in
      let chain : Submissions.assess_submission env id actor db
          ≡ ok (
            decision_row s.id outcome codes r.version db,
            after_assess s.id outcome codes r.version db,
          ) =
        then_ok (get_submission db id) _ (ap (λ x. or_raise x submission_not_found) found) (
          then_ok (or_raise (current_ruleset db) no_ruleset) _
            (ap (λ x. or_raise x no_ruleset) current)
            (then_ok (or_raise (read_ruleset r.version r.rules) key_error) _
              (ap (λ x. or_raise x key_error) readable) refl)) in
      rw (free, Routes.assess_submission) (ap (answer 200 Routes.assess_status db) chain)

  abbrev pub quote_row : ℕ → QuoteBreakdown → PricedFacts → Db → Quote
  quote_row submission_id b facts db = record {
    id = env.uuid db.drawn;
    submission_id = submission_id;
    premium_minor = b.premium_minor;
    currency = b.currency;
    rate_table_version = b.rate_table_version;
    breakdown = b.line_items;
    pure_premium_minor = b.pure_premium_minor;
    technical_premium_minor = b.technical_premium_minor;
    commercial_premium_minor = b.commercial_premium_minor;
    taxes_minor = b.taxes_minor;
    facts = facts;
    created_by = actor;
    created_at = env.now db.drawn;
  }

  abbrev pub after_quote : ℕ → QuoteBreakdown → PricedFacts → ℕ → Db → Db
  after_quote submission_id b facts version db = record db {
    quotes = db.quotes ++ quote_row submission_id b facts db ∷ [];
    audit =
        db.audit
        ++ entry env (suc db.drawn) submission_id "quote" actor (some version) none
            (quoted b.premium_minor b.currency)
          ∷ [];
    drawn = suc (suc db.drawn);
  }

  add_quote-Fits :
      (id : ℕ) (b : QuoteBreakdown) (facts : PricedFacts) (db : Db)
      → Fits b
      → add_quote env id b facts actor db
        ≡ ok (
          quote_row id b facts db,
          record db { quotes = db.quotes ++ quote_row id b facts db ∷ []; drawn = suc db.drawn },
        )
  unfolding add_quote
  add_quote-Fits id b facts db (h1, h2, h3, h4, h5) = rw (h1, h2, h3, h4, h5) refl

  pub quote_route :
      (id : ℕ) (db : Db) (s : Submission) (outcome : Outcome) (t : RateTable) (spec : RateTableSpec)
      (b : QuoteBreakdown)
      → find_submission db id ≡ some s
      → by_submission db id ≡ none
      → quotable (latest_decision db id) ≡ ok outcome
      → current_rate_table db ≡ some t
      → from_rules t.version t.rules ≡ some spec
      → rate (rating_facts_of s) spec ≡ Rated.ok b
      → Fits b
      → Routes.quote_submission env id actor db ≡ (
        reply 200 (quote_row s.id b (manifest (rating_facts_of s)) db),
        after_quote s.id b (manifest (rating_facts_of s)) t.version db,
      )
  unfolding Routes.quote_submission Quotes.quote_submission get_submission append_audit
  quote_route id db s outcome t spec b found free decided current readable priced fits =
      let facts = manifest (rating_facts_of s) in
      let chain : Quotes.quote_submission env id actor db
          ≡ ok (quote_row s.id b facts db, after_quote s.id b facts t.version db) =
        then_ok (get_submission db id) _ (ap (λ x. or_raise x submission_not_found) found) (
          then_ok (quotable (latest_decision db id)) _ decided (
            then_ok (or_raise (current_rate_table db) no_rate_table) _
              (ap (λ x. or_raise x no_rate_table) current)
              (then_ok (or_raise (from_rules t.version t.rules) key_error) _
                (ap (λ x. or_raise x key_error) readable)
                (then_ok (rated (rate (rating_facts_of s) spec)) _ (ap rated priced) (
                  then_ok (add_quote env s.id b facts actor db) _
                    (add_quote-Fits s.id b facts db fits) refl))))) in
      rw (free, Routes.quote_submission) (ap (answer 200 Routes.quote_status db) chain)
