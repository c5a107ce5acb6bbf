-- ===== src/System/Refines.antt =====
-- Every request does what the specification allows.
use ktayl_underwriting.Prelude.{
  ℕ, suc, [], ◌∷◌, ◌++◌, ◌≡◌, ◌≢◌, refl, sym, ap, ◌∙◌, Option, none, some, inl, inr, Option-cases,
  arith, String,
}
use ktayl_underwriting.Enums.{lob_value, occupancy_value, Outcome, decline}
use ktayl_underwriting.Appetite.{from_rules}
use ktayl_underwriting.Store.Rows.{
  Submission, Decision, Quote, Db, Env, Fault, Detail, Result, ok, raised, or_raise, no_ruleset,
  key_error, no_rate_table, PricedFacts,
}
use ktayl_underwriting.Store.Queries.{
  get_submission, latest_decision, by_submission, add_counterparty, append_audit, entry, add_quote,
  current_rate_table, current_ruleset,
}
use ktayl_underwriting.Store.Results.{>>=-eq-ok, ok-injective, or_raise-eq-ok, get_submission-eq-ok}
use ktayl_underwriting.Workbench.Submissions
use ktayl_underwriting.Workbench.Submissions.{SubmissionCreate, add_submission, add_decision}
use ktayl_underwriting.Rating.Engine.{QuoteBreakdown, Rated, RatingFault, rate}
use ktayl_underwriting.Rating.Tables
use ktayl_underwriting.Workbench.Quotes
use ktayl_underwriting.Workbench.Quotes.{quotable, rated, rating_facts_of, manifest}
use ktayl_underwriting.Api.Routes
use ktayl_underwriting.Api.Routes.{Response, answer}
use ktayl_underwriting.System.Pricing.{facts_of_manifest, breakdown_of}
use ktayl_underwriting.System.Steps.{Step, same, created, assessed, quoted}

pub answer-Step :
    {A : Type 0} (env : Env) (code : ℕ) (status : Fault → ℕ) (db : Db) (r : Result (A × Db))
    → ((a : A) (db' : Db) → r ≡ ok (a, db') → Step env db db')
    → Step env db (answer code status db r).1
answer-Step env code status db (ok (a, db')) h = h a db' refl
answer-Step env code status db (raised e) h = same refl

pub add_submission-eq-ok :
    (env : Env) (payload : SubmissionCreate) (c : ℕ) (db db' : Db) (s : Submission)
    → add_submission env payload c db ≡ ok (s, db')
    → (s.counterparty_id ≡ c)
      × (s.id ≡ env.uuid db.drawn)
      × (s.line_of_business ≡ lob_value payload.line_of_business)
      × (s.occupancy ≡ occupancy_value payload.occupancy)
      × (db' ≡ record db { submissions = db.submissions ++ s ∷ []; drawn = suc db.drawn })
unfolding add_submission
add_submission-eq-ok env payload c db db' s e = ground arith

create_submission-Step :
    (env : Env) (payload : SubmissionCreate) (actor : String) (db db' : Db) {s : Submission}
    → Submissions.create_submission env payload actor db ≡ ok (s, db')
    → Step env db db'
unfolding Submissions.create_submission add_counterparty append_audit
create_submission-Step env payload actor db db' {s} e =
    let ((row, db2), p, q) = >>=-eq-ok (add_submission env payload _ _) _ e in
    let (owner, key, lob, occupancy, grown) = add_submission-eq-ok env payload _ _ db2 row p in
    let e =
      entry env db2.drawn row.id "submission.created" actor none none
        (Detail.created row.line_of_business row.tiv_eur) in
    created (add_counterparty env payload.counterparty.name payload.counterparty.country db).0 row e
      (record {
        owner_key = refl;
        key = key;
        owner = owner;
        lob = payload.line_of_business;
        lob_text = lob;
        occupancy = payload.occupancy;
        occupancy_text = occupancy;
      })
      refl
      (sym (ap (λ x. x.1) (ok-injective q))
        ∙ ap (λ (d : Db). record d { audit = d.audit ++ e ∷ []; drawn = suc d.drawn }) grown)

assess_submission-Step :
    (env : Env) (id : ℕ) (actor : String) (db db' : Db) {d : Decision}
    → by_submission db id ≡ none
    → Submissions.assess_submission env id actor db ≡ ok (d, db')
    → Step env db db'
unfolding Submissions.assess_submission add_decision append_audit
assess_submission-Step env id actor db db' {d} free e =
    let (s, p, e1) = >>=-eq-ok (get_submission db id) _ e in
    let (r, q, e2) = >>=-eq-ok (or_raise (current_ruleset db) no_ruleset) _ e1 in
    let (spec, q', e3) = >>=-eq-ok (or_raise (from_rules r.version r.rules) key_error) _ e2 in
    let (found, same_id) = get_submission-eq-ok db id p in
    assessed _ _
      (record { submission = s; found = rw same_id found; unbound = rw same_id free; dated = refl })
      refl (sym (ap (λ x. x.1) (ok-injective e3)))

-- A price may be recorded only after a decision that is not a decline.
quotable-eq-ok :
    (o : Option Decision) {a : Outcome}
    → quotable o ≡ ok a
    → (d : Decision) × (o ≡ some d) × (d.outcome ≢ decline)
quotable-eq-ok none h = cc
quotable-eq-ok (some d) h = (d, refl, λ e. ground arith)

rated-eq-ok : {A : Type 0} (r : Rated A) {a : A} → rated r ≡ ok a → r ≡ Rated.ok a
rated-eq-ok (Rated.ok x) h = cc
rated-eq-ok (Rated.raised RatingFault.no_occupancy_factor) h = cc
rated-eq-ok (Rated.raised RatingFault.outside_band) h = cc
rated-eq-ok (Rated.raised RatingFault.invalid_operation) h = cc

pub add_quote-eq-ok :
    (env : Env) (id : ℕ) (b : QuoteBreakdown) (facts : PricedFacts) (actor : String) (db db' : Db)
    (q : Quote)
    → add_quote env id b facts actor db ≡ ok (q, db')
    → (q.submission_id ≡ id)
      × (q.created_at ≡ env.now db.drawn)
      × (breakdown_of q ≡ b)
      × (q.facts ≡ facts)
      × (db' ≡ record db { quotes = db.quotes ++ q ∷ []; drawn = suc db.drawn })
unfolding add_quote
add_quote-eq-ok env id b facts actor db db' q e = ground arith

quote_submission-Step :
    (env : Env) (id : ℕ) (actor : String) (db db' : Db) {q : Quote}
    → by_submission db id ≡ none
    → Quotes.quote_submission env id actor db ≡ ok (q, db')
    → Step env db db'
unfolding Quotes.quote_submission append_audit
quote_submission-Step env id actor db db' {q} free e =
    let (s, p, e1) = >>=-eq-ok (get_submission db id) _ e in
    let (o, p2, e2) = >>=-eq-ok (quotable (latest_decision db id)) _ e1 in
    let (t, p3, e3) = >>=-eq-ok (or_raise (current_rate_table db) no_rate_table) _ e2 in
    let (spec, p4, e4) =
      >>=-eq-ok (or_raise (Tables.from_rules t.version t.rules) key_error) _ e3 in
    let facts = rating_facts_of s in
    let (b, p5, e5) = >>=-eq-ok (rated (rate facts spec)) _ e4 in
    let ((row, db2), p6, e6) = >>=-eq-ok (add_quote env s.id b (manifest facts) actor db) _ e5 in
    let (found, same_id) = get_submission-eq-ok db id p in
    let (d, decided, undeclined) = quotable-eq-ok (latest_decision db id) p2 in
    let (owner, dated, breakdown, priced_facts, grown) =
      add_quote-eq-ok env s.id b (manifest facts) actor db db2 row p6 in
    let at_id = owner ∙ same_id in
    let e =
      entry env db2.drawn s.id "quote" actor (some t.version) none
        (Detail.quoted b.premium_minor b.currency) in
    quoted row e
      (record {
        submission = s;
        found = rw at_id found;
        unbound = rw at_id free;
        decision = d;
        decided = rw at_id decided;
        not_declined = undeclined;
        table = t;
        dated = dated;
        is_current = or_raise-eq-ok (current_rate_table db) no_rate_table p3;
        is_priced = record {
          spec = spec;
          is_read = or_raise-eq-ok (Tables.from_rules t.version t.rules) key_error p4;
          priced =
              ap (λ (x : PricedFacts). rate (facts_of_manifest x) spec) priced_facts
              ∙ rated-eq-ok (rate facts spec) p5
              ∙ ap Rated.ok (sym breakdown);
        };
      })
      (sym owner)
      (sym (ap (λ x. x.1) (ok-injective e6))
        ∙ ap (λ (d : Db). record d { audit = d.audit ++ e ∷ []; drawn = suc d.drawn }) grown)

module _ (env : Env) where
  -- The three routes that need no policy service.
  pub create_route-Step :
      (payload : SubmissionCreate) (actor : String) (db : Db)
      → Step env db (Routes.create_submission env payload actor db).1
  unfolding Routes.create_submission
  create_route-Step payload actor db =
      answer-Step env 201 Routes.create_status db
        (Submissions.create_submission env payload actor db)
        λ s db' e. create_submission-Step env payload actor db db' e

  pub assess_route-Step :
      (id : ℕ) (actor : String) (db : Db) → Step env db (Routes.assess_submission env id actor db).1
  unfolding Routes.assess_submission
  assess_route-Step id actor db = elim (Option-cases (by_submission db id)) [
    | inl free ↦
        rw (free, Routes.assess_submission)
          (answer-Step env 200 Routes.assess_status db
            (Submissions.assess_submission env id actor db)
            λ d db' e. assess_submission-Step env id actor db db' free e)
    | inr (b, frozen) ↦ rw (frozen, Routes.assess_submission) (same refl)
  ]

  pub quote_route-Step :
      (id : ℕ) (actor : String) (db : Db) → Step env db (Routes.quote_submission env id actor db).1
  unfolding Routes.quote_submission
  quote_route-Step id actor db = elim (Option-cases (by_submission db id)) [
    | inl free ↦
        rw (free, Routes.quote_submission)
          (answer-Step env 200 Routes.quote_status db (Quotes.quote_submission env id actor db)
            λ q db' e. quote_submission-Step env id actor db db' free e)
    | inr (b, frozen) ↦ rw (frozen, Routes.quote_submission) (same refl)
  ]
