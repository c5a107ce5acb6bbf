-- ===== src/System/Steps.antt =====
-- The specification: what one request may do to the committed tables. Every table only grows, at its end.
use ktayl_underwriting.Prelude.{ℕ, ◌≡◌, ◌≢◌, ◌≤◌, none, some, List, [], ◌∷◌, ◌++◌, suc}
use ktayl_underwriting.Enums.{
  LineOfBusiness, lob_value, Occupancy, occupancy_value, accept, decline,
}
use ktayl_underwriting.Store.Rows.{
  Counterparty, Submission, AppetiteRuleset, RateTable, Decision, Quote, Binding, AuditEntry, Db,
  Env,
}
use ktayl_underwriting.Store.Queries.{
  find_submission, latest_decision, latest_quote, by_submission, current_rate_table,
}
use ktayl_underwriting.System.Pricing.{IsPricedBy}
use ktayl_underwriting.Bind.Service.{policy_number_for}

abbrev pub with_seeds : List AppetiteRuleset → List RateTable → ℕ → Db → Db
with_seeds rs ts n db = record db {
  rulesets = db.rulesets ++ rs;
  rate_tables = db.rate_tables ++ ts;
  drawn = n;
}

abbrev pub with_submission : Counterparty → Submission → AuditEntry → Db → Db
with_submission c s e db = record db {
  counterparties = db.counterparties ++ c ∷ [];
  submissions = db.submissions ++ s ∷ [];
  audit = db.audit ++ e ∷ [];
  drawn = suc (suc (suc db.drawn));
}

abbrev pub with_decision : Decision → AuditEntry → Db → Db
with_decision d e db = record db {
  decisions = db.decisions ++ d ∷ [];
  audit = db.audit ++ e ∷ [];
  drawn = suc (suc db.drawn);
}

abbrev pub with_quote : Quote → AuditEntry → Db → Db
with_quote q e db = record db {
  quotes = db.quotes ++ q ∷ [];
  audit = db.audit ++ e ∷ [];
  drawn = suc (suc db.drawn);
}

abbrev pub with_binding : Binding → AuditEntry → Db → Db
with_binding b e db = record db {
  bindings = db.bindings ++ b ∷ [];
  audit = db.audit ++ e ∷ [];
  drawn = suc (suc db.drawn);
}

-- What is recorded of a new submission: it belongs to the counterparty that is recorded with it, and its line of business
-- and its occupancy are texts of members. The ids are those of their draws.
pub record MayCreate (env : Env) (db : Db) (c : Counterparty) (s : Submission) : Type 0 where
  pub owner_key : c.id ≡ env.uuid db.drawn
  pub key : s.id ≡ env.uuid (suc db.drawn)
  pub owner : s.counterparty_id ≡ c.id
  pub lob : LineOfBusiness
  pub lob_text : s.line_of_business ≡ lob_value lob
  pub occupancy : Occupancy
  pub occupancy_text : s.occupancy ≡ occupancy_value occupancy

-- When a decision may be recorded: the submission is there, and not bound. Its time is that of its draw.
pub record MayAssess (env : Env) (db : Db) (d : Decision) : Type 0 where
  pub submission : Submission
  pub found : find_submission db d.submission_id ≡ some submission
  pub unbound : by_submission db d.submission_id ≡ none
  pub dated : d.decided_at ≡ env.now db.drawn

-- When a price may be recorded: the submission is there, not bound, its latest decision no decline, and the price
-- that of the current rate table.
pub record MayQuote (env : Env) (db : Db) (q : Quote) : Type 0 where
  pub submission : Submission
  pub found : find_submission db q.submission_id ≡ some submission
  pub unbound : by_submission db q.submission_id ≡ none
  pub decision : Decision
  pub decided : latest_decision db q.submission_id ≡ some decision
  pub not_declined : decision.outcome ≢ decline
  pub table : RateTable
  pub is_current : current_rate_table db ≡ some table
  pub is_priced : IsPricedBy q table
  pub dated : q.created_at ≡ env.now db.drawn

-- When a binding may be recorded: the submission is there, not bound, its latest decision is to accept, and
-- the binding is of its latest quote, under the policy number of that quote.
pub record MayBind (env : Env) (db : Db) (b : Binding) : Type 0 where
  pub submission : Submission
  pub found : find_submission db b.submission_id ≡ some submission
  pub unbound : by_submission db b.submission_id ≡ none
  pub decision : Decision
  pub decided : latest_decision db b.submission_id ≡ some decision
  pub is_accepted : decision.outcome ≡ accept
  pub quote : Quote
  pub quoted : latest_quote db b.submission_id ≡ some quote
  pub of_quote : b.quote_id ≡ quote.id
  pub number : b.policy_number ≡ policy_number_for env quote.id

pub data Step (env : Env) (db db' : Db) : Type 0 where
  same : db' ≡ db → Step env db db'
  seeded :
      (rs : List AppetiteRuleset) (ts : List RateTable) (n : ℕ)
      → db.drawn ≤ n
      → db' ≡ with_seeds rs ts n db
      → Step env db db'
  created :
      (c : Counterparty) (s : Submission) (e : AuditEntry)
      → MayCreate env db c s
      → e.submission_id ≡ s.id
      → db' ≡ with_submission c s e db
      → Step env db db'
  assessed :
      (d : Decision) (e : AuditEntry)
      → MayAssess env db d
      → e.submission_id ≡ d.submission_id
      → db' ≡ with_decision d e db
      → Step env db db'
  quoted :
      (q : Quote) (e : AuditEntry)
      → MayQuote env db q
      → e.submission_id ≡ q.submission_id
      → db' ≡ with_quote q e db
      → Step env db db'
  bound :
      (b : Binding) (e : AuditEntry)
      → MayBind env db b
      → e.submission_id ≡ b.submission_id
      → db' ≡ with_binding b e db
      → Step env db db'
