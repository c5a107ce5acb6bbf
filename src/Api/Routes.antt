-- ===== src/Api/Routes.antt =====
-- app/api/routes.py: the write endpoints, with the status code of each outcome. An exception that a route
-- does not name reaches the framework, which answers 500. What a request raised is rolled back.
use ktayl_underwriting.Prelude.{ℕ, String, none, some}
use ktayl_underwriting.Store.Rows.{
  Submission, Decision, Quote, Binding, Db, Env, Fault, submission_not_found, no_ruleset,
  no_decision, declined_risk, no_rate_table, no_accepted_decision, no_quote, policy_already_exists,
  Result, ok, raised,
}
use ktayl_underwriting.Store.Queries.{by_submission}
use ktayl_underwriting.Workbench.Submissions
use ktayl_underwriting.Workbench.Submissions.{SubmissionCreate}
use ktayl_underwriting.Workbench.Quotes
use ktayl_underwriting.Bind.Service
use ktayl_underwriting.Bind.Interfaces.{PolicyClient, Publisher}

-- What a client is answered: a body with its status, or an error status.
pub data Response (A : Type 0) : Type 0 where
  reply : ℕ → A → Response A
  failed : ℕ → Response A

-- The `except` clauses of each route.
abbrev pub create_status : Fault → ℕ
create_status e = 500

abbrev pub assess_status : Fault → ℕ
assess_status submission_not_found = 404
assess_status no_ruleset = 503
assess_status _ = 500

abbrev pub quote_status : Fault → ℕ
quote_status submission_not_found = 404
quote_status no_decision = 404
quote_status declined_risk = 409
quote_status no_rate_table = 503
quote_status _ = 500

abbrev pub bind_status : Fault → ℕ
bind_status submission_not_found = 404
bind_status no_accepted_decision = 422
bind_status no_quote = 422
bind_status policy_already_exists = 409
bind_status _ = 500

-- The answer and the committed tables after a use-case that began at `db`.
abbrev pub answer : {A : Type 0} → ℕ → (Fault → ℕ) → Db → Result (A × Db) → Response A × Db
answer code status db (ok (a, db')) = (reply code a, db')
answer code status db (raised e) = (failed (status e), db)

module _ (env : Env) where
  unfoldable pub create_submission : SubmissionCreate → String → Db → Response Submission × Db
  create_submission payload actor db =
      answer 201 create_status db (Submissions.create_submission env payload actor db)

  -- A bound submission is frozen.
  unfoldable pub assess_submission : ℕ → String → Db → Response Decision × Db
  assess_submission submission_id actor db = elim (by_submission db submission_id) [
    | some binding ↦ (failed 409, db)
    | none ↦ answer 200 assess_status db (Submissions.assess_submission env submission_id actor db)
  ]

  unfoldable pub quote_submission : ℕ → String → Db → Response Quote × Db
  quote_submission submission_id actor db = elim (by_submission db submission_id) [
    | some binding ↦ (failed 409, db)
    | none ↦ answer 200 quote_status db (Quotes.quote_submission env submission_id actor db)
  ]

module _ {W : Type 0} (env : Env) (client : PolicyClient W) (publisher : Publisher W) where
  unfoldable pub bind_submission : ℕ → String → Db → W → (Response Binding × Db) × W
  bind_submission submission_id actor db w =
      let (r, w') = Service.bind_submission env client publisher submission_id actor db w in
      (answer 200 bind_status db r, w')
