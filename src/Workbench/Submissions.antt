-- ===== src/Workbench/Submissions.antt =====
-- app/submission/service.py: intake, assessment, and the inbox.
use ktayl_underwriting.Prelude.{
  ℕ, suc, String, Option, none, some, List, [], ◌∷◌, ◌++◌, if◌then◌else◌,
}
use ktayl_underwriting.Prelude.Int.{pos}
use ktayl_underwriting.Prelude.Text.{upper}
use ktayl_underwriting.Enums.{
  LineOfBusiness, Occupancy, lob_value, occupancy_value, Outcome, ReasonCode,
}
use ktayl_underwriting.Appetite.{SubmissionFacts, from_rules, assess}
use ktayl_underwriting.Store.Rows.{
  Submission, Decision, created, assessed, Db, Env, Result, ok, raised, ◌>>=◌, or_raise, no_ruleset,
  key_error, database_error, is_bigint,
}
use ktayl_underwriting.Store.Queries.{
  add_counterparty, append_audit, get_submission, current_ruleset,
}

-- app/entity/schemas.py and app/submission/schemas.py: the payload, as the field constraints let it pass.
pub record CounterpartyCreate : Type 0 where
  pub name : String
  pub country : String

pub record SubmissionCreate : Type 0 where
  pub counterparty : CounterpartyCreate
  pub line_of_business : LineOfBusiness
  pub tiv_eur : ℕ
  pub occupancy : Occupancy
  pub country : String
  pub postcode : String
  pub requested_cover : String
  pub broker_ref : Option String

-- `session.add(submission); session.flush()`: `tiv_eur` is a BIGINT column.
unfoldable pub add_submission : Env → SubmissionCreate → ℕ → Db → Result (Submission × Db)
add_submission env payload counterparty_id db =
    let row : Submission = record {
      id = env.uuid db.drawn;
      counterparty_id = counterparty_id;
      line_of_business = lob_value payload.line_of_business;
      tiv_eur = payload.tiv_eur;
      occupancy = occupancy_value payload.occupancy;
      country = upper payload.country;
      postcode = payload.postcode;
      requested_cover = payload.requested_cover;
      broker_ref = payload.broker_ref;
      created_at = env.now db.drawn;
    } in
    if is_bigint (pos payload.tiv_eur)
    then ok (row, record db { submissions = db.submissions ++ row ∷ []; drawn = suc db.drawn })
    else raised database_error

unfoldable pub create_submission : Env → SubmissionCreate → String → Db → Result (Submission × Db)
create_submission env payload actor db = do
  let (cp, db1) = add_counterparty env payload.counterparty.name payload.counterparty.country db
  (submission, db2) ← add_submission env payload cp.id db1
  ok (
    submission,
    append_audit env submission.id "submission.created" actor none none
        (created submission.line_of_business submission.tiv_eur) db2,
  )

abbrev pub facts_of : Submission → SubmissionFacts
facts_of s = record {
  line_of_business = s.line_of_business;
  tiv_eur = s.tiv_eur;
  occupancy = s.occupancy;
  country = s.country;
}

-- `session.add(decision); session.flush()`
unfoldable pub add_decision : Env → ℕ → Outcome → List ReasonCode → ℕ → String → Db → Decision × Db
add_decision env submission_id outcome reason_codes version actor db =
    let row : Decision = record {
      id = env.uuid db.drawn;
      submission_id = submission_id;
      outcome = outcome;
      reason_codes = reason_codes;
      appetite_version = version;
      decided_by = actor;
      decided_at = env.now db.drawn;
    } in
    (row, record db { decisions = db.decisions ++ row ∷ []; drawn = suc db.drawn })

unfoldable pub assess_submission : Env → ℕ → String → Db → Result (Decision × Db)
assess_submission env submission_id actor db = do
  submission ← get_submission db submission_id
  current ← or_raise (current_ruleset db) no_ruleset
  spec ← or_raise (from_rules current.version current.rules) key_error
  let (outcome, reason_codes) = assess (facts_of submission) spec
  let (decision, db1) = add_decision env submission.id outcome reason_codes current.version actor db
  ok (
    decision,
    append_audit env submission.id "submission.assessed" actor (some current.version) (some outcome)
        (assessed reason_codes) db1,
  )
