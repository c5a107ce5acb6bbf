-- ===== src/Api/Reads.antt =====
-- app/api/routes.py: the endpoints that only read. They leave the tables as they are, so each is a function of them.
use ktayl_underwriting.Prelude.{ℕ, ◌&&◌, Option, none, some, List, leb, if◌then◌else◌}
use ktayl_underwriting.Enums.{Outcome}
use ktayl_underwriting.Store.Rows.{
  Submission, RateTable, Quote, Binding, AuditEntry, Db, Fault, submission_not_found, Result, ok,
  raised, ◌>>=◌,
}
use ktayl_underwriting.Store.Queries.{
  get_submission, latest_decision, latest_quote, by_submission, list_versions, list_for_submission,
}
use ktayl_underwriting.Workbench.Schemas.{SubmissionDetail, SubmissionListItem, model_validate}
use ktayl_underwriting.Workbench.Inbox
use ktayl_underwriting.Api.Routes.{Response, reply, failed}

abbrev pub read_status : Fault → ℕ
read_status submission_not_found = 404
read_status _ = 500

-- The answer of a read.
abbrev pub answered : {A : Type 0} → Result A → Response A
answered (ok a) = reply 200 a
answered (raised e) = failed (read_status e)

-- What a route answers that looks a submission up and then a row that may be missing.
abbrev pub row_or_404 : {A : Type 0} → Result Submission → Option A → Response A
row_or_404 (raised e) row = failed (read_status e)
row_or_404 (ok s) none = failed 404
row_or_404 (ok s) (some a) = reply 200 a

module _ (db : Db) where
  -- `Query(ge=1, le=200)` and `Query(ge=0, le=1_000_000)`
  unfoldable pub list_submissions : Option Outcome → ℕ → ℕ → Response (List SubmissionListItem)
  list_submissions outcome limit offset =
      if leb 1 limit && leb limit 200 && leb offset 1_000_000
      then answered (Inbox.list_submissions db outcome limit offset)
      else failed 422

  unfoldable pub submission_detail : ℕ → Result SubmissionDetail
  submission_detail submission_id = do
    s ← get_submission db submission_id
    read ← model_validate s
    ok (record { submission = read; latest_decision = latest_decision db submission_id })

  unfoldable pub get_submission_route : ℕ → Response SubmissionDetail
  get_submission_route submission_id = answered (submission_detail submission_id)

  unfoldable pub get_quote : ℕ → Response Quote
  get_quote submission_id =
      row_or_404 (get_submission db submission_id) (latest_quote db submission_id)

  unfoldable pub get_binding : ℕ → Response Binding
  get_binding submission_id =
      row_or_404 (get_submission db submission_id) (by_submission db submission_id)

  unfoldable pub list_rate_tables : Response (List RateTable)
  list_rate_tables = reply 200 (list_versions db)

  abbrev listed_entries : Result Submission → List AuditEntry → Response (List AuditEntry)
  listed_entries (raised e) entries = failed (read_status e)
  listed_entries (ok s) entries = reply 200 entries

  unfoldable pub get_submission_audit : ℕ → Response (List AuditEntry)
  get_submission_audit submission_id =
      listed_entries (get_submission db submission_id) (list_for_submission db submission_id)
