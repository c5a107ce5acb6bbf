-- ===== src/Tests/ViewTests.antt =====
-- What is read after requests.
use mathlib.Core.List.{Perm}
use ktayl_underwriting.Prelude.{
  select, ◌==◌, ltb, true, List, ◌≡◌, refl, some, none, [], ◌∷◌, arith,
}
use ktayl_underwriting.Prelude.Text.{upper}
use ktayl_underwriting.Enums.{accept}
use ktayl_underwriting.Store.Rows.{Submission, AuditEntry, Db, empty, ok}
use ktayl_underwriting.Store.Queries.{
  find_submission, add_counterparty, append_audit, create_ruleset, create_rate_table,
  current_ruleset, current_rate_table, rate_table_version,
}
use ktayl_underwriting.Workbench.Schemas.{SubmissionListItem}
use ktayl_underwriting.Workbench.InboxSpec.{inbox}
use ktayl_underwriting.Workbench.Submissions
use ktayl_underwriting.Workbench.Submissions.{add_submission}
use ktayl_underwriting.Api.Routes
use ktayl_underwriting.Api.Routes.{reply}
use ktayl_underwriting.Api.Reads
use ktayl_underwriting.Api.Listing.{get_submission_audit_lem}
use ktayl_underwriting.Store.Order.{InOrder}
use ktayl_underwriting.System.Run.{
  run, start, handle, seed, seed_ruleset_v1, seed_rate_table_v1, seed_rate_table_v2,
}
use ktayl_underwriting.System.Keys.{IsFair}
use ktayl_underwriting.System.References.{IsReferenced, run-IsReferenced}
use ktayl_underwriting.System.Views.{run-list_submissions}
use ktayl_underwriting.System.RoundTrip.{create_then_get, shown_of}
use ktayl_underwriting.Tests.Fixtures.{env, client, publisher, payload, flow}

pub env-IsFair : IsFair env
env-IsFair = record { new_id = λ m n e. omega (arith, e); new_time = λ m n e. omega (arith, e) }

run-IsReferenced_example : IsReferenced (run env client (publisher true) flow (empty, [])).0
run-IsReferenced_example = run-IsReferenced env client (publisher true) flow []

run-list_submissions_example :
    (items : List SubmissionListItem) × (inbox
        (run env client (publisher true) flow (empty, [])).0
        (some accept)
        50
        0
      ≡ ok items)
    × (Reads.list_submissions
          (run env client (publisher true) flow (empty, [])).0
          (some accept)
          50
          0
        ≡ reply 200 items)
run-list_submissions_example =
    run-list_submissions env client (publisher true) flow [] (some accept) 50 0 env-IsFair refl

-- The inbox of the flow has its one submission, accepted and bound.
abbrev seeded_db : Db
seeded_db = (run env client (publisher true) (start ∷ []) (empty, [])).0

abbrev created_row : Submission
created_row = record {
  id = 104;
  counterparty_id = 103;
  line_of_business = "commercial_property";
  tiv_eur = 50_000_000;
  occupancy = "warehouse";
  country = "FR";
  postcode = "75001";
  requested_cover = "All-risks, Sprinklered";
  broker_ref = some "BRK-001";
  created_at = 1_000_000_004_000;
}

abbrev created_db : Db
created_db = (Routes.create_submission env payload "u" seeded_db).1

created : Routes.create_submission env payload "u" seeded_db ≡ (reply 201 created_row, created_db)
unfolding Routes.create_submission Submissions.create_submission add_submission add_counterparty
    append_audit run handle seed seed_ruleset_v1 seed_rate_table_v1 seed_rate_table_v2
    create_ruleset create_rate_table current_ruleset current_rate_table rate_table_version upper
created = refl

create_then_get_example :
    Reads.get_submission_route created_db 104
    ≡ reply 200
        (record { submission = shown_of payload 104 103 1_000_000_004_000; latest_decision = none })
create_then_get_example =
    create_then_get env client (publisher true) (start ∷ []) [] payload "u" created_db created_row
      env-IsFair created

created_found : find_submission created_db 104 ≡ some created_row
unfolding find_submission Routes.create_submission Submissions.create_submission add_submission
    add_counterparty append_audit run handle seed seed_ruleset_v1 seed_rate_table_v1
    seed_rate_table_v2 create_ruleset create_rate_table current_ruleset current_rate_table
    rate_table_version upper
created_found = refl

audit_listed :
    (entries : List AuditEntry) × (Reads.get_submission_audit created_db 104 ≡ reply 200 entries)
    × Perm entries (select (λ (e : AuditEntry). e.submission_id == 104) created_db.audit)
    × InOrder (λ (x y : AuditEntry). ltb x.at y.at) entries
audit_listed = get_submission_audit_lem created_db 104 created_row created_found
