-- ===== src/Tests/OverlapTests.antt =====
-- Two binds of one submission that overlap, and a quote that comes between the halves of a bind.
use ktayl_underwriting.Prelude.{◌≡◌, refl, true, some, Option, List, [], ◌∷◌, ◌++◌, map}
use ktayl_underwriting.Prelude.Text.{upper}
use ktayl_underwriting.Store.Rows.{Binding, Db, empty}
use ktayl_underwriting.Store.Queries.{
  find_submission, get_submission, latest_decision, latest_quote, by_submission, by_policy_number,
  add_binding, append_audit,
}
use ktayl_underwriting.Bind.Service.{
  policy_number_for, product_code_for, cover_dates, counterparty_name, create_request,
  record_binding, publish_best_effort,
}
use ktayl_underwriting.Bind.Overlap.{Begun, prepare, begin_bind, finish_bind}
use ktayl_underwriting.System.Run.{start, create, assess, quote, committed}
use ktayl_underwriting.System.Overlap.{Event, at_once, begins, ends, advance, overlap}
use ktayl_underwriting.System.Overlap.Held.{AllHeld}
use ktayl_underwriting.System.Overlap.Orderly.{overlap-AllHeld}
use ktayl_underwriting.Tests.Fixtures.{env, client, publisher, payload}
use ktayl_underwriting.Tests.SystemTests.{quoted_db, quote_row}

-- Both binds find no binding, and each has a policy activated; the first to end writes the one binding.
abbrev two_binds : List Event
two_binds = begins 1 "u" ∷ begins 1 "v" ∷ ends 1 ∷ ends 0 ∷ []

two_binds_one_binding :
    map
      (λ (b : Binding). b.bound_by)
      (overlap env client (publisher true) two_binds ((quoted_db, []), [])).0.0.bindings
    ≡ "v" ∷ []
unfolding overlap advance begin_bind prepare finish_bind find_submission get_submission
    latest_decision latest_quote by_submission by_policy_number add_binding append_audit
    policy_number_for product_code_for cover_dates counterparty_name create_request record_binding
    publish_best_effort upper
two_binds_one_binding = refl

-- A later quote that is there when the bind ends.
abbrev requoted_db : Db
requoted_db = record quoted_db {
  quotes = quote_row ∷ record quote_row { id = 9; created_at = 40 } ∷ [];
}

abbrev after_requote : Option Begun → Db
after_requote (some b) = committed requoted_db (finish_bind env b requoted_db)
after_requote Option.none = requoted_db

abbrev begun_first : Option Begun
begun_first =
    elim (overlap env client (publisher true) (begins 1 "u" ∷ []) ((quoted_db, []), [])).1 [
      | [] ↦ Option.none
      | b ∷ bs ↦ some b
    ]

-- The binding is of quote 4, and quote 9 is the latest.
bound_to_older_quote :
    (map (λ (b : Binding). b.quote_id) (after_requote begun_first).bindings ≡ 4 ∷ [])
    × (latest_quote requoted_db 1 ≡ some (record quote_row { id = 9; created_at = 40 }))
unfolding overlap advance begin_bind prepare finish_bind find_submission get_submission
    latest_decision latest_quote by_submission by_policy_number add_binding append_audit
    policy_number_for product_code_for cover_dates counterparty_name create_request record_binding
    publish_best_effort upper
bound_to_older_quote = (refl, refl)

abbrev whole_flow : List Event
whole_flow =
    map at_once (start ∷ create payload "u" ∷ assess 104 "u" ∷ quote 104 "u" ∷ [])
    ++ begins 104 "u" ∷ begins 104 "v" ∷ ends 1 ∷ ends 0 ∷ []

overlap-AllHeld_example :
    AllHeld env (overlap env client (publisher true) whole_flow ((empty, []), [])).0.0
overlap-AllHeld_example = overlap-AllHeld env client (publisher true) whole_flow empty [] refl
