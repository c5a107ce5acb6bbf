-- ===== src/Tests/SystemTests.antt =====
-- The whole flow: start, create, assess, quote, bind.
use ktayl_underwriting.Prelude.{
  String, ◌≡◌, ◌≢◌, refl, true, false, some, none, List, [], ◌∷◌, ◌++◌,
}
use ktayl_underwriting.Prelude.Int.{pos}
use ktayl_underwriting.Decimal.{whole}
use ktayl_underwriting.Prelude.Text.{upper}
use ktayl_underwriting.Enums.{accept}
use ktayl_underwriting.Store.Rows.{
  Submission, Decision, Quote, Binding, Db, empty, ok, raised, no_accepted_decision, no_quote,
}
use ktayl_underwriting.Store.Queries.{
  find_submission, latest_decision, latest_quote, by_submission, by_policy_number,
}
use ktayl_underwriting.Bind.Interfaces.{PolicyRef}
use ktayl_underwriting.Bind.Service.{bind_submission, policy_number_for, create_request}
use ktayl_underwriting.Bind.Endings.{Ends}
use ktayl_underwriting.Bind.Ends.{bind_submission-Ends}
use ktayl_underwriting.Bind.Outcomes.{
  IsBindable, bind_again, bind_unaccepted, bind_unquoted, bind_stores, request_of, binding_of,
  after_bind,
}
use ktayl_underwriting.System.Run.{Request, start, assess, quote, bind, handle, run, seed}
use ktayl_underwriting.System.Steps.{Step}
use ktayl_underwriting.System.Runs.{handle-Step}
use ktayl_underwriting.System.Growth.{Grows, run-Grows}
use ktayl_underwriting.System.Sound.{IsSound, run-IsSound}
use ktayl_underwriting.System.Audit.{IsAudited, run-IsAudited}
use ktayl_underwriting.System.Frozen.{IsFrozen, run-IsFrozen}
use ktayl_underwriting.Api.Routes
use ktayl_underwriting.Api.Routes.{failed, reply}
use ktayl_underwriting.System.Replay.{AllReplayable, run-AllReplayable}
use ktayl_underwriting.System.Locked.{run-locked}
use ktayl_underwriting.System.Seeding.{IsSeeded, seed-IsSeeded, seed-seed}
use ktayl_underwriting.Tests.Fixtures.{
  env, client, publisher, flow, PasCall, created, submitted, activated, published, served,
}

run-IsSound_example : IsSound env (run env client (publisher true) flow (empty, [])).0
run-IsSound_example = run-IsSound env client (publisher true) flow empty [] refl

run-Grows_example : Grows empty (run env client (publisher false) flow (empty, [])).0
run-Grows_example = run-Grows env client (publisher false) flow (empty, [])

handle-Step_example : Step env served.0 (handle env client (publisher true) (bind 104 "u") served).0
handle-Step_example = handle-Step env client (publisher true) (bind 104 "u") served

run-IsAudited_example : IsAudited 104 (run env client (publisher true) flow (empty, [])).0
run-IsAudited_example = run-IsAudited env client (publisher true) 104 flow (empty, []) refl

seeds_there : IsSeeded (seed env empty)
seeds_there = seed-IsSeeded env empty

seeded_twice : seed env (seed env empty) ≡ seed env empty
seeded_twice = seed-seed env empty

-- Rows for the tables of a bind.
abbrev pub submission_row : Submission
submission_row = record {
  id = 1;
  counterparty_id = 2;
  line_of_business = "commercial_property";
  tiv_eur = 50_000_000;
  occupancy = "office";
  country = "FR";
  postcode = "75001";
  requested_cover = "fire";
  broker_ref = none;
  created_at = 10;
}

abbrev pub decision_row : Decision
decision_row = record {
  id = 3;
  submission_id = 1;
  outcome = accept;
  reason_codes = [];
  appetite_version = 1;
  decided_by = "u";
  decided_at = 20;
}

abbrev pub quote_row : Quote
quote_row = record {
  id = 4;
  submission_id = 1;
  premium_minor = pos 25_000;
  currency = "EUR";
  rate_table_version = 1;
  breakdown = [];
  pure_premium_minor = pos 25_000;
  technical_premium_minor = pos 25_000;
  commercial_premium_minor = pos 25_000;
  taxes_minor = pos 0;
  facts = record {
    tiv_eur = 50_000_000;
    occupancy = "office";
    flags = [];
    commercial_adjustment = whole 1;
  };
  created_by = "u";
  created_at = 30;
}

abbrev pas_ref : PolicyRef
pas_ref = record { id = "pas-UW-0123456789AB"; status = "draft" }

abbrev created_db : Db
created_db = record empty { submissions = submission_row ∷ []; drawn = 5 }

abbrev pub assessed_db : Db
assessed_db = record created_db { decisions = decision_row ∷ [] }

abbrev pub quoted_db : Db
quoted_db = record assessed_db { quotes = quote_row ∷ [] }

abbrev bound_row : Binding
bound_row = binding_of env quoted_db submission_row quote_row pas_ref "u" false

abbrev bound_db : Db
bound_db = after_bind env quoted_db submission_row quote_row pas_ref "u" false

submission_found : find_submission created_db 1 ≡ some submission_row
unfolding find_submission
submission_found = refl

not_bound : by_submission created_db 1 ≡ none
unfolding by_submission
not_bound = refl

undecided : (d : Decision) → latest_decision created_db 1 ≡ some d → d.outcome ≢ accept
unfolding latest_decision
undecided d h = absurd (cc)

decided : latest_decision assessed_db 1 ≡ some decision_row
unfolding latest_decision
decided = refl

not_quoted : latest_quote assessed_db 1 ≡ none
unfolding latest_quote
not_quoted = refl

has_quote : latest_quote quoted_db 1 ≡ some quote_row
unfolding latest_quote
has_quote = refl

pub number_free : by_policy_number quoted_db (policy_number_for env 4) ≡ none
unfolding by_policy_number
number_free = refl

bound_found : by_submission bound_db 1 ≡ some bound_row
unfolding by_submission
bound_found = refl

pub is_bindable : IsBindable quoted_db 1 submission_row quote_row
unfolding find_submission by_submission latest_decision
is_bindable = record {
  found = submission_found;
  unbound = not_bound;
  decision = decision_row;
  decided = decided;
  is_accepted = refl;
  quoted = has_quote;
}

bound_once :
    bind_submission env client (publisher true) 1 "u" bound_db [] ≡ (ok (bound_row, bound_db), [])
unfolding find_submission
bound_once =
    bind_again env client (publisher true) 1 "u" bound_db [] submission_row bound_row
      submission_found bound_found

unaccepted_refused :
    bind_submission env client (publisher true) 1 "u" created_db []
    ≡ (raised no_accepted_decision, [])
unaccepted_refused =
    bind_unaccepted env client (publisher true) 1 "u" created_db [] submission_row submission_found
      not_bound undecided

bind_submission-Ends_example :
    Ends env client
      (publisher true)
      1
      "u"
      quoted_db
      []
      (bind_submission env client (publisher true) 1 "u" quoted_db [])
bind_submission-Ends_example = bind_submission-Ends env client (publisher true) 1 "u" quoted_db []

unquoted_refused :
    bind_submission env client (publisher true) 1 "u" assessed_db [] ≡ (raised no_quote, [])
unfolding find_submission by_submission
unquoted_refused =
    bind_unquoted env client (publisher true) 1 "u" assessed_db [] submission_row decision_row
      submission_found not_bound decided refl not_quoted

abbrev pub number : String
number = policy_number_for env 4

abbrev calls : List PasCall
calls = created number ∷ submitted pas_ref.id ∷ activated pas_ref.id ∷ []

number_text : number ≡ "UW-0123456789AB"
unfolding policy_number_for upper
number_text = refl

policy_created :
    client.create_policy (request_of env quoted_db submission_row quote_row) []
    ≡ (ok pas_ref, created number ∷ [])
unfolding create_request policy_number_for upper
policy_created = refl

bind_stores_example :
    bind_submission env client (publisher false) 1 "u" quoted_db []
    ≡ (ok (bound_row, bound_db), calls ++ published number ∷ [])
unfolding create_request
bind_stores_example =
    bind_stores env client (publisher false) 1 "u" quoted_db [] (created number ∷ [])
      (created number ∷ submitted pas_ref.id ∷ []) calls submission_row quote_row pas_ref
      is_bindable number_free policy_created refl refl

run-IsFrozen_example :
    IsFrozen bound_db 1 submission_row bound_row
      (run env client
        (publisher true)
        (start ∷ assess 1 "u" ∷ quote 1 "u" ∷ bind 1 "u" ∷ [])
        (bound_db, [])).0
unfolding find_submission
run-IsFrozen_example =
    run-IsFrozen env client (publisher true) 1 submission_row bound_row
      (start ∷ assess 1 "u" ∷ quote 1 "u" ∷ bind 1 "u" ∷ []) (bound_db, []) submission_found
      bound_found

run-AllReplayable_example : AllReplayable (run env client (publisher true) flow (empty, [])).0
run-AllReplayable_example = run-AllReplayable env client (publisher true) flow empty [] refl

-- A restart, and a bind of a submission that is not there.
abbrev later_requests : List Request
later_requests = start ∷ bind 9 "u" ∷ []

abbrev later_state : Db × List PasCall
later_state = run env client (publisher true) later_requests (bound_db, [])

run-locked_example :
    (Routes.assess_submission env 1 "v" later_state.0 ≡ (failed 409, later_state.0))
    × (Routes.quote_submission env 1 "v" later_state.0 ≡ (failed 409, later_state.0))
    × (Routes.bind_submission env client (publisher true) 1 "v" later_state.0 later_state.1
        ≡ ((reply 200 bound_row, later_state.0), later_state.1))
unfolding find_submission
run-locked_example =
    run-locked env client (publisher true) 1 "v" submission_row bound_row later_requests
      (bound_db, []) submission_found bound_found
