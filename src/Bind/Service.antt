-- ===== src/Bind/Service.antt =====
-- app/bind/service.py.
use Prim.Native.String.{◌++◌ as str_append, slice}
use ktayl_underwriting.Prelude.{
  ℕ, ◌+◌, ◌/◌, String, Bool, true, false, Option, none, some, List, [], ◌∷◌, ◌==◌, str_eq, find,
  if◌then◌else◌,
}
use ktayl_underwriting.Prelude.Text.{upper}
use ktayl_underwriting.Enums.{LineOfBusiness, lob_value, accept}
use ktayl_underwriting.Store.Rows.{
  Counterparty, Submission, Decision, Quote, Binding, bound, Db, Env, Result, ok, raised, or_raise,
  no_accepted_decision, no_quote,
}
use ktayl_underwriting.Store.Queries.{
  get_submission, latest_decision, latest_quote, by_submission, add_binding, append_audit,
}
use ktayl_underwriting.Bind.Interfaces.{
  CreatePolicyRequest, PolicyRef, Event, Call, lift, ◌>>=◌, ◌>>◌, PolicyClient, Publisher,
}

-- `policy_number_for`
unfoldable pub policy_number_for : Env → ℕ → String
policy_number_for env quote_id =
    str_append "UW-" (upper (slice (env.sha1_hexdigest (env.id_text quote_id)) 0 12))

-- `_PRODUCT_CODE_BY_LOB`
abbrev pub product_codes : List (String × String)
product_codes =
    (lob_value LineOfBusiness.commercial_property, "COMM_PROP")
    ∷ (lob_value LineOfBusiness.marine, "MARINE")
    ∷ (lob_value LineOfBusiness.engineering, "ENGINEERING")
    ∷ (lob_value LineOfBusiness.financial_lines, "FIN_LINES")
    ∷ []

abbrev get : List (String × String) → String → String → String
get [] key default = default
get ((k, v) ∷ rest) key default = if str_eq key k then v else get rest key default

-- `_product_code_for`
unfoldable pub product_code_for : String → String
unfolding upper
product_code_for line_of_business = get product_codes line_of_business (upper line_of_business)

abbrev day : ℕ
day = 86_400_000_000

-- `_cover_dates`: the day of the clock, and 365 days on.
unfoldable pub cover_dates : Env → Db → String × String
cover_dates env db =
    let today = env.now db.drawn / day in (env.midnight_text today, env.midnight_text (today + 365))

-- `_counterparty_name`
unfoldable pub counterparty_name : Env → Db → Submission → String
counterparty_name env db submission =
    elim (find (λ (c : Counterparty). c.id == submission.counterparty_id) db.counterparties) [
      | none ↦ env.id_text submission.counterparty_id
      | some c ↦ c.name
    ]

-- `_create_request`
unfoldable pub create_request : Env → Db → Submission → String → String → CreatePolicyRequest
unfolding cover_dates
create_request env db submission name policy_number = record {
  policy_number = policy_number;
  holder_name = name;
  product_code = product_code_for submission.line_of_business;
  effective_date = (cover_dates env db).0;
  expiry_date = (cover_dates env db).1;
}

abbrev pub event_for : CreatePolicyRequest → Submission → Quote → Event
event_for request submission quote = record {
  policy_number = request.policy_number;
  submission_id = submission.id;
  quote_id = quote.id;
  premium_minor = quote.premium_minor;
  currency = quote.currency;
  product_code = request.product_code;
  effective_date = request.effective_date;
  expiry_date = request.expiry_date;
}

-- `decision is None or decision.outcome != ACCEPT`
abbrev pub accepted : Option Decision → Result (Unit {0})
accepted none = raised no_accepted_decision
accepted (some d) = elim d.outcome [ accept ↦ ok tt | _ ↦ raised no_accepted_decision ]

-- The binding and its audit entry, committed together.
unfoldable pub record_binding :
    Env
    → Submission
    → Quote
    → CreatePolicyRequest
    → PolicyRef
    → Bool
    → String
    → Db
    → Result (Binding × Db)
record_binding env submission quote request ref published actor db =
    elim (add_binding env submission.id quote.id request.policy_number ref.id "bound" published
      actor db) [
        | raised e ↦ raised e
        | ok (binding, db1) ↦ ok (
          binding,
          append_audit env submission.id "bind" actor none none
              (bound request.policy_number ref.id quote.id quote.premium_minor quote.currency
                published)
              db1,
        )
      ]

module _ {W : Type 0} (env : Env) (client : PolicyClient W) (publisher : Publisher W) where
  -- `_publish_best_effort`: whatever is raised, the answer is `False`.
  unfoldable pub publish_best_effort : Event → Call W Bool
  publish_best_effort event w =
      let (r, w') = publisher.publish event w in
      (elim r [ ok _ ↦ ok true | raised _ ↦ ok false ], w')

  -- What `bind_submission` does where there is no binding yet.
  unfoldable pub bind_new : ℕ → Submission → String → Db → Call W (Binding × Db)
  unfolding publish_best_effort record_binding
  bind_new submission_id submission actor db = do
    lift (accepted (latest_decision db submission_id))
    quote ← lift (or_raise (latest_quote db submission_id) no_quote)
    let name = counterparty_name env db submission
    let request = create_request env db submission name (policy_number_for env quote.id)
    ref ← client.create_policy request
    client.submit ref.id
    client.activate ref.id
    published ← publish_best_effort (event_for request submission quote)
    lift (record_binding env submission quote request ref published actor db)

  unfoldable pub bind_submission : ℕ → String → Db → Call W (Binding × Db)
  bind_submission submission_id actor db = do
    submission ← lift (get_submission db submission_id)
    elim (by_submission db submission_id) [
      | some existing ↦ lift (ok (existing, db))
      | none ↦ bind_new submission_id submission actor db
    ]
