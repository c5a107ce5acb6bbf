-- ===== src/Bind/Endings.antt =====
-- The ways in which a bind can end.
use ktayl_underwriting.Prelude.{ℕ, ◌≡◌, ◌≢◌, String, none, some}
use ktayl_underwriting.Enums.{accept}
use ktayl_underwriting.Store.Rows.{
  Submission, Decision, Quote, Binding, Db, Env, Fault, Result, ok, raised, submission_not_found,
  no_accepted_decision, no_quote, database_error,
}
use ktayl_underwriting.Store.Queries.{
  find_submission, latest_decision, latest_quote, by_submission, by_policy_number,
}
use ktayl_underwriting.Bind.Interfaces.{PolicyRef, Publisher, PolicyClient}
use ktayl_underwriting.Bind.Service.{policy_number_for, event_for}
use ktayl_underwriting.Bind.Outcomes.{IsBindable, request_of, binding_of, after_bind, succeeded}

module _ {W : Type 0} (env : Env) (client : PolicyClient W) (publisher : Publisher W) where
  -- The three calls of the policy service succeed one after another.
  pub record Activates (db : Db) (s : Submission) (q : Quote) (ref : PolicyRef) (w w3 : W)
      : Type 0 where
    pub w1 : W
    pub w2 : W
    pub creates : client.create_policy (request_of env db s q) w ≡ (ok ref, w1)
    pub submits : client.submit ref.id w1 ≡ (ok tt, w2)
    pub activates : client.activate ref.id w2 ≡ (ok tt, w3)

  module _ (id : ℕ) (actor : String) (db : Db) (w : W) where
    -- The ways in which a bind ends. Up to `unquoted` nobody is called: the world is the one before.
    pub data Ends (end : Result (Binding × Db) × W) : Type 0 where
      missing : find_submission db id ≡ none → end ≡ (raised submission_not_found, w) → Ends end
      already :
          (s : Submission) (b : Binding)
          → find_submission db id ≡ some s
          → by_submission db id ≡ some b
          → end ≡ (ok (b, db), w)
          → Ends end
      unaccepted :
          (s : Submission)
          → find_submission db id ≡ some s
          → by_submission db id ≡ none
          → ((d : Decision) → latest_decision db id ≡ some d → d.outcome ≢ accept)
          → end ≡ (raised no_accepted_decision, w)
          → Ends end
      unquoted :
          (s : Submission) (d : Decision)
          → find_submission db id ≡ some s
          → by_submission db id ≡ none
          → latest_decision db id ≡ some d
          → d.outcome ≡ accept
          → latest_quote db id ≡ none
          → end ≡ (raised no_quote, w)
          → Ends end
      uncreated :
          (s : Submission) (q : Quote) (e : Fault) (w1 : W)
          → IsBindable db id s q
          → client.create_policy (request_of env db s q) w ≡ (raised e, w1)
          → end ≡ (raised e, w1)
          → Ends end
      unsubmitted :
          (s : Submission) (q : Quote) (ref : PolicyRef) (e : Fault) (w1 w2 : W)
          → IsBindable db id s q
          → client.create_policy (request_of env db s q) w ≡ (ok ref, w1)
          → client.submit ref.id w1 ≡ (raised e, w2)
          → end ≡ (raised e, w2)
          → Ends end
      unactivated :
          (s : Submission) (q : Quote) (ref : PolicyRef) (e : Fault) (w1 w2 w3 : W)
          → IsBindable db id s q
          → client.create_policy (request_of env db s q) w ≡ (ok ref, w1)
          → client.submit ref.id w1 ≡ (ok tt, w2)
          → client.activate ref.id w2 ≡ (raised e, w3)
          → end ≡ (raised e, w3)
          → Ends end
      taken :
          (s : Submission) (q : Quote) (ref : PolicyRef) (b : Binding) (w3 : W)
          → IsBindable db id s q
          → Activates db s q ref w w3
          → by_policy_number db (policy_number_for env q.id) ≡ some b
          → end ≡ (
            raised database_error,
            (publisher.publish (event_for (request_of env db s q) s q) w3).1,
          )
          → Ends end
      stores :
          (s : Submission) (q : Quote) (ref : PolicyRef) (w3 : W)
          → IsBindable db id s q
          → Activates db s q ref w w3
          → by_policy_number db (policy_number_for env q.id) ≡ none
          → (end ≡ (
              let (r, w4) = publisher.publish (event_for (request_of env db s q) s q) w3 in
              (
                ok (
                  binding_of env db s q ref actor (succeeded r),
                  after_bind env db s q ref actor (succeeded r),
                ),
                w4,
              )))
          → Ends end
