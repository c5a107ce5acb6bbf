-- ===== src/Wiring/Posts/Once.antt =====
-- The parts of a bind, each of which posts once at most, and nothing where a token is there.
use ktayl_underwriting.Prelude.{
  ℕ, suc, ◌≤◌, ◌≡◌, refl, String, Bool, true, false, Option, some, none, if◌then◌else◌, ◌==◌, inl,
}
use ktayl_underwriting.Store.Rows.{
  Submission, Binding, Db, Env, Result, ok, raised, or_raise, no_quote, policy_service_error,
}
use ktayl_underwriting.Store.Queries.{get_submission, by_submission, latest_decision, latest_quote}
use ktayl_underwriting.Bind.Interfaces.{
  Call, CreatePolicyRequest, PolicyRef, Event, PolicyClient, Publisher, lift, ◌>>=◌,
}
use ktayl_underwriting.Bind.Token.{Cache, no_token}
use ktayl_underwriting.Bind.HttpClient.{
  Http, Reply, PolicyBody, http_client, create_policy, on_created, resolve_existing, transition,
  created_ref, resolved,
}
use ktayl_underwriting.Bind.Nats as Nats
use ktayl_underwriting.Bind.Nats.{Broker}
use ktayl_underwriting.Bind.Service
use ktayl_underwriting.Bind.Service.{
  publish_best_effort, bind_new, accepted, create_request, counterparty_name, policy_number_for,
  event_for, record_binding,
}
use ktayl_underwriting.Api.Routes
use ktayl_underwriting.Api.Routes.{Response}
use ktayl_underwriting.Wiring.{
  Settings, Net, rstrip_slashes, provider_token, http, get_policy_service_client,
  get_bound_risk_publisher, bind_request, beside,
}
use ktayl_underwriting.Wiring.Posts.{
  IsObserved, After, Keeps, Holds, Holds-le, quiet-After, lift-Keeps, then-Keeps, beside-Keeps,
  token-Keeps,
}
use ktayl_underwriting.Wiring.Posts.Quiet.{IsQuiet, publish-Quiet}

module _ {W : Type 0} (settings : Settings) (net : Net W) (posts : W → ℕ) (During : W → Type 0)
    (earliest latest n : ℕ) (observed : IsObserved net posts During earliest latest) where
  abbrev K : {A : Type 0} → Call (W × Cache) A → Type 0
  K call = Keeps net posts During earliest latest n observed call

  abbrev h : Http (W × Cache)
  h = http settings net

  if-Keeps : {A : Type 0} (b : Bool) (x y : Call (W × Cache) A) → K x → K y → K (if b then x else y)
  if-Keeps true x y p q = p
  if-Keeps false x y p q = q

  first_token :
      {A : Type 0} (f : String → Call (W × Cache) A) → ((t : String) → K (f t)) → K (h.token >>= f)
  unfolding http
  first_token f k =
      then-Keeps net posts During earliest latest n observed (provider_token settings net) f
        (token-Keeps net posts During earliest latest n observed settings) k

  abbrev seq :
      {A B : Type 0} (call : Call (W × Cache) A) (f : A → Call (W × Cache) B)
      → K call
      → ((a : A) → K (f a))
      → K (call >>= f)
  seq = then-Keeps net posts During earliest latest n observed

  abbrev pure : {A : Type 0} (r : Result A) → K (lift r)
  pure = lift-Keeps net posts During earliest latest n observed

  resolve-Keeps : (base number : String) → K (resolve_existing h base number)
  unfolding resolve_existing http
  resolve-Keeps base number = first_token _ λ t.
      seq (beside (net.get_policies _ t number)) _
        (beside-Keeps net posts During earliest latest n observed (net.get_policies _ t number)
          (observed.lists _ t number))
        λ resp. pure _

  created-Keeps :
      (base : String) (req : CreatePolicyRequest) (resp : Reply PolicyBody)
      → K (on_created h base req resp)
  unfolding on_created
  created-Keeps base req resp =
      let conflict : Call (W × Cache) PolicyRef =
        resolve_existing h base req.policy_number >>= λ found. lift (resolved found) in
      let refused : Call (W × Cache) PolicyRef = lift (raised policy_service_error) in
      if-Keeps (resp.status_code == 201) (lift (created_ref resp.json))
        (if resp.status_code == 409 then conflict else refused) (pure (created_ref resp.json))
        (if-Keeps (resp.status_code == 409) conflict refused
          (seq (resolve_existing h base req.policy_number) (λ found. lift (resolved found))
            (resolve-Keeps base req.policy_number) λ found. pure (resolved found))
          (pure {A = PolicyRef} (raised policy_service_error)))

  create-Keeps : (base : String) (req : CreatePolicyRequest) → K (create_policy h base req)
  unfolding create_policy http
  create-Keeps base req = first_token _ λ t.
      seq (beside (net.post_policy _ t req)) _
        (beside-Keeps net posts During earliest latest n observed (net.post_policy _ t req)
          (observed.creates _ t req))
        λ resp. created-Keeps base req resp

  transition-Keeps : (base id action : String) → K (transition h base id action)
  unfolding transition http
  transition-Keeps base id action = first_token _ λ t.
      seq (beside (net.post_transition _ t)) _
        (beside-Keeps net posts During earliest latest n observed (net.post_transition _ t)
          (observed.moves _ t))
        λ code. pure _

  abbrev client : PolicyClient (W × Cache)
  client = get_policy_service_client settings net

  client_keeps :
      ((req : CreatePolicyRequest) → K (client.create_policy req))
      × ((id : String) → K (client.submit id))
      × ((id : String) → K (client.activate id))
  unfolding get_policy_service_client http_client
  client_keeps =
      let base = rstrip_slashes settings.policy_service_url in
      (
        create-Keeps base,
        λ id. transition-Keeps base id "submit",
        λ id. transition-Keeps base id "activate",
      )

  module _ {Connection : Type 0} (broker : Broker W Connection)
      (quiet : IsQuiet posts During broker) where
    abbrev publisher : Publisher (W × Cache)
    publisher = get_bound_risk_publisher settings net broker

    noted :
        (r : Result (Unit {0})) (w w' : W) (cache : Cache)
        → Holds net posts During earliest latest n observed (w, cache)
        → posts w' ≡ posts w
        → During w'
        → After net posts During earliest latest n observed
            (elim r as (λ _. Result Bool) [ ok _ ↦ ok true | raised _ ↦ ok false ], (w', cache))
    noted (ok a) w w' cache holds same during =
        quiet-After net posts During earliest latest n observed (ok true) w w' cache holds same
          during
    noted (raised e) w w' cache holds same during =
        quiet-After net posts During earliest latest n observed (ok false) w w' cache holds same
          during

    publish-Keeps : (env : Env) (event : Event) → K (publish_best_effort env client publisher event)
    unfolding publish_best_effort get_bound_risk_publisher
    publish-Keeps env event (w, cache) holds =
        let nats = Nats.defaults settings.nats_url in
        let (same, during) = publish-Quiet posts During broker nats event quiet w holds.0 in
        noted (Nats.publish broker nats event w).0 w (Nats.publish broker nats event w).1 cache
          holds same during

    bind_new-Keeps :
        (env : Env) (id : ℕ) (s : Submission) (actor : String) (db : Db)
        → K (bind_new env client publisher id s actor db)
    unfolding bind_new
    bind_new-Keeps env id s actor db =
        seq (lift (accepted (latest_decision db id))) _ (pure (accepted (latest_decision db id)))
          λ _.
            seq (lift (or_raise (latest_quote db id) no_quote)) _
              (pure (or_raise (latest_quote db id) no_quote))
              λ q.
                let req =
                  create_request env db s (counterparty_name env db s)
                    (policy_number_for env q.id) in
                seq (client.create_policy req) _ (client_keeps.0 req) λ ref.
                  seq (client.submit ref.id) _ (client_keeps.1 ref.id) λ _.
                    seq (client.activate ref.id) _ (client_keeps.2 ref.id) λ _.
                      seq (publish_best_effort env client publisher (event_for req s q)) _
                        (publish-Keeps env (event_for req s q))
                        λ published. pure (record_binding env s q req ref published actor db)

    existing-Keeps :
        (found : Option Binding) (db : Db) (other : Call (W × Cache) (Binding × Db))
        → K other
        → K (elim found as (λ _. Call (W × Cache) (Binding × Db)) [
          | some existing ↦ lift (ok (existing, db))
          | none ↦ other
        ])
    existing-Keeps (some b) db other k = pure {A = Binding × Db} (ok (b, db))
    existing-Keeps none db other k = k

    bind-Keeps :
        (env : Env) (id : ℕ) (actor : String) (db : Db)
        → K (Service.bind_submission env client publisher id actor db)
    unfolding Service.bind_submission
    bind-Keeps env id actor db =
        seq (lift (get_submission db id)) _ (pure (get_submission db id)) λ s.
          existing-Keeps (by_submission db id) db (bind_new env client publisher id s actor db)
            (bind_new-Keeps env id s actor db)

    at_most_once :
        {A : Type 0} (x : Result A × (W × Cache))
        → After net posts During earliest latest n observed x
        → posts x.1.0 ≤ suc n
    at_most_once (ok a, w) kept = Holds-le net posts During earliest latest n observed w kept
    at_most_once (raised e, w) posted = posted

-- One request to bind, whatever it comes to, posts the client's credentials at most once, where nothing but a request for
-- a token posts them, the clock stands between two times while the request is served, and each token given then
-- lives more than the expiry skew past the later one from the earlier one.
pub bind_request_posts :
    {W Connection : Type 0} (settings : Settings) (net : Net W) (broker : Broker W Connection)
    (posts : W → ℕ) (During : W → Type 0) (earliest latest : ℕ) (env : Env) (id : ℕ)
    (actor : String) (db : Db) (w : W)
    → IsObserved net posts During earliest latest
    → IsQuiet posts During broker
    → During w
    → posts (bind_request settings net broker env id actor db w).1 ≤ suc (posts w)
unfolding bind_request Routes.bind_submission
bind_request_posts settings net broker posts During earliest latest env id actor db w observed quiet
      during =
    at_most_once settings net posts During earliest latest (posts w) observed broker quiet
      (Service.bind_submission env (get_policy_service_client settings net)
        (get_bound_risk_publisher settings net broker) id actor db (w, no_token))
      (bind-Keeps settings net posts During earliest latest (posts w) observed broker quiet env id
        actor db (w, no_token) (during, inl (refl, refl)))
