-- ===== src/Bind/Outcomes.antt =====
-- What a bind answers, calls and stores.
use ktayl_underwriting.Prelude.{
  ℕ, suc, ◌≡◌, ◌≢◌, refl, ap, ◌∙◌, String, Bool, true, false, Option, none, some, [], ◌∷◌, ◌++◌,
  arith, ◌⊎◌, inl, inr,
}
use ktayl_underwriting.Enums.{accept}
use ktayl_underwriting.Store.Rows.{
  Submission, Decision, Quote, Binding, Detail, Db, Env, Fault, Result, ok, raised,
  no_accepted_decision, no_quote,
}
use ktayl_underwriting.Store.Results.{get_submission-eq-ok}
use ktayl_underwriting.Store.Queries.{
  find_submission, get_submission, latest_decision, latest_quote, by_submission, by_policy_number,
  add_binding, append_audit, entry,
}
use ktayl_underwriting.Bind.Interfaces.{
  CreatePolicyRequest, PolicyRef, continue, lift, PolicyClient, Publisher,
}
use ktayl_underwriting.Bind.Service.{
  accepted, policy_number_for, counterparty_name, create_request, event_for, record_binding,
  publish_best_effort, bind_new, bind_submission,
}

abbrev pub succeeded : {A : Type 0} → Result A → Bool
succeeded (ok _) = true
succeeded (raised _) = false

pub Result-cases :
    {A : Type 0} (r : Result A) → ((a : A) × (r ≡ ok a)) ⊎ ((e : Fault) × (r ≡ raised e))
Result-cases (ok a) = inl (a, refl)
Result-cases (raised e) = inr (e, refl)

accepted_raises :
    (o : Option Decision)
    → ((d : Decision) → o ≡ some d → d.outcome ≢ accept)
    → accepted o ≡ raised no_accepted_decision
accepted_raises none h = refl
accepted_raises (some d) h = ground (arith, h d refl)

-- The request that a bind sends to the policy service.
abbrev pub request_of : Env → Db → Submission → Quote → CreatePolicyRequest
request_of env db s q =
    create_request env db s (counterparty_name env db s) (policy_number_for env q.id)

-- A submission that may be bound: found, not bound, accepted and quoted.
pub record IsBindable (db : Db) (id : ℕ) (s : Submission) (q : Quote) : Type 0 where
  pub found : find_submission db id ≡ some s
  pub unbound : by_submission db id ≡ none
  pub decision : Decision
  pub decided : latest_decision db id ≡ some decision
  pub is_accepted : decision.outcome ≡ accept
  pub quoted : latest_quote db id ≡ some q

-- The binding that a bind stores.
abbrev pub binding_of : Env → Db → Submission → Quote → PolicyRef → String → Bool → Binding
binding_of env db s q ref actor published = record {
  id = env.uuid db.drawn;
  submission_id = s.id;
  quote_id = q.id;
  policy_number = policy_number_for env q.id;
  pas_policy_id = ref.id;
  status = "bound";
  event_published = published;
  bound_at = env.now db.drawn;
  bound_by = actor;
}

-- The tables once it is stored, with its audit entry.
abbrev pub after_bind : Env → Db → Submission → Quote → PolicyRef → String → Bool → Db
after_bind env db s q ref actor published = record db {
  bindings = db.bindings ++ binding_of env db s q ref actor published ∷ [];
  audit =
      db.audit
      ++ entry env (suc db.drawn) s.id "bind" actor none none (
          Detail.bound (policy_number_for env q.id) ref.id q.id q.premium_minor q.currency
            published)
        ∷ [];
  drawn = suc (suc db.drawn);
}

module _ {W : Type 0} (env : Env) (client : PolicyClient W) (publisher : Publisher W) where
  -- Binding a bound submission again returns the binding that there is: no row is written, and neither the policy
  -- service nor the publisher is called.
  pub bind_again :
      (id : ℕ) (actor : String) (db : Db) (w : W) (s : Submission) (b : Binding)
      → find_submission db id ≡ some s
      → by_submission db id ≡ some b
      → bind_submission env client publisher id actor db w ≡ (ok (b, db), w)
  unfolding bind_submission get_submission
  bind_again id actor db w s b found known = rw (found, known) refl

  -- A submission that is not bound and whose latest decision, if any, is not to accept raises NoAcceptedDecisionError,
  -- whether or not it has a quote, and neither the policy service nor the publisher is called.
  pub bind_unaccepted :
      (id : ℕ) (actor : String) (db : Db) (w : W) (s : Submission)
      → find_submission db id ≡ some s
      → by_submission db id ≡ none
      → ((d : Decision) → latest_decision db id ≡ some d → d.outcome ≢ accept)
      → bind_submission env client publisher id actor db w ≡ (raised no_accepted_decision, w)
  unfolding bind_submission get_submission bind_new
  bind_unaccepted id actor db w s found free unaccepted =
      rw (found, free, accepted_raises (latest_decision db id) unaccepted) refl

  -- An accepted submission that is not bound and has no quote raises NoQuoteError, and neither the policy service
  -- nor the publisher is called.
  pub bind_unquoted :
      (id : ℕ) (actor : String) (db : Db) (w : W) (s : Submission) (d : Decision)
      → find_submission db id ≡ some s
      → by_submission db id ≡ none
      → latest_decision db id ≡ some d
      → d.outcome ≡ accept
      → latest_quote db id ≡ none
      → bind_submission env client publisher id actor db w ≡ (raised no_quote, w)
  unfolding bind_submission get_submission bind_new
  bind_unquoted id actor db w s d found free decided is_accept unquoted =
      rw (found, free, decided, is_accept, unquoted) refl

  record_binding_lem :
      (s : Submission) (q : Quote) (ref : PolicyRef) (published : Bool) (actor : String) (db : Db)
      → by_submission db s.id ≡ none
      → by_policy_number db (policy_number_for env q.id) ≡ none
      → record_binding env s q (request_of env db s q) ref published actor db
        ≡ ok (binding_of env db s q ref actor published, after_bind env db s q ref actor published)
  unfolding record_binding create_request add_binding append_audit by_submission by_policy_number
  record_binding_lem s q ref published actor db free fresh = ground arith

  -- A submission that is found, not bound, accepted and quoted, whose quote's policy number is not taken, is bound when
  -- the policy service creates, submits and activates the policy, in this order, each call in the world that the last
  -- one left. Whether or not the publisher then raises, the binding of that quote is stored with its audit entry; both
  -- say in `event_published` whether the event was published.
  pub bind_stores :
      (id : ℕ) (actor : String) (db : Db) (w w1 w2 w3 : W) (s : Submission) (q : Quote)
      (ref : PolicyRef)
      → IsBindable db id s q
      → by_policy_number db (policy_number_for env q.id) ≡ none
      → client.create_policy (request_of env db s q) w ≡ (ok ref, w1)
      → client.submit ref.id w1 ≡ (ok tt, w2)
      → client.activate ref.id w2 ≡ (ok tt, w3)
      → (bind_submission env client publisher id actor db w ≡ (
          let (r, w4) = publisher.publish (event_for (request_of env db s q) s q) w3 in
          (
            ok (
              binding_of env db s q ref actor (succeeded r),
              after_bind env db s q ref actor (succeeded r),
            ),
            w4,
          )))
  unfolding bind_submission get_submission bind_new
  bind_stores id actor db w w1 w2 w3 s q ref h fresh created submitted activated =
      let got : get_submission db id ≡ ok s = rw h.found refl in
      let own = (get_submission-eq-ok db id got).1 in
      let e = event_for (request_of env db s q) s q in
      let free = ap (by_submission db) own ∙ h.unbound in
      let stored = λ (p : Bool). record_binding_lem s q ref p actor db free fresh in
      let calls : bind_submission env client publisher id actor db w
          ≡ continue (λ p. lift (record_binding env s q (request_of env db s q) ref p actor db))
              (publish_best_effort env client publisher e w3) =
        rw
          (
            h.found, h.unbound, h.decided, h.is_accepted, h.quoted, created, submitted, activated,
            bind_new,
          )
          refl in
      elim (Result-cases (publisher.publish e w3).0) [
        | inl (_, fine) ↦ rw (calls, fine, stored true, publish_best_effort) refl
        | inr (x, failing) ↦ rw (calls, failing, stored false, publish_best_effort) refl
      ]
