-- ===== src/Bind/Ends.antt =====
-- That a bind ends in one of these ways, with whom it has called by then.
use ktayl_underwriting.Prelude.{
  ℕ, ◌≡◌, ◌≢◌, refl, ap, ◌∙◌, ◌⊎◌, inl, inr, String, Bool, true, false, Option, none, some, arith,
  Option-cases,
}
use ktayl_underwriting.Enums.{Outcome, accept, refer, decline}
use ktayl_underwriting.Store.Rows.{
  Submission, Decision, Quote, Binding, Db, Env, Fault, Result, ok, raised, database_error,
}
use ktayl_underwriting.Store.Results.{get_submission-eq-ok}
use ktayl_underwriting.Store.Queries.{
  find_submission, get_submission, latest_decision, latest_quote, by_submission, by_policy_number,
  add_binding,
}
use ktayl_underwriting.Bind.Interfaces.{PolicyRef, Publisher, PolicyClient, continue, lift}
use ktayl_underwriting.Bind.Service.{
  policy_number_for, create_request, event_for, record_binding, publish_best_effort, bind_new,
  bind_submission,
}
use ktayl_underwriting.Bind.Outcomes.{
  IsBindable, request_of, bind_again, bind_unaccepted, bind_unquoted, bind_stores, Result-cases,
}
use ktayl_underwriting.Bind.Endings.{
  Activates, Ends, missing, already, unaccepted, unquoted, uncreated, unsubmitted, unactivated,
  taken, stores,
}

Call-cases :
    {A W : Type 0} (x : Result A × W)
    → ((a : A) × (w : W) × (x ≡ (ok a, w))) ⊎ ((e : Fault) × (w : W) × (x ≡ (raised e, w)))
Call-cases (ok a, w) = inl (a, w, refl)
Call-cases (raised e, w) = inr (e, w, refl)

accept_cases : (o : Outcome) → (o ≡ accept) ⊎ (o ≢ accept)
accept_cases accept = inl refl
accept_cases refer = inr λ h. cc
accept_cases decline = inr λ h. cc

decision_cases :
    (o : Option Decision)
    → ((d : Decision) × (o ≡ some d) × (d.outcome ≡ accept))
      ⊎ ((d : Decision) → o ≡ some d → d.outcome ≢ accept)
decision_cases none = inr λ d h. cc
decision_cases (some x) = elim (accept_cases x.outcome) [
  | inl e ↦ inl (x, refl, e)
  | inr ne ↦ inr λ d h e. ne (cc)
]

module _ {W : Type 0} (env : Env) (client : PolicyClient W) (publisher : Publisher W) (id : ℕ)
    (actor : String) (db : Db) (w : W) where
  record_binding_taken :
      (s : Submission) (q : Quote) (ref : PolicyRef) (published : Bool) (b : Binding)
      → by_submission db s.id ≡ none
      → by_policy_number db (policy_number_for env q.id) ≡ some b
      → record_binding env s q (request_of env db s q) ref published actor db
        ≡ raised database_error
  unfolding record_binding create_request add_binding by_submission by_policy_number
  record_binding_taken s q ref published b free has = ground arith

  -- The end of a bind of a submission that may be bound.
  activated-Ends :
      (s : Submission) (q : Quote) (ref : PolicyRef) (w3 : W)
      → IsBindable db id s q
      → Activates env client publisher db s q ref w w3
      → Ends env client publisher id actor db w (bind_submission env client publisher id actor db w)
  unfolding bind_submission get_submission bind_new publish_best_effort
  activated-Ends s q ref w3 h a =
      elim (Option-cases (by_policy_number db (policy_number_for env q.id))) [
        | inl fresh ↦ stores s q ref w3 h a fresh (
            bind_stores env client publisher id actor db w a.w1 a.w2 w3 s q ref h fresh a.creates
              a.submits a.activates)
        | inr (b, has) ↦
            let got : get_submission db id ≡ ok s = rw h.found refl in
            let free = ap (by_submission db) (get_submission-eq-ok db id got).1 ∙ h.unbound in
            let event = event_for (request_of env db s q) s q in
            let refuses = λ (p : Bool). record_binding_taken s q ref p b free has in
            let calls : bind_submission env client publisher id actor db w
                ≡ continue
                    (λ p. lift (record_binding env s q (request_of env db s q) ref p actor db))
                    (publish_best_effort env client publisher event w3) =
              rw
                (
                  h.found, h.unbound, h.decided, h.is_accepted, h.quoted, a.creates, a.submits,
                  a.activates, bind_new,
                )
                refl in
            taken s q ref b w3 h a has (elim (Result-cases (publisher.publish event w3).0) [
              | inl (_, fine) ↦ rw (calls, fine, refuses true, publish_best_effort) refl
              | inr (x, failing) ↦ rw (calls, failing, refuses false, publish_best_effort) refl
            ])
      ]

  -- What creating the policy raises is what the bind raises.
  pub bind_uncreated :
      (s : Submission) (q : Quote) (e : Fault) (w1 : W)
      → IsBindable db id s q
      → client.create_policy (request_of env db s q) w ≡ (raised e, w1)
      → bind_submission env client publisher id actor db w ≡ (raised e, w1)
  unfolding bind_submission get_submission bind_new
  bind_uncreated s q e w1 h creates =
      rw (h.found, h.unbound, h.decided, h.is_accepted, h.quoted, creates, bind_new) refl

  bindable-Ends :
      (s : Submission) (q : Quote)
      → IsBindable db id s q
      → Ends env client publisher id actor db w (bind_submission env client publisher id actor db w)
  unfolding bind_submission get_submission bind_new
  bindable-Ends s q h = elim (Call-cases (client.create_policy (request_of env db s q) w)) [
    | inr (e, w1, creates) ↦ uncreated s q e w1 h creates (bind_uncreated s q e w1 h creates)
    | inl (ref, w1, creates) ↦ elim (Call-cases (client.submit ref.id w1)) [
      | inr (e, w2, submits) ↦ unsubmitted s q ref e w1 w2 h creates submits (
          rw (h.found, h.unbound, h.decided, h.is_accepted, h.quoted, creates, submits, bind_new)
            refl)
      | inl (_, w2, submits) ↦ elim (Call-cases (client.activate ref.id w2)) [
        | inr (e, w3, activates) ↦ unactivated s q ref e w1 w2 w3 h creates submits activates (
            rw
              (
                h.found, h.unbound, h.decided, h.is_accepted, h.quoted, creates, submits, activates,
                bind_new,
              )
              refl)
        | inl (_, w3, activates) ↦ activated-Ends s q ref w3 h (record {
          w1 = w1;
          w2 = w2;
          creates = creates;
          submits = submits;
          activates = activates;
        })
      ]
    ]
  ]

  -- However a bind ends, it ends in one of these ways. A submission that is not there raises SubmissionNotFoundError; a
  -- bound one gives its binding; one whose latest decision, if any, is not to accept raises NoAcceptedDecisionError, quote
  -- or not; an accepted one without a quote raises NoQuoteError; in these cases nobody is called. Else the policy of
  -- the latest quote is created, submitted and activated; the first of these calls that raises ends the bind with what it
  -- raised, and nothing is called after it. Then the event is published, and whether that raises or not the binding
  -- is stored with its audit entry, unless its policy number is taken, which raises a database error.
  pub bind_submission-Ends :
      Ends env client publisher id actor db w (bind_submission env client publisher id actor db w)
  unfolding bind_submission get_submission
  bind_submission-Ends = elim (Option-cases (find_submission db id)) [
    | inl absent ↦ missing absent (rw absent refl)
    | inr (s, found) ↦ elim (Option-cases (by_submission db id)) [
      | inr (b, known) ↦
          already s b found known (bind_again env client publisher id actor db w s b found known)
      | inl free ↦ elim (decision_cases (latest_decision db id)) [
        | inr never ↦
            unaccepted s found free never
              (bind_unaccepted env client publisher id actor db w s found free never)
        | inl (d, decided, is_accept) ↦ elim (Option-cases (latest_quote db id)) [
          | inl none_yet ↦ unquoted s d found free decided is_accept none_yet (
              bind_unquoted env client publisher id actor db w s d found free decided is_accept
                none_yet)
          | inr (q, priced) ↦ bindable-Ends s q (record {
            found = found;
            unbound = free;
            decision = d;
            decided = decided;
            is_accepted = is_accept;
            quoted = priced;
          })
        ]
      ]
    ]
  ]
