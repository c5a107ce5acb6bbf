-- ===== src/Bind/Overlap.antt =====
-- `bind_submission` of app/bind/service.py in two halves, between which other requests may be served: what it reads
-- and its calls outside, in the session's transaction, and what it writes and commits.
use ktayl_underwriting.Prelude.{ℕ, String, Bool, ◌≡◌, refl, inl, inr, none, some, Option-cases}
use ktayl_underwriting.Store.Rows.{
  Submission, Quote, Binding, Db, Env, Result, ok, raised, or_raise, no_quote,
}
use ktayl_underwriting.Store.Queries.{get_submission, latest_decision, latest_quote, by_submission}
use ktayl_underwriting.Bind.Interfaces.{
  CreatePolicyRequest, PolicyRef, Call, continue, lift, ◌>>=◌, ◌>>◌, PolicyClient, Publisher,
}
use ktayl_underwriting.Bind.Service.{
  policy_number_for, counterparty_name, create_request, event_for, accepted, record_binding,
  publish_best_effort, bind_new, bind_submission,
}

-- What a bind has when it comes to write: the names it has set by then.
pub record Pending : Type 0 where
  pub submission : Submission
  pub quote : Quote
  pub request : CreatePolicyRequest
  pub ref : PolicyRef
  pub published : Bool
  pub actor : String

-- A bind that found a binding, or one that has a binding to write.
pub data Begun : Type 0 where
  existing : Binding → Begun
  pending : Pending → Begun

module _ {W : Type 0} (env : Env) (client : PolicyClient W) (publisher : Publisher W) where
  unfoldable pub prepare : ℕ → Submission → String → Db → Call W Begun
  unfolding publish_best_effort
  prepare submission_id submission actor db = do
    lift (accepted (latest_decision db submission_id))
    quote ← lift (or_raise (latest_quote db submission_id) no_quote)
    let name = counterparty_name env db submission
    let request = create_request env db submission name (policy_number_for env quote.id)
    ref ← client.create_policy request
    client.submit ref.id
    client.activate ref.id
    published ← publish_best_effort env client publisher (event_for request submission quote)
    lift (
        ok (
          pending (record {
            submission = submission;
            quote = quote;
            request = request;
            ref = ref;
            published = published;
            actor = actor;
          })))

  unfoldable pub begin_bind : ℕ → String → Db → Call W Begun
  begin_bind submission_id actor db = do
    submission ← lift (get_submission db submission_id)
    elim (by_submission db submission_id) [
      | some found ↦ lift (ok (existing found))
      | none ↦ prepare submission_id submission actor db
    ]

-- The second half, on the tables that are there by then.
unfoldable pub finish_bind : Env → Begun → Db → Result (Binding × Db)
unfolding record_binding
finish_bind env (existing found) db = ok (found, db)
finish_bind env (pending p) db =
    record_binding env p.submission p.quote p.request p.ref p.published p.actor db

-- A chain of calls is one with a last step, if what follows its first call is.
continue-continue :
    {W A B C : Type 0} (f : A → Call W C) (f' : A → Call W B) (g : B → Call W C)
    → ((a : A) (w : W) → f a w ≡ continue g (f' a w))
    → (x : Result A × W) → continue f x ≡ continue g (continue f' x)
continue-continue f f' g h (ok a, w) = h a w
continue-continue f f' g h (raised e, w) = refl

module _ {W : Type 0} (env : Env) (client : PolicyClient W) (publisher : Publisher W) where
  bind_new-prepare :
      (id : ℕ) (s : Submission) (actor : String) (db : Db) (w : W)
      → bind_new env client publisher id s actor db w
        ≡ continue (λ b. lift (finish_bind env b db)) (prepare env client publisher id s actor db w)
  unfolding bind_new prepare finish_bind
  bind_new-prepare id s actor db w =
      let last : Begun → Call W (Binding × Db) = λ b. lift (finish_bind env b db) in
      continue-continue _ _ last
        (λ _ w0.
          continue-continue _ _ last
            (λ q w1.
              let request =
                create_request env db s (counterparty_name env db s) (policy_number_for env q.id) in
              continue-continue _ _ last
                (λ ref w2.
                  continue-continue _ _ last
                    (λ _ w3.
                      continue-continue _ _ last
                        (λ _ w4.
                          continue-continue _ _ last (λ published w5. refl)
                            (publish_best_effort env client publisher (event_for request s q) w4))
                        (client.activate ref.id w3))
                    (client.submit ref.id w2))
                (client.create_policy request w1))
            (lift (or_raise (latest_quote db id) no_quote) w0))
        (lift (accepted (latest_decision db id)) w)

  -- Where nothing comes between its halves, a bind in two halves is the bind.
  pub begin_bind-finish_bind :
      (id : ℕ) (actor : String) (db : Db) (w : W)
      → bind_submission env client publisher id actor db w
        ≡ continue
            (λ b. lift (finish_bind env b db))
            (begin_bind env client publisher id actor db w)
  unfolding bind_submission begin_bind finish_bind
  begin_bind-finish_bind id actor db w =
      let last : Begun → Call W (Binding × Db) = λ b. lift (finish_bind env b db) in
      continue-continue _ _ last
        (λ s w0. elim (Option-cases (by_submission db id)) [
          | inl free ↦ rw free (bind_new-prepare id s actor db w0)
          | inr (found, known) ↦ rw known refl
        ])
        (lift (get_submission db id) w)
