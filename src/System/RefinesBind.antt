-- ===== src/System/RefinesBind.antt =====
-- Binding does what the specification allows, whatever the policy service and the publisher do.
use ktayl_underwriting.Prelude.{
  ℕ, suc, [], ◌∷◌, ◌++◌, ◌≡◌, refl, sym, ap, ◌∙◌, Option, none, some, inl, inr, Option-cases, Bool,
  arith, String,
}
use ktayl_underwriting.Enums.{accept}
use ktayl_underwriting.Store.Rows.{
  Submission, Decision, Quote, Binding, Db, Env, Detail, ok, or_raise, no_quote,
}
use ktayl_underwriting.Store.Queries.{
  get_submission, latest_decision, latest_quote, by_submission, add_binding, append_audit, entry,
}
use ktayl_underwriting.Store.Results.{or_raise-eq-ok, ok-injective, get_submission-eq-ok}
use ktayl_underwriting.Bind.Interfaces.{
  CreatePolicyRequest, PolicyRef, PolicyClient, Publisher, continue-eq-ok, lift,
}
use ktayl_underwriting.Bind.Service.{
  accepted, policy_number_for, counterparty_name, create_request, record_binding,
  publish_best_effort, event_for, bind_new, bind_submission,
}
use ktayl_underwriting.System.Steps.{Step, same, bound, with_binding}

pub accepted-eq-ok :
    (o : Option Decision)
    → accepted o ≡ ok tt
    → (d : Decision) × (o ≡ some d) × (d.outcome ≡ accept)
accepted-eq-ok none h = cc
accepted-eq-ok (some d) h = (d, refl, ground arith)

add_binding-eq-ok :
    (env : Env) (id quote_id : ℕ) (number ref status : String) (published : Bool) (actor : String)
    (db db' : Db) (b : Binding)
    → add_binding env id quote_id number ref status published actor db ≡ ok (b, db')
    → (b.submission_id ≡ id)
      × (b.quote_id ≡ quote_id)
      × (b.policy_number ≡ number)
      × (db' ≡ record db { bindings = db.bindings ++ b ∷ []; drawn = suc db.drawn })
unfolding add_binding
add_binding-eq-ok env id quote_id number ref status published actor db db' b e = ground arith

-- What a recorded binding adds.
pub record_binding-eq-ok :
    (env : Env) (s : Submission) (q : Quote) (request : CreatePolicyRequest) (ref : PolicyRef)
    (published : Bool) (actor : String) (db db' : Db) (b : Binding)
    → record_binding env s q request ref published actor db ≡ ok (b, db')
    → (b.submission_id ≡ s.id)
      × (b.quote_id ≡ q.id)
      × (b.policy_number ≡ request.policy_number)
      × (db'
          ≡ with_binding b
              (entry env (suc db.drawn) s.id "bind" actor none none (
                Detail.bound request.policy_number ref.id q.id q.premium_minor q.currency
                  published))
              db)
unfolding record_binding append_audit add_binding
record_binding-eq-ok env s q request ref published actor db db' b e = ground arith

module _ {W : Type 0} (env : Env) (client : PolicyClient W) (publisher : Publisher W) where
  bind_new-Step :
      (id : ℕ) (s : Submission) (actor : String) (db db' : Db) (w : W) (b : Binding)
      → get_submission db id ≡ ok s
      → by_submission db id ≡ none
      → (bind_new env client publisher id s actor db w).0 ≡ ok (b, db')
      → Step env db db'
  unfolding bind_new
  bind_new-Step id s actor db db' w b p free e =
      let (_, h1, e1) = continue-eq-ok _ (lift (accepted (latest_decision db id)) w) e in
      let (q, h2, e2) = continue-eq-ok _ (lift (or_raise (latest_quote db id) no_quote) w) e1 in
      let request =
        create_request env db s (counterparty_name env db s) (policy_number_for env q.id) in
      let (ref, h3, e3) = continue-eq-ok _ (client.create_policy request w) e2 in
      let w1 = (client.create_policy request w).1 in
      let (_, h4, e4) = continue-eq-ok _ (client.submit ref.id w1) e3 in
      let w2 = (client.submit ref.id w1).1 in
      let (_, h5, e5) = continue-eq-ok _ (client.activate ref.id w2) e4 in
      let w3 = (client.activate ref.id w2).1 in
      let (published, h6, e6) =
        continue-eq-ok _ (publish_best_effort env client publisher (event_for request s q) w3) e5 in
      let (d, decided, is_accept) = accepted-eq-ok (latest_decision db id) h1 in
      let (found, same_id) = get_submission-eq-ok db id p in
      let (owner, of_quote, number, grown) =
        record_binding-eq-ok env s q request ref published actor db db' b e6 in
      let at_id = owner ∙ same_id in
      bound b _
        (record {
          submission = s;
          found = rw at_id found;
          unbound = rw at_id free;
          decision = d;
          decided = rw at_id decided;
          is_accepted = is_accept;
          quote = q;
          quoted = rw at_id (or_raise-eq-ok (latest_quote db id) no_quote h2);
          of_quote = of_quote;
          number = unfold create_request in number;
        })
        (sym owner) grown

  -- A bind that returns has either found a binding, and changed nothing, or recorded one.
  pub bind_submission-Step :
      (id : ℕ) (actor : String) (db db' : Db) (w : W) (b : Binding)
      → (bind_submission env client publisher id actor db w).0 ≡ ok (b, db')
      → Step env db db'
  unfolding bind_submission
  bind_submission-Step id actor db db' w b e =
      let (s, p, e1) = continue-eq-ok _ (lift (get_submission db id) w) e in
      elim (Option-cases (by_submission db id)) [
        | inl free ↦ bind_new-Step id s actor db db' w b p free (rw (free) at e1)
        | inr (old, known) ↦ same (sym (ap (λ x. x.1) (ok-injective (rw known at e1))))
      ]
