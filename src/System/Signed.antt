-- ===== src/System/Signed.antt =====
-- Whom the audit trail names: the actor of each write.
use ktayl_underwriting.Prelude.{
  ℕ, [], ◌∷◌, ◌++◌, ◌≡◌, refl, sym, ap, ◌∙◌, ◌⊎◌, Option, inl, inr, Option-cases, String, List,
}
use ktayl_underwriting.Enums.{Outcome}
use ktayl_underwriting.Appetite.{from_rules}
use ktayl_underwriting.Store.Rows.{
  Submission, Decision, Quote, Binding, AuditEntry, Detail, Db, Env, Fault, Result, ok, raised,
  or_raise, no_ruleset, key_error, no_rate_table, no_quote,
}
use ktayl_underwriting.Store.Queries.{
  get_submission, latest_decision, latest_quote, by_submission, append_audit, add_counterparty,
  add_quote, entry, current_rate_table, current_ruleset,
}
use ktayl_underwriting.Store.Results.{>>=-eq-ok, ok-injective}
use ktayl_underwriting.Workbench.Submissions
use ktayl_underwriting.Workbench.Submissions.{SubmissionCreate, add_submission, add_decision}
use ktayl_underwriting.Rating.Engine.{rate}
use ktayl_underwriting.Rating.Tables
use ktayl_underwriting.Workbench.Quotes
use ktayl_underwriting.Workbench.Quotes.{quotable, rated, rating_facts_of, manifest}
use ktayl_underwriting.Bind.Interfaces.{PolicyClient, Publisher, continue-eq-ok, lift}
use ktayl_underwriting.Bind.Service
use ktayl_underwriting.Bind.Service.{
  accepted, policy_number_for, counterparty_name, create_request, publish_best_effort, event_for,
  bind_new,
}
use ktayl_underwriting.Api.Routes
use ktayl_underwriting.Api.Routes.{answer}
use ktayl_underwriting.System.Refines.{add_submission-eq-ok, add_quote-eq-ok}
use ktayl_underwriting.System.RefinesBind.{record_binding-eq-ok}

-- The audit trail is as it was, or has one entry more, by the actor.
abbrev pub IsSigned : String → Db → Db → Type 0
IsSigned actor db db' =
    (db'.audit ≡ db.audit)
    ⊎ ((e : AuditEntry) × (e.actor ≡ actor) × (db'.audit ≡ db.audit ++ e ∷ []))

abbrev audit_of : Db → List AuditEntry
audit_of db = db.audit

answer-IsSigned :
    {A : Type 0} (actor : String) (code : ℕ) (status : Fault → ℕ) (db : Db) (r : Result (A × Db))
    → ((a : A) (db' : Db) → r ≡ ok (a, db') → IsSigned actor db db')
    → IsSigned actor db (answer code status db r).1
answer-IsSigned actor code status db (ok (a, db')) h = h a db' refl
answer-IsSigned actor code status db (raised e) h = inl refl

append_audit-IsSigned :
    (env : Env) (id : ℕ) (action actor : String) (version : Option ℕ) (outcome : Option Outcome)
    (detail : Detail) (db db1 db' : Db)
    → db1.audit ≡ db.audit
    → append_audit env id action actor version outcome detail db1 ≡ db'
    → IsSigned actor db db'
unfolding append_audit
append_audit-IsSigned env id action actor version outcome detail db db1 db' kept e =
    let added = entry env db1.drawn id action actor version outcome detail in
    inr (added, refl, sym (ap audit_of e) ∙ ap (◌++ (added ∷ [])) kept)

create_submission-IsSigned :
    (env : Env) (payload : SubmissionCreate) (actor : String) (db db' : Db) {s : Submission}
    → Submissions.create_submission env payload actor db ≡ ok (s, db')
    → IsSigned actor db db'
unfolding Submissions.create_submission add_counterparty
create_submission-IsSigned env payload actor db db' {s} e =
    let ((row, db2), p, q) = >>=-eq-ok (add_submission env payload _ _) _ e in
    let (_, _, _, _, grown) = add_submission-eq-ok env payload _ _ db2 row p in
    append_audit-IsSigned env _ _ actor _ _ _ db db2 db' (ap audit_of grown)
      (ap (λ x. x.1) (ok-injective q))

assess_submission-IsSigned :
    (env : Env) (id : ℕ) (actor : String) (db db' : Db) {d : Decision}
    → Submissions.assess_submission env id actor db ≡ ok (d, db')
    → IsSigned actor db db'
unfolding Submissions.assess_submission add_decision
assess_submission-IsSigned env id actor db db' {d} e =
    let (s, p, e1) = >>=-eq-ok (get_submission db id) _ e in
    let (r, q, e2) = >>=-eq-ok (or_raise (current_ruleset db) no_ruleset) _ e1 in
    let (spec, q', e3) = >>=-eq-ok (or_raise (from_rules r.version r.rules) key_error) _ e2 in
    append_audit-IsSigned env _ _ actor _ _ _ db (add_decision env s.id _ _ _ actor db).1 db' refl
      (ap (λ x. x.1) (ok-injective e3))

quote_submission-IsSigned :
    (env : Env) (id : ℕ) (actor : String) (db db' : Db) {q : Quote}
    → Quotes.quote_submission env id actor db ≡ ok (q, db')
    → IsSigned actor db db'
unfolding Quotes.quote_submission
quote_submission-IsSigned env id actor db db' {q} e =
    let (s, p, e1) = >>=-eq-ok (get_submission db id) _ e in
    let (o, p2, e2) = >>=-eq-ok (quotable (latest_decision db id)) _ e1 in
    let (t, p3, e3) = >>=-eq-ok (or_raise (current_rate_table db) no_rate_table) _ e2 in
    let (spec, p4, e4) =
      >>=-eq-ok (or_raise (Tables.from_rules t.version t.rules) key_error) _ e3 in
    let facts = rating_facts_of s in
    let (b, p5, e5) = >>=-eq-ok (rated (rate facts spec)) _ e4 in
    let ((row, db2), p6, e6) = >>=-eq-ok (add_quote env s.id b (manifest facts) actor db) _ e5 in
    let (_, _, _, _, grown) = add_quote-eq-ok env s.id b (manifest facts) actor db db2 row p6 in
    append_audit-IsSigned env _ _ actor _ _ _ db db2 db' (ap audit_of grown)
      (ap (λ x. x.1) (ok-injective e6))

module _ {W : Type 0} (env : Env) (client : PolicyClient W) (publisher : Publisher W) where
  bind_new-IsSigned :
      (id : ℕ) (s : Submission) (actor : String) (db db' : Db) (w : W) (b : Binding)
      → (bind_new env client publisher id s actor db w).0 ≡ ok (b, db')
      → IsSigned actor db db'
  unfolding bind_new
  bind_new-IsSigned id s actor db db' w b e =
      let (_, h1, e1) = continue-eq-ok _ (lift (accepted (latest_decision db id)) w) e in
      let (q, h2, e2) = continue-eq-ok _ (lift (or_raise (latest_quote db id) no_quote) w) e1 in
      let request =
        create_request env db s (counterparty_name env db s) (policy_number_for env q.id) in
      let (ref, h3, e3) = continue-eq-ok _ (client.create_policy request w) e2 in
      let w1 = (client.create_policy request w).1 in
      let (_, h4, e4) = continue-eq-ok _ (client.submit ref.id w1) e3 in
      let w2 = (client.submit ref.id w1).1 in
      let (_, h5, e5) = continue-eq-ok _ (client.activate ref.id w2) e4 in
      let w3 = (client.activate ref.id w2).1 in
      let (published, h6, e6) =
        continue-eq-ok _ (publish_best_effort env client publisher (event_for request s q) w3) e5 in
      let (_, _, _, grown) = record_binding-eq-ok env s q request ref published actor db db' b e6 in
      inr (_, refl, ap audit_of grown)

  bind_submission-IsSigned :
      (id : ℕ) (actor : String) (db db' : Db) (w : W) (b : Binding)
      → (Service.bind_submission env client publisher id actor db w).0 ≡ ok (b, db')
      → IsSigned actor db db'
  unfolding Service.bind_submission
  bind_submission-IsSigned id actor db db' w b e =
      let (s, p, e1) = continue-eq-ok _ (lift (get_submission db id) w) e in
      elim (Option-cases (by_submission db id)) [
        | inl free ↦ bind_new-IsSigned id s actor db db' w b (rw (free) at e1)
        | inr (old, known) ↦ inl (sym (ap (λ x. audit_of x.1) (ok-injective (rw known at e1))))
      ]

  pub bind_route-IsSigned :
      (id : ℕ) (actor : String) (db : Db) (w : W)
      → IsSigned actor db (Routes.bind_submission env client publisher id actor db w).0.1
  unfolding Routes.bind_submission
  bind_route-IsSigned id actor db w =
      answer-IsSigned actor 200 Routes.bind_status db
        (Service.bind_submission env client publisher id actor db w).0
        λ b db' e. bind_submission-IsSigned id actor db db' w b e

module _ (env : Env) where
  pub create_route-IsSigned :
      (payload : SubmissionCreate) (actor : String) (db : Db)
      → IsSigned actor db (Routes.create_submission env payload actor db).1
  unfolding Routes.create_submission
  create_route-IsSigned payload actor db =
      answer-IsSigned actor 201 Routes.create_status db
        (Submissions.create_submission env payload actor db)
        λ s db' e. create_submission-IsSigned env payload actor db db' e

  pub assess_route-IsSigned :
      (id : ℕ) (actor : String) (db : Db)
      → IsSigned actor db (Routes.assess_submission env id actor db).1
  unfolding Routes.assess_submission
  assess_route-IsSigned id actor db = elim (Option-cases (by_submission db id)) [
    | inl free ↦
        rw (free, Routes.assess_submission)
          (answer-IsSigned actor 200 Routes.assess_status db
            (Submissions.assess_submission env id actor db)
            λ d db' e. assess_submission-IsSigned env id actor db db' e)
    | inr (b, frozen) ↦ rw (frozen, Routes.assess_submission) (inl refl)
  ]

  pub quote_route-IsSigned :
      (id : ℕ) (actor : String) (db : Db)
      → IsSigned actor db (Routes.quote_submission env id actor db).1
  unfolding Routes.quote_submission
  quote_route-IsSigned id actor db = elim (Option-cases (by_submission db id)) [
    | inl free ↦
        rw (free, Routes.quote_submission)
          (answer-IsSigned actor 200 Routes.quote_status db
            (Quotes.quote_submission env id actor db)
            λ q db' e. quote_submission-IsSigned env id actor db db' e)
    | inr (b, frozen) ↦ rw (frozen, Routes.quote_submission) (inl refl)
  ]
