-- ===== src/System/Sound.antt =====
-- A bound submission stays accepted, quoted and bound once.
use ktayl_underwriting.Prelude.{
  ℕ, inl, inr, ==_iff, Bool-cases, ◌≡◌, refl, sym, ap, ◌∙◌, subst, false, none, some, Option, List,
  [], ◌∷◌, All, All-map, All-append, append-nil, select-append, find-append_some, find-append_none,
  ◌==◌,
}
use ktayl_underwriting.Enums.{accept}
use ktayl_underwriting.Store.Rows.{Decision, Quote, Binding, AuditEntry, Db, Env}
use ktayl_underwriting.Store.Newest.{newest}
use ktayl_underwriting.Store.Queries.{latest_decision, latest_quote, quote_after, by_submission}
use ktayl_underwriting.Bind.Interfaces.{PolicyClient, Publisher}
use ktayl_underwriting.Bind.Service.{policy_number_for}
use ktayl_underwriting.System.Run.{Request, run}
use ktayl_underwriting.System.Steps.{
  Step, same, seeded, created, assessed, quoted, bound, MayBind, with_decision, with_quote,
  with_binding,
}
use ktayl_underwriting.System.Runs.{Reach, here, next, run-Reach}

-- What holds of each binding: its submission's latest decision is to accept, its submission's latest
-- quote is the one that was bound, its policy number is that quote's, and it is its submission's only binding.
pub record IsBound (env : Env) (db : Db) (b : Binding) : Type 0 where
  pub decision : Decision
  pub decided : latest_decision db b.submission_id ≡ some decision
  pub is_accepted : decision.outcome ≡ accept
  pub quote : Quote
  pub quoted : latest_quote db b.submission_id ≡ some quote
  pub of_quote : b.quote_id ≡ quote.id
  pub number : b.policy_number ≡ policy_number_for env quote.id
  pub unique : by_submission db b.submission_id ≡ some b

abbrev pub IsSound : Env → Db → Type 0
IsSound env db = All (IsBound env db) db.bindings

none≢some : {A : Type 0} {a : A} → Option.none ≡ Option.some a → ⊥
none≢some h = cc

-- Reads of a submission that nothing new concerns.
IsBound-frame :
    {env : Env} {db db' : Db} (b : Binding)
    → latest_decision db' b.submission_id ≡ latest_decision db b.submission_id
    → latest_quote db' b.submission_id ≡ latest_quote db b.submission_id
    → (by_submission db b.submission_id ≡ some b → by_submission db' b.submission_id ≡ some b)
    → IsBound env db b
    → IsBound env db' b
IsBound-frame b p q r h = record {
  decision = h.decision;
  decided = p ∙ h.decided;
  is_accepted = h.is_accepted;
  quote = h.quote;
  quoted = q ∙ h.quoted;
  of_quote = h.of_quote;
  number = h.number;
  unique = r h.unique;
}

-- A bound submission is none of those that are not bound.
pub ne_of_bound :
    (db : Db) (id : ℕ) (b : Binding)
    → by_submission db id ≡ none
    → by_submission db b.submission_id ≡ some b
    → (id == b.submission_id) ≡ false
ne_of_bound db id b free known = elim (Bool-cases (id == b.submission_id)) [
  | inl hit ↦
      let same_id = (==_iff id b.submission_id).0 hit in
      absurd (none≢some (sym free ∙ ap (by_submission db) same_id ∙ known))
  | inr miss ↦ miss
]

pub latest_decision-other :
    (db : Db) (d : Decision) (e : AuditEntry) (id : ℕ)
    → (d.submission_id == id) ≡ false
    → latest_decision (with_decision d e db) id ≡ latest_decision db id
unfolding latest_decision
latest_decision-other db d e id h = ap (newest _) (
    select-append (λ (x : Decision). x.submission_id == id) db.decisions (d ∷ [])
    ∙ rw h (append-nil _))

pub latest_quote-other :
    (db : Db) (q : Quote) (e : AuditEntry) (id : ℕ)
    → (q.submission_id == id) ≡ false
    → latest_quote (with_quote q e db) id ≡ latest_quote db id
unfolding latest_quote
latest_quote-other db q e id h =
    ap (newest quote_after) (
      select-append (λ (x : Quote). x.submission_id == id) db.quotes (q ∷ []) ∙ rw h (append-nil _))

-- The binding that a bind adds.
new_binding :
    {env : Env} (db : Db) (b : Binding) (e : AuditEntry)
    → MayBind env db b
    → IsBound env (with_binding b e db) b
unfolding latest_decision latest_quote by_submission
new_binding db b e may = record {
  decision = may.decision;
  decided = may.decided;
  is_accepted = may.is_accepted;
  quote = may.quote;
  quoted = may.quoted;
  of_quote = may.of_quote;
  number = may.number;
  unique =
      find-append_none (λ (y : Binding). y.submission_id == b.submission_id) db.bindings (b ∷ [])
        may.unbound
      ∙ rw ((==_iff b.submission_id b.submission_id).1 refl) refl;
}

Step-IsSound : {env : Env} {db db' : Db} → Step env db db' → IsSound env db → IsSound env db'
unfolding latest_decision latest_quote by_submission
Step-IsSound {env} {db} {db'} (same p) h = subst (IsSound env) (sym p) h
Step-IsSound {env} {db} {db'} (seeded rs ts n _ p) h =
    subst (IsSound env) (sym p) (All-map (λ b. IsBound-frame b refl refl (λ u. u)) db.bindings h)
Step-IsSound {env} {db} {db'} (created c s e _ _ p) h =
    subst (IsSound env) (sym p) (All-map (λ b. IsBound-frame b refl refl (λ u. u)) db.bindings h)
Step-IsSound {env} {db} {db'} (assessed d e may _ p) h = subst (IsSound env) (sym p) (
    All-map
      (λ b u.
        IsBound-frame b
          (latest_decision-other db d e b.submission_id
            (ne_of_bound db d.submission_id b may.unbound u.unique))
          refl (λ v. v) u)
      db.bindings h)
Step-IsSound {env} {db} {db'} (quoted q e may _ p) h = subst (IsSound env) (sym p) (
    All-map
      (λ b u.
        IsBound-frame b refl
          (latest_quote-other db q e b.submission_id
            (ne_of_bound db q.submission_id b may.unbound u.unique))
          (λ v. v) u)
      db.bindings h)
Step-IsSound {env} {db} {db'} (bound b e may _ p) h = subst (IsSound env) (sym p) (
    All-append (IsBound env (with_binding b e db)) db.bindings (b ∷ [])
      (All-map
        (λ x. IsBound-frame x refl refl (
          find-append_some (λ (y : Binding). y.submission_id == x.submission_id) db.bindings
            (b ∷ [])))
        db.bindings h)
      (new_binding db b e may, tt))

Reach-IsSound : {env : Env} {db db' : Db} → Reach env db db' → IsSound env db → IsSound env db'
Reach-IsSound here h = h
Reach-IsSound (next r st) h = Step-IsSound st (Reach-IsSound r h)

-- Whatever requests are served, starting from tables without bindings, and whatever the policy service and the
-- publisher answer, each binding that is then stored is the only one of its submission, which has a latest decision
-- to accept and a latest quote, and the binding is of that quote, under the policy number that its id determines.
pub run-IsSound :
    {W : Type 0} (env : Env) (client : PolicyClient W) (publisher : Publisher W) (rs : List Request)
    (db : Db) (w : W)
    → db.bindings ≡ []
    → IsSound env (run env client publisher rs (db, w)).0
run-IsSound env client publisher rs db w none_bound =
    Reach-IsSound (run-Reach env client publisher rs (db, w))
      (subst (All (IsBound env db)) (sym none_bound) tt)
