-- ===== src/System/Audit.antt =====
-- The audit trail: every row about a submission has its entry.
use ktayl_underwriting.Prelude.{
  ℕ, ◌+◌, ◌≡◌, sym, subst, List, [], ◌∷◌, ◌++◌, arith, length, select, ◌==◌, Bool, if◌then◌else◌,
}
use ktayl_underwriting.Store.Rows.{Submission, Decision, Quote, Binding, AuditEntry, Db, Env}
use ktayl_underwriting.Bind.Interfaces.{PolicyClient, Publisher}
use ktayl_underwriting.System.Run.{Request, run}
use ktayl_underwriting.System.Steps.{Step, same, seeded, created, assessed, quoted, bound}
use ktayl_underwriting.System.Runs.{Reach, here, next, run-Reach}

abbrev count : {A : Type 0} → (A → Bool) → List A → ℕ
count p xs = length (select p xs)

count-snoc :
    {A : Type 0} (p : A → Bool) (xs : List A) (x : A)
    → count p (xs ++ x ∷ []) ≡ count p xs + (if p x then 1 else 0)
count-snoc p [] x = ground arith
count-snoc p (y ∷ ys) x = ground (arith, count-snoc p ys x)

module _ (id : ℕ) where
  -- The audit entries of a submission.
  abbrev pub entries : Db → ℕ
  entries db = count (λ (e : AuditEntry). e.submission_id == id) db.audit

  -- The rows that stand for something done to it: its creation, its decisions, its quotes, its bindings.
  abbrev pub deeds : Db → ℕ
  deeds db =
      count (λ (s : Submission). s.id == id) db.submissions
      + count (λ (d : Decision). d.submission_id == id) db.decisions
      + count (λ (q : Quote). q.submission_id == id) db.quotes
      + count (λ (b : Binding). b.submission_id == id) db.bindings

  abbrev pub IsAudited : Db → Type 0
  IsAudited db = entries db ≡ deeds db

  Step-IsAudited : {env : Env} {db db' : Db} → Step env db db' → IsAudited db → IsAudited db'
  Step-IsAudited (same p) h = subst IsAudited (sym p) h
  Step-IsAudited (seeded rs ts n _ p) h = subst IsAudited (sym p) h
  Step-IsAudited {env} {db} (created c s e _ about p) h = subst IsAudited (sym p) (
      grind (
        arith,
        about,
        count-snoc (λ (e : AuditEntry). e.submission_id == id) db.audit e,
        count-snoc (λ (s : Submission). s.id == id) db.submissions s,
      ))
  Step-IsAudited {env} {db} (assessed d e _ about p) h = subst IsAudited (sym p) (
      grind (
        arith,
        about,
        count-snoc (λ (e : AuditEntry). e.submission_id == id) db.audit e,
        count-snoc (λ (d : Decision). d.submission_id == id) db.decisions d,
      ))
  Step-IsAudited {env} {db} (quoted q e _ about p) h = subst IsAudited (sym p) (
      grind (
        arith,
        about,
        count-snoc (λ (e : AuditEntry). e.submission_id == id) db.audit e,
        count-snoc (λ (q : Quote). q.submission_id == id) db.quotes q,
      ))
  Step-IsAudited {env} {db} (bound b e _ about p) h = subst IsAudited (sym p) (
      grind (
        arith,
        about,
        count-snoc (λ (e : AuditEntry). e.submission_id == id) db.audit e,
        count-snoc (λ (b : Binding). b.submission_id == id) db.bindings b,
      ))

  Reach-IsAudited : {env : Env} {db db' : Db} → Reach env db db' → IsAudited db → IsAudited db'
  Reach-IsAudited here h = h
  Reach-IsAudited (next r st) h = Step-IsAudited st (Reach-IsAudited r h)

-- Whatever requests are served, if at the start a submission id has as many audit entries as rows that record its
-- creation, decisions, quotes and bindings together, then it still has as many afterwards: nothing is done without
-- its entry, and there is no entry for what was not done.
pub run-IsAudited :
    {W : Type 0} (env : Env) (client : PolicyClient W) (publisher : Publisher W) (id : ℕ)
    (rs : List Request) (s : Db × W)
    → IsAudited id s.0
    → IsAudited id (run env client publisher rs s).0
run-IsAudited env client publisher id rs s h =
    Reach-IsAudited id (run-Reach env client publisher rs s) h
