-- ===== src/System/Frozen.antt =====
-- What stays of a bound submission, whatever is asked later.
use ktayl_underwriting.Prelude.{
  ℕ, ◌≡◌, refl, sym, ap, ◌∙◌, subst, none, some, List, [], ◌∷◌, find-append_some, ◌==◌, false,
}
use ktayl_underwriting.Store.Rows.{Submission, Binding, Db, Env}
use ktayl_underwriting.Store.Queries.{find_submission, latest_decision, latest_quote, by_submission}
use ktayl_underwriting.Store.Results.{by_submission_holds}
use ktayl_underwriting.Bind.Interfaces.{PolicyClient, Publisher}
use ktayl_underwriting.System.Run.{Request, run}
use ktayl_underwriting.System.Steps.{Step, same, seeded, created, assessed, quoted, bound}
use ktayl_underwriting.System.Runs.{Reach, here, next, run-Reach}
use ktayl_underwriting.System.Sound.{ne_of_bound, latest_decision-other, latest_quote-other}

-- The submission and its binding are there, with the same latest decision and the same latest quote as in `db`.
pub record IsFrozen (db : Db) (id : ℕ) (s : Submission) (b : Binding) (db' : Db) : Type 0 where
  pub found : find_submission db' id ≡ some s
  pub is_bound : by_submission db' id ≡ some b
  pub decided : latest_decision db' id ≡ latest_decision db id
  pub quoted : latest_quote db' id ≡ latest_quote db id

apart :
    (id : ℕ) (b : Binding) (db : Db) (id' : ℕ)
    → by_submission db id ≡ some b
    → by_submission db id' ≡ none
    → (id' == id) ≡ false
apart id b db id' known free =
    let own = by_submission_holds db id known in
    ap (λ x. id' == x) (sym own) ∙ ne_of_bound db id' b free (ap (by_submission db) own ∙ known)

module _ {env : Env} (db0 : Db) (id : ℕ) (s : Submission) (b : Binding) where
  Step-IsFrozen : {db db' : Db} → Step env db db' → IsFrozen db0 id s b db → IsFrozen db0 id s b db'
  unfolding find_submission by_submission latest_decision latest_quote
  Step-IsFrozen (same p) h = subst (IsFrozen db0 id s b) (sym p) h
  Step-IsFrozen (seeded rs ts n _ p) h =
      subst (IsFrozen db0 id s b) (sym p)
        (record { found = h.found; is_bound = h.is_bound; decided = h.decided; quoted = h.quoted })
  Step-IsFrozen {db} (created c x e _ _ p) h = subst (IsFrozen db0 id s b) (sym p) (record {
    found = find-append_some (λ (y : Submission). y.id == id) db.submissions (x ∷ []) h.found;
    is_bound = h.is_bound;
    decided = h.decided;
    quoted = h.quoted;
  })
  Step-IsFrozen {db} (assessed d e may _ p) h = subst (IsFrozen db0 id s b) (sym p) (record {
    found = h.found;
    is_bound = h.is_bound;
    decided =
        latest_decision-other db d e id (apart id b db d.submission_id h.is_bound may.unbound)
        ∙ h.decided;
    quoted = h.quoted;
  })
  Step-IsFrozen {db} (quoted q e may _ p) h = subst (IsFrozen db0 id s b) (sym p) (record {
    found = h.found;
    is_bound = h.is_bound;
    decided = h.decided;
    quoted =
        latest_quote-other db q e id (apart id b db q.submission_id h.is_bound may.unbound)
        ∙ h.quoted;
  })
  Step-IsFrozen {db} (bound x e may _ p) h = subst (IsFrozen db0 id s b) (sym p) (record {
    found = h.found;
    is_bound =
        find-append_some (λ (y : Binding). y.submission_id == id) db.bindings (x ∷ []) h.is_bound;
    decided = h.decided;
    quoted = h.quoted;
  })

  Reach-IsFrozen :
      {db db' : Db} → Reach env db db' → IsFrozen db0 id s b db → IsFrozen db0 id s b db'
  Reach-IsFrozen here h = h
  Reach-IsFrozen (next r st) h = Step-IsFrozen st (Reach-IsFrozen r h)

module _ {W : Type 0} (env : Env) (client : PolicyClient W) (publisher : Publisher W) where
  -- Once a submission is bound, then after any further requests it is still stored with that binding, and its
  -- latest decision and its latest quote are still those that it had when it was bound.
  pub run-IsFrozen :
      (id : ℕ) (s : Submission) (b : Binding) (rs : List Request) (start : Db × W)
      → find_submission start.0 id ≡ some s
      → by_submission start.0 id ≡ some b
      → IsFrozen start.0 id s b (run env client publisher rs start).0
  run-IsFrozen id s b rs start found known =
      Reach-IsFrozen start.0 id s b (run-Reach env client publisher rs start)
        (record { found = found; is_bound = known; decided = refl; quoted = refl })
