-- ===== src/System/Locked.antt =====
-- What the endpoints answer for a bound submission.
use ktayl_underwriting.Prelude.{ℕ, ◌≡◌, refl, ap, some, String, List}
use ktayl_underwriting.Store.Rows.{Submission, Binding, Db, Env, Result}
use ktayl_underwriting.Store.Queries.{find_submission, by_submission}
use ktayl_underwriting.Bind.Interfaces.{PolicyClient, Publisher}
use ktayl_underwriting.Bind.Outcomes.{bind_again}
use ktayl_underwriting.Api.Routes
use ktayl_underwriting.Api.Routes.{failed, reply, answer}
use ktayl_underwriting.System.Run.{Request, run}
use ktayl_underwriting.System.Frozen.{run-IsFrozen}

module _ {W : Type 0} (env : Env) (client : PolicyClient W) (publisher : Publisher W) where
  assess_locked :
      (id : ℕ) (actor : String) (db : Db) (b : Binding)
      → by_submission db id ≡ some b
      → Routes.assess_submission env id actor db ≡ (failed 409, db)
  unfolding Routes.assess_submission
  assess_locked id actor db b known = rw (known, Routes.assess_submission) refl

  quote_locked :
      (id : ℕ) (actor : String) (db : Db) (b : Binding)
      → by_submission db id ≡ some b
      → Routes.quote_submission env id actor db ≡ (failed 409, db)
  unfolding Routes.quote_submission
  quote_locked id actor db b known = rw (known, Routes.quote_submission) refl

  bind_locked :
      (id : ℕ) (actor : String) (db : Db) (w : W) (s : Submission) (b : Binding)
      → find_submission db id ≡ some s
      → by_submission db id ≡ some b
      → Routes.bind_submission env client publisher id actor db w ≡ ((reply 200 b, db), w)
  unfolding Routes.bind_submission
  bind_locked id actor db w s b found known =
      ap (λ (r : Result (Binding × Db) × W). (answer 200 Routes.bind_status db r.0, r.1))
        (bind_again env client publisher id actor db w s b found known)

  -- Once a submission is bound, then after any further requests the assess and quote endpoints answer 409 for it, and the
  -- bind endpoint answers 200 with the same binding; none of the three changes a table, and the bind endpoint calls
  -- neither the policy service nor the publisher.
  pub run-locked :
      (id : ℕ) (actor : String) (s : Submission) (b : Binding) (rs : List Request) (start : Db × W)
      → find_submission start.0 id ≡ some s
      → by_submission start.0 id ≡ some b
      → (let (db, w) = run env client publisher rs start in
          (Routes.assess_submission env id actor db ≡ (failed 409, db))
          × (Routes.quote_submission env id actor db ≡ (failed 409, db))
          × (Routes.bind_submission env client publisher id actor db w ≡ ((reply 200 b, db), w)))
  run-locked id actor s b rs start found known =
      let h = run-IsFrozen env client publisher id s b rs start found known in
      let (db, w) = run env client publisher rs start in
      (
        assess_locked id actor db b h.is_bound,
        quote_locked id actor db b h.is_bound,
        bind_locked id actor db w s b h.found h.is_bound,
      )
