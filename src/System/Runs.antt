-- ===== src/System/Runs.antt =====
-- Every run is a sequence of the specification's steps.
use ktayl_underwriting.Prelude.{ℕ, List, [], ◌∷◌, String}
use ktayl_underwriting.Store.Rows.{Db, Env}
use ktayl_underwriting.Bind.Interfaces.{PolicyClient, Publisher}
use ktayl_underwriting.Bind.Service
use ktayl_underwriting.Api.Routes
use ktayl_underwriting.System.Run.{Request, start, create, assess, quote, bind, handle, run}
use ktayl_underwriting.System.Steps.{Step}
use ktayl_underwriting.System.Refines.{
  answer-Step, create_route-Step, assess_route-Step, quote_route-Step,
}
use ktayl_underwriting.System.RefinesBind.{bind_submission-Step}
use ktayl_underwriting.System.RefinesSeed.{seed-Step}

pub data Reach (env : Env) (db : Db) : Db → Type 0 where
  here : Reach env db db
  next : {db' db'' : Db} → Reach env db db' → Step env db' db'' → Reach env db db''

module _ {W : Type 0} (env : Env) (client : PolicyClient W) (publisher : Publisher W) where
  bind_route-Step :
      (id : ℕ) (actor : String) (db : Db) (w : W)
      → Step env db (Routes.bind_submission env client publisher id actor db w).0.1
  unfolding Routes.bind_submission
  bind_route-Step id actor db w =
      answer-Step env 200 Routes.bind_status db
        (Service.bind_submission env client publisher id actor db w).0
        λ b db' e. bind_submission-Step env client publisher id actor db db' w b e

  -- Whatever a request is and however the policy service and the publisher behave, the request changes the committed
  -- tables only as one step of the specification: it leaves them alone, seeds rulesets and rate tables, or appends
  -- one submission, decision, quote or binding that may be recorded, with its audit entry.
  pub handle-Step : (r : Request) (s : Db × W) → Step env s.0 (handle env client publisher r s).0
  unfolding handle
  handle-Step start (db, w) = seed-Step env db
  handle-Step (create payload actor) (db, w) = create_route-Step env payload actor db
  handle-Step (assess id actor) (db, w) = assess_route-Step env id actor db
  handle-Step (quote id actor) (db, w) = quote_route-Step env id actor db
  handle-Step (bind id actor) (db, w) = bind_route-Step id actor db w

  run-Reach_from :
      (rs : List Request) (db : Db) (s : Db × W)
      → Reach env db s.0
      → Reach env db (run env client publisher rs s).0
  unfolding run
  run-Reach_from [] db s h = h
  run-Reach_from (r ∷ rs) db s h =
      run-Reach_from rs db (handle env client publisher r s) (Reach.next h (handle-Step r s))

  pub run-Reach : (rs : List Request) (s : Db × W) → Reach env s.0 (run env client publisher rs s).0
  run-Reach rs s = run-Reach_from rs s.0 s Reach.here
