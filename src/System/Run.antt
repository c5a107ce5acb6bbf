-- ===== src/System/Run.antt =====
-- The seeding of app/main.py and the requests that write, one after another.
use ktayl_underwriting.Prelude.{ℕ, String, none, some, List, [], ◌∷◌}
use ktayl_underwriting.Appetite
use ktayl_underwriting.Rating.Tables
use ktayl_underwriting.Store.Rows.{Db, Env, Result, ok, raised}
use ktayl_underwriting.Store.Queries.{
  current_ruleset, current_rate_table, rate_table_version, create_ruleset, create_rate_table,
}
use ktayl_underwriting.Workbench.Submissions.{SubmissionCreate}
use ktayl_underwriting.Bind.Interfaces.{PolicyClient, Publisher}
use ktayl_underwriting.Api.Routes

-- The tables that a seeding leaves: a refused insert leaves them as they were.
abbrev pub committed : {A : Type 0} → Db → Result (A × Db) → Db
committed db (ok (a, db')) = db'
committed db (raised e) = db

module _ (env : Env) where
  -- `seed_v1` of app/appetite/repository.py
  unfoldable pub seed_ruleset_v1 : Db → Db
  seed_ruleset_v1 db = elim (current_ruleset db) [
    | some existing ↦ db
    | none ↦ committed db (create_ruleset env 1 Appetite.v1_rules db)
  ]

  -- `seed_v1` and `seed_v2` of app/rating/repository.py
  unfoldable pub seed_rate_table_v1 : Db → Db
  seed_rate_table_v1 db = elim (current_rate_table db) [
    | some existing ↦ db
    | none ↦ committed db (create_rate_table env 1 Tables.v1_rules db)
  ]

  unfoldable pub seed_rate_table_v2 : Db → Db
  seed_rate_table_v2 db = elim (rate_table_version db 2) [
    | some existing ↦ db
    | none ↦ committed db (create_rate_table env 2 Tables.v2_rules db)
  ]

  -- The seeding in `lifespan`
  unfoldable pub seed : Db → Db
  seed db = seed_rate_table_v2 (seed_rate_table_v1 (seed_ruleset_v1 db))

-- A start of the service, or a request to one of the endpoints that write.
pub data Request : Type 0 where
  start : Request
  create : SubmissionCreate → String → Request
  assess quote bind : ℕ → String → Request

module _ {W : Type 0} (env : Env) (client : PolicyClient W) (publisher : Publisher W) where
  unfoldable pub handle : Request → Db × W → Db × W
  handle start (db, w) = (seed env db, w)
  handle (create payload actor) (db, w) = ((Routes.create_submission env payload actor db).1, w)
  handle (assess id actor) (db, w) = ((Routes.assess_submission env id actor db).1, w)
  handle (quote id actor) (db, w) = ((Routes.quote_submission env id actor db).1, w)
  handle (bind id actor) (db, w) =
      let (r, w') = Routes.bind_submission env client publisher id actor db w in (r.1, w')

  unfoldable pub run : List Request → Db × W → Db × W
  run [] s = s
  run (r ∷ rs) s = run rs (handle r s)
