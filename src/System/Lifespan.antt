-- ===== src/System/Lifespan.antt =====
-- `lifespan` of app/main.py: the migrations, on a database that migrations/versions describe, and the seeding.
pub mod Starts
use ktayl_underwriting.Prelude.{ℕ, String, Bool, true, false, if◌then◌else◌}
use ktayl_underwriting.Store.Rows.{Env, Result, ok, raised}
use ktayl_underwriting.Startup.{
  Probe, Started, available, gave_up, aborted, Driver, bootstrap_database,
}
use ktayl_underwriting.Migrations.{Database, has_table}
use ktayl_underwriting.Migrations.Upgrade.{Alembic}
use ktayl_underwriting.System.Run.{seed_ruleset_v1, seed_rate_table_v1, seed_rate_table_v2}

-- The network to the database, `time.sleep`, and the disposal of an engine; none of them writes a table.
pub record Connection (R : Type 0) : Type 0 where
  pub probe : R → Probe × R
  pub sleep : ℕ → R → R
  pub dispose : R → R

-- The session of `lifespan`: a table that is missing raises at the first query, after what was committed.
unfoldable pub seed_tables : Env → Database → Started × Database
seed_tables env db =
    let db1 : Database = record db { rows = seed_ruleset_v1 env db.rows } in
    let db2 : Database = record db1 {
      rows = seed_rate_table_v2 env (seed_rate_table_v1 env db1.rows);
    } in
    if has_table "appetite_ruleset" db.tables
    then (if has_table "rate_table" db.tables then (available, db2) else (aborted, db1))
    else (aborted, db)

module _ {R : Type 0} (env : Env) where
  -- `run_migrations`: an exception of Alembic is not caught.
  abbrev pub migrate : Alembic env → Database × R → Started × (Database × R)
  migrate alembic (db, r) = elim (alembic.upgrade db) [
    | raised e ↦ (aborted, (db, r))
    | ok db' ↦ (available, (db', r))
  ]

  abbrev pub driver : Alembic env → Connection R → Driver (Database × R)
  driver alembic connection = record {
    probe = λ (db, r). ((connection.probe r).0, (db, (connection.probe r).1));
    sleep = λ time (db, r). (db, connection.sleep time r);
    dispose = λ (db, r). (db, connection.dispose r);
    upgrade_head = migrate alembic;
  }

  abbrev pub then_seed : Started × (Database × R) → Started × (Database × R)
  then_seed (available, (db, r)) = let (s, db') = seed_tables env db in (s, (db', r))
  then_seed (gave_up, w) = (gave_up, w)
  then_seed (aborted, w) = (aborted, w)

  -- What runs before the first request, with `run_db_migrations_on_startup`.
  unfoldable pub lifespan :
      Bool → Alembic env → Connection R → Database × R → Started × (Database × R)
  lifespan run_db_migrations_on_startup alembic connection w = then_seed (
      if run_db_migrations_on_startup
      then bootstrap_database (driver alembic connection) w
      else (available, w))
