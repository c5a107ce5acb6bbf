-- ===== src/Startup.antt =====
-- app/db/startup.py: waiting for the database, then the migrations. Times are in milliseconds.
pub mod Waiting
use ktayl_underwriting.Prelude.{ℕ, zero, suc}

-- What `SELECT 1` on a new connection gives: an answer, an `OperationalError`, or another exception.
pub data Probe : Type 0 where
  accepts not_ready broken : Probe

-- What start-up gives: it goes on, the `RuntimeError` of `wait_for_db`, or another exception.
pub data Started : Type 0 where
  available gave_up aborted : Started

-- The database driver, the migration tool, and `time.sleep`.
pub record Driver (W : Type 0) : Type 0 where
  pub probe : W → Probe × W
  pub sleep : ℕ → W → W
  pub dispose : W → W
  pub upgrade_head : W → Started × W

module _ {W : Type 0} (driver : Driver W) (interval : ℕ) where
  -- `if attempt < max_attempts: time.sleep(interval_seconds)`, by the attempts that are left
  abbrev pub pause : ℕ → W → W
  pause zero w = w
  pause (suc left) w = driver.sleep interval w

  -- The loop, by the attempts that are left.
  unfoldable pub wait_loop : ℕ → W → Started × W
  wait_loop zero w = (gave_up, w)
  wait_loop (suc left) w = elim (driver.probe w).0 [
    | accepts ↦ (available, (driver.probe w).1)
    | not_ready ↦ wait_loop left (pause left (driver.probe w).1)
    | broken ↦ (aborted, (driver.probe w).1)
  ]

  -- `wait_for_db`, whose `finally` disposes of the engine
  unfoldable pub wait_for_db : ℕ → W → Started × W
  unfolding wait_loop
  wait_for_db max_attempts w = let (r, w') = wait_loop max_attempts w in (r, driver.dispose w')

abbrev pub wait_max_attempts : ℕ
wait_max_attempts = 60

abbrev pub wait_interval : ℕ
wait_interval = 3000

abbrev pub then_migrate : {W : Type 0} → Driver W → Started × W → Started × W
then_migrate driver (available, w) = driver.upgrade_head w
then_migrate driver (gave_up, w) = (gave_up, w)
then_migrate driver (aborted, w) = (aborted, w)

-- `bootstrap_database`, with `run_migrations`
unfoldable pub bootstrap_database : {W : Type 0} → Driver W → W → Started × W
unfolding wait_for_db
bootstrap_database driver w =
    then_migrate driver (wait_for_db driver wait_interval wait_max_attempts w)
