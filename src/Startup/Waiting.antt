-- ===== src/Startup/Waiting.antt =====
-- What waiting for the database comes to.
use ktayl_underwriting.Prelude.{ℕ, zero, suc, ◌<◌, ◌≡◌, refl, sym, ◌⊎◌, inl, inr, arith, subst}
use ktayl_underwriting.Startup.{
  Probe, accepts, not_ready, broken, Started, available, gave_up, aborted, Driver, wait_loop,
  wait_for_db,
}

pub probe_cases : (r : Probe) → (r ≡ not_ready) ⊎ ((r ≡ accepts) ⊎ (r ≡ broken))
probe_cases accepts = inr (inl refl)
probe_cases not_ready = inl refl
probe_cases broken = inr (inr refl)

module _ {W : Type 0} (driver : Driver W) (interval : ℕ) where
  -- The world before the k-th attempt of some that find the database not ready, with a pause after each, k from 0.
  abbrev pub world_before : ℕ → W → W
  world_before zero w = w
  world_before (suc k) w = world_before k (driver.sleep interval (driver.probe w).1)

  -- The world after a number of attempts that find the database not ready, with a pause between two and none at the end.
  abbrev pub world_after : ℕ → W → W
  world_after zero w = w
  world_after (suc k) w = (driver.probe (world_before k w)).1

  abbrev pub answer_at : ℕ → W → Probe
  answer_at k w = (driver.probe (world_before k w)).0

  -- The first attempts that are not ready, and the one after them, which is among those allowed and ends the wait.
  abbrev pub EndsAt : ℕ → W → Probe → ℕ → Type 0
  EndsAt allowed w answer k =
      (k < allowed) × ((j : ℕ) → j < k → answer_at j w ≡ not_ready) × (answer_at k w ≡ answer)

  -- The wait ends at the first attempt that is answered, with success, or that raises something else, with that; or none
  -- of the allowed attempts is ready, and it gives up after the last of them, in the world that this one leaves.
  abbrev pub Waits : ℕ → W → Started × W → Type 0
  Waits allowed w end =
      ((k : ℕ) × EndsAt allowed w accepts k
        × (end ≡ (available, (driver.probe (world_before k w)).1)))
      ⊎ (((k : ℕ) × EndsAt allowed w broken k
            × (end ≡ (aborted, (driver.probe (world_before k w)).1)))
          ⊎ (((j : ℕ) → j < allowed → answer_at j w ≡ not_ready)
              × (end ≡ (gave_up, world_after allowed w))))

  not_ready-suc :
      (w : W) (k : ℕ)
      → answer_at 0 w ≡ not_ready
      → ((j : ℕ) → j < k → answer_at j (driver.sleep interval (driver.probe w).1) ≡ not_ready)
      → (j : ℕ) → j < suc k
      → answer_at j w ≡ not_ready
  not_ready-suc w k now later zero lt = now
  not_ready-suc w k now later (suc j) lt = later j (omega (arith, lt))

  none_before : (w : W) (j : ℕ) → j < 0 → answer_at j w ≡ not_ready
  none_before w j lt = absurd (omega (arith, lt))

  -- The end of the wait, from the end of what is waited after a first attempt that is not ready.
  later-Waits :
      (left : ℕ) (w : W) (end : Started × W)
      → answer_at 0 w ≡ not_ready
      → Waits (suc left) (driver.sleep interval (driver.probe w).1) end
      → Waits (suc (suc left)) w end
  later-Waits left w end now (inl (k, (lt, before, last), e)) =
      inl (suc k, (omega (arith, lt), not_ready-suc w k now before, last), e)
  later-Waits left w end now (inr (inl (k, (lt, before, last), e))) =
      inr (inl (suc k, (omega (arith, lt), not_ready-suc w k now before, last), e))
  later-Waits left w end now (inr (inr (never, e))) =
      inr (inr (not_ready-suc w (suc left) now never, e))

  answered-Waits :
      (left : ℕ) (w : W)
      → (answer_at 0 w ≡ accepts) ⊎ (answer_at 0 w ≡ broken)
      → Waits (suc left) w (wait_loop driver interval (suc left) w)
  unfolding wait_loop
  answered-Waits left w (inl answered) =
      inl (0, (omega arith, none_before w, answered), rw (answered, wait_loop) refl)
  answered-Waits left w (inr failed) =
      inr (inl (0, (omega arith, none_before w, failed), rw (failed, wait_loop) refl))

  wait_loop-Waits : (allowed : ℕ) (w : W) → Waits allowed w (wait_loop driver interval allowed w)
  unfolding wait_loop
  wait_loop-Waits zero w = inr (inr (none_before w, refl))
  wait_loop-Waits (suc zero) w = elim (probe_cases (driver.probe w).0) [
    | inl unready ↦ inr (
        inr (
          not_ready-suc w 0 unready (λ j lt. absurd (omega (arith, lt))),
          rw (unready, wait_loop) refl,
        ))
    | inr answered ↦ answered-Waits 0 w answered
  ]
  wait_loop-Waits (suc (suc more)) w = elim (probe_cases (driver.probe w).0) [
    | inl unready ↦
        let w' = driver.sleep interval (driver.probe w).1 in
        let again : wait_loop driver interval (suc (suc more)) w
            ≡ wait_loop driver interval (suc more) w' =
          rw (unready, wait_loop) refl in
        subst (Waits (suc (suc more)) w) (sym again) (
          later-Waits more w (wait_loop driver interval (suc more) w') unready
            (wait_loop-Waits (suc more) w'))
    | inr answered ↦ answered-Waits (suc more) w answered
  ]

  -- `wait_for_db` makes at most as many attempts as it may, and disposes of its engine however it ends. It succeeds
  -- after the first attempt that is answered, if only attempts that are not ready came before; raises what an attempt
  -- raised that is no `OperationalError`, at the first such one; and gives up where every attempt it may make is not
  -- ready, in the world that the last of exactly these attempts leaves. Before an attempt that follows another there is a
  -- pause, of the same length each time, and after the last attempt there is none.
  pub wait_for_db_ends :
      (max_attempts : ℕ) (w : W)
      → (end : Started × W) × Waits max_attempts w end
        × (wait_for_db driver interval max_attempts w ≡ (end.0, driver.dispose end.1))
  unfolding wait_for_db
  wait_for_db_ends max_attempts w =
      (wait_loop driver interval max_attempts w, wait_loop-Waits max_attempts w, refl)
