-- ===== src/Bind/NatsRetries.antt =====
-- What the retries of `NatsBoundRiskPublisher.publish` come to.
use ktayl_underwriting.Prelude.{
  ℕ, zero, suc, ◌*◌, ◌-◌, ◌<◌, max, ◌≡◌, refl, ap, ◌∙◌, ◌⊎◌, inl, inr, String, arith,
}
use ktayl_underwriting.Store.Rows.{Fault, Result, ok, raised}
use ktayl_underwriting.Bind.Interfaces.{Event, Call}
use ktayl_underwriting.Bind.Nats.{Broker, init, attempts, publish_once, publish}

result_cases : (r : Result (Unit {0})) → (r ≡ ok tt) ⊎ ((e : Fault) × (r ≡ raised e))
result_cases (ok tt) = inl refl
result_cases (raised e) = inr (e, refl)

module _ {W : Type 0} (sleep : ℕ → W → W) (backoff : ℕ) (once : Call W (Unit {0})) where
  -- The world before the k-th of some attempts that fail, from a first one with its number, k counted from 0:
  -- after each attempt there is a pause, of the backoff times the attempt's number.
  abbrev pub world_before : ℕ → ℕ → W → W
  world_before attempt zero w = w
  world_before attempt (suc k) w =
      world_before (suc attempt) k (sleep (backoff * attempt) (once w).1)

  -- The k-th attempt fails.
  abbrev pub Fails : ℕ → W → ℕ → Type 0
  Fails attempt w k = (e : Fault) × ((once (world_before attempt k w)).0 ≡ raised e)

  -- The attempts up to the k-th fail, and the k-th succeeds and is the last, where k is at most `left`; or all fail, and
  -- what the last one raised is raised.
  abbrev pub Ends : ℕ → ℕ → W → Result (Unit {0}) × W → Type 0
  Ends left attempt w end =
      ((k : ℕ) × (k < suc left)
        × ((j : ℕ) → j < k → Fails attempt w j)
        × (end ≡ once (world_before attempt k w))
        × (end.0 ≡ ok tt))
      ⊎ (((j : ℕ) → j < suc left → Fails attempt w j) × (end ≡ once (world_before attempt left w)))

  Fails-suc :
      (attempt : ℕ) (w : W) (k : ℕ) {e : Fault}
      → (once w).0 ≡ raised e
      → ((j : ℕ) → j < k → Fails (suc attempt) (sleep (backoff * attempt) (once w).1) j)
      → (j : ℕ) → j < suc k
      → Fails attempt w j
  Fails-suc attempt w k {e} failed later zero lt = (e, failed)
  Fails-suc attempt w k failed later (suc j) lt = later j (omega (arith, lt))

  attempts-Ends :
      (left attempt : ℕ) (w : W) → Ends left attempt w (attempts sleep backoff once left attempt w)
  unfolding attempts
  attempts-Ends zero attempt w = elim (result_cases (once w).0) [
    | inl succeeded ↦ inl (0, omega arith, λ j lt. absurd (omega (arith, lt)), refl, succeeded)
    | inr (e, failed) ↦
        inr (Fails-suc attempt w 0 failed (λ j lt. absurd (omega (arith, lt))), refl)
  ]
  attempts-Ends (suc left) attempt w = elim (result_cases (once w).0) [
    | inl succeeded ↦
        let at_once : attempts sleep backoff once (suc left) attempt w ≡ once w =
          rw (succeeded, attempts) refl in
        inl (
          0,
          omega arith,
          λ j lt. absurd (omega (arith, lt)),
          at_once,
          ap (λ x. x.0) at_once ∙ succeeded,
        )
    | inr (e, failed) ↦
        let w' = sleep (backoff * attempt) (once w).1 in
        let again : attempts sleep backoff once (suc left) attempt w
            ≡ attempts sleep backoff once left (suc attempt) w' =
          rw (failed, attempts) refl in
        elim (attempts-Ends left (suc attempt) w') [
          | inl (k, lt, fails, end, good) ↦ inl (
            suc k,
            omega (arith, lt),
            Fails-suc attempt w k failed fails,
            again ∙ end,
            ap (λ x. x.0) again ∙ good,
          )
          | inr (fails, end) ↦ inr (Fails-suc attempt w (suc left) failed fails, again ∙ end)
        ]
  ]

-- For each limit, also 0: `publish` makes at most as many attempts as the limit says, one where it is 0. Either it stops
-- with success after the first attempt that succeeds, or every attempt fails and it ends as the last one did; after the
-- k-th failed attempt that is not the last there is a pause of k times the backoff.
pub publish-Ends :
    {W Connection : Type 0} (broker : Broker W Connection) (nats_url subject : String)
    (connect_timeout max_attempts backoff : ℕ) (event : Event) (w : W)
    → (let settings = init nats_url subject connect_timeout max_attempts backoff in
        Ends broker.sleep backoff
          (publish_once broker settings event)
          (max 1 max_attempts - 1)
          1
          w
          (publish broker settings event w))
unfolding publish
publish-Ends broker nats_url subject connect_timeout max_attempts backoff event w =
    attempts-Ends broker.sleep backoff
      (publish_once broker (init nats_url subject connect_timeout max_attempts backoff) event)
      (max 1 max_attempts - 1) 1 w
