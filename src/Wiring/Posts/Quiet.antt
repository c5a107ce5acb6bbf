-- ===== src/Wiring/Posts/Quiet.antt =====
-- Calls that post no credentials: those of the message broker, and a publish that is made of them.
use ktayl_underwriting.Prelude.{ℕ, zero, suc, ◌*◌, ◌≡◌, inl, inr, ◌-◌, ◌∙◌, String}
use ktayl_underwriting.Store.Rows.{Result, ok, raised}
use ktayl_underwriting.Bind.Interfaces.{Call, Event, continue, ◌>>=◌, ◌>>◌}
use ktayl_underwriting.Bind.Nats as Nats
use ktayl_underwriting.Bind.Nats.{Broker, attempts, publish_once, publish, finally}
use ktayl_underwriting.Bind.Outcomes.{Result-cases}

module _ {W : Type 0} (posts : W → ℕ) (During : W → Type 0) where
  -- A call that posts no credentials.
  abbrev pub Quiet : {A : Type 0} → Call W A → Type 0
  Quiet call = (w : W) → During w → (posts (call w).1 ≡ posts w) × During (call w).1

  -- What is assumed of the message broker.
  pub record IsQuiet {Connection : Type 0} (broker : Broker W Connection) : Type 0 where
    pub connects : (url : String) (timeout : ℕ) → Quiet (broker.connect url timeout)
    pub publishes :
        (c : Connection) (subject : String) (event : Event) → Quiet (broker.publish c subject event)
    pub flushes : (c : Connection) → Quiet (broker.flush c)
    pub drains : (c : Connection) → Quiet (broker.drain c)
    pub sleeps :
        (time : ℕ) (w : W)
        → During w
        → (posts (broker.sleep time w) ≡ posts w) × During (broker.sleep time w)

  continue-Quiet :
      {A B : Type 0} (next : A → Call W B) (w : W) (x : Result A × W)
      → (posts x.1 ≡ posts w) × During x.1
      → ((a : A) → Quiet (next a))
      → (posts (continue next x).1 ≡ posts w) × During (continue next x).1
  continue-Quiet next w (ok a, w') (same, during) k =
      let (same', last) = k a w' during in (same' ∙ same, last)
  continue-Quiet next w (raised e, w') (same, during) k = (same, during)

  then-Quiet :
      {A B : Type 0} (call : Call W A) (next : A → Call W B)
      → Quiet call
      → ((a : A) → Quiet (next a))
      → Quiet (call >>= next)
  then-Quiet call next h k w during = continue-Quiet next w (call w) (h w during) k

  finally-Quiet :
      {A : Type 0} (body : Call W A) (cleanup : Call W (Unit {0}))
      → Quiet body
      → Quiet cleanup
      → Quiet (finally body cleanup)
  finally-Quiet body cleanup h k w during =
      let (same, during1) = h w during in
      let (same', during2) = k (body w).1 during1 in (same' ∙ same, during2)

  attempts-Quiet :
      (sleep : ℕ → W → W) (backoff : ℕ) (once : Call W (Unit {0}))
      → ((time : ℕ) (w : W) → During w → (posts (sleep time w) ≡ posts w) × During (sleep time w))
      → Quiet once
      → (left attempt : ℕ) → Quiet (attempts sleep backoff once left attempt)
  unfolding attempts
  attempts-Quiet sleep backoff once rests h zero attempt w during = h w during
  attempts-Quiet sleep backoff once rests h (suc left) attempt w during =
      let (same, during1) = h w during in
      let (same', during2) = rests (backoff * attempt) (once w).1 during1 in
      let (same'', during3) =
        attempts-Quiet sleep backoff once rests h left (suc attempt)
          (sleep (backoff * attempt) (once w).1) during2 in
      elim (Result-cases (once w).0) [
        | inl (a, returned) ↦ rw (returned, attempts) (same, during1)
        | inr (e, failed) ↦ rw (failed, attempts) (same'' ∙ same' ∙ same, during3)
      ]

  pub publish-Quiet :
      {Connection : Type 0} (broker : Broker W Connection) (settings : Nats.Settings)
      (event : Event)
      → IsQuiet broker
      → Quiet (publish broker settings event)
  unfolding publish publish_once
  publish-Quiet broker settings event quiet =
      attempts-Quiet broker.sleep settings.backoff (publish_once broker settings event) quiet.sleeps
        (then-Quiet (broker.connect settings.nats_url settings.connect_timeout) _
          (quiet.connects _ _)
          λ c.
            finally-Quiet {A = Unit} (broker.publish c settings.subject event >> broker.flush c)
              (broker.drain c)
              (then-Quiet (broker.publish c settings.subject event) (λ _. broker.flush c)
                (quiet.publishes c settings.subject event) λ _. quiet.flushes c)
              (quiet.drains c))
        (settings.max_attempts - 1) 1
