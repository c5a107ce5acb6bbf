-- ===== src/Bind/Nats.antt =====
-- `NatsBoundRiskPublisher` of app/bind/publisher.py, over the NATS library and the clock. Times are in milliseconds.
use ktayl_underwriting.Prelude.{ℕ, zero, suc, ◌*◌, ◌-◌, max, String}
use ktayl_underwriting.Store.Rows.{Result, ok, raised}
use ktayl_underwriting.Bind.Interfaces.{Event, Call, ◌>>=◌, ◌>>◌, Publisher}

abbrev pub bound_risk_subject : String
bound_risk_subject = "insurance.underwriting.bound-risk"

-- The calls of the NATS library that the publisher makes, on a connection, and `time.sleep`.
pub record Broker (W Connection : Type 0) : Type 0 where
  pub connect : String → ℕ → Call W Connection
  pub publish : Connection → String → Event → Call W (Unit {0})
  pub flush : Connection → Call W (Unit {0})
  pub drain : Connection → Call W (Unit {0})
  pub sleep : ℕ → W → W

pub record Settings : Type 0 where
  pub nats_url : String
  pub subject : String
  pub connect_timeout : ℕ
  pub max_attempts : ℕ
  pub backoff : ℕ

-- `__init__`, and its defaults
abbrev pub init : String → String → ℕ → ℕ → ℕ → Settings
init nats_url subject connect_timeout max_attempts backoff = record {
  nats_url = nats_url;
  subject = subject;
  connect_timeout = connect_timeout;
  max_attempts = max 1 max_attempts;
  backoff = backoff;
}

abbrev pub defaults : String → Settings
defaults nats_url = init nats_url bound_risk_subject 5000 3 200

-- `try: body finally: cleanup`: what the cleanup raises takes the place of what the body raised or returned.
abbrev pub after_cleanup : {A : Type 0} → Result A → Result (Unit {0}) → Result A
after_cleanup r (raised e) = raised e
after_cleanup r (ok _) = r

abbrev pub finally : {W A : Type 0} → Call W A → Call W (Unit {0}) → Call W A
finally body cleanup w =
    let (r, w1) = body w in let (cleaned, w2) = cleanup w1 in (after_cleanup r cleaned, w2)

module _ {W : Type 0} (sleep : ℕ → W → W) (backoff : ℕ) (once : Call W (Unit {0})) where
  -- The loop of `publish` at an attempt, with so many attempts left after it.
  unfoldable pub attempts : ℕ → ℕ → Call W (Unit {0})
  attempts zero attempt w = once w
  attempts (suc left) attempt w = elim (once w).0 [
    | ok _ ↦ (ok tt, (once w).1)
    | raised e ↦ attempts left (suc attempt) (sleep (backoff * attempt) (once w).1)
  ]

module _ {W Connection : Type 0} (broker : Broker W Connection) (settings : Settings) where
  -- `_publish`
  unfoldable pub publish_once : Event → Call W (Unit {0})
  publish_once event = do
    connection ← broker.connect settings.nats_url settings.connect_timeout
    finally (broker.publish connection settings.subject event >> broker.flush connection)
        (broker.drain connection)

  -- `publish`, whose loop begins with attempt 1
  unfoldable pub publish : Event → Call W (Unit {0})
  unfolding attempts
  publish event =
      attempts broker.sleep settings.backoff (publish_once event) (settings.max_attempts - 1) 1

  abbrev pub nats_publisher : Publisher W
  nats_publisher = record { publish = publish }
