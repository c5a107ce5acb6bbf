-- ===== src/Tests/RetryTests.antt =====
-- Retries against a broker and a database that fail some times.
use ktayl_underwriting.Prelude.{ℕ, ◌+◌, ◌-◌, ◌≡◌, refl, String, ltb, max, if◌then◌else◌}
use ktayl_underwriting.Prelude.Int.{pos}
use ktayl_underwriting.Store.Rows.{ok, raised, publish_error}
use ktayl_underwriting.Bind.Interfaces.{Event}
use ktayl_underwriting.Bind.Nats.{Broker, init, publish_once, publish, attempts}
use ktayl_underwriting.Bind.NatsRetries.{Ends, publish-Ends}
use ktayl_underwriting.Startup.{
  Driver, Started, accepts, not_ready, available, gave_up, wait_for_db, wait_loop,
  bootstrap_database,
}
use ktayl_underwriting.Startup.Waiting.{Waits, wait_for_db_ends}

-- The calls so far and the time slept. Connecting works from the third time on.
abbrev World : Type 0
World = ℕ × ℕ

abbrev broker : Broker World String
broker = record {
  connect = λ url timeout (calls, slept).
      ((if ltb calls 2 then raised publish_error else ok url), (calls + 1, slept));
  publish = λ connection subject event w. (ok tt, w);
  flush = λ connection w. (ok tt, w);
  drain = λ connection w. (ok tt, w);
  sleep = λ time (calls, slept). (calls, slept + time);
}

abbrev event : Event
event = record {
  policy_number = "UW-1";
  submission_id = 1;
  quote_id = 2;
  premium_minor = pos 25_000;
  currency = "EUR";
  product_code = "COMM_PROP";
  effective_date = "2026-01-01T00:00:00Z";
  expiry_date = "2027-01-01T00:00:00Z";
}

-- Three attempts reach a broker that fails twice, with pauses of 200 and 400 milliseconds; two do not.
third_attempt : publish broker (init "nats://n" "s" 5000 3 200) event (0, 0) ≡ (ok tt, (3, 600))
unfolding publish publish_once attempts
third_attempt = refl

two_attempts :
    publish broker (init "nats://n" "s" 5000 2 200) event (0, 0) ≡ (raised publish_error, (2, 200))
unfolding publish publish_once attempts
two_attempts = refl

publish-Ends_example :
    Ends broker.sleep 200
      (publish_once broker (init "nats://n" "s" 5000 3 200) event)
      (max 1 3 - 1)
      1
      (0, 0)
      (publish broker (init "nats://n" "s" 5000 3 200) event (0, 0))
publish-Ends_example = publish-Ends broker "nats://n" "s" 5000 3 200 event (0, 0)

-- The database answers from the third time on.
abbrev driver : Driver World
driver = record {
  probe = λ (calls, slept). ((if ltb calls 2 then not_ready else accepts), (calls + 1, slept));
  sleep = λ time (calls, slept). (calls, slept + time);
  dispose = λ w. w;
  upgrade_head = λ w. (available, w);
}

started : bootstrap_database driver (0, 0) ≡ (available, (3, 6000))
unfolding bootstrap_database wait_for_db wait_loop
started = refl

not_started : wait_for_db driver 3000 2 (0, 0) ≡ (gave_up, (2, 3000))
unfolding wait_for_db wait_loop
not_started = refl

wait_for_db_ends_example :
    (end : Started × World) × Waits driver 3000 60 (0, 0) end
    × (wait_for_db driver 3000 60 (0, 0) ≡ (end.0, driver.dispose end.1))
wait_for_db_ends_example = wait_for_db_ends driver 3000 60 (0, 0)
