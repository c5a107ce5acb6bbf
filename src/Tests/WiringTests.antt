-- ===== src/Tests/WiringTests.antt =====
-- A bind with the parts that app/api/deps.py makes, over a network that counts the requests for a token.
use ktayl_underwriting.Prelude.{ℕ, suc, ◌≤◌, ◌≡◌, refl, String, some, none, [], arith}
use ktayl_underwriting.Store.Rows.{ok}
use ktayl_underwriting.Bind.HttpClient
use ktayl_underwriting.Bind.Nats.{Broker}
use ktayl_underwriting.Api.Routes
use ktayl_underwriting.Bind.Nats
use ktayl_underwriting.Bind.Service
use ktayl_underwriting.Bind.Token.{token}
use ktayl_underwriting.Store.Queries.{
  get_submission, by_submission, by_policy_number, latest_decision, latest_quote, add_binding,
  append_audit,
}
use ktayl_underwriting.Wiring.{
  Net, defaults, rstrip_slashes, bind_request, get_policy_service_client, http, provider_token,
  get_bound_risk_publisher,
}
use ktayl_underwriting.Wiring.Posts.{IsObserved}
use ktayl_underwriting.Wiring.Posts.Quiet.{IsQuiet}
use ktayl_underwriting.Wiring.Posts.Once.{bind_request_posts}
use ktayl_underwriting.Tests.Fixtures.{env}
use ktayl_underwriting.Tests.SystemTests.{quoted_db}

-- The world is the number of requests for a token; each gives one that lives 300 seconds.
abbrev net : Net ℕ
net = record {
  monotonic = λ w. (50, w);
  post_token = λ url id secret scope w.
      (ok (record { access_token = some "t"; expires_in = some 300 }), suc w);
  post_policy = λ url bearer req w. (
    ok (record {
      status_code = 201;
      json = ok (record { id = some "p"; status = none; policy_number = none });
    }),
    w,
  );
  get_policies =
      λ url bearer number w. (ok (record { status_code = 500; json = ok (HttpClient.bare []) }), w);
  post_transition = λ url bearer w. (ok 200, w);
}

abbrev broker : Broker ℕ String
broker = record {
  connect = λ url timeout w. (ok url, w);
  publish = λ c subject event w. (ok tt, w);
  flush = λ c w. (ok tt, w);
  drain = λ c w. (ok tt, w);
  sleep = λ time w. w;
}

observed : IsObserved net (λ w. w) (λ w. Unit {0}) 50 50
observed = record {
  clock = λ w during. (omega arith, omega arith, refl, tt);
  counts = λ url id secret scope w during. (refl, tt);
  lives = λ url id secret scope w body during h. ground (arith, h);
  creates = λ url bearer req w during. (refl, tt);
  lists = λ url bearer number w during. (refl, tt);
  moves = λ url bearer w during. (refl, tt);
}

quiet : IsQuiet (λ (w : ℕ). w) (λ w. Unit {0}) broker
quiet = record {
  connects = λ url timeout w during. (refl, tt);
  publishes = λ c subject event w during. (refl, tt);
  flushes = λ c w during. (refl, tt);
  drains = λ c w during. (refl, tt);
  sleeps = λ time w during. (refl, tt);
}

no_trailing_slash : rstrip_slashes "http://p//" ≡ "http://p"
unfolding rstrip_slashes
no_trailing_slash = refl

bind_request_posts_example : (bind_request defaults net broker env 1 "u" quoted_db 0).1 ≤ 1
bind_request_posts_example =
    bind_request_posts defaults net broker (λ w. w) (λ w. Unit) 50 50 env 1 "u" quoted_db 0 observed
      quiet tt

posted_once : (bind_request defaults net broker env 1 "u" quoted_db 0).1 ≡ 1
unfolding bind_request Routes.bind_submission Service.bind_submission get_submission by_submission
    Service.bind_new latest_decision latest_quote get_policy_service_client HttpClient.http_client
    HttpClient.create_policy http provider_token token HttpClient.on_created HttpClient.transition
    get_bound_risk_publisher Nats.publish Nats.attempts Nats.publish_once Service.record_binding
    Service.publish_best_effort Service.create_request Service.policy_number_for
    Service.counterparty_name Service.cover_dates Service.product_code_for by_policy_number
    add_binding append_audit
posted_once = refl
