-- ===== src/Tests/TokenTests.antt =====
-- The token cache against an endpoint that gives a token for an hour.
use ktayl_underwriting.Prelude.{ℕ, suc, ◌+◌, ◌<◌, ◌≡◌, ◌⊎◌, refl, some, arith}
use ktayl_underwriting.Store.Rows.{ok}
use ktayl_underwriting.Bind.Interfaces.{Call}
use ktayl_underwriting.Bind.Token.{
  TokenBody, no_token, expiry_skew_seconds, token, token-token, token-IsFresh,
}

abbrev hour : TokenBody
hour = record { access_token = some "abc"; expires_in = some 3600 }

-- The world counts the calls.
abbrev fetch : Call ℕ TokenBody
fetch w = (ok hour, suc w)

token-token_example :
    ((token fetch 1000 no_token 0).0.0 ≡ ok "abc")
    × (token fetch 4569 (token fetch 1000 no_token 0).0.1 7
        ≡ ((ok "abc", (token fetch 1000 no_token 0).0.1), 7))
token-token_example =
    token-token fetch 1000 4569 no_token 0 1 7 hour "abc" refl refl refl (omega arith)

got_token : (token fetch 1000 no_token 0).0.0 ≡ ok "abc"
unfolding token
got_token = refl

token-IsFresh_example :
    ((token fetch 1000 no_token 0).0.1.cached ≡ some "abc")
    × (((body : TokenBody) × ((fetch 0).0 ≡ ok body) × (body.access_token ≡ some "abc"))
        ⊎ (1000 + expiry_skew_seconds < no_token.expires_at))
token-IsFresh_example = token-IsFresh fetch 1000 no_token 0 {t = "abc"} got_token
