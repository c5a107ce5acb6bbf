-- ===== src/Bind/Token.antt =====
-- `ClientCredentialsTokenProvider` of app/bind/token.py: the token cache. The clock and the token endpoint are
-- parameters; times are counted in whole seconds.
use ktayl_underwriting.Prelude.{
  ℕ, ◌+◌, ◌<◌, ◌≡◌, refl, ap, ◌∙◌, ◌⊎◌, inl, inr, String, Option, none, some, ltb, lt→ltb, ltb→lt,
  Option-cases, Bool-cases, if◌then◌else◌,
}
use ktayl_underwriting.Store.Rows.{Result, ok, raised, key_error}
use ktayl_underwriting.Store.Results.{ok-injective}
use ktayl_underwriting.Bind.Interfaces.{Call}

-- `_cached` and `_expires_at`
pub record Cache : Type 0 where
  pub cached : Option String
  pub expires_at : ℕ

abbrev pub no_token : Cache
no_token = record { cached = none; expires_at = 0 }

-- The keys of the token response; `none` is a missing key.
pub record TokenBody : Type 0 where
  pub access_token : Option String
  pub expires_in : Option ℕ

abbrev pub expiry_skew_seconds : ℕ
expiry_skew_seconds = 30

abbrev pub default_ttl_seconds : ℕ
default_ttl_seconds = 300

abbrev pub ttl_of : TokenBody → ℕ
ttl_of body = elim body.expires_in [ none ↦ default_ttl_seconds | some ttl ↦ ttl ]

-- What is kept of a response that came at `now`.
abbrev pub keep : ℕ → Cache → TokenBody → Result String × Cache
keep now cache body = elim body.access_token [
  | none ↦ (raised key_error, cache)
  | some t ↦ (ok t, record { cached = some t; expires_at = now + ttl_of body })
]

abbrev pub kept : {W : Type 0} → ℕ → Cache → Result TokenBody × W → (Result String × Cache) × W
kept now cache (raised e, w) = ((raised e, cache), w)
kept now cache (ok body, w) = (keep now cache body, w)

kept-IsFresh :
    {W : Type 0} (now : ℕ) (cache : Cache) (x : Result TokenBody × W) {t : String}
    → (kept now cache x).0.0 ≡ ok t
    → ((kept now cache x).0.1.cached ≡ some t)
      × ((body : TokenBody) × (x.0 ≡ ok body) × (body.access_token ≡ some t))
kept-IsFresh now cache (raised e, w) h = absurd (cc)
kept-IsFresh now cache (ok body, w) {t} h = elim (Option-cases body.access_token) [
  | inl missing ↦ absurd (cc (rw missing at h))
  | inr (u, there) ↦
      let same : u ≡ t = ok-injective (rw there at h) in
      (rw there (ap some same), (body, refl, there ∙ ap some same))
]

module _ {W : Type 0} (fetch : Call W TokenBody) where
  -- `token`; `fetch` posts the credentials, and raises what `raise_for_status` raises.
  unfoldable pub token : ℕ → Cache → W → (Result String × Cache) × W
  token now cache w =
      let fetched = kept now cache (fetch w) in
      elim cache.cached [
        | none ↦ fetched
        | some t ↦
            if ltb (now + expiry_skew_seconds) cache.expires_at then ((ok t, cache), w) else fetched
      ]

  -- After the endpoint has given a token that lives `ttl_of body` seconds, each call that comes more than the expiry skew
  -- before its end returns that token, posts nothing and keeps the cache.
  pub token-token :
      (now later_on : ℕ) (cache : Cache) (w w1 w2 : W) (body : TokenBody) (t : String)
      → fetch w ≡ (ok body, w1)
      → body.access_token ≡ some t
      → cache.cached ≡ none
      → later_on + expiry_skew_seconds < now + ttl_of body
      → (let (r, c) = (token now cache w).0 in (r ≡ ok t) × (token later_on c w2 ≡ ((ok t, c), w2)))
  unfolding token
  token-token now later_on cache w w1 w2 body t fetched given empty early =
      let next : Cache = record { cached = some t; expires_at = now + ttl_of body } in
      let e : token now cache w ≡ ((ok t, next), w1) = rw (empty, fetched, given, token) refl in
      rw e
        (refl, rw (lt→ltb (later_on + expiry_skew_seconds) (now + ttl_of body) early, token) refl)

  -- A token that is returned stands in the cache that is left, and either was fetched by this call or is returned more than
  -- the expiry skew before it expires.
  pub token-IsFresh :
      (now : ℕ) (cache : Cache) (w : W) {t : String}
      → (token now cache w).0.0 ≡ ok t
      → ((token now cache w).0.1.cached ≡ some t)
        × (((body : TokenBody) × ((fetch w).0 ≡ ok body) × (body.access_token ≡ some t))
            ⊎ (now + expiry_skew_seconds < cache.expires_at))
  unfolding token
  token-IsFresh now cache w {t} h = elim (Option-cases cache.cached) [
    | inl empty ↦
        let (stored, (body, p, q)) = kept-IsFresh now cache (fetch w) (rw (empty, token) at h) in
        rw (empty, token) (stored, inl (body, p, q))
    | inr (u, there) ↦ elim (Bool-cases (ltb (now + expiry_skew_seconds) cache.expires_at)) [
      | inl early ↦
          rw (there, early, token)
            (there ∙ ap some (ok-injective (rw (there, early, token) at h)), inr (ltb→lt _ _ early))
      | inr due ↦
          let (stored, (body, p, q)) =
            kept-IsFresh now cache (fetch w) (rw (there, due, token) at h) in
          rw (there, due, token) (stored, inl (body, p, q))
    ]
  ]
