-- ===== src/Wiring/Posts.antt =====
-- How often one request to bind posts its credentials.
pub mod Quiet
pub mod Once
use ktayl_underwriting.Prelude.{
  ℕ, suc, ◌+◌, ◌≤◌, ◌<◌, ◌≡◌, refl, sym, ap, ◌∙◌, subst, ◌⊎◌, inl, inr, String, Bool, true, some,
  none, lt→ltb, arith, if◌then◌else◌, Bool-cases, Option-cases, ltb,
}
use ktayl_underwriting.Store.Rows.{Fault, Result, ok, raised}
use ktayl_underwriting.Bind.Interfaces.{Call, continue, CreatePolicyRequest, lift, ◌>>=◌, ◌>>◌}
use ktayl_underwriting.Bind.Token.{Cache, TokenBody, ttl_of, keep, kept, token, expiry_skew_seconds}
use ktayl_underwriting.Wiring.{Settings, Net, beside, provider_token}

-- What is assumed of the network during a request: `posts` counts the requests for a token and nothing else, the clock
-- stands between two times, and a token lives so long that it is fresh throughout.
pub record IsObserved {W : Type 0} (net : Net W) (posts : W → ℕ) (During : W → Type 0)
    (earliest latest : ℕ) : Type 0 where
  pub clock :
      (w : W)
      → During w
      → (earliest ≤ (net.monotonic w).0)
        × ((net.monotonic w).0 ≤ latest)
        × (posts (net.monotonic w).1 ≡ posts w)
        × During (net.monotonic w).1
  pub counts :
      (url id secret scope : String) (w : W)
      → During w
      → (posts (net.post_token url id secret scope w).1 ≡ suc (posts w))
        × During (net.post_token url id secret scope w).1
  pub lives :
      (url id secret scope : String) (w : W) (body : TokenBody)
      → During w
      → (net.post_token url id secret scope w).0 ≡ ok body
      → latest + expiry_skew_seconds < earliest + ttl_of body
  pub creates :
      (url bearer : String) (r : CreatePolicyRequest) (w : W)
      → During w
      → (posts (net.post_policy url bearer r w).1 ≡ posts w)
        × During (net.post_policy url bearer r w).1
  pub lists :
      (url bearer number : String) (w : W)
      → During w
      → (posts (net.get_policies url bearer number w).1 ≡ posts w)
        × During (net.get_policies url bearer number w).1
  pub moves :
      (url bearer : String) (w : W)
      → During w
      → (posts (net.post_transition url bearer w).1 ≡ posts w)
        × During (net.post_transition url bearer w).1

module _ {W : Type 0} (net : Net W) (posts : W → ℕ) (During : W → Type 0) (earliest latest n : ℕ)
    (observed : IsObserved net posts During earliest latest) where
  -- Nothing was posted, or one token was fetched that is fresh until the end.
  abbrev pub Holds : W × Cache → Type 0
  Holds (w, cache) =
      During w
      × (((cache.cached ≡ none) × (posts w ≡ n))
          ⊎ ((t : String) × (cache.cached ≡ some t)
              × (latest + expiry_skew_seconds < cache.expires_at)
              × (posts w ≡ suc n)))

  -- A call that returns keeps this, and one that raises has posted once at most.
  abbrev pub After : {A : Type 0} → Result A × (W × Cache) → Type 0
  After (ok a, w) = Holds w
  After (raised e, w) = posts w.0 ≤ suc n

  abbrev pub Keeps : {A : Type 0} → Call (W × Cache) A → Type 0
  Keeps call = (w : W × Cache) → Holds w → After (call w)

  pub Holds-le : (w : W × Cache) → Holds w → posts w.0 ≤ suc n
  Holds-le w (during, inl (empty, e)) = omega (arith, e)
  Holds-le w (during, inr (t, there, fresh, e)) = omega (arith, e)

  pub lift-Keeps : {A : Type 0} (r : Result A) → Keeps (lift r)
  lift-Keeps (ok a) w h = h
  lift-Keeps (raised e) w h = Holds-le w h

  continue-After :
      {A B : Type 0} (f : A → Call (W × Cache) B) (x : Result A × (W × Cache))
      → After x
      → ((a : A) → Keeps (f a))
      → After (continue f x)
  continue-After f (ok a, w) h k = k a w h
  continue-After f (raised e, w) h k = h

  pub then-Keeps :
      {A B : Type 0} (call : Call (W × Cache) A) (f : A → Call (W × Cache) B)
      → Keeps call
      → ((a : A) → Keeps (f a))
      → Keeps (call >>= f)
  then-Keeps call f h k w holds = continue-After f (call w) (h w holds) k

  pub quiet-After :
      {A : Type 0} (r : Result A) (w w' : W) (cache : Cache)
      → Holds (w, cache)
      → posts w' ≡ posts w
      → During w'
      → After (r, (w', cache))
  quiet-After (ok a) w w' cache (during, inl (empty, e)) same during' =
      (during', inl (empty, same ∙ e))
  quiet-After (ok a) w w' cache (during, inr (t, there, fresh, e)) same during' =
      (during', inr (t, there, fresh, same ∙ e))
  quiet-After (raised f) w w' cache h same during' = omega (arith, same, Holds-le (w, cache) h)

  -- A call that neither posts nor touches the cache.
  pub beside-Keeps :
      {A : Type 0} (call : Call W A)
      → ((w : W) → During w → (posts (call w).1 ≡ posts w) × During (call w).1)
      → Keeps (beside call)
  beside-Keeps call still (w, cache) h =
      let (same, during) = still w h.0 in quiet-After (call w).0 w (call w).1 cache h same during

  abbrev as_call : (Result String × Cache) × W → Result String × (W × Cache)
  as_call ((r, cache), w) = (r, (w, cache))

  -- What is kept of a token that was asked for.
  keep-After :
      (now : ℕ) (cache : Cache) (body : TokenBody) (w : W)
      → posts w ≡ suc n
      → During w
      → latest + expiry_skew_seconds < now + ttl_of body
      → After (as_call (keep now cache body, w))
  keep-After now cache body w e during fresh = elim (Option-cases body.access_token) [
    | inl missing ↦ rw missing (omega (arith, e))
    | inr (t, there) ↦ rw there (during, inr (t, refl, fresh, e))
  ]

  kept-After :
      (now : ℕ) (cache : Cache) (x : Result TokenBody × W)
      → posts x.1 ≡ suc n
      → During x.1
      → ((body : TokenBody) → x.0 ≡ ok body → latest + expiry_skew_seconds < now + ttl_of body)
      → After (as_call (kept now cache x))
  kept-After now cache (raised f, w) e during fresh = omega (arith, e)
  kept-After now cache (ok body, w) e during fresh =
      keep-After now cache body w e during (fresh body refl)

  pub token-Keeps : (settings : Settings) → Keeps (provider_token settings net)
  unfolding provider_token token
  token-Keeps settings (w, cache) (during, inl (empty, e)) =
      let (low, high, same, during1) = observed.clock w during in
      let now = (net.monotonic w).0 in
      let w1 = (net.monotonic w).1 in
      let x =
        net.post_token settings.oidc_token_url settings.oidc_client_id settings.oidc_client_secret
          settings.oidc_scope w1 in
      let (counted, during2) =
        observed.counts settings.oidc_token_url settings.oidc_client_id settings.oidc_client_secret
          settings.oidc_scope w1 during1 in
      rw (empty, token)
        (kept-After now cache x (counted ∙ ap suc (same ∙ e)) during2 λ body h.
          let lives =
            observed.lives settings.oidc_token_url settings.oidc_client_id
              settings.oidc_client_secret settings.oidc_scope w1 body during1 h in
          omega (arith, lives, low))
  token-Keeps settings (w, cache) (during, inr (t, there, fresh, e)) =
      let (low, high, same, during1) = observed.clock w during in
      let early : ltb ((net.monotonic w).0 + expiry_skew_seconds) cache.expires_at ≡ true =
        lt→ltb _ _ (omega (arith, fresh, high)) in
      rw (there, early, token) (during1, inr (t, there, fresh, same ∙ e))
