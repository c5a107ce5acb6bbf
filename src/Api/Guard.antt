-- ===== src/Api/Guard.antt =====
-- The dependencies of the endpoints of app/api/routes.py: the scope check of the route, then, for a write, the actor.
-- Both come before the parameters of the endpoint are checked.
use ktayl_underwriting.Prelude.{
  ℕ, suc, String, Option, ◌≡◌, refl, sym, ap, ◌∙◌, ◌⊎◌, inl, inr, true, false, Bool-cases, str_eq,
}
use ktayl_underwriting.Prelude.Text.{contains}
use ktayl_underwriting.Api.Routes.{Response, failed}
use ktayl_underwriting.Api.Auth.{
  Claims, Decoded, valid, expired, invalid, crashed, Decoder, dev_actor, Admission, admitted,
  refused, bearer_token, actor_from_claims, scopes_from_claims, with_token, actor_of, scoped,
  current_actor, require_scope,
}

module _ (jwks_url : String) (decode : Decoder) (n : ℕ) (header : Option String) where
  -- `dependencies=[_READ]`
  unfoldable pub reading : {A : Type 0} → Response A → Response A
  reading answer = elim (require_scope jwks_url decode "underwriting:read" n header) [
    | refused status detail ↦ failed status
    | admitted caller ↦ answer
  ]

  -- `dependencies=[_WRITE]` and `actor: Actor`, each of which validates the token
  unfoldable pub writing : {A S : Type 0} → (String → Response A × S) → S → Response A × S
  writing handler s = elim (require_scope jwks_url decode "underwriting:write" n header) [
    | refused status detail ↦ (failed status, s)
    | admitted caller ↦ elim (current_actor jwks_url decode (suc n) header) [
      | refused status detail ↦ (failed status, s)
      | admitted actor ↦ handler actor
    ]
  ]

admission_cases :
    {A : Type 0} (x : Admission A)
    → ((status : ℕ) × (detail : String) × (x ≡ refused status detail))
      ⊎ ((a : A) × (x ≡ admitted a))
admission_cases (refused status detail) = inl (status, detail, refl)
admission_cases (admitted a) = inr (a, refl)

-- What passed came by a token.
with_token-eq-admitted :
    {A : Type 0} (x : Admission String) (next : String → Admission A) {a : A}
    → with_token x next ≡ admitted a
    → (token : String) × (x ≡ admitted token) × (next token ≡ admitted a)
with_token-eq-admitted (refused status detail) next h = cc
with_token-eq-admitted (admitted token) next h = (token, refl, h)

actor_of-eq-admitted :
    (d : Decoded) {a : String}
    → actor_of d ≡ admitted a
    → (claims : Claims) × (d ≡ valid claims) × (a ≡ actor_from_claims claims)
actor_of-eq-admitted (valid claims) h = (claims, refl, cc)
actor_of-eq-admitted expired h = cc
actor_of-eq-admitted invalid h = cc
actor_of-eq-admitted crashed h = cc

scoped-eq-admitted :
    (required : String) (d : Decoded) {a : String}
    → scoped required d ≡ admitted a
    → (claims : Claims) × (d ≡ valid claims)
      × (contains required (scopes_from_claims claims) ≡ true)
scoped-eq-admitted required (valid claims) h =
    elim (Bool-cases (contains required (scopes_from_claims claims))) [
      | inl has ↦ (claims, refl, has)
      | inr lacks ↦ cc (lacks, h)
    ]
scoped-eq-admitted required expired h = cc
scoped-eq-admitted required invalid h = cc
scoped-eq-admitted required crashed h = cc

-- The token of the request was found valid, with the scope, and then valid again, for the actor.
pub record IsAuthorised (decode : Decoder) (n : ℕ) (header : Option String)
    (required actor : String) : Type 0 where
  pub token : String
  pub bearer : bearer_token header ≡ admitted token
  pub claims : Claims
  pub checked : decode n token ≡ valid claims
  pub in_scope : contains required (scopes_from_claims claims) ≡ true
  pub claims_again : Claims
  pub checked_again : decode (suc n) token ≡ valid claims_again
  pub is_actor : actor ≡ actor_from_claims claims_again

module _ (jwks_url : String) (decode : Decoder) (n : ℕ) (header : Option String) where
  both-IsAuthorised :
      (required : String) {caller actor : String}
      → str_eq jwks_url "" ≡ false
      → require_scope jwks_url decode required n header ≡ admitted caller
      → current_actor jwks_url decode (suc n) header ≡ admitted actor
      → IsAuthorised decode n header required actor
  unfolding require_scope current_actor
  both-IsAuthorised required on h k =
      let (token, bearer, h1) =
        with_token-eq-admitted (bearer_token header) (λ t. scoped required (decode n t))
          (rw on at h) in
      let (claims, checked, has) = scoped-eq-admitted required (decode n token) h1 in
      let (token', bearer', k1) =
        with_token-eq-admitted (bearer_token header) (λ t. actor_of (decode (suc n) t))
          (rw on at k) in
      let (claims', checked', is_actor) = actor_of-eq-admitted (decode (suc n) token') k1 in
      let same : token' ≡ token = cc in
      record {
        token = token;
        bearer = bearer;
        claims = claims;
        checked = checked;
        in_scope = has;
        claims_again = claims';
        checked_again = ap (decode (suc n)) (sym same) ∙ checked';
        is_actor = is_actor;
      }

  -- Where a key URL is set, a write is refused with nothing done, or its token was valid and had the scope
  -- `underwriting:write`, and what is done is what the endpoint does for the caller that the token names.
  pub writing_cases :
      {A S : Type 0} (handler : String → Response A × S) (s : S)
      → str_eq jwks_url "" ≡ false
      → ((status : ℕ) × (writing jwks_url decode n header handler s ≡ (failed status, s)))
        ⊎ ((actor : String) × IsAuthorised decode n header "underwriting:write" actor
            × (writing jwks_url decode n header handler s ≡ handler actor))
  unfolding writing
  writing_cases handler s on =
      elim (admission_cases (require_scope jwks_url decode "underwriting:write" n header)) [
        | inl (status, _, e) ↦ inl (status, rw (e, writing) refl)
        | inr (caller, passed) ↦
            elim (admission_cases (current_actor jwks_url decode (suc n) header)) [
              | inl (status, _, e) ↦ inl (status, rw (passed, e, writing) refl)
              | inr (actor, known) ↦ inr (
                actor,
                both-IsAuthorised "underwriting:write" on passed known,
                rw (passed, known, writing) refl,
              )
            ]
      ]

  -- Where a key URL is set, a token that is valid, has the scope `underwriting:write` and is valid again is
  -- served: the write is what the endpoint does for the caller that the token names.
  pub writing-IsAuthorised :
      {A S : Type 0} (handler : String → Response A × S) (s : S) (actor : String)
      → str_eq jwks_url "" ≡ false
      → IsAuthorised decode n header "underwriting:write" actor
      → writing jwks_url decode n header handler s ≡ handler actor
  unfolding writing require_scope current_actor
  writing-IsAuthorised handler s actor on a =
      let in_scope : require_scope jwks_url decode "underwriting:write" n header
          ≡ admitted (actor_from_claims a.claims) =
        rw (on, require_scope) (rw a.bearer (rw a.checked (rw a.in_scope refl))) in
      let known : current_actor jwks_url decode (suc n) header ≡ admitted actor =
        rw (on, current_actor) (rw a.bearer (rw a.checked_again (ap admitted (sym a.is_actor)))) in
      rw (in_scope, known, writing) refl

  -- Where no key URL is set, every write is served, for the placeholder.
  pub writing_open :
      {A S : Type 0} (handler : String → Response A × S) (s : S)
      → str_eq jwks_url "" ≡ true
      → writing jwks_url decode n header handler s ≡ handler dev_actor
  unfolding writing require_scope current_actor
  writing_open handler s off =
      let in_scope : require_scope jwks_url decode "underwriting:write" n header
          ≡ admitted dev_actor =
        rw (off, require_scope) refl in
      let known : current_actor jwks_url decode (suc n) header ≡ admitted dev_actor =
        rw (off, current_actor) refl in
      rw (in_scope, known, writing) refl
