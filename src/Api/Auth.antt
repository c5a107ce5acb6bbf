-- ===== src/Api/Auth.antt =====
-- app/api/auth.py: who calls, and what the caller may do. The JWT library and the keys are outside the repository.
use Prim.Native.Char.{Char, code}
use Prim.Native.String.{slice, len, ◌++◌ as str_append}
use ktayl_underwriting.Prelude.{
  ℕ, String, Bool, ◌||◌, ◌&&◌, Option, none, some, List, [], ◌∷◌, leb, ◌==◌, str_eq, starts_with,
  if◌then◌else◌,
}
use ktayl_underwriting.Prelude.Text.{contains}

-- The value of a claim: a text, or another value with its truth value and its `str`.
pub data Claim : Type 0 where
  text : String → Claim
  other : Bool → String → Claim

-- The claims that the code reads; `none` is a missing key.
pub record Claims : Type 0 where
  pub preferred_username : Option Claim
  pub email : Option Claim
  pub sub : Option Claim
  pub scope : Option Claim

-- What `_decode` gives: claims, `ExpiredSignatureError`, another `PyJWTError`, or any other exception.
pub data Decoded : Type 0 where
  valid : Claims → Decoded
  expired invalid crashed : Decoded

-- `_decode` against the keys behind the URL, at its n-th call: keys and clock move on between calls.
abbrev pub Decoder : Type 0
Decoder = ℕ → String → Decoded

-- A value, or an HTTP error with its status and detail.
pub data Admission (A : Type 0) : Type 0 where
  admitted : A → Admission A
  refused : ℕ → String → Admission A

abbrev pub dev_actor : String
dev_actor = "underwriter@ktayl"

-- `_bearer_token`; `none` is a request without the header
abbrev pub header_or_empty : Option String → String
header_or_empty none = ""
header_or_empty (some header) = header

unfoldable pub bearer_token : Option String → Admission String
bearer_token header =
    let h = header_or_empty header in
    if starts_with h "Bearer "
    then admitted (slice h 7 (len h))
    else refused 401 "Authorization: Bearer header required"

-- `if value: return str(value)`
abbrev pub present : Option Claim → Option String
present none = none
present (some (text s)) = if str_eq s "" then none else some s
present (some (other truthy s)) = if truthy then some s else none

abbrev first_present : List (Option Claim) → String
first_present [] = "unknown"
first_present (value ∷ values) = elim (present value) [ none ↦ first_present values | some s ↦ s ]

-- `_actor_from_claims`
unfoldable pub actor_from_claims : Claims → String
actor_from_claims claims =
    first_present (claims.preferred_username ∷ claims.email ∷ claims.sub ∷ [])

abbrev between : ℕ → ℕ → ℕ → Bool
between low high c = leb low c && leb c high

-- The characters at which `str.split` splits.
unfoldable pub is_space : Char → Bool
is_space x =
    let c = code x in
    between 9 13 c
    || between 28 32 c
    || (c == 133)
    || (c == 160)
    || (c == 5760)
    || between 8192 8202 c
    || between 8232 8233 c
    || (c == 8239)
    || (c == 8287)
    || (c == 12288)

-- A word that ends here, if there is one.
abbrev pub close : String → List String → List String
close String.[] words = words
close (String.◌∷◌ c s) words = String.◌∷◌ c s ∷ words

-- The text up to the first space, and the words after it.
unfoldable pub pieces : String → String × List String
unfolding is_space
pieces String.[] = ("", [])
pieces (String.◌∷◌ c s) =
    let (word, words) = pieces s in
    if is_space c then ("", close word words) else (String.◌∷◌ c word, words)

-- `text.split()`
unfoldable pub split : String → List String
split s = close (pieces s).0 (pieces s).1

-- `_scopes_from_claims`
unfoldable pub scopes_from_claims : Claims → List String
scopes_from_claims claims = elim claims.scope [
  | none ↦ split ""
  | some (text scope) ↦ split scope
  | some (other truthy s) ↦ []
]

abbrev pub actor_of : Decoded → Admission String
actor_of (valid claims) = admitted (actor_from_claims claims)
actor_of expired = refused 401 "token validation failed"
actor_of invalid = refused 401 "token validation failed"
actor_of crashed = refused 500 "Internal Server Error"

-- What follows a token.
abbrev pub with_token : {A : Type 0} → Admission String → (String → Admission A) → Admission A
with_token (refused status detail) next = refused status detail
with_token (admitted token) next = next token

abbrev pub scoped : String → Decoded → Admission String
scoped required (valid claims) =
    if contains required (scopes_from_claims claims)
    then admitted (actor_from_claims claims)
    else refused 403 (str_append "required scope: " required)
scoped required expired = refused 401 "token has expired"
scoped required invalid = refused 401 "token validation failed"
scoped required crashed = refused 500 "Internal Server Error"

module _ (jwks_url : String) (decode : Decoder) where
  unfoldable pub current_actor : ℕ → Option String → Admission String
  unfolding actor_from_claims
  current_actor n header =
      if str_eq jwks_url ""
      then admitted dev_actor
      else with_token (bearer_token header) λ token. actor_of (decode n token)

  unfoldable pub require_scope : String → ℕ → Option String → Admission String
  require_scope required n header =
      if str_eq jwks_url ""
      then admitted dev_actor
      else with_token (bearer_token header) λ token. scoped required (decode n token)
