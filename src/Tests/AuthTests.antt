-- ===== src/Tests/AuthTests.antt =====
-- Tokens, scopes, and requests that come in with them.
use ktayl_underwriting.Prelude.{
  ℕ, ◌≡◌, refl, true, some, none, Option, String, List, [], ◌∷◌, All, str_eq, first, later, Mem,
  if◌then◌else◌,
}
use ktayl_underwriting.Store.Rows.{AuditEntry, empty}
use ktayl_underwriting.Api.Auth.{
  Claims, Claim, Decoder, valid, invalid, bearer_token, actor_from_claims, scopes_from_claims,
  split, pieces, is_space,
}
use ktayl_underwriting.Api.Guard.{IsAuthorised, writing, writing-IsAuthorised}
use ktayl_underwriting.Api.Scopes.{scopes_from_claims-scope_text}
use ktayl_underwriting.Api.Routes
use ktayl_underwriting.Api.Routes.{reply, failed}
use ktayl_underwriting.System.Run.{Request, run}
use ktayl_underwriting.System.Secured.{
  Incoming, start_up, post_submission, post_assess, post_quote, serve_all, serve_all-run,
  serve_all-IsVouched, IsVouched, IsVouchedRequest,
}
use ktayl_underwriting.Tests.Fixtures.{env, client, publisher, payload}

-- An underwriter who may read and write, and a reader.
abbrev pub underwriter : Claims
underwriter = record {
  preferred_username = some (Claim.text "");
  email = some (Claim.text "jo@example.com");
  sub = some (Claim.text "7");
  scope = some (Claim.text "underwriting:read underwriting:write");
}

abbrev pub reader : Claims
reader = record underwriter { scope = some (Claim.text "underwriting:read") }

-- The token `u` is the underwriter's, until the tenth validation, and `r` the reader's.
abbrev pub decode : Decoder
decode n token =
    if str_eq token "u"
    then valid underwriter
    else if str_eq token "r"
    then valid reader
    else invalid

abbrev pub url : String
url = "https://auth.example.com/jwks"

abbrev pub header : Option String
header = some "Bearer u"

scopes : scopes_from_claims underwriter ≡ "underwriting:read" ∷ "underwriting:write" ∷ []
unfolding scopes_from_claims split pieces is_space
scopes = refl

spaces : split "  a\tb  c " ≡ "a" ∷ "b" ∷ "c" ∷ []
unfolding split pieces is_space
spaces = refl

-- A token whose scopes are of one letter.
abbrev two_scopes : Claims
two_scopes = record underwriter { scope = some (Claim.text "r w") }

scopes_from_claims-scope_text_example : scopes_from_claims two_scopes ≡ "r" ∷ "w" ∷ []
unfolding is_space
scopes_from_claims-scope_text_example =
    scopes_from_claims-scope_text two_scopes ("r" ∷ "w" ∷ [])
      (((λ e. cc), (refl, tt)), (((λ e. cc), (refl, tt)), tt)) refl

pub is_authorised : (n : ℕ) → IsAuthorised decode n header "underwriting:write" "jo@example.com"
unfolding bearer_token actor_from_claims scopes_from_claims split pieces is_space
is_authorised n = record {
  token = "u";
  bearer = refl;
  claims = underwriter;
  checked = refl;
  in_scope = refl;
  claims_again = underwriter;
  checked_again = refl;
  is_actor = refl;
}

writing-IsAuthorised_example :
    writing url decode 0 header (λ actor. Routes.assess_submission env 104 actor empty) empty
    ≡ Routes.assess_submission env 104 "jo@example.com" empty
writing-IsAuthorised_example =
    writing-IsAuthorised url decode 0 header (λ actor. Routes.assess_submission env 104 actor empty)
      empty "jo@example.com" refl (is_authorised 0)

-- A flow in which one request has a reader's token and one has none.
abbrev incoming : List Incoming
incoming =
    start_up
    ∷ post_submission header payload
    ∷ post_assess (some "Bearer r") 104
    ∷ post_assess header 104
    ∷ post_quote none 104
    ∷ []

abbrev Sent : Option String → Type 0
Sent h = Mem h (header ∷ some "Bearer r" ∷ none ∷ [])

serve_all-run_example :
    (rs : List Request) × All (IsVouchedRequest decode Sent) rs
    × (serve_all env client (publisher true) url decode 0 incoming (empty, [])
        ≡ run env client (publisher true) rs (empty, []))
serve_all-run_example =
    serve_all-run env client (publisher true) url decode Sent 0 incoming (empty, []) refl
      (tt, (first, (later first, (first, (later (later first), tt)))))

serve_all-IsVouched_example :
    All
      (λ (e : AuditEntry). IsVouched decode Sent e.actor)
      (serve_all env client (publisher true) url decode 0 incoming (empty, [])).0.audit
serve_all-IsVouched_example =
    serve_all-IsVouched env client (publisher true) url decode Sent 0 incoming [] refl
      (tt, (first, (later first, (first, (later (later first), tt)))))
