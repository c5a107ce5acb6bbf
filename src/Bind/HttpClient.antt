-- ===== src/Bind/HttpClient.antt =====
-- `HttpPolicyServiceClient` of app/bind/policy_client.py, over an HTTP library and a token provider.
use Prim.Native.String.{◌++◌ as str_append}
use ktayl_underwriting.Prelude.{
  ℕ, String, Bool, false, ◌||◌, Option, none, some, List, [], ◌∷◌, ◌==◌, str_eq, if◌then◌else◌,
}
use ktayl_underwriting.Store.Rows.{
  Result, ok, raised, policy_already_exists, policy_service_error, key_error,
}
use ktayl_underwriting.Bind.Interfaces.{
  CreatePolicyRequest, PolicyRef, Call, lift, ◌>>=◌, PolicyClient,
}

-- What the code reads of a policy in a reply; `none` is a missing key.
pub record PolicyBody : Type 0 where
  pub id : Option String
  pub status : Option String
  pub policy_number : Option String

-- A list of policies comes bare, or as the value of the key `items`.
pub data Listing : Type 0 where
  bare : List PolicyBody → Listing
  keyed : Option (List PolicyBody) → Listing

pub record Reply (Body : Type 0) : Type 0 where
  pub status_code : ℕ
  pub json : Result Body

-- The calls of httpx that the client makes, with their URL and bearer token, and `TokenProviderLike`.
pub record Http (W : Type 0) : Type 0 where
  pub post_policy : String → String → CreatePolicyRequest → Call W (Reply PolicyBody)
  pub get_policies : String → String → String → Call W (Reply Listing)
  pub post_transition : String → String → Call W ℕ
  pub token : Call W String

abbrev pub status_of : Option String → String
status_of none = "draft"
status_of (some status) = status

-- `PolicyRef(id=str(body["id"]), status=str(body.get("status", "draft")))`
abbrev pub ref_of : PolicyBody → Result PolicyRef
ref_of body = elim body.id [
  | none ↦ raised key_error
  | some id ↦ ok (record { id = id; status = status_of body.status })
]

abbrev pub items_of : Listing → List PolicyBody
items_of (bare items) = items
items_of (keyed none) = []
items_of (keyed (some items)) = items

abbrev pub has_number : String → Option String → Bool
has_number number none = false
has_number number (some n) = str_eq n number

-- The loop of `_resolve_existing`.
unfoldable pub resolve : String → List PolicyBody → Result (Option PolicyRef)
resolve number [] = ok none
resolve number (item ∷ items) =
    let rest = resolve number items in
    if has_number number item.policy_number
    then elim (ref_of item) [ raised e ↦ raised e | ok ref ↦ ok (some ref) ]
    else rest

abbrev pub listed : String → Result Listing → Result (Option PolicyRef)
listed number (raised e) = raised e
listed number (ok listing) = resolve number (items_of listing)

abbrev pub created_ref : Result PolicyBody → Result PolicyRef
created_ref (raised e) = raised e
created_ref (ok body) = ref_of body

abbrev pub resolved : Option PolicyRef → Result PolicyRef
resolved none = raised policy_already_exists
resolved (some ref) = ok ref

module _ {W : Type 0} (http : Http W) (base_url : String) where
  -- `_resolve_existing`
  unfoldable pub resolve_existing : String → Call W (Option PolicyRef)
  resolve_existing number = do
    token ← http.token
    resp ← http.get_policies (str_append base_url "/v1/policies") token number
    lift (if resp.status_code == 200 then listed number resp.json else ok none)

  -- What `create_policy` does with the reply.
  unfoldable pub on_created : CreatePolicyRequest → Reply PolicyBody → Call W PolicyRef
  on_created req resp =
      let conflict : Call W PolicyRef =
        resolve_existing req.policy_number >>= λ found. lift (resolved found) in
      if resp.status_code == 201
      then lift (created_ref resp.json)
      else if resp.status_code == 409
      then conflict
      else lift (raised policy_service_error)

  unfoldable pub create_policy : CreatePolicyRequest → Call W PolicyRef
  create_policy req = do
    token ← http.token
    resp ← http.post_policy (str_append base_url "/v1/policies") token req
    on_created req resp

  abbrev pub is_benign : ℕ → Bool
  is_benign status_code = (status_code == 200) || (status_code == 201) || (status_code == 409)

  -- `_transition`
  unfoldable pub transition : String → String → Call W (Unit {0})
  transition policy_id action = do
    token ← http.token
    status_code ←
        http.post_transition
          (str_append base_url
            (str_append "/v1/policies/" (str_append policy_id (str_append "/" action))))
          token
    lift (if is_benign status_code then ok tt else raised policy_service_error)

  -- `HttpPolicyServiceClient`
  unfoldable pub http_client : PolicyClient W
  http_client = record {
    create_policy = create_policy;
    submit = λ id. transition id "submit";
    activate = λ id. transition id "activate";
  }
