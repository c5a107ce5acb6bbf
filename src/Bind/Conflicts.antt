-- ===== src/Bind/Conflicts.antt =====
-- How the HTTP client meets a policy service that was called before.
use Prim.Native.String.{◌++◌ as str_append}
use ktayl_underwriting.Prelude.{
  ℕ, ◌≡◌, ◌≢◌, if◌then◌else◌, eq_iff, refl, ap, ◌∙◌, ◌⊎◌, inl, inr, String, true, Option, none,
  some, List, [], ◌∷◌, Mem, first, later, arith, Bool-cases,
}
use ktayl_underwriting.Store.Rows.{Result, ok, raised, policy_service_error}
use ktayl_underwriting.Bind.Interfaces.{CreatePolicyRequest, PolicyRef}
use ktayl_underwriting.Bind.HttpClient.{
  PolicyBody, Listing, Http, ref_of, items_of, has_number, resolve, resolve_existing, on_created,
  create_policy, transition, is_benign, status_of,
}

has_number_holds :
    (number : String) (o : Option String) → has_number number o ≡ true → o ≡ some number
has_number_holds number none h = cc
has_number_holds number (some n) h = ap some ((eq_iff n number).0 h)

ref_of_lem :
    (item : PolicyBody) {i : String}
    → item.id ≡ some i
    → (ref : PolicyRef) × (ref.id ≡ i) × (ref_of item ≡ ok ref)
ref_of_lem item {i} h = (record { id = i; status = status_of item.status }, refl, rw h refl)

ref_of_read :
    (r : Result PolicyRef) {ref : PolicyRef}
    → (elim r [ raised e ↦ raised e | ok found ↦ ok (some found) ]) ≡ ok (some ref)
    → r ≡ ok ref
ref_of_read (raised e) h = cc
ref_of_read (ok found) h = cc

ref_of_id : (item : PolicyBody) {ref : PolicyRef} → ref_of item ≡ ok ref → item.id ≡ some ref.id
ref_of_id item {ref} h = ground arith

-- If every policy of the number that is listed has the id `i`, and one is listed, the loop finds the id.
resolve_finds :
    (number i : String) (items : List PolicyBody) (item : PolicyBody)
    → Mem item items
    → has_number number item.policy_number ≡ true
    → ((x : PolicyBody) → Mem x items → has_number number x.policy_number ≡ true → x.id ≡ some i)
    → (ref : PolicyRef) × (ref.id ≡ i) × (resolve number items ≡ ok (some ref))
unfolding resolve
resolve_finds number i (x ∷ items) item first h same =
    let (ref, p, q) = ref_of_lem x (same x first h) in (ref, p, rw h (rw q refl))
resolve_finds number i (x ∷ items) item (later m) h same =
    let (ref, p, q) = resolve_finds number i items item m h (λ y n. same y (later n)) in
    elim (Bool-cases (has_number number x.policy_number)) [
      | inl hit ↦
          let (ref', p', q') = ref_of_lem x (same x first hit) in (ref', p', rw hit (rw q' refl))
      | inr miss ↦ (ref, p, rw miss q)
    ]
resolve_finds number i [] item m h same = elim m [ ]

-- The id that `_resolve_existing` finds in a listing is that of a listed policy, and its policy number is the one asked for.
pub resolve-Mem :
    (number : String) (items : List PolicyBody) {ref : PolicyRef}
    → resolve number items ≡ ok (some ref)
    → (item : PolicyBody) × Mem item items
      × (item.policy_number ≡ some number)
      × (item.id ≡ some ref.id)
unfolding resolve
resolve-Mem number [] h = absurd (cc)
resolve-Mem number (x ∷ items) {ref} h = elim (Bool-cases (has_number number x.policy_number)) [
  | inl hit ↦
      let read : ref_of x ≡ ok ref = ref_of_read (ref_of x) (rw hit at h) in
      (x, first, has_number_holds number x.policy_number hit, ref_of_id x read)
  | inr miss ↦
      let (item, m, p, q) = resolve-Mem number items {ref = ref} (rw miss at h) in
      (item, later m, p, q)
]

module _ {W : Type 0} (http : Http W) (base_url : String) where
  -- Where creating a policy is answered by 409, and the lookup by 200 with a listing in which some policy has the number
  -- and every policy that has it has the id `i`, `create_policy` returns a reference to `i`: a repeated bind goes on with the
  -- policy that was created before.
  pub create_policy_conflict :
      (req : CreatePolicyRequest) (i token token' : String) (w w1 w2 w3 w4 : W)
      (body : Result PolicyBody) (listing : Listing) (item : PolicyBody)
      → http.token w ≡ (ok token, w1)
      → http.post_policy (str_append base_url "/v1/policies") token req w1
        ≡ (ok (record { status_code = 409; json = body }), w2)
      → http.token w2 ≡ (ok token', w3)
      → http.get_policies (str_append base_url "/v1/policies") token' req.policy_number w3
        ≡ (ok (record { status_code = 200; json = ok listing }), w4)
      → Mem item (items_of listing)
      → has_number req.policy_number item.policy_number ≡ true
      → ((x : PolicyBody)
          → Mem x (items_of listing)
          → has_number req.policy_number x.policy_number ≡ true
          → x.id ≡ some i)
      → (ref : PolicyRef) × (ref.id ≡ i) × (create_policy http base_url req w ≡ (ok ref, w4))
  unfolding create_policy on_created resolve_existing
  create_policy_conflict req i token token' w w1 w2 w3 w4 body listing item t1 posted t2 got m h
        same =
      let (ref, p, q) = resolve_finds req.policy_number i (items_of listing) item m h same in
      (ref, p, rw (t1, posted, t2, got, q) refl)

  -- A transition that is answered by 200, 201 or 409 raises nothing, and one that is answered by another status raises
  -- PolicyServiceError.
  pub transition_outcomes :
      (id action token : String) (status_code : ℕ) (w w1 w2 : W)
      → http.token w ≡ (ok token, w1)
      → http.post_transition
          (str_append base_url (str_append "/v1/policies/" (str_append id (str_append "/" action))))
          token
          w1
        ≡ (ok status_code, w2)
      → ((status_code ≡ 200 ⊎ status_code ≡ 201 ⊎ status_code ≡ 409)
          × (transition http base_url id action w ≡ (ok tt, w2)))
        ⊎ ((status_code ≢ 200)
            × (status_code ≢ 201)
            × (status_code ≢ 409)
            × (transition http base_url id action w ≡ (raised policy_service_error, w2)))
  unfolding transition
  transition_outcomes id action token status_code w w1 w2 t posted =
      let answered : transition http base_url id action w ≡ (
        (if is_benign http base_url status_code then ok tt else raised policy_service_error),
        w2,
      ) =
        rw (t, posted) refl in
      elim (Bool-cases (is_benign http base_url status_code)) [
        | inl benign ↦ inl (ground arith, answered ∙ rw benign refl)
        | inr hard ↦
            inr (λ e. ground arith, λ e. ground arith, λ e. ground arith, answered ∙ rw hard refl)
      ]
