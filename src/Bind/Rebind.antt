-- ===== src/Bind/Rebind.antt =====
-- A bind after one that failed on its way: the policy service has a policy with the number already. The client then
-- looks the policy up by `GET /v1/policies?policy_number=…`. tests/contract/policy_service_openapi.yaml has no such
-- parameter, only pages of policies, 20 where no limit is given, and a cursor, which the client does not follow; so the
-- page that answers the lookup is a parameter here, and may hold any policies.
use Prim.Native.String.{◌++◌ as str_append}
use ktayl_underwriting.Prelude.{
  ℕ, ◌≡◌, refl, sym, ap, ◌∙◌, ◌⊎◌, inl, inr, String, true, false, none, some, subst, List, [], ◌∷◌,
  Mem, first, later, Bool-cases,
}
use ktayl_underwriting.Store.Rows.{
  Submission, Quote, Binding, Db, Env, Result, ok, raised, policy_already_exists,
}
use ktayl_underwriting.Store.Queries.{by_policy_number}
use ktayl_underwriting.Bind.Interfaces.{CreatePolicyRequest, PolicyRef, Publisher}
use ktayl_underwriting.Bind.HttpClient.{
  PolicyBody, Listing, Http, items_of, has_number, resolve, http_client, create_policy, on_created,
  resolve_existing, transition,
}
use ktayl_underwriting.Bind.Conflicts.{create_policy_conflict, transition_outcomes}
use ktayl_underwriting.Bind.Service.{policy_number_for, create_request, event_for, bind_submission}
use ktayl_underwriting.Bind.Outcomes.{
  IsBindable, bind_stores, request_of, binding_of, after_bind, succeeded,
}
use ktayl_underwriting.Bind.Ends.{bind_uncreated}

-- Worlds in which the policy service has a policy of a number: it refuses to create one again, answers the lookup with
-- a page of policies, and takes a transition, also one that was made before, which it may answer by 409. A call leads
-- to such a world.
pub record HasPolicy {W : Type 0} (http : Http W) (number : String) (page : List PolicyBody)
    (Knows : W → Type 0) : Type 0 where
  pub tokens : (w : W) → Knows w → (t : String) × (w' : W) × (http.token w ≡ (ok t, w')) × Knows w'
  pub refuses :
      (url t : String) (req : CreatePolicyRequest) (w : W)
      → Knows w
      → req.policy_number ≡ number
      → (body : Result PolicyBody) × (w' : W) × (http.post_policy url t req w
          ≡ (ok (record { status_code = 409; json = body }), w'))
        × Knows w'
  pub lists :
      (url t : String) (w : W)
      → Knows w
      → (listing : Listing) × (w' : W) × (http.get_policies url t number w
          ≡ (ok (record { status_code = 200; json = ok listing }), w'))
        × Knows w'
        × (items_of listing ≡ page)
  pub moves :
      (url t : String) (w : W)
      → Knows w
      → (code : ℕ) × (w' : W) × (http.post_transition url t w ≡ (ok code, w'))
        × Knows w'
        × (code ≡ 200 ⊎ code ≡ 201 ⊎ code ≡ 409)

-- A policy of the number is on the page, or none is.
abbrev pub IsListed : String → List PolicyBody → Type 0
IsListed number page = (x : PolicyBody) × Mem x page × (has_number number x.policy_number ≡ true)

abbrev pub IsUnlisted : String → List PolicyBody → Type 0
IsUnlisted number page = (x : PolicyBody) → Mem x page → has_number number x.policy_number ≡ false

IsUnlisted-cons :
    (number : String) (x : PolicyBody) (page : List PolicyBody)
    → has_number number x.policy_number ≡ false
    → IsUnlisted number page
    → IsUnlisted number (x ∷ page)
IsUnlisted-cons number x page miss h _ first = miss
IsUnlisted-cons number x page miss h y (later m) = h y m

IsListed-cases :
    (number : String) (page : List PolicyBody) → IsListed number page ⊎ IsUnlisted number page
IsListed-cases number [] = inr λ x m. elim m [ ]
IsListed-cases number (x ∷ page) = elim (Bool-cases (has_number number x.policy_number)) [
  | inl hit ↦ inl (x, first, hit)
  | inr miss ↦ elim (IsListed-cases number page) [
    | inl (y, m, hit) ↦ inl (y, later m, hit)
    | inr h ↦ inr (IsUnlisted-cons number x page miss h)
  ]
]

resolve-unlisted :
    (number : String) (page : List PolicyBody)
    → IsUnlisted number page
    → resolve number page ≡ ok none
unfolding resolve
resolve-unlisted number [] h = refl
resolve-unlisted number (x ∷ page) h =
    rw (h x first) (resolve-unlisted number page λ y m. h y (later m))

module _ {W : Type 0} (http : Http W) (base_url number : String) (page : List PolicyBody)
    (Knows : W → Type 0) (known : HasPolicy http number page Knows) where
  finds :
      (i : String) (req : CreatePolicyRequest) (w : W)
      → ((x : PolicyBody) → Mem x page → has_number number x.policy_number ≡ true → x.id ≡ some i)
      → IsListed number page
      → Knows w
      → number ≡ req.policy_number
      → (ref : PolicyRef) × (w' : W) × (ref.id ≡ i)
        × (create_policy http base_url req w ≡ (ok ref, w'))
        × Knows w'
  finds i req w same (item, m, hit) k own =
      let url = str_append base_url "/v1/policies" in
      let (t, w1, got, k1) = known.tokens w k in
      let (body, w2, refused, k2) = known.refuses url t req w1 k1 (sym own) in
      let (t', w3, got', k3) = known.tokens w2 k2 in
      let (listing, w4, answer, k4, shown) = known.lists url t' w3 k3 in
      let on_page = λ (x : PolicyBody) (n : Mem x (items_of listing)). subst (Mem x) shown n in
      let (ref, p, e) =
        create_policy_conflict http base_url req i t t' w w1 w2 w3 w4 body listing item got refused
          got' (ap (λ n. http.get_policies url t' n w3) (sym own) ∙ answer)
          (subst (Mem item) (sym shown) m)
          (ap (λ n. has_number n item.policy_number) (sym own) ∙ hit)
          (λ x n h. same x (on_page x n) (ap (λ n. has_number n x.policy_number) own ∙ h)) in
      (ref, w4, p, e, k4)

  misses :
      (req : CreatePolicyRequest) (w : W)
      → IsUnlisted number page
      → Knows w
      → number ≡ req.policy_number
      → (w' : W) × (create_policy http base_url req w ≡ (raised policy_already_exists, w'))
        × Knows w'
  unfolding create_policy on_created resolve_existing
  misses req w unlisted k own =
      let url = str_append base_url "/v1/policies" in
      let (t, w1, got, k1) = known.tokens w k in
      let (body, w2, refused, k2) = known.refuses url t req w1 k1 (sym own) in
      let (t', w3, got', k3) = known.tokens w2 k2 in
      let (listing, w4, answer, k4, shown) = known.lists url t' w3 k3 in
      let listed' = ap (λ n. http.get_policies url t' n w3) (sym own) ∙ answer in
      let none_found : resolve req.policy_number (items_of listing) ≡ ok none =
        ap (resolve req.policy_number) shown
        ∙ ap (λ n. resolve n page) (sym own)
        ∙ resolve-unlisted number page unlisted in
      (w4, rw (got, refused, got', listed', none_found) refl, k4)

  moves_on :
      (id action : String) (w : W)
      → Knows w
      → (w' : W) × (transition http base_url id action w ≡ (ok tt, w')) × Knows w'
  moves_on id action w k =
      let (t, w1, got, k1) = known.tokens w k in
      let (code, w2, moved, k2, benign) = known.moves _ t w1 k1 in
      elim (transition_outcomes http base_url id action t code w w1 w2 got moved) [
        | inl (_, e) ↦ (w2, e, k2)
        | inr (not_200, not_201, not_409, _) ↦ elim benign [
          | inl p ↦ absurd (not_200 p)
          | inr (inl p) ↦ absurd (not_201 p)
          | inr (inr p) ↦ absurd (not_409 p)
        ]
      ]

  pub bind_retried :
      (env : Env) (publisher : Publisher W) (i : String) (id : ℕ) (actor : String) (db : Db) (w : W)
      (s : Submission) (q : Quote)
      → ((x : PolicyBody) → Mem x page → has_number number x.policy_number ≡ true → x.id ≡ some i)
      → IsBindable db id s q
      → number ≡ policy_number_for env q.id
      → by_policy_number db number ≡ none
      → Knows w
      → (IsListed number page
          × ((b : Binding) × (db' : Db) × (w' : W) × (bind_submission env
                  (http_client http base_url)
                  publisher
                  id
                  actor
                  db
                  w
                ≡ (ok (b, db'), w'))
              × (b.submission_id ≡ s.id)
              × (b.quote_id ≡ q.id)
              × (b.policy_number ≡ number)
              × (b.pas_policy_id ≡ i)))
        ⊎ (IsUnlisted number page
            × ((w' : W) × (bind_submission env (http_client http base_url) publisher id actor db w
                  ≡ (raised policy_already_exists, w'))))
  unfolding create_request http_client
  bind_retried env publisher i id actor db w s q same ready own fresh k =
      let client = http_client http base_url in
      elim (IsListed-cases number page) [
        | inl listed ↦
            let (ref, w1, found, creates, k1) =
              finds i (request_of env db s q) w same listed k own in
            let (w2, submits, k2) = moves_on ref.id "submit" w1 k1 in
            let (w3, activates, k3) = moves_on ref.id "activate" w2 k2 in
            let (r, w4) = publisher.publish (event_for (request_of env db s q) s q) w3 in
            inl (
              listed,
              (
                binding_of env db s q ref actor (succeeded r),
                after_bind env db s q ref actor (succeeded r),
                w4,
                bind_stores env client publisher id actor db w w1 w2 w3 s q ref ready
                    (ap (by_policy_number db) (sym own) ∙ fresh) creates submits activates,
                refl,
                refl,
                sym own,
                found,
              ),
            )
        | inr unlisted ↦
            let (w', raises, _) = misses (request_of env db s q) w unlisted k own in
            inr (
              unlisted,
              (
                w',
                bind_uncreated env client publisher id actor db w s q policy_already_exists w' ready
                    raises,
              ),
            )
      ]
