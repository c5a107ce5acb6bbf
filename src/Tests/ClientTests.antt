-- ===== src/Tests/ClientTests.antt =====
-- The HTTP client against a policy service that knows the policy already.
use ktayl_underwriting.Prelude.{
  ℕ, suc, ◌≡◌, ◌≢◌, ◌⊎◌, refl, true, none, some, List, [], ◌∷◌, Mem, first, later,
}
use ktayl_underwriting.Store.Rows.{ok, raised, key_error, policy_service_error}
use ktayl_underwriting.Bind.Interfaces.{CreatePolicyRequest, PolicyRef}
use ktayl_underwriting.Bind.HttpClient.{
  PolicyBody, bare, Http, has_number, resolve, create_policy, transition,
}
use ktayl_underwriting.Bind.Conflicts.{resolve-Mem, create_policy_conflict, transition_outcomes}

abbrev other : PolicyBody
other = record { id = some "p-1"; status = none; policy_number = some "UW-1" }

abbrev wanted : PolicyBody
wanted = record { id = some "p-2"; status = some "active"; policy_number = some "UW-2" }

abbrev listing : List PolicyBody
listing = other ∷ wanted ∷ []

-- The world counts the calls.
abbrev http : Http ℕ
http = record {
  post_policy =
      λ url token req w. (ok (record { status_code = 409; json = raised key_error }), suc w);
  get_policies =
      λ url token number w. (ok (record { status_code = 200; json = ok (bare listing) }), suc w);
  post_transition = λ url token w. (ok 409, suc w);
  token = λ w. (ok "t", w);
}

abbrev request : CreatePolicyRequest
request = record {
  policy_number = "UW-2";
  holder_name = "Acme";
  product_code = "COMM_PROP";
  effective_date = "2026-01-01T00:00:00Z";
  expiry_date = "2027-01-01T00:00:00Z";
}

abbrev wanted_ref : PolicyRef
wanted_ref = record { id = "p-2"; status = "active" }

resolved_here : resolve "UW-2" listing ≡ ok (some wanted_ref)
unfolding resolve
resolved_here = refl

resolve-Mem_example :
    (item : PolicyBody) × Mem item listing
    × (item.policy_number ≡ some "UW-2")
    × (item.id ≡ some "p-2")
resolve-Mem_example = resolve-Mem "UW-2" listing {ref = wanted_ref} resolved_here

same_id :
    (x : PolicyBody) → Mem x listing → has_number "UW-2" x.policy_number ≡ true → x.id ≡ some "p-2"
same_id x first h = absurd (cc)
same_id x (later first) h = refl
same_id x (later (later m)) h = elim m [ ]

create_policy_conflict_example :
    (ref : PolicyRef) × (ref.id ≡ "p-2")
    × (create_policy http "https://pas" request 0 ≡ (ok ref, 2))
create_policy_conflict_example =
    create_policy_conflict http "https://pas" request "p-2" "t" "t" 0 0 1 1 2 (raised key_error)
      (bare listing) wanted refl refl refl refl (later first) refl same_id

abbrev conflict : ℕ
conflict = 409

each_transition :
    ((conflict ≡ 200 ⊎ conflict ≡ 201 ⊎ conflict ≡ 409)
      × (transition http "https://pas" "p-2" "submit" 0 ≡ (ok tt, 1)))
    ⊎ ((conflict ≢ 200)
        × (conflict ≢ 201)
        × (conflict ≢ 409)
        × (transition http "https://pas" "p-2" "submit" 0 ≡ (raised policy_service_error, 1)))
each_transition = transition_outcomes http "https://pas" "p-2" "submit" "t" conflict 0 0 1 refl refl
