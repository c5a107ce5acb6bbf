-- ===== src/Tests/RebindTests.antt =====
-- A bind against a policy service that has the policy already, with the rows of SystemTests.
use ktayl_underwriting.Prelude.{
  ℕ, suc, ◌≡◌, refl, none, List, inl, some, [], ◌∷◌, first, later, inr,
}
use ktayl_underwriting.Prelude.Text.{upper}
use ktayl_underwriting.Store.Rows.{ok, raised, key_error, policy_already_exists}
use ktayl_underwriting.Bind.Interfaces.{Publisher}
use ktayl_underwriting.Bind.HttpClient.{PolicyBody, bare, Http, http_client}
use ktayl_underwriting.Bind.Service.{policy_number_for, bind_submission}
use ktayl_underwriting.Bind.Rebind.{HasPolicy, IsUnlisted, bind_retried}
use ktayl_underwriting.Tests.Fixtures.{env}
use ktayl_underwriting.Tests.SystemTests.{
  quoted_db, submission_row, quote_row, number, is_bindable, number_free,
}

abbrev kept : PolicyBody
kept = record { id = some "p-7"; status = some "draft"; policy_number = some number }

-- A policy of another number, or of one that is not said.
abbrev other : PolicyBody
other = record { id = some "p-1"; status = none; policy_number = none }

-- The lookup is answered by a page, whatever number it names. The world counts the calls.
abbrev http : List PolicyBody → Http ℕ
http page = record {
  post_policy =
      λ url token req w. (ok (record { status_code = 409; json = raised key_error }), suc w);
  get_policies =
      λ url token wanted w. (ok (record { status_code = 200; json = ok (bare page) }), suc w);
  post_transition = λ url token w. (ok 409, suc w);
  token = λ w. (ok "t", w);
}

abbrev quiet : Publisher ℕ
quiet = record { publish = λ event w. (ok tt, w) }

unlisted : IsUnlisted number (other ∷ other ∷ [])
unlisted _ first = refl
unlisted _ (later first) = refl
unlisted x (later (later m)) = elim m [ ]

http-HasPolicy : (page : List PolicyBody) → HasPolicy (http page) number page (λ w. Unit {0})
unfolding policy_number_for upper
http-HasPolicy page = record {
  tokens = λ w k. ("t", w, refl, tt);
  refuses = λ url t req w k own. (raised key_error, suc w, refl, tt);
  lists = λ url t w k. (bare page, suc w, refl, tt, refl);
  moves = λ url t w k. (409, suc w, refl, tt, inr (inr refl));
}

-- A page on which the policy is not.
not_recovered :
    (w' : ℕ) × (bind_submission env
        (http_client (http (other ∷ other ∷ [])) "https://pas")
        quiet
        1
        "u"
        quoted_db
        0
      ≡ (raised policy_already_exists, w'))
not_recovered =
    elim (bind_retried (http (other ∷ other ∷ [])) "https://pas" number (other ∷ other ∷ [])
      (λ w. Unit) (http-HasPolicy (other ∷ other ∷ [])) env quiet "p-7" 1 "u" quoted_db 0
      submission_row quote_row (λ x m h. cc (unlisted x m, h)) is_bindable refl number_free tt) [
        | inl ((x, m, hit), _) ↦ absurd (cc (unlisted x m, hit))
        | inr (_, raises) ↦ raises
      ]
