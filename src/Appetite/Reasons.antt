-- ===== src/Appetite/Reasons.antt =====
-- Which reason codes an assessment gives, and how its severity moves.
use ktayl_underwriting.Prelude.{ℕ, ◌≡◌, ◌↔◌, ◌⊎◌, ◌<◌, ◌≤◌, List, [], ◌∷◌, arith}
use ktayl_underwriting.Enums.{
  Outcome, accept, refer, decline, ReasonCode, lob_out_of_appetite, tiv_above_authority,
  excluded_occupancy, sanctioned_country, within_appetite,
}
use ktayl_underwriting.Appetite.{SubmissionFacts, RulesetSpec, assess}
use ktayl_underwriting.Appetite.Outcomes.{IsSanctioned, IsExcluded, IsAllowedLob}

abbrev pub Has : ReasonCode → List ReasonCode → Type 0
Has c [] = ⊥
Has c (d ∷ ds) = (c ≡ d) ⊎ Has c ds

-- When a code is to be given: one case for each row of the table of reason codes.
abbrev pub Applies : ReasonCode → SubmissionFacts → RulesetSpec → Type 0
Applies sanctioned_country s r = IsSanctioned s r
Applies excluded_occupancy s r = IsExcluded s r
Applies lob_out_of_appetite s r = (¬ IsSanctioned s r) × (¬ IsExcluded s r) × (¬ IsAllowedLob s r)
Applies tiv_above_authority s r =
    (¬ IsSanctioned s r) × (¬ IsExcluded s r) × (r.max_tiv_eur < s.tiv_eur)
Applies within_appetite s r =
    (¬ IsSanctioned s r) × (¬ IsExcluded s r) × IsAllowedLob s r × (s.tiv_eur ≤ r.max_tiv_eur)

-- An assessment gives a reason code exactly when the code applies: no decline hides another decline,
-- no refer reason stands beside a decline, and a referral names each of its reasons.
pub assess-Has :
    (c : ReasonCode) (s : SubmissionFacts) (r : RulesetSpec) → Has c (assess s r).1 ↔ Applies c s r
unfolding assess
assess-Has sanctioned_country s r = ground arith
assess-Has excluded_occupancy s r = ground arith
assess-Has lob_out_of_appetite s r = ground arith
assess-Has tiv_above_authority s r = ground arith
assess-Has within_appetite s r = ground arith

abbrev pub severity : Outcome → ℕ
severity accept = 0
severity refer = 1
severity decline = 2

-- More insured value, or a lower authority limit, never makes the outcome milder.
pub severity_mono :
    (s : SubmissionFacts) (r : RulesetSpec) (tiv limit : ℕ)
    → s.tiv_eur ≤ tiv
    → limit ≤ r.max_tiv_eur
    → severity (assess s r).0
      ≤ severity (assess (record s { tiv_eur = tiv }) (record r { max_tiv_eur = limit })).0
unfolding assess
severity_mono s r tiv limit p q = ground arith
