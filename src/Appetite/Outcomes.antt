-- ===== src/Appetite/Outcomes.antt =====
-- Which facts lead to which outcome, and with which reason codes.
use ktayl_underwriting.Prelude.{◌≡◌, ◌↔◌, ◌⊎◌, ◌<◌, ◌≤◌, true, map, arith}
use ktayl_underwriting.Prelude.Text.{contains, upper}
use ktayl_underwriting.Enums.{accept, refer, decline}
use ktayl_underwriting.Appetite.{SubmissionFacts, RulesetSpec, assess}

abbrev pub IsSanctioned : SubmissionFacts → RulesetSpec → Type 0
IsSanctioned s r = contains (upper s.country) (map upper r.sanctioned_countries) ≡ true

abbrev pub IsExcluded : SubmissionFacts → RulesetSpec → Type 0
IsExcluded s r = contains s.occupancy r.excluded_occupancies ≡ true

abbrev pub IsAllowedLob : SubmissionFacts → RulesetSpec → Type 0
IsAllowedLob s r = contains s.line_of_business r.allowed_lobs ≡ true

module _ (s : SubmissionFacts) (r : RulesetSpec) where
  -- A risk is declined exactly when its country is sanctioned or its occupancy excluded, whatever
  -- its line of business and its value.
  pub decline_iff : ((assess s r).0 ≡ decline) ↔ (IsSanctioned s r ⊎ IsExcluded s r)
  unfolding assess
  decline_iff = ground arith

  -- A risk is accepted exactly when it is neither sanctioned nor excluded, its line of business is
  -- allowed, and its value is at most the authority limit, the limit included.
  pub accept_iff :
      ((assess s r).0 ≡ accept)
      ↔ ((¬ IsSanctioned s r) × (¬ IsExcluded s r) × IsAllowedLob s r × (s.tiv_eur ≤ r.max_tiv_eur))
  unfolding assess
  accept_iff = ground arith

  -- A risk is referred exactly when it is neither sanctioned nor excluded, and its line of business
  -- is not allowed or its value is above the authority limit.
  pub refer_iff : ((assess s r).0 ≡ refer) ↔ (
      (¬ IsSanctioned s r)
      × (¬ IsExcluded s r)
      × ((¬ IsAllowedLob s r) ⊎ (r.max_tiv_eur < s.tiv_eur)))
  unfolding assess
  refer_iff = ground arith
