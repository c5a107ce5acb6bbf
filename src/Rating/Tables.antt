-- ===== src/Rating/Tables.antt =====
-- The rate-table payloads of app/rating/repository.py and `RateTableSpec.from_rules`.
use ktayl_underwriting.Prelude.{ℕ, String, Option, none, some, List, [], ◌∷◌}
use ktayl_underwriting.Prelude.Int.{ℤ, pos}
use ktayl_underwriting.Decimal.{Decimal, whole, fraction}
use ktayl_underwriting.Enums.{Occupancy, occupancy_value}
use ktayl_underwriting.Rating.Engine.{Adjustment, RateTableSpec}

-- The JSON payload of a rate-table row, its decimal texts read; `none` is a missing key.
pub record RateRules : Type 0 where
  pub base_rate_permille : Option Decimal
  pub occupancy_factors : Option (List (String × Decimal))
  pub adjustments : Option (List Adjustment)
  pub expense_loading : Option Decimal
  pub risk_margin : Option Decimal
  pub cat_provision : Option Decimal
  pub commercial_adjustment_min : Option Decimal
  pub commercial_adjustment_max : Option Decimal
  pub ipt_rate : Option Decimal
  pub fixed_fees_minor : Option ℤ

-- `rules.get(key, default)`
abbrev get : {A : Type 0} → Option A → A → A
get none default = default
get (some a) default = a

-- `none` is the KeyError of a key that has no default.
unfoldable pub from_rules : ℕ → RateRules → Option RateTableSpec
from_rules version rules = elim rules.base_rate_permille [
  | none ↦ none
  | some base ↦ elim rules.occupancy_factors [
    | none ↦ none
    | some factors ↦ some (record {
      version = version;
      base_rate_permille = base;
      occupancy_factors = factors;
      adjustments = get rules.adjustments [];
      expense_loading = get rules.expense_loading (whole 0);
      risk_margin = get rules.risk_margin (whole 0);
      cat_provision = get rules.cat_provision (whole 0);
      commercial_adjustment_min = get rules.commercial_adjustment_min (whole 1);
      commercial_adjustment_max = get rules.commercial_adjustment_max (whole 1);
      ipt_rate = get rules.ipt_rate (whole 0);
      fixed_fees_minor = get rules.fixed_fees_minor (pos 0);
    })
  ]
]

abbrev pub v1_adjustments : List Adjustment
v1_adjustments =
    record {
      name = "high_tiv_loading";
      kind = "loading";
      factor = fraction 110 2;
      applies_when = some "high_tiv";
    }
    ∷ record {
      name = "sprinklered_discount";
      kind = "discount";
      factor = fraction 95 2;
      applies_when = some "sprinklered";
    }
    ∷ []

abbrev pub v1_factors : List (String × Decimal)
v1_factors =
    (occupancy_value Occupancy.office, fraction 10 1)
    ∷ (occupancy_value Occupancy.retail, fraction 11 1)
    ∷ (occupancy_value Occupancy.warehouse, fraction 125 2)
    ∷ (occupancy_value Occupancy.light_manufacturing, fraction 15 1)
    ∷ (occupancy_value Occupancy.fireworks_manufacturing, fraction 30 1)
    ∷ []

-- `V1_RULES`
abbrev pub v1_rules : RateRules
v1_rules = record {
  base_rate_permille = some (fraction 5 1);
  occupancy_factors = some v1_factors;
  adjustments = some v1_adjustments;
  expense_loading = none;
  risk_margin = none;
  cat_provision = none;
  commercial_adjustment_min = none;
  commercial_adjustment_max = none;
  ipt_rate = none;
  fixed_fees_minor = none;
}

-- `V2_RULES`
abbrev pub v2_rules : RateRules
v2_rules = record v1_rules {
  expense_loading = some (fraction 15 2);
  risk_margin = some (fraction 6 2);
  cat_provision = some (fraction 4 2);
  commercial_adjustment_min = some (fraction 85 2);
  commercial_adjustment_max = some (fraction 115 2);
  ipt_rate = some (fraction 9 2);
  fixed_fees_minor = some (pos 5000);
}

-- `HIGH_TIV_THRESHOLD_EUR`
abbrev pub high_tiv_threshold_eur : ℕ
high_tiv_threshold_eur = 500_000_000
