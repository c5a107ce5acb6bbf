-- ===== src/Rating/Engine/Formula.antt =====
-- The price as a formula: a product of factors, then the fee and the tax. No line items, no stages.
use ktayl_underwriting.Prelude.{◌≡◌, String, false, List, [], ◌∷◌, ◌++◌, ◌⊎◌, if◌then◌else◌}
use ktayl_underwriting.Prelude.Int.{pos, ltb_ℤ}
use ktayl_underwriting.Decimal.{Decimal, differs, lt, mul, add, whole, of_int, div_thousand}
use ktayl_underwriting.Decimal.Exact.{product}
use ktayl_underwriting.Rating.Engine.{Adjustment, applies, RatingFacts, RateTableSpec}

-- The factors of the adjustments that apply.
abbrev pub gated : List Adjustment → List String → List Decimal
gated [] flags = []
gated (a ∷ rest) flags =
    if applies a.applies_when flags then a.factor ∷ gated rest flags else gated rest flags

-- One factor 1 + p for each percentage p above zero.
abbrev pub loadings : List Decimal → List Decimal
loadings [] = []
loadings (p ∷ ps) = if lt (whole 0) p then add (whole 1) p ∷ loadings ps else loadings ps

-- The base rate, per unit of insured value.
abbrev pub base_rate : RateTableSpec → Decimal
base_rate t = div_thousand t.base_rate_permille

abbrev pub stage_loadings : RateTableSpec → List Decimal
stage_loadings t = loadings (t.expense_loading ∷ t.risk_margin ∷ t.cat_provision ∷ [])

-- The commercial adjustment, if it is not neutral.
abbrev pub adjustment_factors : RatingFacts → List Decimal
adjustment_factors facts =
    if differs facts.commercial_adjustment (whole 1) then facts.commercial_adjustment ∷ [] else []

module _ (facts : RatingFacts) (t : RateTableSpec) (f : Decimal) where
  abbrev pub pure_factors : List Decimal
  pure_factors = whole facts.tiv_eur ∷ f ∷ gated t.adjustments facts.flags

  abbrev pub technical_factors : List Decimal
  technical_factors = pure_factors ++ stage_loadings t

  abbrev pub commercial_factors : List Decimal
  commercial_factors = technical_factors ++ adjustment_factors facts

  abbrev pub commercial_premium : Decimal
  commercial_premium = product (base_rate t) commercial_factors

-- The fee on top, then the tax on the amount before the fee.
abbrev pub with_fee : RateTableSpec → Decimal → Decimal
with_fee t c = if ltb_ℤ (pos 0) t.fixed_fees_minor then add c (of_int t.fixed_fees_minor) else c

abbrev pub with_taxes : RateTableSpec → Decimal → Decimal
with_taxes t c =
    if lt (whole 0) t.ipt_rate then add (with_fee t c) (mul c t.ipt_rate) else with_fee t c

-- The adjustment is neutral, or it lies in the band that the rate table authorises.
abbrev pub InBand : RatingFacts → RateTableSpec → Type 0
InBand facts t =
    (differs facts.commercial_adjustment (whole 1) ≡ false)
    ⊎ ((lt facts.commercial_adjustment t.commercial_adjustment_min ≡ false)
        × (lt t.commercial_adjustment_max facts.commercial_adjustment ≡ false))
