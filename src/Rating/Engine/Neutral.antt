-- ===== src/Rating/Engine/Neutral.antt =====
-- Tables that leave stages out.
use ktayl_underwriting.Prelude.{◌≡◌, refl, sym, ap, ◌∙◌, false, List, [], arith, append-nil}
use ktayl_underwriting.Prelude.Int.{ℤ, pos, ltb_ℤ, ◌+ℤ◌}
use ktayl_underwriting.Decimal.{Decimal, differs, lt, whole}
use ktayl_underwriting.Decimal.Exact.{product}
use ktayl_underwriting.Rating.Engine.{
  RatingFacts, RateTableSpec, QuoteBreakdown, minor, ok, ok-injective, rate,
}
use ktayl_underwriting.Rating.Engine.Formula.{
  stage_loadings, base_rate, pure_factors, technical_factors, commercial_factors,
  commercial_premium, with_taxes,
}
use ktayl_underwriting.Rating.Engine.Reconciles.{rate-Reconciles}
use ktayl_underwriting.Rating.Engine.Subtotals.{rate-Follows}

zero_of_add : (a b : ℤ) → a +ℤ b ≡ a → b ≡ pos 0
unfolding ◌+ℤ◌
zero_of_add a b h = ground arith

-- A rate table without loadings, fee and tax prices a risk that has a neutral commercial adjustment at its pure premium:
-- the technical premium, the commercial premium and the premium are equal to it, and the taxes are zero.
pub rate-neutral :
    (facts : RatingFacts) (t : RateTableSpec) {b : QuoteBreakdown}
    → stage_loadings t ≡ []
    → differs facts.commercial_adjustment (whole 1) ≡ false
    → ltb_ℤ (pos 0) t.fixed_fees_minor ≡ false
    → lt (whole 0) t.ipt_rate ≡ false
    → rate facts t ≡ ok b
    → (b.technical_premium_minor ≡ b.pure_premium_minor)
      × (b.commercial_premium_minor ≡ b.pure_premium_minor)
      × (b.premium_minor ≡ b.pure_premium_minor)
      × (b.taxes_minor ≡ pos 0)
rate-neutral facts t {b} unloaded neutral free untaxed e =
    let (f, known, h) = rate-Follows facts t e in
    let pures = pure_factors facts t f in
    let technical : technical_factors facts t f ≡ pures = rw unloaded (append-nil pures) in
    let commercial : commercial_factors facts t f ≡ pures = rw neutral (append-nil _ ∙ technical) in
    let price = λ (fs : List Decimal). minor (product (base_rate t) fs) in
    let p1 = ok-injective (sym h.technical_premium ∙ ap price technical ∙ h.pure_premium) in
    let p2 = ok-injective (sym h.commercial ∙ ap price commercial ∙ h.pure_premium) in
    let paid : with_taxes t (commercial_premium facts t f) ≡ commercial_premium facts t f =
      rw (untaxed, free) refl in
    let p3 = ok-injective (sym h.premium ∙ ap minor paid ∙ h.commercial) in
    (p1, p2, p3 ∙ p2, zero_of_add _ _ ((rate-Reconciles facts t e).adds_up ∙ p3))
