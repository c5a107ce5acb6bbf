-- ===== src/Rating/Engine/Subtotals.antt =====
-- The subtotal at the end of each stage is the product of the factors so far.
use ktayl_underwriting.Prelude.{
  ◌≡◌, refl, ◌∙◌, subst, ap, sym, String, some, List, [], ◌∷◌, ◌++◌, arith, Bool-cases,
  Option-cases, inl, inr,
}
use ktayl_underwriting.Prelude.Int.{pos, ltb_ℤ}
use ktayl_underwriting.Decimal.{Decimal, differs, lt, mul, add, whole}
use ktayl_underwriting.Decimal.Exact.{product}
use ktayl_underwriting.Rating.Engine.{
  Value, Stage, Trail, ok, minor, append_item, start, Adjustment, applies, adjust, loss_cost_stage,
  load, technical_stage, commercial_stage, fee_stage, ipt_stage, RatingFacts, RateTableSpec,
  QuoteBreakdown, rate_with, rate, factor_of, >>=-eq-ok, ok-injective, outside, raised≢ok,
}
use ktayl_underwriting.Rating.Engine.Formula.{
  gated, loadings, stage_loadings, adjustment_factors, base_rate, pure_factors, technical_factors,
  commercial_premium, with_fee, with_taxes, InBand,
}

pub product-append :
    (a : Decimal) (xs ys : List Decimal) → product a (xs ++ ys) ≡ product (product a xs) ys
product-append a [] ys = refl
product-append a (x ∷ xs) ys = product-append (mul a x) xs ys

pub append_item-subtotal :
    (label kind : String) (value : Value) (s : Stage) (d : Decimal) (tr : Trail) {tr' : Trail}
    → append_item label kind value s d tr ≡ ok tr'
    → tr'.subtotal ≡ d
unfolding append_item
append_item-subtotal label kind value s d tr e =
    let (m, rounded, rest) = >>=-eq-ok (minor d) _ e in
    sym (ap (λ (x : Trail). x.subtotal) (ok-injective rest))

pub adjust-subtotal :
    (adjustments : List Adjustment) (flags : List String) (tr : Trail) {tr' : Trail}
    → adjust adjustments flags tr ≡ ok tr'
    → tr'.subtotal ≡ product tr.subtotal (gated adjustments flags)
unfolding adjust
adjust-subtotal [] flags tr e = sym (ap (λ (x : Trail). x.subtotal) (ok-injective e))
adjust-subtotal (a ∷ rest) flags tr e = elim (Bool-cases (applies a.applies_when flags)) [
  | inl applied ↦
      let (mid, p, q) = >>=-eq-ok _ (adjust rest flags) (rw applied at e) in
      rw applied (
        adjust-subtotal rest flags mid q
        ∙ ap (λ d. product d (gated rest flags)) (append_item-subtotal _ _ _ _ _ tr p))
  | inr skipped ↦ rw skipped (adjust-subtotal rest flags tr (rw skipped at e))
]

abbrev pub percentages : List (String × Decimal) → List Decimal
percentages [] = []
percentages ((name, p) ∷ rest) = p ∷ percentages rest

load-subtotal :
    (ps : List (String × Decimal)) (tr : Trail) {tr' : Trail}
    → load ps tr ≡ ok tr'
    → tr'.subtotal ≡ product tr.subtotal (loadings (percentages ps))
unfolding load
load-subtotal [] tr e = sym (ap (λ (x : Trail). x.subtotal) (ok-injective e))
load-subtotal ((name, p) ∷ rest) tr e = elim (Bool-cases (lt (whole 0) p)) [
  | inl loaded ↦
      let (mid, h, q) = >>=-eq-ok _ (load rest) (rw loaded at e) in
      rw loaded (
        load-subtotal rest mid q
        ∙ ap (λ d. product d (loadings (percentages rest))) (append_item-subtotal _ _ _ _ _ tr h))
  | inr skipped ↦ rw skipped (load-subtotal rest tr (rw skipped at e))
]

pub loss_cost_stage-subtotal :
    (facts : RatingFacts) (t : RateTableSpec) (f : Decimal) {tr : Trail}
    → loss_cost_stage facts t f ≡ ok tr
    → tr.subtotal ≡ product (base_rate t) (pure_factors facts t f)
unfolding loss_cost_stage
loss_cost_stage-subtotal facts t f e =
    let (base, p, e') = >>=-eq-ok _ _ e in
    let (occupied, q, r) = >>=-eq-ok _ (adjust t.adjustments facts.flags) e' in
    adjust-subtotal t.adjustments facts.flags occupied r
    ∙ ap (λ d. product d (gated t.adjustments facts.flags))
        (append_item-subtotal _ _ _ _ _ base q
          ∙ ap (λ d. mul d f) (append_item-subtotal _ _ _ _ _ start p))

pub commercial_stage-subtotal :
    (facts : RatingFacts) (t : RateTableSpec) (tr : Trail) {tr' : Trail}
    → commercial_stage facts t tr ≡ ok tr'
    → InBand facts t × (tr'.subtotal ≡ product tr.subtotal (adjustment_factors facts))
unfolding commercial_stage
commercial_stage-subtotal facts t tr e =
    elim (Bool-cases (differs facts.commercial_adjustment (whole 1))) [
      | inl adjusted ↦ elim (Bool-cases (outside facts.commercial_adjustment t)) [
        | inl out ↦ absurd (raised≢ok (rw out at (rw adjusted at e)))
        | inr within ↦ (
          inr (unfold outside in ground arith),
          rw adjusted (append_item-subtotal _ _ _ _ _ tr (rw within at (rw adjusted at e))),
        )
      ]
      | inr neutral ↦ (
        inl neutral,
        rw neutral (sym (ap (λ (x : Trail). x.subtotal) (ok-injective (rw neutral at e)))),
      )
    ]

pub technical_stage-subtotal :
    (t : RateTableSpec) (tr : Trail) {tr' : Trail}
    → technical_stage t tr ≡ ok tr'
    → tr'.subtotal ≡ product tr.subtotal (stage_loadings t)
unfolding technical_stage
technical_stage-subtotal t tr e = load-subtotal _ tr e

pub fee_stage-subtotal :
    (t : RateTableSpec) (tr : Trail) {tr' : Trail}
    → fee_stage t tr ≡ ok tr'
    → tr'.subtotal ≡ with_fee t tr.subtotal
unfolding fee_stage
fee_stage-subtotal t tr e = elim (Bool-cases (ltb_ℤ (pos 0) t.fixed_fees_minor)) [
  | inl charged ↦ rw charged (append_item-subtotal _ _ _ _ _ tr (rw charged at e))
  | inr free ↦ rw free (sym (ap (λ (x : Trail). x.subtotal) (ok-injective (rw free at e))))
]

pub ipt_stage-subtotal :
    (t : RateTableSpec) (c : Decimal) (tr : Trail) {tr' : Trail}
    → tr.subtotal ≡ with_fee t c
    → ipt_stage t c tr ≡ ok tr'
    → tr'.subtotal ≡ with_taxes t c
unfolding ipt_stage
ipt_stage-subtotal t c tr h e = elim (Bool-cases (lt (whole 0) t.ipt_rate)) [
  | inl taxed ↦
      rw taxed
        (append_item-subtotal _ _ _ _ _ tr (rw taxed at e) ∙ ap (λ d. add d (mul c t.ipt_rate)) h)
  | inr untaxed ↦
      rw untaxed (sym (ap (λ (x : Trail). x.subtotal) (ok-injective (rw untaxed at e))) ∙ h)
]

-- What the four amounts of a breakdown are.
pub record Follows (facts : RatingFacts) (t : RateTableSpec) (f : Decimal) (b : QuoteBreakdown)
    : Type 0 where
  pub in_band : InBand facts t
  pub pure_premium :
      minor (product (base_rate t) (pure_factors facts t f)) ≡ ok b.pure_premium_minor
  pub technical_premium :
      minor (product (base_rate t) (technical_factors facts t f)) ≡ ok b.technical_premium_minor
  pub commercial : minor (commercial_premium facts t f) ≡ ok b.commercial_premium_minor
  pub premium : minor (with_taxes t (commercial_premium facts t f)) ≡ ok b.premium_minor

rate_with-Follows :
    (facts : RatingFacts) (t : RateTableSpec) (f : Decimal) {b : QuoteBreakdown}
    → rate_with facts t f ≡ ok b
    → Follows facts t f b
unfolding rate_with
rate_with-Follows facts t f {b} e =
    let (lost, e1, r1) = >>=-eq-ok _ _ e in
    let (pure, e2, r2) = >>=-eq-ok _ _ r1 in
    let (loaded, e3, r3) = >>=-eq-ok _ _ r2 in
    let (tech, e4, r4) = >>=-eq-ok _ _ r3 in
    let (adjusted, e5, r5) = >>=-eq-ok _ _ r4 in
    let (comm, e6, r6) = >>=-eq-ok _ _ r5 in
    let (fee, e7, r7) = >>=-eq-ok _ _ r6 in
    let (taxed, e8, r8) = >>=-eq-ok _ _ r7 in
    let (premium, e9, r9) = >>=-eq-ok _ _ r8 in
    let p = loss_cost_stage-subtotal facts t f e1 in
    let q =
      technical_stage-subtotal t lost e3
      ∙ ap (λ d. product d (stage_loadings t)) p
      ∙ sym (product-append (base_rate t) (pure_factors facts t f) (stage_loadings t)) in
    let (band, step) = commercial_stage-subtotal facts t loaded e5 in
    let r =
      step
      ∙ ap (λ d. product d (adjustment_factors facts)) q
      ∙ sym
          (product-append (base_rate t) (technical_factors facts t f) (adjustment_factors facts)) in
    let s =
      ipt_stage-subtotal t adjusted.subtotal fee (fee_stage-subtotal t adjusted e7) e8
      ∙ ap (with_taxes t) r in
    subst (Follows facts t f) (ok-injective r9) (record {
      in_band = band;
      pure_premium = sym (ap minor p) ∙ e2;
      technical_premium = sym (ap minor q) ∙ e4;
      commercial = sym (ap minor r) ∙ e6;
      premium = sym (ap minor s) ∙ e9;
    })

-- Every price that `rate` gives follows the formula. The occupancy has a factor in the table and the
-- commercial adjustment is neutral or in the authorised band. The pure premium is the base rate times the
-- insured value, the occupancy factor and the factors of the adjustments that apply; the technical premium has
-- in addition one factor 1 + p for each percentage above zero; the commercial premium the adjustment, if it is not
-- neutral; the premium adds the fee and the tax on the commercial premium. Each is rounded once, to a whole
-- eurocent.
pub rate-Follows :
    (facts : RatingFacts) (t : RateTableSpec) {b : QuoteBreakdown}
    → rate facts t ≡ ok b
    → (f : Decimal) × (factor_of facts.occupancy t.occupancy_factors ≡ some f) × Follows facts t f b
unfolding rate
rate-Follows facts t e = elim (Option-cases (factor_of facts.occupancy t.occupancy_factors)) [
  | inl unknown ↦ absurd (raised≢ok (rw (unknown, rate) at e))
  | inr (f, known) ↦ (f, known, rate_with-Follows facts t f (rw (known, rate) at e))
]
