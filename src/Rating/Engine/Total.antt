-- ===== src/Rating/Engine/Total.antt =====
-- When `rate` gives a price: each subtotal can be rounded, the occupancy has a factor, the adjustment is in
-- the band.
use ktayl_underwriting.Prelude.{
  ◌≡◌, refl, ◌∙◌, subst, ap, sym, String, false, some, List, [], ◌∷◌, ◌++◌, arith, Bool-cases, inl,
  inr,
}
use ktayl_underwriting.Prelude.Int.{ℤ, pos, ltb_ℤ}
use ktayl_underwriting.Decimal.{Decimal, differs, lt, mul, whole}
use ktayl_underwriting.Decimal.Exact.{product}
use ktayl_underwriting.Rating.Engine.{
  Value, Stage, Trail, Rated, ok, raised, minor, ◌>>=◌, append_item, start, Adjustment, applies,
  adjust, loss_cost_stage, load, technical_stage, commercial_stage, fee_stage, ipt_stage,
  RatingFacts, RateTableSpec, rate_with, rate, factor_of, outside, raised≢ok,
}
use ktayl_underwriting.Rating.Engine.Formula.{
  gated, loadings, stage_loadings, adjustment_factors, base_rate, pure_factors, technical_factors,
  commercial_factors, commercial_premium, with_fee, with_taxes, InBand,
}
use ktayl_underwriting.Rating.Engine.Subtotals.{
  percentages, product-append, append_item-subtotal, loss_cost_stage-subtotal,
  technical_stage-subtotal, commercial_stage-subtotal, fee_stage-subtotal, ipt_stage-subtotal,
}

-- `_to_minor` raises nothing.
abbrev pub IsPriceable : Decimal → Type 0
IsPriceable d = (m : ℤ) × (minor d ≡ ok m)

-- Nor does it on any of the products from the left.
abbrev pub Prices : Decimal → List Decimal → Type 0
Prices d [] = Unit
Prices d (f ∷ fs) = IsPriceable (mul d f) × Prices (mul d f) fs

abbrev pub Succeeds : {A : Type 0} → Rated A → Type 0
Succeeds {A} r = (a : A) × (r ≡ ok a)

pub Succeeds-bind :
    {A B : Type 0} (r : Rated A) (f : A → Rated B)
    → Succeeds r
    → ((a : A) → r ≡ ok a → Succeeds (f a))
    → Succeeds (r >>= f)
Succeeds-bind (ok a) f h k = k a refl
Succeeds-bind (raised e) f h k = absurd (raised≢ok h.1)

Prices-append :
    (d : Decimal) (fs gs : List Decimal)
    → Prices d (fs ++ gs)
    → Prices d fs × Prices (product d fs) gs
Prices-append d [] gs h = (tt, h)
Prices-append d (f ∷ fs) gs h = let (a, b) = Prices-append (mul d f) fs gs h.1 in ((h.0, a), b)

append_item-Succeeds :
    (label kind : String) (value : Value) (s : Stage) (d : Decimal) (tr : Trail)
    → IsPriceable d
    → Succeeds (append_item label kind value s d tr)
unfolding append_item
append_item-Succeeds label kind value s d tr h = Succeeds-bind (minor d) _ h (λ m e. (_, refl))

adjust-Succeeds :
    (adjustments : List Adjustment) (flags : List String) (tr : Trail)
    → Prices tr.subtotal (gated adjustments flags)
    → Succeeds (adjust adjustments flags tr)
unfolding adjust
adjust-Succeeds [] flags tr h = (tr, refl)
adjust-Succeeds (a ∷ rest) flags tr h = elim (Bool-cases (applies a.applies_when flags)) [
  | inl applied ↦
      let prices = rw applied at h in
      rw applied (
        Succeeds-bind _ (adjust rest flags) (append_item-Succeeds _ _ _ _ _ tr prices.0) λ mid e.
          adjust-Succeeds rest flags mid (rw (append_item-subtotal _ _ _ _ _ tr e) prices.1))
  | inr skipped ↦ rw skipped (adjust-Succeeds rest flags tr (rw skipped at h))
]

load-Succeeds :
    (ps : List (String × Decimal)) (tr : Trail)
    → Prices tr.subtotal (loadings (percentages ps))
    → Succeeds (load ps tr)
unfolding load
load-Succeeds [] tr h = (tr, refl)
load-Succeeds ((name, p) ∷ rest) tr h = elim (Bool-cases (lt (whole 0) p)) [
  | inl loaded ↦
      let prices = rw loaded at h in
      rw loaded (
        Succeeds-bind _ (load rest) (append_item-Succeeds _ _ _ _ _ tr prices.0)
          λ mid e. load-Succeeds rest mid (rw (append_item-subtotal _ _ _ _ _ tr e) prices.1))
  | inr skipped ↦ rw skipped (load-Succeeds rest tr (rw skipped at h))
]

loss_cost_stage-Succeeds :
    (facts : RatingFacts) (t : RateTableSpec) (f : Decimal)
    → Prices (base_rate t) (pure_factors facts t f)
    → Succeeds (loss_cost_stage facts t f)
unfolding loss_cost_stage
loss_cost_stage-Succeeds facts t f h =
    Succeeds-bind _ _ (append_item-Succeeds _ _ _ _ _ start h.0) λ base e.
      let at_base = append_item-subtotal _ _ _ _ _ start e in
      Succeeds-bind _ (adjust t.adjustments facts.flags)
        (append_item-Succeeds _ _ _ _ _ base (rw at_base h.1.0))
        λ occupied e'.
          adjust-Succeeds t.adjustments facts.flags occupied
            (rw (append_item-subtotal _ _ _ _ _ base e', at_base) h.1.1)

technical_stage-Succeeds :
    (t : RateTableSpec) (tr : Trail)
    → Prices tr.subtotal (stage_loadings t)
    → Succeeds (technical_stage t tr)
unfolding technical_stage
technical_stage-Succeeds t tr h = load-Succeeds _ tr h

commercial_stage-Succeeds :
    (facts : RatingFacts) (t : RateTableSpec) (tr : Trail)
    → InBand facts t
    → Prices tr.subtotal (adjustment_factors facts)
    → Succeeds (commercial_stage facts t tr)
unfolding commercial_stage
commercial_stage-Succeeds facts t tr band h =
    elim (Bool-cases (differs facts.commercial_adjustment (whole 1))) [
      | inl adjusted ↦
          let within : outside facts.commercial_adjustment t ≡ false =
            unfold outside in ground arith in
          rw (adjusted, within) (append_item-Succeeds _ _ _ _ _ tr (rw adjusted at h).0)
      | inr neutral ↦ rw neutral (tr, refl)
    ]

fee_stage-Succeeds :
    (t : RateTableSpec) (tr : Trail)
    → IsPriceable (with_fee t tr.subtotal)
    → Succeeds (fee_stage t tr)
unfolding fee_stage
fee_stage-Succeeds t tr h = elim (Bool-cases (ltb_ℤ (pos 0) t.fixed_fees_minor)) [
  | inl charged ↦ rw charged (append_item-Succeeds _ _ _ _ _ tr (rw charged at h))
  | inr free ↦ rw free (tr, refl)
]

ipt_stage-Succeeds :
    (t : RateTableSpec) (c : Decimal) (tr : Trail)
    → tr.subtotal ≡ with_fee t c
    → IsPriceable (with_taxes t c)
    → Succeeds (ipt_stage t c tr)
unfolding ipt_stage append_item
ipt_stage-Succeeds t c tr e h = elim (Bool-cases (lt (whole 0) t.ipt_rate)) [
  | inl taxed ↦ rw (taxed, e) (append_item-Succeeds _ _ _ _ _ tr (rw taxed at h))
  | inr untaxed ↦ rw untaxed (tr, refl)
]

-- What `rate` needs.
pub record CanRate (facts : RatingFacts) (t : RateTableSpec) (f : Decimal) : Type 0 where
  pub in_band : InBand facts t
  pub prices : Prices (base_rate t) (commercial_factors facts t f)
  pub fee : IsPriceable (with_fee t (commercial_premium facts t f))
  pub taxed : IsPriceable (with_taxes t (commercial_premium facts t f))

-- With a factor that is priceable the whole product is.
last-IsPriceable :
    (d f : Decimal) (fs : List Decimal) → Prices d (f ∷ fs) → IsPriceable (product d (f ∷ fs))
last-IsPriceable d f [] h = h.0
last-IsPriceable d f (g ∷ fs) h = last-IsPriceable (mul d f) g fs h.1

rate_with-Succeeds :
    (facts : RatingFacts) (t : RateTableSpec) (f : Decimal)
    → CanRate facts t f
    → Succeeds (rate_with facts t f)
unfolding rate_with
rate_with-Succeeds facts t f h =
    let base = base_rate t in
    let tiv = whole facts.tiv_eur in
    let gates = gated t.adjustments facts.flags in
    let pures = pure_factors facts t f in
    let (at_tech, at_comm) =
      Prices-append base (technical_factors facts t f) (adjustment_factors facts) h.prices in
    let (at_pure, at_load) = Prices-append base pures (stage_loadings t) at_tech in
    Succeeds-bind _ _ (loss_cost_stage-Succeeds facts t f at_pure) λ lost e1.
      let p = loss_cost_stage-subtotal facts t f e1 in
      Succeeds-bind _ _ (subst IsPriceable (sym p) (last-IsPriceable base tiv (f ∷ gates) at_pure))
        λ pure e2.
          Succeeds-bind _ _
            (technical_stage-Succeeds t lost
              (subst (λ d. Prices d (stage_loadings t)) (sym p) at_load))
            λ loaded e3.
              let q =
                technical_stage-subtotal t lost e3
                ∙ ap (λ d. product d (stage_loadings t)) p
                ∙ sym (product-append base pures (stage_loadings t)) in
              Succeeds-bind _ _
                (subst IsPriceable (sym q)
                  (last-IsPriceable base tiv (f ∷ (gates ++ stage_loadings t)) at_tech))
                λ tech e4.
                  Succeeds-bind _ _
                    (commercial_stage-Succeeds facts t loaded h.in_band
                      (subst (λ d. Prices d (adjustment_factors facts)) (sym q) at_comm))
                    λ adjusted e5.
                      let r =
                        (commercial_stage-subtotal facts t loaded e5).1
                        ∙ ap (λ d. product d (adjustment_factors facts)) q
                        ∙ sym (
                            product-append base (technical_factors facts t f)
                              (adjustment_factors facts)) in
                      Succeeds-bind _ _
                        (subst IsPriceable (sym r) (
                          last-IsPriceable base tiv
                            (f ∷ (gates ++ stage_loadings t ++ adjustment_factors facts)) h.prices))
                        λ comm e6.
                          Succeeds-bind _ _
                            (fee_stage-Succeeds t adjusted
                              (subst (λ d. IsPriceable (with_fee t d)) (sym r) h.fee))
                            λ fee e7.
                              let s = fee_stage-subtotal t adjusted e7 in
                              Succeeds-bind _ _
                                (ipt_stage-Succeeds t adjusted.subtotal fee s
                                  (subst (λ d. IsPriceable (with_taxes t d)) (sym r) h.taxed))
                                λ taxed e8.
                                  let v =
                                    ipt_stage-subtotal t adjusted.subtotal fee s e8
                                    ∙ ap (with_taxes t) r in
                                  Succeeds-bind _ _ (subst IsPriceable (sym v) h.taxed)
                                    λ premium e9. (_, refl)

-- `rate` returns a price wherever the occupancy has a factor, the commercial adjustment is neutral or in the
-- band, and each subtotal can be rounded to a whole eurocent within 28 digits.
pub rate-Succeeds :
    (facts : RatingFacts) (t : RateTableSpec) (f : Decimal)
    → factor_of facts.occupancy t.occupancy_factors ≡ some f
    → CanRate facts t f
    → Succeeds (rate facts t)
unfolding rate
rate-Succeeds facts t f known h = rw (rate, known) (rate_with-Succeeds facts t f h)
