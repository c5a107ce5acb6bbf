-- ===== src/Rating/Engine/Version2.antt =====
-- The prices of the rate table version 2 of app/rating/repository.py.
use ktayl_underwriting.Prelude.{
  ℕ, true, ◌+◌, ◌*◌, ◌^◌, ◌≤◌, ◌<◌, ◌≡◌, refl, sym, ap, ◌∙◌, subst, false, some, List, [], ◌∷◌, All,
  All-append, arith, Bool-cases, inl, inr, append-nil,
}
use ktayl_underwriting.Prelude.Text.{contains}
use ktayl_underwriting.Decimal.{Decimal, whole, fraction, limit, differs}
use ktayl_underwriting.Decimal.Exact.{product, exact_product, IsNonzero, product_exact}
use ktayl_underwriting.Enums.{Occupancy, occupancy_value}
use ktayl_underwriting.Rating.Engine.{RatingFacts, RateTableSpec, rate, factor_of}
use ktayl_underwriting.Rating.Engine.Formula.{
  gated, base_rate, pure_factors, technical_factors, commercial_factors, commercial_premium,
  with_fee, with_taxes,
}
use ktayl_underwriting.Rating.Engine.Total.{IsPriceable, Prices, Succeeds, CanRate, rate-Succeeds}
use ktayl_underwriting.Rating.Tables.{from_rules, v2_rules, v1_factors, v1_adjustments}
use ktayl_underwriting.Rating.Engine.Fits.{IsSmall, fits-Prices}
use ktayl_underwriting.Rating.Engine.Room.{
  v2_spec, v2_read, v2_base, v2_loadings, neutral, v2_taxed, v2_factors, v2_amount, HasRoom, most,
  has_room, has_room-HasRoom,
}

-- What version 2 prices a risk at, with the factor of its occupancy.
pub record IsPriced (facts : RatingFacts) (f : Decimal) : Type 0 where
  pub can : CanRate facts v2_spec f
  pub pure : IsSmall (product (base_rate v2_spec) (pure_factors facts v2_spec f))
  pub loaded : IsSmall (product (base_rate v2_spec) (technical_factors facts v2_spec f))
  pub adjusted : IsSmall (commercial_premium facts v2_spec f)
  pub taxed : IsSmall (with_taxes v2_spec (commercial_premium facts v2_spec f))
  pub amount :
      with_taxes v2_spec (commercial_premium facts v2_spec f)
      ≡ v2_amount facts.tiv_eur f (gated v1_adjustments facts.flags)

v2-IsNonzero :
    (n : ℕ) (f : Decimal) (gates : List Decimal)
    → 1 ≤ n
    → IsNonzero f
    → All IsNonzero gates
    → All IsNonzero (v2_factors n f gates)
v2-IsNonzero n f gates low nz h =
    (low, (nz, All-append IsNonzero gates _ h (omega arith, (omega arith, (omega arith, tt)))))

module _ (facts : RatingFacts) (f : Decimal) (plain : facts.commercial_adjustment ≡ whole 1)
    (low : 1 ≤ facts.tiv_eur) (nonzero_factor : IsNonzero f) where
  v2-IsPriced :
      (gates : List Decimal)
      → gated v1_adjustments facts.flags ≡ gates
      → All IsNonzero gates
      → HasRoom facts.tiv_eur f gates
      → IsPriced facts f
  v2-IsPriced gates applied nonzero_gates
        (positive, room, at_start, fits_pure, small_pure, small, small_taxed) =
      let fs = v2_factors facts.tiv_eur f gates in
      let nonzero = v2-IsNonzero facts.tiv_eur f gates low nonzero_factor nonzero_gates in
      let c = exact_product (fraction 5 4) fs in
      let unadjusted : differs facts.commercial_adjustment (whole 1) ≡ false = rw plain neutral in
      let factors : commercial_factors facts v2_spec f ≡ fs =
        rw (applied, v2_loadings, unadjusted) (append-nil fs) in
      let fits : c.digits < limit = omega (arith, room) in
      let premium : commercial_premium facts v2_spec f ≡ fraction c.digits c.scale =
        ap (product (base_rate v2_spec)) factors
        ∙ ap (λ b. product b fs) v2_base
        ∙ product_exact (fraction 5 4) fs nonzero fits
        ∙ ap (λ b. record c { negative = b }) positive in
      let pures = whole facts.tiv_eur ∷ f ∷ gates in
      let p = exact_product (fraction 5 4) pures in
      let nonzero_pures : All IsNonzero pures = (low, (nonzero_factor, nonzero_gates)) in
      let pure : product (base_rate v2_spec) (pure_factors facts v2_spec f)
          ≡ fraction p.digits p.scale =
        ap (λ gs. product (base_rate v2_spec) (whole facts.tiv_eur ∷ f ∷ gs)) applied
        ∙ ap (λ b. product b pures) v2_base
        ∙ product_exact (fraction 5 4) pures nonzero_pures fits_pure
        ∙ ap (λ b. record p { negative = b }) at_start in
      let unadjusted_factors : commercial_factors facts v2_spec f
          ≡ technical_factors facts v2_spec f =
        rw unadjusted (append-nil (technical_factors facts v2_spec f)) in
      let (fee, taxed, with_tax) = v2_taxed c.digits c.scale room in
      let total = (c.digits + 5000 * 10 ^ c.scale) * 100 + c.digits * 9 in
      record {
        can = record {
          in_band = inl unadjusted;
          prices =
              subst (Prices (base_rate v2_spec)) (sym factors) (
                subst (λ b. Prices b fs) (sym v2_base)
                  (fits-Prices (fraction 5 4) fs nonzero fits));
          fee = subst (λ x. IsPriceable (with_fee v2_spec x)) (sym premium) fee;
          taxed = subst (λ x. IsPriceable (with_taxes v2_spec x)) (sym premium) taxed;
        };
        pure = (p.digits, p.scale, pure, small_pure);
        loaded = (
          c.digits,
          c.scale,
          sym (ap (product (base_rate v2_spec)) unadjusted_factors) ∙ premium,
          small,
        );
        adjusted = (c.digits, c.scale, premium, small);
        taxed = (total, c.scale + 2, ap (with_taxes v2_spec) premium ∙ with_tax, small_taxed);
        amount =
            ap (with_taxes v2_spec) premium
            ∙ with_tax
            ∙ ap (v2_amount facts.tiv_eur f) (sym applied);
      }

  v2_flags :
      facts.tiv_eur ≤ most
      → has_room f [] ≡ true
      → has_room f (fraction 110 2 ∷ []) ≡ true
      → has_room f (fraction 95 2 ∷ []) ≡ true
      → has_room f (fraction 110 2 ∷ fraction 95 2 ∷ []) ≡ true
      → IsPriced facts f
  v2_flags high neither large sprinklered both =
      let room = has_room-HasRoom facts.tiv_eur f high in
      elim (Bool-cases (contains "high_tiv" facts.flags)) [
        | inl h ↦ elim (Bool-cases (contains "sprinklered" facts.flags)) [
          | inl k ↦
              v2-IsPriced (fraction 110 2 ∷ fraction 95 2 ∷ []) (rw (h, k) refl)
                (omega arith, (omega arith, tt)) (room (fraction 110 2 ∷ fraction 95 2 ∷ []) both)
          | inr k ↦
              v2-IsPriced (fraction 110 2 ∷ []) (rw (h, k) refl) (omega arith, tt)
                (room (fraction 110 2 ∷ []) large)
        ]
        | inr h ↦ elim (Bool-cases (contains "sprinklered" facts.flags)) [
          | inl k ↦
              v2-IsPriced (fraction 95 2 ∷ []) (rw (h, k) refl) (omega arith, tt)
                (room (fraction 95 2 ∷ []) sprinklered)
          | inr k ↦ v2-IsPriced [] (rw (h, k) refl) tt (room [] neither)
        ]
      ]

pub v2_at :
    (facts : RatingFacts) (o : Occupancy)
    → facts.commercial_adjustment ≡ whole 1
    → 1 ≤ facts.tiv_eur
    → facts.tiv_eur ≤ most
    → (f : Decimal) × (factor_of (occupancy_value o) v1_factors ≡ some f) × IsPriced facts f
unfolding factor_of
v2_at facts Occupancy.office plain low high =
    let f = fraction 10 1 in
    (f, refl, v2_flags facts f plain low (omega arith) high refl refl refl refl)
v2_at facts Occupancy.retail plain low high =
    let f = fraction 11 1 in
    (f, refl, v2_flags facts f plain low (omega arith) high refl refl refl refl)
v2_at facts Occupancy.warehouse plain low high =
    let f = fraction 125 2 in
    (f, refl, v2_flags facts f plain low (omega arith) high refl refl refl refl)
v2_at facts Occupancy.light_manufacturing plain low high =
    let f = fraction 15 1 in
    (f, refl, v2_flags facts f plain low (omega arith) high refl refl refl refl)
v2_at facts Occupancy.fireworks_manufacturing plain low high =
    let f = fraction 30 1 in
    (f, refl, v2_flags facts f plain low (omega arith) high refl refl refl refl)

-- The rate table version 2 prices every risk of one of the occupancies with an insured value of at least 1 and at most
-- 10,000,000,000,000 eurocents and a neutral commercial adjustment, whatever its flags.
pub v2-Succeeds :
    (facts : RatingFacts) (t : RateTableSpec) (o : Occupancy)
    → from_rules 2 v2_rules ≡ some t
    → facts.occupancy ≡ occupancy_value o
    → facts.commercial_adjustment ≡ whole 1
    → 1 ≤ facts.tiv_eur
    → facts.tiv_eur ≤ 10_000_000_000_000
    → Succeeds (rate facts t)
v2-Succeeds facts t o read known plain low high =
    let (f, found, can) = v2_at facts o plain low high in
    let same : v2_spec ≡ t = cc (sym v2_read ∙ read) in
    subst (λ t. Succeeds (rate facts t)) same
      (rate-Succeeds facts v2_spec f (ap (λ k. factor_of k v1_factors) known ∙ found) can.can)
