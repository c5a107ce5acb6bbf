-- ===== src/Rating/Engine/Room.antt =====
-- The rate table version 2 of app/rating/repository.py as it is read, and the room that its products need.
use ktayl_underwriting.Prelude.{
  ℕ, Bool, true, not, ltb, ltb→lt, ◌&&◌, ◌+◌, ◌*◌, ◌^◌, ◌≤◌, ◌<◌, ◌≡◌, refl, sym, ap, ◌∙◌, subst,
  false, some, List, [], ◌∷◌, ◌++◌, arith,
}
use ktayl_underwriting.Prelude.Int.{pos, ◌+ℤ◌}
use ktayl_underwriting.Decimal.{
  Decimal, whole, fraction, limit, mul, exact_mul, add, div_thousand, fix, lt, differs,
}
use ktayl_underwriting.Decimal.Exact.{exact_product, exact_product_mono, mul_exact}
use ktayl_underwriting.Rating.Engine.{RateTableSpec}
use ktayl_underwriting.Rating.Engine.Formula.{stage_loadings, base_rate, with_fee, with_taxes}
use ktayl_underwriting.Rating.Engine.Total.{IsPriceable}
use ktayl_underwriting.Rating.Tables.{from_rules, v2_rules, v1_factors, v1_adjustments}
use ktayl_underwriting.Rating.Engine.Fits.{fits-IsPriceable, add_zero_scale, add_scale}

-- The table that the payload of version 2 is read as.
abbrev pub v2_spec : RateTableSpec
v2_spec = record {
  version = 2;
  base_rate_permille = fraction 5 1;
  occupancy_factors = v1_factors;
  adjustments = v1_adjustments;
  expense_loading = fraction 15 2;
  risk_margin = fraction 6 2;
  cat_provision = fraction 4 2;
  commercial_adjustment_min = fraction 85 2;
  commercial_adjustment_max = fraction 115 2;
  ipt_rate = fraction 9 2;
  fixed_fees_minor = pos 5000;
}

pub v2_read : from_rules 2 v2_rules ≡ some v2_spec
unfolding from_rules
v2_read = refl

pub v2_base : base_rate v2_spec ≡ fraction 5 4
unfolding div_thousand fix
v2_base = refl

pub v2_loadings : stage_loadings v2_spec ≡ fraction 115 2 ∷ fraction 106 2 ∷ fraction 104 2 ∷ []
unfolding lt add fix ◌+ℤ◌
v2_loadings = refl

pub neutral : differs (whole 1) (whole 1) ≡ false
unfolding differs lt
neutral = refl

-- The fee and the tax of version 2 on an amount with room for them.
pub v2_taxed :
    (m s : ℕ)
    → (m + 5000 * 10 ^ s) * 100 + m * 9 < limit
    → IsPriceable (with_fee v2_spec (fraction m s))
      × IsPriceable (with_taxes v2_spec (fraction m s))
      × (with_taxes v2_spec (fraction m s) ≡ fraction ((m + 5000 * 10 ^ s) * 100 + m * 9) (s + 2))
unfolding lt
v2_taxed m s h =
    let fee : with_fee v2_spec (fraction m s) ≡ fraction (m + 5000 * 10 ^ s) s =
      add_zero_scale m s 5000 (omega (arith, h)) in
    let tax : mul (fraction m s) (fraction 9 2) ≡ fraction (m * 9) (s + 2) =
      mul_exact (fraction m s) (fraction 9 2) (omega (arith, h)) in
    let taxed : with_taxes v2_spec (fraction m s)
        ≡ fraction ((m + 5000 * 10 ^ s) * 100 + m * 9) (s + 2) =
      ap (λ x. add x (mul (fraction m s) (fraction 9 2))) fee
      ∙ ap (add (fraction (m + 5000 * 10 ^ s) s)) tax
      ∙ add_scale (m + 5000 * 10 ^ s) s (m * 9) 2 h in
    (
      subst IsPriceable (sym fee)
          (fits-IsPriceable (fraction (m + 5000 * 10 ^ s) s) (omega (arith, h))),
      subst IsPriceable (sym taxed)
          (fits-IsPriceable (fraction ((m + 5000 * 10 ^ s) * 100 + m * 9) (s + 2)) h),
      taxed,
    )

abbrev pub v2_factors : ℕ → Decimal → List Decimal → List Decimal
v2_factors n f gates =
    whole n ∷ f ∷ (gates ++ (fraction 115 2 ∷ fraction 106 2 ∷ fraction 104 2 ∷ []))

-- The amount of version 2 with its fee and its tax, where no product rounds.
abbrev pub v2_amount : ℕ → Decimal → List Decimal → Decimal
v2_amount n f gates =
    let c = exact_product (fraction 5 4) (v2_factors n f gates) in
    fraction ((c.digits + 5000 * 10 ^ c.scale) * 100 + c.digits * 9) (c.scale + 2)

-- The product of the factors is an amount with room for the fee and the tax.
abbrev pub HasRoom : ℕ → Decimal → List Decimal → Type 0
HasRoom n f gates =
    let c = exact_product (fraction 5 4) (v2_factors n f gates) in
    let p = exact_product (fraction 5 4) (whole n ∷ f ∷ gates) in
    (c.negative ≡ false)
    × ((c.digits + 5000 * 10 ^ c.scale) * 100 + c.digits * 9 < limit)
    × (p.negative ≡ false)
    × (p.digits < limit)
    × (p.digits < 2 ^ 62 * 10 ^ p.scale)
    × (c.digits < 2 ^ 62 * 10 ^ c.scale)
    × ((c.digits + 5000 * 10 ^ c.scale) * 100 + c.digits * 9 < 2 ^ 62 * 10 ^ (c.scale + 2))

-- The most insured value for which it is computed that there is room.
abbrev pub most : ℕ
most = 10_000_000_000_000

-- Whether there is room for that value.
abbrev pub has_room : Decimal → List Decimal → Bool
has_room f gates =
    let c = exact_product (fraction 5 4) (v2_factors most f gates) in
    let p = exact_product (fraction 5 4) (whole most ∷ f ∷ gates) in
    let total = (c.digits + 5000 * 10 ^ c.scale) * 100 + c.digits * 9 in
    not c.negative
    && (ltb total limit
        && (not p.negative
            && (ltb p.digits limit
                && (ltb p.digits (2 ^ 62 * 10 ^ p.scale)
                    && (ltb c.digits (2 ^ 62 * 10 ^ c.scale)
                        && ltb total (2 ^ 62 * 10 ^ (c.scale + 2)))))))

&&-eq-true : (a b : Bool) → a && b ≡ true → (a ≡ true) × (b ≡ true)
&&-eq-true true b h = (refl, h)
&&-eq-true false b h = cc

not-eq-true : (b : Bool) → not b ≡ true → b ≡ false
not-eq-true true h = cc
not-eq-true false h = refl

-- What is room for the most is room for less.
pub has_room-HasRoom :
    (n : ℕ) (f : Decimal)
    → n ≤ most
    → (gates : List Decimal) → has_room f gates ≡ true
    → HasRoom n f gates
has_room-HasRoom n f high gates h =
    let few = exact_mul (fraction 5 4) (whole n) in
    let many = exact_mul (fraction 5 4) (whole most) in
    let rest = gates ++ (fraction 115 2 ∷ fraction 106 2 ∷ fraction 104 2 ∷ []) in
    let (c_le, c_scale, c_sign) =
      exact_product_mono few many (f ∷ rest) (omega (arith, high)) refl refl in
    let (p_le, p_scale, p_sign) =
      exact_product_mono few many (f ∷ gates) (omega (arith, high)) refl refl in
    let c = exact_product many (f ∷ rest) in
    let p = exact_product many (f ∷ gates) in
    let total = (c.digits + 5000 * 10 ^ c.scale) * 100 + c.digits * 9 in
    let (c_positive, h1) = &&-eq-true (not c.negative) _ h in
    let (total_fits, h2) = &&-eq-true (ltb total limit) _ h1 in
    let (p_positive, h3) = &&-eq-true (not p.negative) _ h2 in
    let (p_fits, h4) = &&-eq-true (ltb p.digits limit) _ h3 in
    let (p_small, h5) = &&-eq-true (ltb p.digits (2 ^ 62 * 10 ^ p.scale)) _ h4 in
    let (c_small, total_small) =
      &&-eq-true (ltb c.digits (2 ^ 62 * 10 ^ c.scale)) (ltb total (2 ^ 62 * 10 ^ (c.scale + 2)))
        h5 in
    let unit = ap (λ s. 10 ^ s) c_scale in
    (
      c_sign ∙ not-eq-true c.negative c_positive,
      omega (arith, c_le, unit, ltb→lt total limit total_fits),
      p_sign ∙ not-eq-true p.negative p_positive,
      omega (arith, p_le, ltb→lt p.digits limit p_fits),
      omega
          (arith, p_le, ap (λ s. 10 ^ s) p_scale, ltb→lt p.digits (2 ^ 62 * 10 ^ p.scale) p_small),
      omega (arith, c_le, unit, ltb→lt c.digits (2 ^ 62 * 10 ^ c.scale) c_small),
      omega (
        arith,
        c_le,
        unit,
        ap (λ s. 10 ^ (s + 2)) c_scale,
        ltb→lt total (2 ^ 62 * 10 ^ (c.scale + 2)) total_small,
      ),
    )
