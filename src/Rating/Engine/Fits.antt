-- ===== src/Rating/Engine/Fits.antt =====
-- Amounts and sums within 28 digits.
use ktayl_underwriting.Prelude.{
  ℕ, ◌+◌, ◌-◌, ◌*◌, ◌^◌, ◌≤◌, ◌<◌, max, ◌≡◌, refl, sym, ap, ◌∙◌, subst, List, [], ◌∷◌, All, arith,
  lt→ltb,
}
use ktayl_underwriting.Prelude.Int.{ℤ, pos, ◌+ℤ◌}
use ktayl_underwriting.Decimal.{
  Decimal, whole, fraction, limit, half_up, to_minor, add, fix, exact_mul, of_units, signed,
}
use ktayl_underwriting.Decimal.Exact.{
  exact_product, IsNonzero, le-exact_product, mul_exact, fix_exact,
}
use ktayl_underwriting.Decimal.Rounding.{half_up_nearest, pow_pos, le_of_units}
use ktayl_underwriting.Rating.Engine.{minor, ok, ok-injective}
use ktayl_underwriting.Rating.Engine.Total.{IsPriceable, Prices}

le-double : (n p : ℕ) → 1 ≤ p → 2 * n ≤ n * (2 * p)
le-double n p h = grind arith

pub half_up_le : (n k : ℕ) → half_up n k ≤ n
half_up_le n k =
    le_of_units (half_up n k) n (2 * 10 ^ k)
      (omega (arith, (half_up_nearest n k).0, le-double n (10 ^ k) (pow_pos k), pow_pos k))

-- What fits 28 digits can be rounded to a whole number.
pub fits-IsPriceable : (d : Decimal) → d.digits < limit → IsPriceable d
unfolding to_minor
fits-IsPriceable d h =
    let fits : half_up d.digits d.scale < limit = omega (arith, half_up_le d.digits d.scale, h) in
    (
      signed d.negative (half_up d.digits d.scale),
      rw (lt→ltb (half_up d.digits d.scale) limit fits, minor, to_minor) refl,
    )

pub fits-Prices :
    (d : Decimal) (fs : List Decimal)
    → All IsNonzero fs
    → (exact_product d fs).digits < limit
    → Prices d fs
fits-Prices d [] nz h = tt
fits-Prices d (f ∷ fs) nz h =
    let small : d.digits * f.digits < limit =
      omega (arith, le-exact_product (exact_mul d f) fs nz.1, h) in
    subst (λ x. IsPriceable x × Prices x fs) (sym (mul_exact d f small))
      (fits-IsPriceable (exact_mul d f) small, fits-Prices (exact_mul d f) fs nz.1 h)

pos_add : (x y : ℕ) → pos x +ℤ pos y ≡ pos (x + y)
unfolding ◌+ℤ◌
pos_add x y = ground arith

-- The sum of two amounts of zero or more.
add_fits :
    (m s n t v : ℕ)
    → m * 10 ^ (max s t - s) + n * 10 ^ (max s t - t) ≡ v
    → v < limit
    → add (fraction m s) (fraction n t) ≡ fraction v (max s t)
unfolding add
add_fits m s n t v e h =
    let x = m * 10 ^ (max s t - s) in
    let y = n * 10 ^ (max s t - t) in
    let same_digits : v + 0 ≡ v = omega arith in
    ap (λ z. fix (of_units (max s t) z)) (pos_add x y ∙ ap pos e)
    ∙ ap (λ k. fix (fraction k (max s t))) same_digits
    ∙ fix_exact (fraction v (max s t)) h

pub add_zero_scale :
    (m s n : ℕ)
    → m + n * 10 ^ s < limit
    → add (fraction m s) (whole n) ≡ fraction (m + n * 10 ^ s) s
add_zero_scale m s n h =
    let at_s : max s 0 ≡ s = omega arith in
    let none_left : s - s ≡ 0 = omega arith in
    let all_left : s - 0 ≡ s = omega arith in
    let v : m * 10 ^ (max s 0 - s) + n * 10 ^ (max s 0 - 0) ≡ m + n * 10 ^ s =
      rw (at_s, none_left, all_left) (omega arith) in
    add_fits m s n 0 (m + n * 10 ^ s) v h ∙ ap (fraction (m + n * 10 ^ s)) at_s

pub add_scale :
    (m s n k : ℕ)
    → m * 10 ^ k + n < limit
    → add (fraction m s) (fraction n (s + k)) ≡ fraction (m * 10 ^ k + n) (s + k)
add_scale m s n k h =
    let at_s : max s (s + k) ≡ s + k = omega arith in
    let left : s + k - s ≡ k = omega arith in
    let none_left : s + k - (s + k) ≡ 0 = omega arith in
    let v : m * 10 ^ (max s (s + k) - s) + n * 10 ^ (max s (s + k) - (s + k)) ≡ m * 10 ^ k + n =
      rw (at_s, left, none_left) (omega arith) in
    add_fits m s n (s + k) (m * 10 ^ k + n) v h ∙ ap (fraction (m * 10 ^ k + n)) at_s

-- An amount of zero or more below 2^62.
abbrev pub IsSmall : Decimal → Type 0
IsSmall d = (m : ℕ) × (s : ℕ) × (d ≡ fraction m s) × (m < 2 ^ 62 * 10 ^ s)

half_up_small : (m s : ℕ) → m < 2 ^ 62 * 10 ^ s → half_up m s ≤ 2 ^ 62
half_up_small m s h =
    le_of_units (half_up m s) (2 ^ 62) (2 * 10 ^ s)
      (omega (arith, (half_up_nearest m s).0, h, pow_pos s))

-- It is rounded to a number of at most 2^62.
pub minor-IsSmall :
    (d : Decimal) {m : ℤ} → IsSmall d → minor d ≡ ok m → (k : ℕ) × (m ≡ pos k) × (k ≤ 2 ^ 62)
unfolding to_minor
minor-IsSmall d {m} (n, s, amount, small) e =
    let q = half_up n s in
    let bound = half_up_small n s small in
    let fits : q < limit = omega (arith, bound) in
    let found : minor (fraction n s) ≡ ok (pos q) =
      rw (lt→ltb q limit fits, minor, to_minor) refl in
    (q, ok-injective (sym e ∙ ap minor amount ∙ found), bound)
