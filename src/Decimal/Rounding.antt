-- ===== src/Decimal/Rounding.antt =====
-- What the two roundings return: a nearest whole number, and in order.
use native.Mathlib.Nat.{pow-suc, pow-succ', div-div-eq-div-mul}
use ktayl_underwriting.Prelude.{
  ℕ, zero, suc, ◌+◌, ◌*◌, ◌/◌, ◌^◌, ◌≤◌, ◌<◌, ◌≡◌, some, arith, ltb, inl, inr, Bool-cases, ltb→lt,
}
use ktayl_underwriting.Prelude.Int.{pos}
use ktayl_underwriting.Decimal.{limit, fraction, half_up, half_even, excess, to_minor}

pub pow_pos : (k : ℕ) → 1 ≤ 10 ^ k
pow_pos zero = omega arith
pow_pos (suc k) = omega (arith, pow-suc 10 k, pow_pos k)

-- The rounded number is within half a unit, and a tie goes up.
pub half_up_nearest :
    (n k : ℕ)
    → (half_up n k * (2 * 10 ^ k) ≤ 2 * n + 10 ^ k) × (2 * n < half_up n k * (2 * 10 ^ k) + 10 ^ k)
unfolding half_up
half_up_nearest n k = grind (arith, pow_pos k)

-- A multiple of a unit that is at most another, up to less than one unit, is at most it.
pub le_of_units : (a b u : ℕ) → a * u < b * u + u → a ≤ b
le_of_units a b u h = grind arith

-- More to round gives no less.
pub half_up_mono : (m n k : ℕ) → m ≤ n → half_up m k ≤ half_up n k
half_up_mono m n k h =
    le_of_units (half_up m k) (half_up n k) (2 * 10 ^ k)
      (omega (arith, half_up_nearest m k, half_up_nearest n k))

-- `excess` drops enough digits: what is left fits the context.
pub excess_fits : (fuel n : ℕ) → n ≤ fuel → n / 10 ^ excess fuel n < limit
unfolding excess
excess_fits zero n h = omega arith
excess_fits (suc fuel) n h = elim (Bool-cases (ltb n limit)) [
  | inl small ↦ rw small (omega (arith, ltb→lt n limit small))
  | inr large ↦
      rw
        (
          large,
          pow-succ' 10 (excess fuel (n / 10)),
          ← div-div-eq-div-mul n 10 (10 ^ excess fuel (n / 10)),
        )
        (excess_fits fuel (n / 10) (grind arith))
]

-- The context's rounding moves a result by at most half a unit of its last place kept.
pub half_even_nearest :
    (n k : ℕ)
    → (half_even n k * (2 * 10 ^ k) ≤ 2 * n + 10 ^ k)
      × (2 * n ≤ half_even n k * (2 * 10 ^ k) + 10 ^ k)
unfolding half_even
half_even_nearest n k = grind (arith, pow_pos k)

-- What `_to_minor` gives for an amount n / 10^s of zero or more is within half a unit of the amount, and a tie goes up.
pub to_minor_nearest :
    (n s : ℕ) {m : ℕ}
    → to_minor (fraction n s) ≡ some (pos m)
    → (m * (2 * 10 ^ s) ≤ 2 * n + 10 ^ s) × (2 * n < m * (2 * 10 ^ s) + 10 ^ s)
unfolding to_minor
to_minor_nearest n s {m} h = ground (arith, half_up_nearest n s)

-- Of two amounts of zero or more with the same scale, `_to_minor` gives the larger no less than the smaller.
pub to_minor_mono :
    (m n s : ℕ) {a b : ℕ}
    → m ≤ n
    → to_minor (fraction m s) ≡ some (pos a)
    → to_minor (fraction n s) ≡ some (pos b)
    → a ≤ b
unfolding to_minor
to_minor_mono m n s {a} {b} h p q = ground (arith, half_up_mono m n s h)
