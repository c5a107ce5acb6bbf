-- ===== src/Decimal.antt =====
-- The finite values of Python's `decimal.Decimal`, as app/rating/engine.py uses them under the default
-- context: arithmetic keeps 28 significant digits and rounds half to even; `quantize` to a whole number
-- rounds half up and raises InvalidOperation past 28 digits. A value is ±digits / 10^scale; trailing
-- zeros, the sign of zero and the bounds on the exponent are not modelled.
pub mod Exact
pub mod Rounding
use ktayl_underwriting.Prelude.{
  ℕ, zero, suc, ◌+◌, ◌-◌, ◌*◌, ◌/◌, ◌%◌, ◌^◌, max, Bool, true, false, not, ◌&&◌, ◌||◌, Option, none,
  some, ltb, leb, ◌==◌, if◌then◌else◌,
}
use ktayl_underwriting.Prelude.Int.{ℤ, pos, negsuc, ◌+ℤ◌, ltb_ℤ, pos_part, neg_part, sub_ℕ}

pub record Decimal : Type 0 where
  pub negative : Bool
  pub digits : ℕ
  pub scale : ℕ

-- The least number with more digits than the context keeps.
abbrev pub limit : ℕ
limit = 10 ^ 28

abbrev pub whole : ℕ → Decimal
whole n = record { negative = false; digits = n; scale = 0 }

-- `Decimal("0.85")` is `fraction 85 2`.
abbrev pub fraction : ℕ → ℕ → Decimal
fraction n s = record { negative = false; digits = n; scale = s }

abbrev pub signed : Bool → ℕ → ℤ
signed false n = pos n
signed true zero = pos 0
signed true (suc n) = negsuc n

-- n / 10^k, a tie going to the even neighbour.
unfoldable pub half_even : ℕ → ℕ → ℕ
half_even n k =
    let p = 10 ^ k in
    let q = n / p in
    let r = n % p in if ltb p (2 * r) || ((2 * r == p) && (q % 2 == 1)) then q + 1 else q

-- n / 10^k, a tie going up.
unfoldable pub half_up : ℕ → ℕ → ℕ
half_up n k = let p = 10 ^ k in if leb p (2 * (n % p)) then n / p + 1 else n / p

-- How many digits of `n` stand past the first 28.
unfoldable pub excess : ℕ → ℕ → ℕ
excess zero n = 0
excess (suc fuel) n = let rest = suc (excess fuel (n / 10)) in if ltb n limit then 0 else rest

-- Drops the last `k` digits.
unfoldable pub shrink : Decimal → ℕ → Decimal
unfolding half_even
shrink d k =
    let q = half_even d.digits k in
    if leb k d.scale
    then record d { digits = q; scale = d.scale - k }
    else record d { digits = q * 10 ^ (k - d.scale); scale = 0 }

-- The context's rounding of an exact result.
unfoldable pub fix : Decimal → Decimal
unfolding excess shrink
fix d = if ltb d.digits limit then d else shrink d (excess d.digits d.digits)

abbrev pub exact_mul : Decimal → Decimal → Decimal
exact_mul a b = record {
  negative = (a.negative && not b.negative) || (not a.negative && b.negative);
  digits = a.digits * b.digits;
  scale = a.scale + b.scale;
}

-- `a * b`
unfoldable pub mul : Decimal → Decimal → Decimal
unfolding fix
mul a b = fix (exact_mul a b)

-- `a / Decimal(1000)`
unfoldable pub div_thousand : Decimal → Decimal
unfolding fix
div_thousand a = fix (record a { scale = a.scale + 3 })

-- The value, in units of 1 / 10^s.
abbrev pub units : ℕ → Decimal → ℤ
units s d = signed d.negative (d.digits * 10 ^ (s - d.scale))

abbrev pub is_negative : ℤ → Bool
is_negative (pos n) = false
is_negative (negsuc n) = true

abbrev pub of_units : ℕ → ℤ → Decimal
of_units s z = record { negative = is_negative z; digits = pos_part z + neg_part z; scale = s }

-- `Decimal(n)` of an int.
abbrev pub of_int : ℤ → Decimal
of_int z = of_units 0 z

-- `a + b`
unfoldable pub add : Decimal → Decimal → Decimal
unfolding fix ◌+ℤ◌
add a b = let s = max a.scale b.scale in fix (of_units s (units s a +ℤ units s b))

-- `a < b`
unfoldable pub lt : Decimal → Decimal → Bool
lt a b = let s = max a.scale b.scale in ltb_ℤ (units s a) (units s b)

-- `a != b`
unfoldable pub differs : Decimal → Decimal → Bool
unfolding lt
differs a b = lt a b || lt b a

-- `int(a.quantize(Decimal("1"), rounding=ROUND_HALF_UP))`; `none` is InvalidOperation.
unfoldable pub to_minor : Decimal → Option ℤ
unfolding half_up
to_minor a =
    let q = half_up a.digits a.scale in if ltb q limit then some (signed a.negative q) else none
