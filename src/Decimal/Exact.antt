-- ===== src/Decimal/Exact.antt =====
-- Products that fit 28 digits are exact.
use ktayl_underwriting.Prelude.{
  ◌*◌, ◌≤◌, ◌<◌, ◌+◌, ◌≡◌, refl, ◌∙◌, ap, List, [], ◌∷◌, arith, All, ◌&&◌, ◌||◌, not,
}
use ktayl_underwriting.Decimal.{Decimal, limit, exact_mul, mul, fix, div_thousand}

pub fix_exact : (d : Decimal) → d.digits < limit → fix d ≡ d
unfolding fix
fix_exact d h = ground arith

pub mul_exact : (a b : Decimal) → a.digits * b.digits < limit → mul a b ≡ exact_mul a b
unfolding mul
mul_exact a b h = ground arith

pub div_thousand_exact :
    (a : Decimal) → a.digits < limit → div_thousand a ≡ record a { scale = a.scale + 3 }
unfolding div_thousand
div_thousand_exact a h = ground arith

-- The product from the left, rounded after each step, and the same with no rounding.
abbrev pub product : Decimal → List Decimal → Decimal
product a [] = a
product a (f ∷ fs) = product (mul a f) fs

abbrev pub exact_product : Decimal → List Decimal → Decimal
exact_product a [] = a
exact_product a (f ∷ fs) = exact_product (exact_mul a f) fs

abbrev pub IsNonzero : Decimal → Type 0
IsNonzero d = 1 ≤ d.digits

-- Multiplying by nonzero factors loses no digits.
pub le-exact_product :
    (a : Decimal) (fs : List Decimal) → All IsNonzero fs → a.digits ≤ (exact_product a fs).digits
le-exact_product a [] h = omega arith
le-exact_product a (f ∷ fs) h = grind (arith, le-exact_product (exact_mul a f) fs h.1)

-- If the whole product fits, no step rounds.
pub product_exact :
    (a : Decimal) (fs : List Decimal)
    → All IsNonzero fs
    → (exact_product a fs).digits < limit
    → product a fs ≡ exact_product a fs
product_exact a [] h fits = refl
product_exact a (f ∷ fs) h fits =
    ap (λ x. product x fs) (mul_exact a f (grind (arith, le-exact_product (exact_mul a f) fs h.1)))
    ∙ product_exact (exact_mul a f) fs h.1 fits

-- With fewer digits at the start the whole product has no more; its scale and its sign are those of the start.
pub exact_product_mono :
    (a b : Decimal) (fs : List Decimal)
    → a.digits ≤ b.digits
    → a.scale ≡ b.scale
    → a.negative ≡ b.negative
    → ((exact_product a fs).digits ≤ (exact_product b fs).digits)
      × ((exact_product a fs).scale ≡ (exact_product b fs).scale)
      × ((exact_product a fs).negative ≡ (exact_product b fs).negative)
exact_product_mono a b [] h k l = (h, k, l)
exact_product_mono a b (f ∷ fs) h k l =
    exact_product_mono (exact_mul a f) (exact_mul b f) fs (grind (arith, h))
      (ap (λ s. s + f.scale) k) (ap (λ n. (n && not f.negative) || (not n && f.negative)) l)
