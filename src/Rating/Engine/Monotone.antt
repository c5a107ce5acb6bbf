-- ===== src/Rating/Engine/Monotone.antt =====
-- A risk of more value is not cheaper.
use native.Mathlib.Nat.{pow-suc}
use ktayl_underwriting.Prelude.{
  ℕ, suc, true, false, Bool, ◌+◌, ◌*◌, ◌^◌, ◌≤◌, ◌<◌, ◌≡◌, refl, sym, ap, ◌∙◌, subst, some, List,
  [], ◌∷◌, ◌++◌, arith, Bool-cases, inl, inr, if◌then◌else◌,
}
use ktayl_underwriting.Prelude.Int.{ℤ, pos}
use ktayl_underwriting.Prelude.Text.{contains}
use ktayl_underwriting.Decimal.{Decimal, whole, fraction, exact_mul, half_up, to_minor}
use ktayl_underwriting.Decimal.Exact.{exact_product, exact_product_mono}
use ktayl_underwriting.Decimal.Rounding.{half_up_mono, half_up_nearest, le_of_units}
use ktayl_underwriting.Enums.{Occupancy, occupancy_value}
use ktayl_underwriting.Rating.Engine.{RatingFacts, QuoteBreakdown, Rated, rate, minor, factor_of}
use ktayl_underwriting.Rating.Engine.Formula.{gated}
use ktayl_underwriting.Rating.Engine.Subtotals.{Follows, rate-Follows}
use ktayl_underwriting.Rating.Engine.Room.{v2_spec, v2_amount, v2_factors}
use ktayl_underwriting.Rating.Engine.Version2.{v2_at}
use ktayl_underwriting.Rating.Tables.{v1_factors, v1_adjustments}

abbrev rounded : Decimal → ℕ
rounded d = half_up d.digits d.scale

hundredfold : (a p : ℕ) → a * (2 * (100 * p)) ≡ 100 * (a * (2 * p))
hundredfold a p = omega arith

two_places : (k : ℕ) → 10 ^ (k + 2) ≡ 100 * 10 ^ k
two_places k =
    let next : 10 ^ (k + 2) ≡ 10 ^ suc (suc k) = ap (λ n. 10 ^ n) (omega arith) in
    omega (arith, next, pow-suc 10 k, pow-suc 10 (suc k))

-- With two places more, an amount that is no less rounds to no less.
rounded_finer : (m n k : ℕ) → m * 100 ≤ n → half_up m k ≤ half_up n (k + 2)
rounded_finer m n k h =
    let (low, _) = half_up_nearest m k in
    let (_, above) = half_up_nearest n (k + 2) in
    let above' : 2 * n < half_up n (k + 2) * (2 * (100 * 10 ^ k)) + 100 * 10 ^ k =
      subst (λ u. 2 * n < half_up n (k + 2) * (2 * u) + u) (two_places k) above in
    le_of_units (half_up m k) (half_up n (k + 2)) (2 * (100 * 10 ^ k))
      (omega (arith, hundredfold (half_up m k) (10 ^ k), low, above', h))

minor-fraction : (t s : ℕ) {m : ℤ} → minor (fraction t s) ≡ Rated.ok m → m ≡ pos (half_up t s)
unfolding minor to_minor
minor-fraction t s {m} h = ground arith

-- The factors of the two adjustments, as they apply.
abbrev gates : Bool → Bool → List Decimal
gates high sprinklered =
    (if high then fraction 110 2 ∷ [] else []) ++ (if sprinklered then fraction 95 2 ∷ [] else [])

gated-gates :
    (flags : List _)
    → gated v1_adjustments flags ≡ gates (contains "high_tiv" flags) (contains "sprinklered" flags)
gated-gates flags = elim (Bool-cases (contains "high_tiv" flags)) [
  | inl h ↦ elim (Bool-cases (contains "sprinklered" flags)) [
    | inl k ↦ rw (h, k) refl
    | inr k ↦ rw (h, k) refl
  ]
  | inr h ↦ elim (Bool-cases (contains "sprinklered" flags)) [
    | inl k ↦ rw (h, k) refl
    | inr k ↦ rw (h, k) refl
  ]
]

-- More value with the same factors.
amount_value :
    (m n : ℕ) (f : Decimal) (gs : List Decimal)
    → m ≤ n
    → rounded (v2_amount m f gs) ≤ rounded (v2_amount n f gs)
amount_value m n f gs h =
    let few = exact_mul (fraction 5 4) (whole m) in
    let many = exact_mul (fraction 5 4) (whole n) in
    let rest = f ∷ (gs ++ (fraction 115 2 ∷ fraction 106 2 ∷ fraction 104 2 ∷ [])) in
    let (less, same, _) = exact_product_mono few many rest (omega (arith, h)) refl refl in
    let c = exact_product few rest in
    let d = exact_product many rest in
    let no_less : (c.digits + 5000 * 10 ^ c.scale) * 100 + c.digits * 9
        ≤ (d.digits + 5000 * 10 ^ d.scale) * 100 + d.digits * 9 =
      omega (arith, less, ap (λ s. 10 ^ s) same) in
    subst
      (λ s.
        half_up ((c.digits + 5000 * 10 ^ c.scale) * 100 + c.digits * 9) (c.scale + 2)
        ≤ half_up ((d.digits + 5000 * 10 ^ d.scale) * 100 + d.digits * 9) (s + 2))
      same (half_up_mono _ _ (c.scale + 2) no_less)

-- An amount before fee and tax with 1.10 as a further factor.
loaded :
    (c s : ℕ)
    → ((c + 5000 * 10 ^ s) * 100 + c * 9) * 100
      ≤ (110 * c + 5000 * 10 ^ (s + 2)) * 100 + 110 * c * 9
loaded c s = omega (arith, two_places s)

loaded_rounds :
    (c s d t : ℕ)
    → d ≡ 110 * c
    → t ≡ s + 2
    → half_up ((c + 5000 * 10 ^ s) * 100 + c * 9) (s + 2)
      ≤ half_up ((d + 5000 * 10 ^ t) * 100 + d * 9) (t + 2)
loaded_rounds c s d t digits scale =
    rw (digits, scale)
      (rounded_finer ((c + 5000 * 10 ^ s) * 100 + c * 9)
        ((110 * c + 5000 * 10 ^ (s + 2)) * 100 + 110 * c * 9) (s + 2) (loaded c s))

-- The loading for a high value.
amount_loaded :
    (n : ℕ) (f : Decimal) (k : Bool)
    → rounded (v2_amount n f (gates false k)) ≤ rounded (v2_amount n f (gates true k))
amount_loaded n f true =
    let c = exact_product (fraction 5 4) (v2_factors n f (gates false true)) in
    let d = exact_product (fraction 5 4) (v2_factors n f (gates true true)) in
    loaded_rounds c.digits c.scale d.digits d.scale (omega arith) (omega arith)
amount_loaded n f false =
    let c = exact_product (fraction 5 4) (v2_factors n f (gates false false)) in
    let d = exact_product (fraction 5 4) (v2_factors n f (gates true false)) in
    loaded_rounds c.digits c.scale d.digits d.scale (omega arith) (omega arith)

abbrev pub is_high : RatingFacts → Bool
is_high facts = contains "high_tiv" facts.flags

abbrev pub is_sprinklered : RatingFacts → Bool
is_sprinklered facts = contains "sprinklered" facts.flags

-- The factor of an occupancy.
v2_factor : (o : Occupancy) → (f : Decimal) × (factor_of (occupancy_value o) v1_factors ≡ some f)
v2_factor o =
    let one : RatingFacts = record {
      tiv_eur = 1;
      occupancy = "";
      flags = [];
      commercial_adjustment = whole 1;
    } in
    let (f, found, _) = v2_at one o refl (omega arith) (omega arith) in (f, found)

some-injective : {A : Type 0} {a b : A} → some a ≡ some b → a ≡ b
some-injective h = cc

-- What version 2 prices a risk at.
v2_premium :
    (facts : RatingFacts) (o : Occupancy) {b : QuoteBreakdown}
    → facts.occupancy ≡ occupancy_value o
    → facts.commercial_adjustment ≡ whole 1
    → 1 ≤ facts.tiv_eur
    → facts.tiv_eur ≤ 10_000_000_000_000
    → rate facts v2_spec ≡ Rated.ok b
    → b.premium_minor
      ≡ pos (
          rounded (
            v2_amount facts.tiv_eur (v2_factor o).0 (gates (is_high facts) (is_sprinklered facts))))
v2_premium facts o {b} known plain low high e =
    let (f, found, priced) = v2_at facts o plain low high in
    let (g, found', h) = rate-Follows facts v2_spec e in
    let same : g ≡ f =
      some-injective (sym found' ∙ ap (λ k. factor_of k v1_factors) known ∙ found) in
    let own : f ≡ (v2_factor o).0 = some-injective (sym found ∙ (v2_factor o).1) in
    let follows : Follows facts v2_spec f b = subst (λ x. Follows facts v2_spec x b) same h in
    let amount = priced.amount ∙ ap (v2_amount facts.tiv_eur f) (gated-gates facts.flags) in
    let rounds = minor-fraction _ _ (sym (ap minor amount) ∙ follows.premium) in
    rounds
    ∙ ap
        (λ x.
          pos (rounded (v2_amount facts.tiv_eur x (gates (is_high facts) (is_sprinklered facts)))))
        own

more_amount :
    (m n : ℕ) (f : Decimal) (h h' k : Bool)
    → m ≤ n
    → (h ≡ true → h' ≡ true)
    → rounded (v2_amount m f (gates h k)) ≤ rounded (v2_amount n f (gates h' k))
more_amount m n f true h' k le kept =
    subst (λ b. rounded (v2_amount m f (gates true k)) ≤ rounded (v2_amount n f (gates b k)))
      (sym (kept refl)) (amount_value m n f (gates true k) le)
more_amount m n f false true k le kept =
    omega (arith, amount_value m n f (gates false k) le, amount_loaded n f k)
more_amount m n f false false k le kept = amount_value m n f (gates false k) le

-- Of two risks of one occupancy and with the same sprinklers, the one of more value.
pub v2_premium_mono :
    (facts dearer : RatingFacts) (o : Occupancy) {b b' : QuoteBreakdown}
    → facts.occupancy ≡ occupancy_value o
    → dearer.occupancy ≡ occupancy_value o
    → facts.commercial_adjustment ≡ whole 1
    → dearer.commercial_adjustment ≡ whole 1
    → is_sprinklered facts ≡ is_sprinklered dearer
    → (is_high facts ≡ true → is_high dearer ≡ true)
    → 1 ≤ facts.tiv_eur
    → facts.tiv_eur ≤ dearer.tiv_eur
    → dearer.tiv_eur ≤ 10_000_000_000_000
    → rate facts v2_spec ≡ Rated.ok b
    → rate dearer v2_spec ≡ Rated.ok b'
    → (m : ℕ) × (n : ℕ) × (b.premium_minor ≡ pos m) × (b'.premium_minor ≡ pos n) × (m ≤ n)
v2_premium_mono facts dearer o known known' plain plain' sprinklers kept low le high e e' =
    let f = (v2_factor o).0 in
    let k = is_sprinklered dearer in
    (
      rounded (v2_amount facts.tiv_eur f (gates (is_high facts) k)),
      rounded (v2_amount dearer.tiv_eur f (gates (is_high dearer) k)),
      v2_premium facts o known plain low (omega (arith, le, high)) e
          ∙ ap (λ s. pos (rounded (v2_amount facts.tiv_eur f (gates (is_high facts) s))))
              sprinklers,
      v2_premium dearer o known' plain' (omega (arith, low, le)) high e',
      more_amount facts.tiv_eur dearer.tiv_eur f (is_high facts) (is_high dearer) k le kept,
    )
