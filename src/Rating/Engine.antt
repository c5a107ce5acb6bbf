-- ===== src/Rating/Engine.antt =====
-- app/rating/engine.py: the staged premium build-up. The text that a line item shows as its `value` is
-- kept as the number it is formatted from; an exception's text is left out.
pub mod Trails
pub mod Reconciles
pub mod Formula
pub mod Subtotals
pub mod Total
pub mod Fits
pub mod Room
pub mod Version2
pub mod Monotone
pub mod Neutral
use Prim.Native.String.{◌++◌ as str_append}
use ktayl_underwriting.Prelude.{
  ℕ, ◌+◌, String, Bool, true, false, ◌&&◌, ◌||◌, not, Option, none, some, List, [], ◌∷◌, ◌++◌,
  str_eq, if◌then◌else◌, ◌≡◌, refl,
}
use ktayl_underwriting.Prelude.Int.{ℤ, pos, ltb_ℤ, ◌-ℤ◌, pos_part, neg_part}
use ktayl_underwriting.Prelude.Text.{contains}
use ktayl_underwriting.Decimal.{
  Decimal, whole, mul, add, div_thousand, lt, differs, to_minor, of_int,
}

pub record Adjustment : Type 0 where
  pub name : String
  pub kind : String
  pub factor : Decimal
  pub applies_when : Option String

pub record RateTableSpec : Type 0 where
  pub version : ℕ
  pub base_rate_permille : Decimal
  pub occupancy_factors : List (String × Decimal)
  pub adjustments : List Adjustment
  pub expense_loading : Decimal
  pub risk_margin : Decimal
  pub cat_provision : Decimal
  pub commercial_adjustment_min : Decimal
  pub commercial_adjustment_max : Decimal
  pub ipt_rate : Decimal
  pub fixed_fees_minor : ℤ

pub record RatingFacts : Type 0 where
  pub tiv_eur : ℕ
  pub occupancy : String
  pub flags : List String
  pub commercial_adjustment : Decimal

pub data Stage : Type 0 where
  loss_cost technical commercial taxes : Stage

-- What a line item's `value` text is made from: "0.5‰ of TIV", "×1.10", "+5000 minor" and
-- "+9.00% of commercial premium".
pub data Value : Type 0 where
  permille_of_tiv times percent_of_commercial : Decimal → Value
  plus_minor : ℤ → Value

pub record LineItem : Type 0 where
  pub label : String
  pub kind : String
  pub value : Value
  pub running_subtotal_minor : ℤ
  pub stage : Stage

pub record QuoteBreakdown : Type 0 where
  pub rate_table_version : ℕ
  pub premium_minor : ℤ
  pub currency : String
  pub line_items : List LineItem
  pub pure_premium_minor : ℤ
  pub technical_premium_minor : ℤ
  pub commercial_premium_minor : ℤ
  pub taxes_minor : ℤ

-- The two uses of `RatingError`, and `decimal.InvalidOperation`, which `_to_minor` may raise.
pub data RatingFault : Type 0 where
  no_occupancy_factor outside_band invalid_operation : RatingFault

pub data Rated (A : Type 0) : Type 0 where
  ok : A → Rated A
  raised : RatingFault → Rated A

infixl 4 ◌>>=◌
abbrev pub ◌>>=◌ : {Now Next : Type 0} → Rated Now → (Now → Rated Next) → Rated Next
raised fault >>= next = raised fault
ok now >>= next = next now

-- Inversion of a run that raises nothing.
pub >>=-eq-ok :
    {Now Next : Type 0} (run : Rated Now) (next : Now → Rated Next) {last : Next}
    → (run >>= next) ≡ ok last
    → (now : Now) × (run ≡ ok now) × (next now ≡ ok last)
>>=-eq-ok (ok now) next h = (now, refl, h)
>>=-eq-ok (raised fault) next h = cc

pub ok-injective : {A : Type 0} {a b : A} → ok a ≡ ok b → a ≡ b
ok-injective h = cc

pub raised≢ok : {A : Type 0} {e : RatingFault} {a : A} → raised e ≡ ok a → ⊥
raised≢ok h = cc

-- The locals `subtotal` and `items`.
pub record Trail : Type 0 where
  pub subtotal : Decimal
  pub items : List LineItem

abbrev one : Decimal
one = whole 1

abbrev nought : Decimal
nought = whole 0

-- `_to_minor`
abbrev pub minor : Decimal → Rated ℤ
minor d = elim (to_minor d) [ none ↦ raised invalid_operation | some m ↦ ok m ]

-- `subtotal = …; items.append(LineItem(label, kind, value, _to_minor(subtotal), stage))`
unfoldable pub append_item : String → String → Value → Stage → Decimal → Trail → Rated Trail
append_item label kind value stage subtotal trail = do
  m ← minor subtotal
  ok (record {
    subtotal = subtotal;
    items =
        trail.items
        ++ record {
          label = label;
          kind = kind;
          value = value;
          running_subtotal_minor = m;
          stage = stage;
        }
          ∷ [];
  })

abbrev pub start : Trail
start = record { subtotal = nought; items = [] }

-- `occupancy_factors.get(occupancy)`
unfoldable pub factor_of : String → List (String × Decimal) → Option Decimal
factor_of k [] = none
factor_of k ((j, f) ∷ rest) = if str_eq k j then some f else factor_of k rest

-- Whether the loop over the adjustments applies one, or continues past it.
abbrev pub applies : Option String → List String → Bool
applies none flags = true
applies (some flag) flags = contains flag flags

unfoldable pub adjust : List Adjustment → List String → Trail → Rated Trail
adjust [] flags trail = ok trail
adjust (a ∷ rest) flags trail =
    let applied = (do
      trail' ←
          append_item a.name a.kind (times a.factor) loss_cost (mul trail.subtotal a.factor) trail
      adjust rest flags trail') in
    let skipped = adjust rest flags trail in
    if applies a.applies_when flags then applied else skipped

unfoldable pub loss_cost_stage : RatingFacts → RateTableSpec → Decimal → Rated Trail
loss_cost_stage facts t occupancy_factor = do
  let base = mul (div_thousand t.base_rate_permille) (whole facts.tiv_eur)
  trail ← append_item "base_rate" "base" (permille_of_tiv t.base_rate_permille) loss_cost base start
  let by_occupancy = mul trail.subtotal occupancy_factor
  trail' ←
      append_item (str_append "occupancy_factor:" facts.occupancy) "factor" (times occupancy_factor)
        loss_cost by_occupancy trail
  adjust t.adjustments facts.flags trail'

-- `for name, pct in (…): if pct > 0: …`
unfoldable pub load : List (String × Decimal) → Trail → Rated Trail
load [] trail = ok trail
load ((name, pct) ∷ rest) trail =
    let loaded = (do
      let factor = add one pct
      trail' ← append_item name "loading" (times factor) technical (mul trail.subtotal factor) trail
      load rest trail') in
    let skipped = load rest trail in if lt nought pct then loaded else skipped

unfoldable pub technical_stage : RateTableSpec → Trail → Rated Trail
technical_stage t = load (
    ("expense_loading", t.expense_loading)
    ∷ ("risk_margin", t.risk_margin)
    ∷ ("cat_provision", t.cat_provision)
    ∷ [])

-- Outside the band that the rate table authorises, ends included.
unfoldable pub outside : Decimal → RateTableSpec → Bool
outside cadj t = lt cadj t.commercial_adjustment_min || lt t.commercial_adjustment_max cadj

unfoldable pub commercial_stage : RatingFacts → RateTableSpec → Trail → Rated Trail
commercial_stage facts t trail =
    let cadj = facts.commercial_adjustment in
    if not (differs cadj one)
    then ok trail
    else if outside cadj t
    then raised outside_band
    else append_item "commercial_adjustment" (if lt cadj one then "discount" else "loading")
        (times cadj) commercial (mul trail.subtotal cadj) trail

unfoldable pub fee_stage : RateTableSpec → Trail → Rated Trail
fee_stage t trail =
    if ltb_ℤ (pos 0) t.fixed_fees_minor
    then append_item "policy_fee" "fee" (plus_minor t.fixed_fees_minor) taxes
        (add trail.subtotal (of_int t.fixed_fees_minor)) trail
    else ok trail

-- The tax is levied on the commercial premium, before the fee.
unfoldable pub ipt_stage : RateTableSpec → Decimal → Trail → Rated Trail
ipt_stage t commercial_precise trail =
    if lt nought t.ipt_rate
    then append_item "ipt" "tax" (percent_of_commercial (mul t.ipt_rate (whole 100))) taxes
        (add trail.subtotal (mul commercial_precise t.ipt_rate)) trail
    else ok trail

-- `rate`, once the occupancy factor is found.
unfoldable pub rate_with : RatingFacts → RateTableSpec → Decimal → Rated QuoteBreakdown
rate_with facts t occupancy_factor = do
  lost ← loss_cost_stage facts t occupancy_factor
  pure_premium ← minor lost.subtotal
  loaded ← technical_stage t lost
  technical_premium ← minor loaded.subtotal
  adjusted ← commercial_stage facts t loaded
  commercial_premium ← minor adjusted.subtotal
  with_fee ← fee_stage t adjusted
  taxed ← ipt_stage t adjusted.subtotal with_fee
  premium ← minor taxed.subtotal
  ok (record {
    rate_table_version = t.version;
    premium_minor = premium;
    currency = "EUR";
    line_items = taxed.items;
    pure_premium_minor = pure_premium;
    technical_premium_minor = technical_premium;
    commercial_premium_minor = commercial_premium;
    taxes_minor = premium -ℤ commercial_premium;
  })

unfoldable pub rate : RatingFacts → RateTableSpec → Rated QuoteBreakdown
rate facts t = elim (factor_of facts.occupancy t.occupancy_factors) [
  | none ↦ raised no_occupancy_factor
  | some occupancy_factor ↦ rate_with facts t occupancy_factor
]
