-- ===== src/Tests/RatingTests.antt =====
-- The rating engine on the tables of app/rating/repository.py.
use ktayl_underwriting.Prelude.{◌≡◌, refl, some, [], ◌∷◌, false, inl, arith}
use ktayl_underwriting.Prelude.Int.{pos, ◌+ℤ◌, ◌-ℤ◌}
use ktayl_underwriting.Decimal.{
  Decimal, whole, fraction, fix, mul, add, lt, differs, div_thousand, to_minor, half_up,
}
use ktayl_underwriting.Rating.Engine.{
  RatingFacts, RateTableSpec, QuoteBreakdown, Rated, ok, raised, rate, rate_with, factor_of,
  append_item, adjust, loss_cost_stage, load, technical_stage, outside, commercial_stage, fee_stage,
  ipt_stage,
}
use ktayl_underwriting.Rating.Engine.Formula.{stage_loadings}
use ktayl_underwriting.Rating.Engine.Reconciles.{Reconciles, rate-Reconciles}
use ktayl_underwriting.Rating.Engine.Subtotals.{Follows, rate-Follows}
use ktayl_underwriting.Rating.Engine.Total.{Succeeds, CanRate, rate-Succeeds}
use ktayl_underwriting.Rating.Engine.Version2.{v2-Succeeds}
use ktayl_underwriting.Enums.{Occupancy}
use ktayl_underwriting.Rating.Engine.Neutral.{rate-neutral}
use ktayl_underwriting.Rating.Tables.{from_rules, v1_rules, v2_rules, v1_adjustments, v1_factors}

abbrev v2 : RateTableSpec
v2 = record {
  version = 2;
  base_rate_permille = fraction 5 1;
  occupancy_factors = v1_factors;
  adjustments = v1_adjustments;
  expense_loading = fraction 15 2;
  risk_margin = fraction 6 2;
  cat_provision = fraction 4 2;
  commercial_adjustment_min = fraction 85 2;
  commercial_adjustment_max = fraction 115 2;
  ipt_rate = fraction 9 2;
  fixed_fees_minor = pos 5000;
}

v2_read : from_rules 2 v2_rules ≡ some v2
unfolding from_rules
v2_read = refl

abbrev v1 : RateTableSpec
v1 = record v2 {
  version = 1;
  expense_loading = whole 0;
  risk_margin = whole 0;
  cat_provision = whole 0;
  commercial_adjustment_min = whole 1;
  commercial_adjustment_max = whole 1;
  ipt_rate = whole 0;
  fixed_fees_minor = pos 0;
}

v1_read : from_rules 1 v1_rules ≡ some v1
unfolding from_rules
v1_read = refl

abbrev warehouse : RatingFacts
warehouse = record {
  tiv_eur = 600_000_000;
  occupancy = "warehouse";
  flags = "high_tiv" ∷ "sprinklered" ∷ [];
  commercial_adjustment = fraction 90 2;
}

abbrev plain : RatingFacts
plain = record warehouse { commercial_adjustment = whole 1 }

-- The price, where there is one.
abbrev price_of : Rated QuoteBreakdown → QuoteBreakdown
price_of (ok b) = b
price_of (raised e) = record {
  rate_table_version = 0;
  premium_minor = pos 0;
  currency = "";
  line_items = [];
  pure_premium_minor = pos 0;
  technical_premium_minor = pos 0;
  commercial_premium_minor = pos 0;
  taxes_minor = pos 0;
}

abbrev price : RatingFacts → RateTableSpec → QuoteBreakdown
price facts t = price_of (rate facts t)

priced : rate warehouse v2 ≡ ok (price warehouse v2)
unfolding rate rate_with factor_of append_item adjust loss_cost_stage load technical_stage outside
    commercial_stage fee_stage ipt_stage mul add div_thousand lt differs to_minor half_up fix ◌+ℤ◌
    ◌-ℤ◌
priced = refl

premium_in_cents : (price warehouse v2).premium_minor ≡ pos 492_364
unfolding rate rate_with factor_of append_item adjust loss_cost_stage load technical_stage outside
    commercial_stage fee_stage ipt_stage mul add div_thousand lt differs to_minor half_up fix ◌+ℤ◌
    ◌-ℤ◌
premium_in_cents = refl

rate-Reconciles_example : Reconciles (price warehouse v2)
rate-Reconciles_example = rate-Reconciles warehouse v2 {b = price warehouse v2} priced

rate-Follows_example :
    (f : Decimal) × (factor_of "warehouse" v1_factors ≡ some f)
    × Follows warehouse v2 f (price warehouse v2)
rate-Follows_example = rate-Follows warehouse v2 {b = price warehouse v2} priced

plain_factor : factor_of plain.occupancy v2.occupancy_factors ≡ some (fraction 125 2)
unfolding factor_of
plain_factor = refl

plain-CanRate : CanRate plain v2 (fraction 125 2)
unfolding rate rate_with factor_of append_item adjust loss_cost_stage load technical_stage outside
    commercial_stage fee_stage ipt_stage mul add div_thousand lt differs to_minor half_up fix ◌+ℤ◌
    ◌-ℤ◌
plain-CanRate = record {
  in_band = inl refl;
  prices =
      ((_, refl), ((_, refl), ((_, refl), ((_, refl), ((_, refl), ((_, refl), ((_, refl), tt)))))));
  fee = (_, refl);
  taxed = (_, refl);
}

plain_is_rated : Succeeds (rate plain v2)
plain_is_rated = rate-Succeeds plain v2 (fraction 125 2) plain_factor plain-CanRate

plain_priced : rate plain v1 ≡ ok (price plain v1)
unfolding rate rate_with factor_of append_item adjust loss_cost_stage load technical_stage outside
    commercial_stage fee_stage ipt_stage mul add div_thousand lt differs to_minor half_up fix ◌+ℤ◌
    ◌-ℤ◌
plain_priced = refl

plain_unloaded : stage_loadings v1 ≡ []
unfolding lt
plain_unloaded = refl

plain_neutral : differs (whole 1) (whole 1) ≡ false
unfolding differs
plain_neutral = refl

plain_untaxed : lt (whole 0) (whole 0) ≡ false
unfolding lt
plain_untaxed = refl

v1_is_neutral :
    ((price plain v1).technical_premium_minor ≡ (price plain v1).pure_premium_minor)
    × ((price plain v1).commercial_premium_minor ≡ (price plain v1).pure_premium_minor)
    × ((price plain v1).premium_minor ≡ (price plain v1).pure_premium_minor)
    × ((price plain v1).taxes_minor ≡ pos 0)
v1_is_neutral =
    rate-neutral plain v1 {b = price plain v1} plain_unloaded plain_neutral refl plain_untaxed
      plain_priced

plain-Succeeds : Succeeds (rate plain v2)
plain-Succeeds =
    v2-Succeeds plain v2 Occupancy.warehouse v2_read refl refl (omega arith) (omega arith)
