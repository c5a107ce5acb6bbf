-- ===== src/System/Pricing.antt =====
-- The quote manifest of app/rating/service.py: that a stored price can be computed again from what is stored with it.
use ktayl_underwriting.Prelude.{◌≡◌, some}
use ktayl_underwriting.Rating.Engine.{RatingFacts, RateTableSpec, QuoteBreakdown, ok, rate}
use ktayl_underwriting.Rating.Tables.{from_rules}
use ktayl_underwriting.Store.Rows.{PricedFacts, RateTable, Quote}

-- The facts that a manifest was written from.
abbrev pub facts_of_manifest : PricedFacts → RatingFacts
facts_of_manifest f = record {
  tiv_eur = f.tiv_eur;
  occupancy = f.occupancy;
  flags = f.flags;
  commercial_adjustment = f.commercial_adjustment;
}

-- The breakdown that a row holds.
abbrev pub breakdown_of : Quote → QuoteBreakdown
breakdown_of q = record {
  rate_table_version = q.rate_table_version;
  premium_minor = q.premium_minor;
  currency = q.currency;
  line_items = q.breakdown;
  pure_premium_minor = q.pure_premium_minor;
  technical_premium_minor = q.technical_premium_minor;
  commercial_premium_minor = q.commercial_premium_minor;
  taxes_minor = q.taxes_minor;
}

-- The rate table, read, prices the facts of the quote's manifest at all that the quote holds.
pub record IsPricedBy (q : Quote) (t : RateTable) : Type 0 where
  pub spec : RateTableSpec
  pub is_read : from_rules t.version t.rules ≡ some spec
  pub priced : rate (facts_of_manifest q.facts) spec ≡ ok (breakdown_of q)
