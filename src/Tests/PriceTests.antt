-- ===== src/Tests/PriceTests.antt =====
-- Two warehouses with sprinklers, the second insured for more than the threshold of the loading.
use ktayl_underwriting.Prelude.{ℕ, ◌≤◌, ◌≡◌, refl, none, arith}
use ktayl_underwriting.Prelude.Int.{pos}
use ktayl_underwriting.Enums.{Occupancy}
use ktayl_underwriting.Rating.Engine.{rate}
use ktayl_underwriting.Rating.Engine.Total.{Succeeds}
use ktayl_underwriting.Rating.Engine.Room.{v2_spec, v2_read}
use ktayl_underwriting.Rating.Engine.Version2.{v2-Succeeds}
use ktayl_underwriting.Store.Rows.{Submission}
use ktayl_underwriting.Workbench.Quotes.{rating_facts_of}
use ktayl_underwriting.Workbench.Dearer.{premium_mono}

abbrev small : Submission
small = record {
  id = 1;
  counterparty_id = 2;
  line_of_business = "commercial_property";
  tiv_eur = 400_000_000;
  occupancy = "warehouse";
  country = "FR";
  postcode = "75001";
  requested_cover = "All-risks, Sprinklered";
  broker_ref = none;
  created_at = 3;
}

abbrev large : Submission
large = record small { tiv_eur = 600_000_000 }

small-Succeeds : Succeeds (rate (rating_facts_of small) v2_spec)
unfolding rating_facts_of
small-Succeeds =
    v2-Succeeds (rating_facts_of small) v2_spec Occupancy.warehouse v2_read refl refl (omega arith)
      (omega arith)

large-Succeeds : Succeeds (rate (rating_facts_of large) v2_spec)
unfolding rating_facts_of
large-Succeeds =
    v2-Succeeds (rating_facts_of large) v2_spec Occupancy.warehouse v2_read refl refl (omega arith)
      (omega arith)

premium_mono_example :
    (m : ℕ) × (n : ℕ) × (small-Succeeds.0.premium_minor ≡ pos m)
    × (large-Succeeds.0.premium_minor ≡ pos n)
    × (m ≤ n)
premium_mono_example =
    premium_mono small large v2_spec Occupancy.warehouse small-Succeeds.0 large-Succeeds.0 v2_read
      refl refl refl (omega arith) (omega arith) (omega arith) small-Succeeds.1 large-Succeeds.1
