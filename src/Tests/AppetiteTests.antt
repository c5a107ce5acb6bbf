-- ===== src/Tests/AppetiteTests.antt =====
-- The appetite engine and the roundings at concrete inputs.
use ktayl_underwriting.Prelude.{◌≡◌, ◌↔◌, ◌⊎◌, ◌≤◌, ◌<◌, ◌*◌, ◌^◌, ◌+◌, refl, [], ◌∷◌, arith}
use ktayl_underwriting.Prelude.Text.{upper}
use ktayl_underwriting.Decimal.{half_up, to_minor}
use ktayl_underwriting.Decimal.Rounding.{to_minor_mono, to_minor_nearest}
use ktayl_underwriting.Enums.{
  accept, refer, decline, sanctioned_country, excluded_occupancy, lob_out_of_appetite,
  tiv_above_authority, within_appetite,
}
use ktayl_underwriting.Appetite.{SubmissionFacts, RulesetSpec, assess}
use ktayl_underwriting.Appetite.Outcomes.{
  IsAllowedLob, IsSanctioned, IsExcluded, decline_iff, accept_iff, refer_iff,
}
use ktayl_underwriting.Appetite.Reasons.{Has, Applies, assess-Has, severity, severity_mono}

abbrev spec : RulesetSpec
spec = record {
  version = 1;
  allowed_lobs = "commercial_property" ∷ [];
  max_tiv_eur = 1_000_000_000;
  excluded_occupancies = "fireworks_manufacturing" ∷ [];
  sanctioned_countries = "KP" ∷ "IR" ∷ "SY" ∷ "RU" ∷ [];
}

abbrev office : SubmissionFacts
office = record {
  line_of_business = "commercial_property";
  tiv_eur = 1_000_000_000;
  occupancy = "office";
  country = "fr";
}

at_the_limit : assess office spec ≡ (accept, within_appetite ∷ [])
unfolding assess upper
at_the_limit = refl

marine_above_the_limit :
    assess (record office { line_of_business = "marine"; tiv_eur = 1_000_000_001 }) spec
    ≡ (refer, lob_out_of_appetite ∷ tiv_above_authority ∷ [])
unfolding assess upper
marine_above_the_limit = refl

fireworks_in_russia :
    assess (record office { occupancy = "fireworks_manufacturing"; country = "ru" }) spec
    ≡ (decline, sanctioned_country ∷ excluded_occupancy ∷ [])
unfolding assess upper
fireworks_in_russia = refl

abbrev fireworks : SubmissionFacts
fireworks = record office { occupancy = "fireworks_manufacturing" }

declined :
    ((assess fireworks spec).0 ≡ decline)
    ↔ (IsSanctioned fireworks spec ⊎ IsExcluded fireworks spec)
declined = decline_iff fireworks spec

accept_iff_example : ((assess office spec).0 ≡ accept) ↔ (
    (¬ IsSanctioned office spec)
    × (¬ IsExcluded office spec)
    × IsAllowedLob office spec
    × (office.tiv_eur ≤ spec.max_tiv_eur))
accept_iff_example = accept_iff office spec

abbrev marine : SubmissionFacts
marine = record office { line_of_business = "marine"; tiv_eur = 1_000_000_001 }

referred : ((assess marine spec).0 ≡ refer) ↔ (
    (¬ IsSanctioned marine spec)
    × (¬ IsExcluded marine spec)
    × ((¬ IsAllowedLob marine spec) ⊎ (spec.max_tiv_eur < marine.tiv_eur)))
referred = refer_iff marine spec

assess-Has_example :
    Has tiv_above_authority (assess marine spec).1 ↔ Applies tiv_above_authority marine spec
assess-Has_example = assess-Has tiv_above_authority marine spec

severity_mono_example :
    severity (assess office spec).0
    ≤ severity
        (assess (record office { tiv_eur = 2_000_000_000 }) (record spec { max_tiv_eur = 500 })).0
severity_mono_example = severity_mono office spec 2_000_000_000 500 (omega arith) (omega arith)

order_kept : 12 ≤ 13
unfolding to_minor half_up
order_kept = to_minor_mono 1249 1250 2 {a = 12} {b = 13} (omega arith) refl refl

to_minor_nearest_example :
    (13 * (2 * 10 ^ 2) ≤ 2 * 1250 + 10 ^ 2) × (2 * 1250 < 13 * (2 * 10 ^ 2) + 10 ^ 2)
unfolding to_minor half_up
to_minor_nearest_example = to_minor_nearest 1250 2 {m = 13} refl
