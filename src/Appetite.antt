-- ===== src/Appetite.antt =====
-- app/appetite/rules.py, and the rule payload of app/appetite/repository.py: the pure appetite engine.
-- A set of texts is a list. Money is eurocents, zero or more.
pub mod Outcomes
pub mod Reasons
use ktayl_underwriting.Prelude.{
  ℕ, String, Bool, true, false, Option, none, some, List, [], ◌∷◌, ◌++◌, map, ltb, not,
  if◌then◌else◌,
}
use ktayl_underwriting.Prelude.Text.{contains, upper}
use ktayl_underwriting.Enums.{
  LineOfBusiness, Occupancy, lob_value, occupancy_value, Outcome, accept, refer, decline,
  ReasonCode, lob_out_of_appetite, tiv_above_authority, excluded_occupancy, sanctioned_country,
  within_appetite,
}

-- The JSON payload of a ruleset row; `none` is a missing key.
pub record AppetiteRules : Type 0 where
  pub allowed_lobs : Option (List String)
  pub max_tiv_eur : Option ℕ
  pub excluded_occupancies : Option (List String)
  pub sanctioned_countries : Option (List String)

pub record RulesetSpec : Type 0 where
  pub version : ℕ
  pub allowed_lobs : List String
  pub max_tiv_eur : ℕ
  pub excluded_occupancies : List String
  pub sanctioned_countries : List String

-- `rules.get(key, [])`
abbrev or_empty : Option (List String) → List String
or_empty none = []
or_empty (some xs) = xs

-- `RulesetSpec.from_rules`; `none` is the KeyError of `rules["max_tiv_eur"]`.
unfoldable pub from_rules : ℕ → AppetiteRules → Option RulesetSpec
from_rules version rules = elim rules.max_tiv_eur [
  | none ↦ none
  | some max_tiv ↦ some (record {
    version = version;
    allowed_lobs = or_empty rules.allowed_lobs;
    max_tiv_eur = max_tiv;
    excluded_occupancies = or_empty rules.excluded_occupancies;
    sanctioned_countries = or_empty rules.sanctioned_countries;
  })
]

pub record SubmissionFacts : Type 0 where
  pub line_of_business : String
  pub tiv_eur : ℕ
  pub occupancy : String
  pub country : String

abbrev pub reason_if : Bool → ReasonCode → List ReasonCode
reason_if b c = if b then c ∷ [] else []

-- The first two tests of `assess`, and the two after them.
abbrev pub decline_reasons : SubmissionFacts → RulesetSpec → List ReasonCode
decline_reasons s r =
    reason_if (contains (upper s.country) (map upper r.sanctioned_countries)) sanctioned_country
    ++ reason_if (contains s.occupancy r.excluded_occupancies) excluded_occupancy

abbrev pub refer_reasons : SubmissionFacts → RulesetSpec → List ReasonCode
refer_reasons s r =
    reason_if (not (contains s.line_of_business r.allowed_lobs)) lob_out_of_appetite
    ++ reason_if (ltb r.max_tiv_eur s.tiv_eur) tiv_above_authority

-- `if reasons: return outcome, reasons`, else what follows.
abbrev return_if_any :
    List ReasonCode → Outcome → Outcome × List ReasonCode → Outcome × List ReasonCode
return_if_any [] outcome rest = rest
return_if_any (c ∷ cs) outcome rest = (outcome, c ∷ cs)

unfoldable pub assess : SubmissionFacts → RulesetSpec → Outcome × List ReasonCode
assess s r =
    return_if_any (decline_reasons s r) decline
      (return_if_any (refer_reasons s r) refer (accept, within_appetite ∷ []))

-- `V1_RULES` of app/appetite/repository.py
abbrev pub v1_rules : AppetiteRules
v1_rules = record {
  allowed_lobs = some (lob_value LineOfBusiness.commercial_property ∷ []);
  max_tiv_eur = some 1_000_000_000;
  excluded_occupancies = some (occupancy_value Occupancy.fireworks_manufacturing ∷ []);
  sanctioned_countries = some ("KP" ∷ "IR" ∷ "SY" ∷ "RU" ∷ []);
}
