-- ===== src/Enums/Parse.antt =====
-- Reading an enum from the text of a row: `LineOfBusiness(text)` and `Occupancy(text)`, as Pydantic does.
use ktayl_underwriting.Prelude.{
  ◌≡◌, refl, String, Option, none, some, List, [], ◌∷◌, str_eq, if◌then◌else◌,
}
use ktayl_underwriting.Enums.{
  LineOfBusiness, commercial_property, marine, engineering, financial_lines, lob_value, Occupancy,
  office, retail, warehouse, light_manufacturing, fireworks_manufacturing, occupancy_value,
}

-- The member whose value is the text; `none` is the ValueError.
abbrev member : {A : Type 0} → (A → String) → List A → String → Option A
member value [] text = none
member value (x ∷ xs) text = if str_eq (value x) text then some x else member value xs text

unfoldable pub lob_of : String → Option LineOfBusiness
lob_of = member lob_value (commercial_property ∷ marine ∷ engineering ∷ financial_lines ∷ [])

unfoldable pub occupancy_of : String → Option Occupancy
occupancy_of =
    member occupancy_value
      (office ∷ retail ∷ warehouse ∷ light_manufacturing ∷ fireworks_manufacturing ∷ [])

-- The text of a member is read as that member.
pub lob_of-lob_value : (x : LineOfBusiness) → lob_of (lob_value x) ≡ some x
unfolding lob_of
lob_of-lob_value commercial_property = refl
lob_of-lob_value marine = refl
lob_of-lob_value engineering = refl
lob_of-lob_value financial_lines = refl

pub occupancy_of-occupancy_value : (x : Occupancy) → occupancy_of (occupancy_value x) ≡ some x
unfolding occupancy_of
occupancy_of-occupancy_value office = refl
occupancy_of-occupancy_value retail = refl
occupancy_of-occupancy_value warehouse = refl
occupancy_of-occupancy_value light_manufacturing = refl
occupancy_of-occupancy_value fireworks_manufacturing = refl
