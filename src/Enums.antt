-- ===== src/Enums.antt =====
-- app/enums.py: the domain enums. A StrEnum member is the text that `value` gives; rows that hold
-- an outcome or a reason code hold the member here.
pub mod Parse
use ktayl_underwriting.Prelude.{String}

pub data LineOfBusiness : Type 0 where
  commercial_property marine engineering financial_lines : LineOfBusiness

pub data Occupancy : Type 0 where
  office retail warehouse light_manufacturing fireworks_manufacturing : Occupancy

pub data Outcome : Type 0 where
  accept refer decline : Outcome

pub data ReasonCode : Type 0 where
  lob_out_of_appetite tiv_above_authority excluded_occupancy sanctioned_country : ReasonCode
  within_appetite : ReasonCode

abbrev pub lob_value : LineOfBusiness → String
lob_value commercial_property = "commercial_property"
lob_value marine = "marine"
lob_value engineering = "engineering"
lob_value financial_lines = "financial_lines"

abbrev pub occupancy_value : Occupancy → String
occupancy_value office = "office"
occupancy_value retail = "retail"
occupancy_value warehouse = "warehouse"
occupancy_value light_manufacturing = "light_manufacturing"
occupancy_value fireworks_manufacturing = "fireworks_manufacturing"
