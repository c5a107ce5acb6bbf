-- ===== src/Store/Rows.antt =====
-- The ORM models, and what an INSERT takes from outside: fresh ids and the clock.
use ktayl_underwriting.Prelude.{ℕ, ◌^◌, String, Bool, Option, List, [], ltb}
use ktayl_underwriting.Prelude.Int.{ℤ, pos, negsuc}
use ktayl_underwriting.Decimal.{Decimal}
use ktayl_underwriting.Enums.{Outcome, ReasonCode}
use ktayl_underwriting.Appetite.{AppetiteRules}
use ktayl_underwriting.Rating.Engine.{LineItem}
use ktayl_underwriting.Rating.Tables.{RateRules}

pub record Counterparty : Type 0 where
  pub id : ℕ
  pub name : String
  pub country : String
  pub created_at : ℕ

pub record Submission : Type 0 where
  pub id : ℕ
  pub counterparty_id : ℕ
  pub line_of_business : String
  pub tiv_eur : ℕ
  pub occupancy : String
  pub country : String
  pub postcode : String
  pub requested_cover : String
  pub broker_ref : Option String
  pub created_at : ℕ

pub record AppetiteRuleset : Type 0 where
  pub id : ℕ
  pub version : ℕ
  pub effective_at : ℕ
  pub rules : AppetiteRules

pub record RateTable : Type 0 where
  pub id : ℕ
  pub version : ℕ
  pub effective_at : ℕ
  pub rules : RateRules

pub record Decision : Type 0 where
  pub id : ℕ
  pub submission_id : ℕ
  pub outcome : Outcome
  pub reason_codes : List ReasonCode
  pub appetite_version : ℕ
  pub decided_by : String
  pub decided_at : ℕ

-- The quote manifest `facts`.
pub record PricedFacts : Type 0 where
  pub tiv_eur : ℕ
  pub occupancy : String
  pub flags : List String
  pub commercial_adjustment : Decimal

-- The columns that are NULL in rows older than the manifest are always written by this code.
pub record Quote : Type 0 where
  pub id : ℕ
  pub submission_id : ℕ
  pub premium_minor : ℤ
  pub currency : String
  pub rate_table_version : ℕ
  pub breakdown : List LineItem
  pub pure_premium_minor : ℤ
  pub technical_premium_minor : ℤ
  pub commercial_premium_minor : ℤ
  pub taxes_minor : ℤ
  pub facts : PricedFacts
  pub created_by : String
  pub created_at : ℕ

pub record Binding : Type 0 where
  pub id : ℕ
  pub submission_id : ℕ
  pub quote_id : ℕ
  pub policy_number : String
  pub pas_policy_id : String
  pub status : String
  pub event_published : Bool
  pub bound_at : ℕ
  pub bound_by : String

-- The `detail` dictionaries that the code writes.
pub data Detail : Type 0 where
  created : (line_of_business : String) (tiv_eur : ℕ) → Detail
  assessed : (reason_codes : List ReasonCode) → Detail
  quoted : (premium_minor : ℤ) (currency : String) → Detail
  bound :
      (policy_number pas_policy_id : String) (quote_id : ℕ) (premium_minor : ℤ) (currency : String)
      (event_published : Bool)
      → Detail

pub record AuditEntry : Type 0 where
  pub id : ℕ
  pub submission_id : ℕ
  pub action : String
  pub actor : String
  pub at : ℕ
  pub ruleset_version : Option ℕ
  pub outcome : Option Outcome
  pub detail : Detail

-- The committed tables, and how many rows have taken an id and a time.
pub record Db : Type 0 where
  pub counterparties : List Counterparty
  pub submissions : List Submission
  pub rulesets : List AppetiteRuleset
  pub rate_tables : List RateTable
  pub decisions : List Decision
  pub quotes : List Quote
  pub bindings : List Binding
  pub audit : List AuditEntry
  pub drawn : ℕ

abbrev pub empty : Db
empty = record {
  counterparties = [];
  submissions = [];
  rulesets = [];
  rate_tables = [];
  decisions = [];
  quotes = [];
  bindings = [];
  audit = [];
  drawn = 0;
}

-- What the code takes from outside the repository: `uuid.uuid4()` and `datetime.now(UTC)` at the n-th
-- draw, an id's text, the SHA-1 of a text in hexadecimal, and the RFC 3339 text of the midnight that begins
-- a day, days counted from the epoch.
pub record Env : Type 0 where
  pub uuid : ℕ → ℕ
  pub now : ℕ → ℕ
  pub id_text : ℕ → String
  pub sha1_hexdigest : String → String
  pub midnight_text : ℕ → String

-- What a request may raise. `database_error` stands for the refusals of the database: a number past
-- BIGINT, or a key that is there already.
pub data Fault : Type 0 where
  submission_not_found no_ruleset no_decision declined_risk no_rate_table : Fault
  no_accepted_decision no_quote policy_already_exists policy_service_error : Fault
  rating_error invalid_operation key_error database_error : Fault
  validation_error publish_error : Fault

pub data Result (Row : Type 0) : Type 0 where
  ok : Row → Result Row
  raised : Fault → Result Row

-- What raises where a row is missing.
abbrev pub or_raise : {Row : Type 0} → Option Row → Fault → Result Row
or_raise found missing = elim found [ Option.none ↦ raised missing | Option.some row ↦ ok row ]

-- What follows an action, unless it raised.
infixl 4 ◌>>=◌
abbrev pub ◌>>=◌ : {Row Next : Type 0} → Result Row → (Row → Result Next) → Result Next
raised fault >>= next = raised fault
ok row >>= next = next row

-- The range of a BIGINT column.
abbrev pub is_bigint : ℤ → Bool
is_bigint (pos n) = ltb n (2 ^ 63)
is_bigint (negsuc n) = ltb n (2 ^ 63)
