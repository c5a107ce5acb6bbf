-- ===== src/Migrations/Versions.antt =====
-- migrations/versions: the four revisions, each with the statements of its `upgrade` and its `downgrade`.
use ktayl_underwriting.Prelude.{ℕ, String, Bool, true, false, Option, none, some, List, [], ◌∷◌}
use ktayl_underwriting.Decimal.{fraction}
use ktayl_underwriting.Appetite.{AppetiteRules}
use ktayl_underwriting.Rating.Tables.{RateRules}
use ktayl_underwriting.Migrations.{
  ColumnType, varchar, integer, big_integer, boolean, json, date_time, Column, Table, Op,
  create_table, drop_table, add_column, drop_column, insert_ruleset, insert_rate_table,
}

pub record Script : Type 0 where
  pub revision : String
  pub down_revision : Option String
  pub upgrade : List Op
  pub downgrade : List Op

-- `sa.Column` with `nullable=False` and no more
abbrev pub column : String → ColumnType → Column
column name kind = record {
  name = name;
  kind = kind;
  primary_key = false;
  nullable = false;
  unique = false;
  index = false;
  references = none;
}

-- `sa.Column` with `nullable=True`
abbrev pub nullable_column : String → ColumnType → Column
nullable_column name kind = record (column name kind) { nullable = true }

-- `sa.Column("id", sa.String(length=36), primary_key=True)`
abbrev pub id_column : Column
id_column = record (column "id" (varchar 36)) { primary_key = true }

-- `sa.Column` with a foreign key to the id of a table
abbrev pub key_to : String → String → Bool → Column
key_to table name index = record (column name (varchar 36)) {
  index = index;
  references = some (table, "id");
}

abbrev pub counterparty_table : Table
counterparty_table = record {
  name = "counterparty";
  columns =
      id_column
      ∷ column "name" (varchar 255)
      ∷ column "country" (varchar 2)
      ∷ column "created_at" date_time
      ∷ [];
}

abbrev pub submission_table : Table
submission_table = record {
  name = "submission";
  columns =
      id_column
      ∷ key_to "counterparty" "counterparty_id" false
      ∷ column "line_of_business" (varchar 64)
      ∷ column "tiv_eur" big_integer
      ∷ column "occupancy" (varchar 64)
      ∷ column "country" (varchar 2)
      ∷ column "postcode" (varchar 16)
      ∷ column "requested_cover" (varchar 255)
      ∷ nullable_column "broker_ref" (varchar 64)
      ∷ column "created_at" date_time
      ∷ [];
}

-- A table of versions: `appetite_ruleset` and `rate_table` have the same columns.
abbrev pub version_table : String → Table
version_table name = record {
  name = name;
  columns =
      id_column
      ∷ record (column "version" integer) { unique = true }
      ∷ column "effective_at" date_time
      ∷ column "rules" json
      ∷ [];
}

abbrev pub decision_table : Table
decision_table = record {
  name = "decision";
  columns =
      id_column
      ∷ key_to "submission" "submission_id" true
      ∷ column "outcome" (varchar 16)
      ∷ column "reason_codes" json
      ∷ column "appetite_version" integer
      ∷ column "decided_by" (varchar 128)
      ∷ column "decided_at" date_time
      ∷ [];
}

abbrev pub audit_table : Table
audit_table = record {
  name = "audit_entry";
  columns =
      id_column
      ∷ key_to "submission" "submission_id" true
      ∷ column "action" (varchar 64)
      ∷ column "actor" (varchar 128)
      ∷ column "at" date_time
      ∷ nullable_column "ruleset_version" integer
      ∷ nullable_column "outcome" (varchar 16)
      ∷ column "detail" json
      ∷ [];
}

-- `_V1_RULES` of 0001_initial.py
abbrev pub appetite_v1_rules : AppetiteRules
appetite_v1_rules = record {
  allowed_lobs = some ("commercial_property" ∷ []);
  max_tiv_eur = some 1_000_000_000;
  excluded_occupancies = some ("fireworks_manufacturing" ∷ []);
  sanctioned_countries = some ("KP" ∷ "IR" ∷ "SY" ∷ "RU" ∷ []);
}

-- The id 00000000-0000-0000-0000-000000000001, and the one that ends in 2.
abbrev pub first_ruleset_id : ℕ
first_ruleset_id = 1

abbrev pub first_rate_table_id : ℕ
first_rate_table_id = 2

abbrev pub initial : Script
initial = record {
  revision = "0001_initial";
  down_revision = none;
  upgrade =
      create_table counterparty_table
      ∷ create_table submission_table
      ∷ create_table (version_table "appetite_ruleset")
      ∷ create_table decision_table
      ∷ create_table audit_table
      ∷ insert_ruleset first_ruleset_id 1 appetite_v1_rules
      ∷ [];
  downgrade =
      drop_table "audit_entry"
      ∷ drop_table "decision"
      ∷ drop_table "appetite_ruleset"
      ∷ drop_table "submission"
      ∷ drop_table "counterparty"
      ∷ [];
}

abbrev pub quote_table : Table
quote_table = record {
  name = "quote";
  columns =
      id_column
      ∷ key_to "submission" "submission_id" true
      ∷ column "premium_minor" big_integer
      ∷ column "currency" (varchar 3)
      ∷ column "rate_table_version" integer
      ∷ column "breakdown" json
      ∷ column "created_by" (varchar 128)
      ∷ column "created_at" date_time
      ∷ [];
}

-- `_V1_RULES` of 0002_rating.py, its decimal texts read
abbrev pub rating_v1_rules : RateRules
rating_v1_rules = record {
  base_rate_permille = some (fraction 5 1);
  occupancy_factors = some (
      ("office", fraction 10 1)
      ∷ ("retail", fraction 11 1)
      ∷ ("warehouse", fraction 125 2)
      ∷ ("light_manufacturing", fraction 15 1)
      ∷ ("fireworks_manufacturing", fraction 30 1)
      ∷ []);
  adjustments = some (
      record {
        name = "high_tiv_loading";
        kind = "loading";
        factor = fraction 110 2;
        applies_when = some "high_tiv";
      }
      ∷ record {
        name = "sprinklered_discount";
        kind = "discount";
        factor = fraction 95 2;
        applies_when = some "sprinklered";
      }
      ∷ []);
  expense_loading = none;
  risk_margin = none;
  cat_provision = none;
  commercial_adjustment_min = none;
  commercial_adjustment_max = none;
  ipt_rate = none;
  fixed_fees_minor = none;
}

abbrev pub rating : Script
rating = record {
  revision = "0002_rating";
  down_revision = some "0001_initial";
  upgrade =
      create_table (version_table "rate_table")
      ∷ create_table quote_table
      ∷ insert_rate_table first_rate_table_id 1 rating_v1_rules
      ∷ [];
  downgrade = drop_table "quote" ∷ drop_table "rate_table" ∷ [];
}

abbrev pub binding_table : Table
binding_table = record {
  name = "binding";
  columns =
      id_column
      ∷ record (key_to "submission" "submission_id" true) { unique = true }
      ∷ key_to "quote" "quote_id" true
      ∷ record (column "policy_number" (varchar 64)) { unique = true; index = true }
      ∷ column "pas_policy_id" (varchar 64)
      ∷ column "status" (varchar 16)
      ∷ column "event_published" boolean
      ∷ column "bound_at" date_time
      ∷ column "bound_by" (varchar 128)
      ∷ [];
}

abbrev pub bind : Script
bind = record {
  revision = "0003_bind";
  down_revision = some "0002_rating";
  upgrade = create_table binding_table ∷ [];
  downgrade = drop_table "binding" ∷ [];
}

abbrev pub quote_manifest : Script
quote_manifest = record {
  revision = "0004_quote_manifest";
  down_revision = some "0003_bind";
  upgrade =
      add_column "quote" (nullable_column "pure_premium_minor" big_integer)
      ∷ add_column "quote" (nullable_column "technical_premium_minor" big_integer)
      ∷ add_column "quote" (nullable_column "commercial_premium_minor" big_integer)
      ∷ add_column "quote" (nullable_column "taxes_minor" big_integer)
      ∷ add_column "quote" (nullable_column "facts" json)
      ∷ [];
  downgrade =
      drop_column "quote" "facts"
      ∷ drop_column "quote" "taxes_minor"
      ∷ drop_column "quote" "commercial_premium_minor"
      ∷ drop_column "quote" "technical_premium_minor"
      ∷ drop_column "quote" "pure_premium_minor"
      ∷ [];
}

-- The files of migrations/versions.
abbrev pub scripts : List Script
scripts = initial ∷ rating ∷ bind ∷ quote_manifest ∷ []
