-- ===== src/Migrations/Models.antt =====
-- The tables of app/*/models.py, which the code reads and writes, as SQLAlchemy sees their columns. A default is taken by
-- the code that makes the row, so none is part of the schema.
use ktayl_underwriting.Prelude.{true, false, List, [], ◌∷◌}
use ktayl_underwriting.Migrations.{varchar, integer, big_integer, boolean, json, date_time, Table}
use ktayl_underwriting.Migrations.Versions.{column, nullable_column, id_column, key_to}

-- `Counterparty`
abbrev pub counterparty_model : Table
counterparty_model = record {
  name = "counterparty";
  columns =
      id_column
      ∷ column "name" (varchar 255)
      ∷ column "country" (varchar 2)
      ∷ column "created_at" date_time
      ∷ [];
}

-- `Submission`
abbrev pub submission_model : Table
submission_model = record {
  name = "submission";
  columns =
      id_column
      ∷ key_to "counterparty" "counterparty_id" false
      ∷ column "line_of_business" (varchar 64)
      ∷ column "tiv_eur" big_integer
      ∷ column "occupancy" (varchar 64)
      ∷ column "country" (varchar 2)
      ∷ column "postcode" (varchar 16)
      ∷ column "requested_cover" (varchar 255)
      ∷ nullable_column "broker_ref" (varchar 64)
      ∷ column "created_at" date_time
      ∷ [];
}

-- `AppetiteRuleset`
abbrev pub appetite_ruleset_model : Table
appetite_ruleset_model = record {
  name = "appetite_ruleset";
  columns =
      id_column
      ∷ record (column "version" integer) { unique = true }
      ∷ column "effective_at" date_time
      ∷ column "rules" json
      ∷ [];
}

-- `Decision`
abbrev pub decision_model : Table
decision_model = record {
  name = "decision";
  columns =
      id_column
      ∷ key_to "submission" "submission_id" true
      ∷ column "outcome" (varchar 16)
      ∷ column "reason_codes" json
      ∷ column "appetite_version" integer
      ∷ column "decided_by" (varchar 128)
      ∷ column "decided_at" date_time
      ∷ [];
}

-- `AuditEntry`
abbrev pub audit_entry_model : Table
audit_entry_model = record {
  name = "audit_entry";
  columns =
      id_column
      ∷ key_to "submission" "submission_id" true
      ∷ column "action" (varchar 64)
      ∷ column "actor" (varchar 128)
      ∷ column "at" date_time
      ∷ nullable_column "ruleset_version" integer
      ∷ nullable_column "outcome" (varchar 16)
      ∷ column "detail" json
      ∷ [];
}

-- `RateTable`
abbrev pub rate_table_model : Table
rate_table_model = record {
  name = "rate_table";
  columns =
      id_column
      ∷ record (column "version" integer) { unique = true }
      ∷ column "effective_at" date_time
      ∷ column "rules" json
      ∷ [];
}

-- `Quote`, in which the columns of the manifest stand before the last two
abbrev pub quote_model : Table
quote_model = record {
  name = "quote";
  columns =
      id_column
      ∷ key_to "submission" "submission_id" true
      ∷ column "premium_minor" big_integer
      ∷ column "currency" (varchar 3)
      ∷ column "rate_table_version" integer
      ∷ column "breakdown" json
      ∷ nullable_column "pure_premium_minor" big_integer
      ∷ nullable_column "technical_premium_minor" big_integer
      ∷ nullable_column "commercial_premium_minor" big_integer
      ∷ nullable_column "taxes_minor" big_integer
      ∷ nullable_column "facts" json
      ∷ column "created_by" (varchar 128)
      ∷ column "created_at" date_time
      ∷ [];
}

-- `Binding`
abbrev pub binding_model : Table
binding_model = record {
  name = "binding";
  columns =
      id_column
      ∷ record (key_to "submission" "submission_id" true) { unique = true }
      ∷ key_to "quote" "quote_id" true
      ∷ record (column "policy_number" (varchar 64)) { unique = true; index = true }
      ∷ column "pas_policy_id" (varchar 64)
      ∷ column "status" (varchar 16)
      ∷ column "event_published" boolean
      ∷ column "bound_at" date_time
      ∷ column "bound_by" (varchar 128)
      ∷ [];
}

-- All of them.
abbrev pub models : List Table
models =
    counterparty_model ∷ submission_model ∷ appetite_ruleset_model ∷ decision_model
    ∷ audit_entry_model ∷ rate_table_model ∷ quote_model ∷ binding_model ∷ []
