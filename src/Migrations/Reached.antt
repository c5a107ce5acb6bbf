-- ===== src/Migrations/Reached.antt =====
-- The databases that the revisions and the service leave, and the schema that each has.
use ktayl_underwriting.Prelude.{
  ◌≡◌, ap, ◌∙◌, String, false, Option, none, some, List, [], ◌∷◌, ◌++◌, str_eq, if◌then◌else◌, Mem,
}
use ktayl_underwriting.Store.Rows.{Db, Env, Result, ok, ◌>>=◌}
use ktayl_underwriting.Store.Results.{ok-injective, >>=-eq-ok}
use ktayl_underwriting.Migrations.{
  Table, Op, Database, big_integer, json, has_table, alter, alter_all, write, apply, apply_all,
}
use ktayl_underwriting.Migrations.Versions.{
  Script, scripts, counterparty_table, submission_table, version_table, decision_table, audit_table,
  quote_table, binding_table, nullable_column,
}
use ktayl_underwriting.Migrations.Upgrade.{run_script}

-- One revision down, as `alembic downgrade` does it.
unfoldable pub undo_script : Env → Script → Database → Result Database
undo_script env s db =
    apply_all env s.downgrade db >>= λ db'. ok (record db' { revision = s.down_revision })

-- The tables that each revision has.
abbrev pub at_initial : List Table
at_initial =
    counterparty_table
    ∷ submission_table
    ∷ version_table "appetite_ruleset"
    ∷ decision_table
    ∷ audit_table
    ∷ []

abbrev pub at_rating : List Table
at_rating = at_initial ++ version_table "rate_table" ∷ quote_table ∷ []

abbrev pub at_bind : List Table
at_bind = at_rating ++ binding_table ∷ []

abbrev manifest_table : Table
manifest_table = record quote_table {
  columns =
      quote_table.columns
      ++ nullable_column "pure_premium_minor" big_integer
        ∷ nullable_column "technical_premium_minor" big_integer
        ∷ nullable_column "commercial_premium_minor" big_integer
        ∷ nullable_column "taxes_minor" big_integer
        ∷ nullable_column "facts" json
        ∷ [];
}

abbrev pub at_head : List Table
at_head = at_initial ++ version_table "rate_table" ∷ manifest_table ∷ binding_table ∷ []

abbrev pub schema : Option String → Option (List Table)
schema none = some []
schema (some r) =
    if str_eq r "0001_initial"
    then some at_initial
    else if str_eq r "0002_rating"
    then some at_rating
    else if str_eq r "0003_bind"
    then some at_bind
    else if str_eq r "0004_quote_manifest"
    then some at_head
    else none

-- No rows are where no table is.
pub record Fits (tables : List Table) (rows : Db) : Type 0 where
  pub counterparties : has_table "counterparty" tables ≡ false → rows.counterparties ≡ []
  pub submissions : has_table "submission" tables ≡ false → rows.submissions ≡ []
  pub rulesets : has_table "appetite_ruleset" tables ≡ false → rows.rulesets ≡ []
  pub rate_tables : has_table "rate_table" tables ≡ false → rows.rate_tables ≡ []
  pub decisions : has_table "decision" tables ≡ false → rows.decisions ≡ []
  pub quotes : has_table "quote" tables ≡ false → rows.quotes ≡ []
  pub bindings : has_table "binding" tables ≡ false → rows.bindings ≡ []
  pub audit : has_table "audit_entry" tables ≡ false → rows.audit ≡ []

-- The databases that come of an empty one, by revisions up and down and by any use of the tables there are.
pub data Reached (env : Env) : Database → Type 0 where
  fresh :
      (rows : Db)
      → Fits [] rows
      → Reached env (record { revision = none; tables = []; rows = rows })
  upgraded :
      (s : Script) {db db' : Database}
      → Mem s scripts
      → Reached env db
      → db.revision ≡ s.down_revision
      → run_script env s db ≡ ok db'
      → Reached env db'
  downgraded :
      (s : Script) {db db' : Database}
      → Mem s scripts
      → Reached env db
      → db.revision ≡ some s.revision
      → undo_script env s db ≡ ok db'
      → Reached env db'
  used :
      {db : Database} (rows : Db)
      → Reached env db
      → Fits db.tables rows
      → Reached env (record db { rows = rows })

module _ (env : Env) where
  -- The schema that a statement makes.
  pub apply-tables :
      (o : Op) (db db' : Database)
      → apply env o db ≡ ok db'
      → (alter o db.tables ≡ ok db'.tables) × (write env o db.rows ≡ ok db'.rows)
  unfolding apply
  apply-tables o db db' h =
      let (tables, p, q) = >>=-eq-ok (alter o db.tables) _ h in
      let (rows, p', q') = >>=-eq-ok (write env o db.rows) _ q in
      let e = ok-injective q' in
      (p ∙ ap (λ (d : Database). ok d.tables) e, p' ∙ ap (λ (d : Database). ok d.rows) e)

  pub apply_all-tables :
      (os : List Op) (db db' : Database)
      → apply_all env os db ≡ ok db'
      → alter_all os db.tables ≡ ok db'.tables
  unfolding apply_all alter_all
  apply_all-tables [] db db' h = ap (λ (d : Database). ok d.tables) (ok-injective h)
  apply_all-tables (o ∷ os) db db' h =
      let (db1, p, q) = >>=-eq-ok (apply env o db) (apply_all env os) h in
      ap (λ r. r >>= alter_all os) (apply-tables o db db1 p).0 ∙ apply_all-tables os db1 db' q
