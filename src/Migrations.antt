-- ===== src/Migrations.antt =====
-- migrations: the schema as a list of tables, and the statements of `alembic.op` that the revisions make. A statement
-- does what PostgreSQL does with it, which refuses a reference to a table that is not there, and to drop a
-- table that another one refers to.
pub mod Versions
pub mod Upgrade
pub mod Closed
pub mod Undo
pub mod Models
pub mod Reached
pub mod Consistent
pub mod Head
pub mod Latest
use ktayl_underwriting.Prelude.{
  ℕ, suc, String, Bool, true, false, not, ◌&&◌, ◌||◌, Option, none, some, List, [], ◌∷◌, ◌++◌, map,
  ◌==◌, str_eq, find, select, if◌then◌else◌,
}
use ktayl_underwriting.Appetite.{AppetiteRules}
use ktayl_underwriting.Rating.Tables.{RateRules}
use ktayl_underwriting.Store.Rows.{
  AppetiteRuleset, RateTable, Db, Env, Result, ok, raised, ◌>>=◌, database_error,
}

-- The types of SQLAlchemy that occur; a text has its length.
pub data ColumnType : Type 0 where
  varchar : ℕ → ColumnType
  integer big_integer boolean json date_time : ColumnType

-- `references` is the table and the column of a foreign key.
pub record Column : Type 0 where
  pub name : String
  pub kind : ColumnType
  pub primary_key : Bool
  pub nullable : Bool
  pub unique : Bool
  pub index : Bool
  pub references : Option (String × String)

pub record Table : Type 0 where
  pub name : String
  pub columns : List Column

-- The calls of `op`. An insertion has the id, the version and the rules of its row.
pub data Op : Type 0 where
  create_table : Table → Op
  drop_table : String → Op
  add_column : String → Column → Op
  drop_column : String → String → Op
  insert_ruleset : ℕ → ℕ → AppetiteRules → Op
  insert_rate_table : ℕ → ℕ → RateRules → Op

-- The row of `alembic_version`, the schema, and the rows in the tables.
pub record Database : Type 0 where
  pub revision : Option String
  pub tables : List Table
  pub rows : Db

abbrev pub any : {A : Type 0} → (A → Bool) → List A → Bool
any p [] = false
any p (x ∷ xs) = if p x then true else any p xs

abbrev pub named : String → Table → Bool
named name t = str_eq t.name name

unfoldable pub has_table : String → List Table → Bool
has_table name tables = any (named name) tables

abbrev pub key_refers_to : String → Option (String × String) → Bool
key_refers_to name none = false
key_refers_to name (some (t, _)) = str_eq t name

abbrev pub refers_to : String → Column → Bool
refers_to name c = key_refers_to name c.references

abbrev pub table_refers_to : String → Table → Bool
table_refers_to name t = any (refers_to name) t.columns

-- A foreign key to a table that is not there.
abbrev pub key_dangles : List Table → Option (String × String) → Bool
key_dangles tables none = false
key_dangles tables (some (t, _)) = not (has_table t tables)

abbrev pub dangles : List Table → Column → Bool
dangles tables c = key_dangles tables c.references

abbrev pub has_column : String → Table → Bool
has_column name t = any (λ (c : Column). str_eq c.name name) t.columns

abbrev pub without_column : String → List Column → List Column
without_column name columns = select (λ (c : Column). not (str_eq c.name name)) columns

-- The table of that name with other columns.
abbrev pub change : String → (List Column → List Column) → List Table → List Table
change name f tables =
    map (λ t. if named name t then record t { columns = f t.columns } else t) tables

abbrev pub others : String → List Table → List Table
others name tables = select (λ t. not (named name t)) tables

-- What a statement makes of the schema. A new column may be NULL, as each one that is added here: the rows that are
-- there have no value for it.
unfoldable pub alter : Op → List Table → Result (List Table)
alter (create_table t) tables =
    if has_table t.name tables || any (dangles tables) t.columns
    then raised database_error
    else ok (tables ++ t ∷ [])
alter (drop_table name) tables =
    if has_table name tables && not (any (table_refers_to name) (others name tables))
    then ok (others name tables)
    else raised database_error
alter (add_column name c) tables =
    if has_table name tables
      && not (any (λ t. named name t && has_column c.name t) tables)
      && c.nullable
      && not (dangles tables c)
    then ok (change name (λ columns. columns ++ c ∷ []) tables)
    else raised database_error
alter (drop_column name column) tables =
    if any (λ t. named name t && has_column column t) tables
    then ok (change name (without_column column) tables)
    else raised database_error
alter (insert_ruleset id version rules) tables =
    if has_table "appetite_ruleset" tables then ok tables else raised database_error
alter (insert_rate_table id version rules) tables =
    if has_table "rate_table" tables then ok tables else raised database_error

-- The rows of a table that is dropped go with it.
abbrev pub kept : {Row : Type 0} → String → String → List Row → List Row
kept dropped table rows = if str_eq dropped table then [] else rows

abbrev pub without_table : String → Db → Db
without_table name db = record db {
  counterparties = kept name "counterparty" db.counterparties;
  submissions = kept name "submission" db.submissions;
  rulesets = kept name "appetite_ruleset" db.rulesets;
  rate_tables = kept name "rate_table" db.rate_tables;
  decisions = kept name "decision" db.decisions;
  quotes = kept name "quote" db.quotes;
  bindings = kept name "binding" db.bindings;
  audit = kept name "audit_entry" db.audit;
}

-- What a statement makes of the rows; the id and the version of a row are unique.
unfoldable pub write : Env → Op → Db → Result Db
write env (create_table t) db = ok db
write env (drop_table name) db = ok (without_table name db)
write env (add_column name c) db = ok db
write env (drop_column name column) db = ok db
write env (insert_ruleset id version rules) db =
    let row : AppetiteRuleset = record {
      id = id;
      version = version;
      effective_at = env.now db.drawn;
      rules = rules;
    } in
    elim (find (λ (r : AppetiteRuleset). (r.id == id) || (r.version == version)) db.rulesets) [
      | some taken ↦ raised database_error
      | none ↦ ok (record db { rulesets = db.rulesets ++ row ∷ []; drawn = suc db.drawn })
    ]
write env (insert_rate_table id version rules) db =
    let row : RateTable = record {
      id = id;
      version = version;
      effective_at = env.now db.drawn;
      rules = rules;
    } in
    elim (find (λ (t : RateTable). (t.id == id) || (t.version == version)) db.rate_tables) [
      | some taken ↦ raised database_error
      | none ↦ ok (record db { rate_tables = db.rate_tables ++ row ∷ []; drawn = suc db.drawn })
    ]

-- One statement after the other, on the schema alone and on the database.
unfoldable pub alter_all : List Op → List Table → Result (List Table)
alter_all [] tables = ok tables
alter_all (o ∷ os) tables = alter o tables >>= alter_all os

unfoldable pub apply : Env → Op → Database → Result Database
apply env o db = alter o db.tables >>= λ tables.
    write env o db.rows >>= λ rows. ok (record db { tables = tables; rows = rows })

unfoldable pub apply_all : Env → List Op → Database → Result Database
apply_all env [] db = ok db
apply_all env (o ∷ os) db = apply env o db >>= apply_all env os
