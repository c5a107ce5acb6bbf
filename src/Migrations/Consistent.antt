-- ===== src/Migrations/Consistent.antt =====
-- What revisions and use keep: the schema is that of the revision, and no rows are where no table is.
use ktayl_underwriting.Prelude.{
  ◌≡◌, refl, sym, ap, ◌∙◌, subst, inl, inr, String, true, false, Option, none, some, List, [], ◌∷◌,
  ◌++◌, str_eq, eq_iff, Mem, first, later, Bool-cases, if◌then◌else◌,
}
use ktayl_underwriting.Store.Rows.{Db, Env, ok, raised, database_error}
use ktayl_underwriting.Store.Results.{ok-injective, >>=-eq-ok}
use ktayl_underwriting.Migrations.{
  Table, Op, create_table, drop_table, add_column, drop_column, insert_ruleset, insert_rate_table,
  Database, named, has_table, others, change, without_column, kept, without_table, alter, alter_all,
  write, apply, apply_all,
}
use ktayl_underwriting.Migrations.Versions.{Script, scripts}
use ktayl_underwriting.Migrations.Upgrade.{run_script}
use ktayl_underwriting.Migrations.Closed.{any-append_left, passed, passed_else}
use ktayl_underwriting.Migrations.Undo.{change-has_table}
use ktayl_underwriting.Migrations.Reached.{
  undo_script, at_initial, at_rating, at_bind, at_head, schema, Fits, Reached, fresh, upgraded,
  downgraded, used, apply-tables, apply_all-tables,
}

-- Rows that fit some tables fit more.
more-Fits :
    (ts ts' : List Table) (rows : Db)
    → ((name : String) → has_table name ts' ≡ false → has_table name ts ≡ false)
    → Fits ts rows
    → Fits ts' rows
more-Fits ts ts' rows less fits = record {
  counterparties = λ h. fits.counterparties (less "counterparty" h);
  submissions = λ h. fits.submissions (less "submission" h);
  rulesets = λ h. fits.rulesets (less "appetite_ruleset" h);
  rate_tables = λ h. fits.rate_tables (less "rate_table" h);
  decisions = λ h. fits.decisions (less "decision" h);
  quotes = λ h. fits.quotes (less "quote" h);
  bindings = λ h. fits.bindings (less "binding" h);
  audit = λ h. fits.audit (less "audit_entry" h);
}

others-has_table :
    (name table : String) (ts : List Table)
    → str_eq name table ≡ false
    → has_table table (others name ts) ≡ has_table table ts
unfolding has_table
others-has_table name table [] h = refl
others-has_table name table (t ∷ ts) h = elim (Bool-cases (named name t)) [
  | inl hit ↦
      let other : named table t ≡ false =
        ap (λ n. str_eq n table) ((eq_iff t.name name).0 hit) ∙ h in
      rw (hit, other) (others-has_table name table ts h)
  | inr miss ↦
      rw miss (ap (λ b. if named table t then true else b) (others-has_table name table ts h))
]

kept_empty :
    {Row : Type 0} (name table : String) (ts : List Table) (rows : List Row)
    → has_table table (others name ts) ≡ false
    → (has_table table ts ≡ false → rows ≡ [])
    → kept name table rows ≡ []
kept_empty name table ts rows h fits = elim (Bool-cases (str_eq name table)) [
  | inl same ↦ rw same refl
  | inr differs ↦ rw differs (fits (sym (others-has_table name table ts differs) ∙ h))
]

drop-Fits :
    (name : String) (ts : List Table) (rows : Db)
    → Fits ts rows
    → Fits (others name ts) (without_table name rows)
drop-Fits name ts rows fits = record {
  counterparties = λ h. kept_empty name "counterparty" ts rows.counterparties h fits.counterparties;
  submissions = λ h. kept_empty name "submission" ts rows.submissions h fits.submissions;
  rulesets = λ h. kept_empty name "appetite_ruleset" ts rows.rulesets h fits.rulesets;
  rate_tables = λ h. kept_empty name "rate_table" ts rows.rate_tables h fits.rate_tables;
  decisions = λ h. kept_empty name "decision" ts rows.decisions h fits.decisions;
  quotes = λ h. kept_empty name "quote" ts rows.quotes h fits.quotes;
  bindings = λ h. kept_empty name "binding" ts rows.bindings h fits.bindings;
  audit = λ h. kept_empty name "audit_entry" ts rows.audit h fits.audit;
}

some-injective : {A : Type 0} {a b : A} → some a ≡ some b → a ≡ b
some-injective h = cc

inserted :
    {A B : Type 0} (o : Option A) {x y : B}
    → elim o [ some taken ↦ raised database_error | none ↦ ok x ] ≡ ok y
    → x ≡ y
inserted (some a) h = absurd (cc)
inserted none h = ok-injective h

module _ (env : Env) where
  write-Fits :
      (o : Op) (ts ts' : List Table) (rows rows' : Db)
      → alter o ts ≡ ok ts'
      → write env o rows ≡ ok rows'
      → Fits ts rows
      → Fits ts' rows'
  unfolding alter write has_table
  write-Fits (create_table t) ts ts' rows rows' h k fits =
      subst (λ x. Fits x rows') (passed_else _ h).1
        (subst (Fits (ts ++ t ∷ [])) (ok-injective k) (
          more-Fits ts (ts ++ t ∷ []) rows (λ name. any-append_left (named name) ts (t ∷ [])) fits))
  write-Fits (drop_table name) ts ts' rows rows' h k fits =
      subst (λ x. Fits x rows') (passed _ h).1
        (subst (Fits (others name ts)) (ok-injective k) (drop-Fits name ts rows fits))
  write-Fits (add_column name c) ts ts' rows rows' h k fits =
      let ts1 = change name (λ columns. columns ++ c ∷ []) ts in
      subst (λ x. Fits x rows') (passed _ h).1
        (subst (Fits ts1) (ok-injective k) (
          more-Fits ts ts1 rows
            (λ other e. sym (change-has_table name other (λ columns. columns ++ c ∷ []) ts) ∙ e)
            fits))
  write-Fits (drop_column name column) ts ts' rows rows' h k fits =
      let ts1 = change name (without_column column) ts in
      subst (λ x. Fits x rows') (passed _ h).1
        (subst (Fits ts1) (ok-injective k) (
          more-Fits ts ts1 rows
            (λ other e. sym (change-has_table name other (without_column column) ts) ∙ e) fits))
  write-Fits (insert_ruleset id version rules) ts ts' rows rows' h k fits =
      let (there, e) = passed _ h in
      subst (λ x. Fits x rows') e
        (subst (Fits ts) (inserted _ k) (record {
          counterparties = fits.counterparties;
          submissions = fits.submissions;
          rulesets = λ absent. absurd (cc);
          rate_tables = fits.rate_tables;
          decisions = fits.decisions;
          quotes = fits.quotes;
          bindings = fits.bindings;
          audit = fits.audit;
        }))
  write-Fits (insert_rate_table id version rules) ts ts' rows rows' h k fits =
      let (there, e) = passed _ h in
      subst (λ x. Fits x rows') e
        (subst (Fits ts) (inserted _ k) (record {
          counterparties = fits.counterparties;
          submissions = fits.submissions;
          rulesets = fits.rulesets;
          rate_tables = λ absent. absurd (cc);
          decisions = fits.decisions;
          quotes = fits.quotes;
          bindings = fits.bindings;
          audit = fits.audit;
        }))

  apply_all-Fits :
      (os : List Op) (db db' : Database)
      → apply_all env os db ≡ ok db'
      → Fits db.tables db.rows
      → Fits db'.tables db'.rows
  unfolding apply_all
  apply_all-Fits [] db db' h fits =
      subst (λ (d : Database). Fits d.tables d.rows) (ok-injective h) fits
  apply_all-Fits (o ∷ os) db db' h fits =
      let (db1, p, q) = >>=-eq-ok (apply env o db) (apply_all env os) h in
      let (altered, written) = apply-tables env o db db1 p in
      apply_all-Fits os db1 db' q
        (write-Fits o db.tables db1.tables db.rows db1.rows altered written fits)

-- The schema after some statements, where they are known to make `b` of `a`.
after :
    (os : List Op) {a b ts ts' : List Table}
    → alter_all os a ≡ ok b
    → some a ≡ some ts
    → alter_all os ts ≡ ok ts'
    → some b ≡ some ts'
after os {a} {b} {ts} {ts'} made here h =
    ap some (ok-injective (sym made ∙ ap (alter_all os) (some-injective here) ∙ h))

up :
    (s : Script) (ts ts' : List Table)
    → Mem s scripts
    → schema s.down_revision ≡ some ts
    → alter_all s.upgrade ts ≡ ok ts'
    → schema (some s.revision) ≡ some ts'
unfolding alter_all alter has_table
up s ts ts' first here h = after s.upgrade {a = []} refl here h
up s ts ts' (later first) here h = after s.upgrade {a = at_initial} refl here h
up s ts ts' (later (later first)) here h = after s.upgrade {a = at_rating} refl here h
up s ts ts' (later (later (later first))) here h = after s.upgrade {a = at_bind} refl here h
up s ts ts' (later (later (later (later m)))) here h = elim m [ ]

down :
    (s : Script) (ts ts' : List Table)
    → Mem s scripts
    → schema (some s.revision) ≡ some ts
    → alter_all s.downgrade ts ≡ ok ts'
    → schema s.down_revision ≡ some ts'
unfolding alter_all alter has_table
down s ts ts' first here h = after s.downgrade {a = at_initial} refl here h
down s ts ts' (later first) here h = after s.downgrade {a = at_rating} refl here h
down s ts ts' (later (later first)) here h = after s.downgrade {a = at_bind} refl here h
down s ts ts' (later (later (later first))) here h = after s.downgrade {a = at_head} refl here h
down s ts ts' (later (later (later (later m)))) here h = elim m [ ]

-- The schema is the one of the stored revision, and no rows are where no table is.
pub record IsConsistent (db : Database) : Type 0 where
  pub schema_known : schema db.revision ≡ some db.tables
  pub rows_fit : Fits db.tables db.rows

-- However a database came about, by revisions up and down in any order and any use of the tables there are: its schema
-- is the one of the stored revision, and a table that the schema has not has no rows.
pub Reached-IsConsistent : {env : Env} (db : Database) → Reached env db → IsConsistent db
unfolding run_script undo_script
Reached-IsConsistent db (fresh rows fits) = record { schema_known = refl; rows_fit = fits }
Reached-IsConsistent {env} db (upgraded s {db = db0} m before at_down h) =
    let was = Reached-IsConsistent db0 before in
    let (db1, p, q) = >>=-eq-ok (apply_all env s.upgrade db0) _ h in
    let made =
      up s db0.tables db1.tables m (ap schema (sym at_down) ∙ was.schema_known)
        (apply_all-tables env s.upgrade db0 db1 p) in
    subst IsConsistent (ok-injective q) (record {
      schema_known = made;
      rows_fit = apply_all-Fits env s.upgrade db0 db1 p was.rows_fit;
    })
Reached-IsConsistent {env} db (downgraded s {db = db0} m before at_up h) =
    let was = Reached-IsConsistent db0 before in
    let (db1, p, q) = >>=-eq-ok (apply_all env s.downgrade db0) _ h in
    let made =
      down s db0.tables db1.tables m (ap schema (sym at_up) ∙ was.schema_known)
        (apply_all-tables env s.downgrade db0 db1 p) in
    subst IsConsistent (ok-injective q) (record {
      schema_known = made;
      rows_fit = apply_all-Fits env s.downgrade db0 db1 p was.rows_fit;
    })
Reached-IsConsistent db (used {db = db0} rows before fits) = record {
  schema_known = (Reached-IsConsistent db0 before).schema_known;
  rows_fit = fits;
}
