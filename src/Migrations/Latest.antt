-- ===== src/Migrations/Latest.antt =====
-- From any database that revisions and use have left, an upgrade to head reaches the tables of app/*/models.py.
use mathlib.Core.List.{Perm}
use mathlib.Core.List.Perm
use mathlib.Core.List.Permᴰ
use ktayl_underwriting.Prelude.{
  ◌≡◌, refl, sym, ap, subst, inl, inr, ◌⊎◌, String, none, some, Option, List, [], ◌∷◌, str_eq,
  eq_iff, Bool-cases, Extends-refl, take, drop,
}
use ktayl_underwriting.Store.Rows.{Db, Env, ok}
use ktayl_underwriting.System.Growth.{Grows, unchanged, Grows-trans}
use ktayl_underwriting.Migrations.{Column, Table, Database, has_table}
use ktayl_underwriting.Migrations.Versions.{quote_table}
use ktayl_underwriting.Migrations.Upgrade.{Alembic}
use ktayl_underwriting.Migrations.Models.{quote_model, models}
use ktayl_underwriting.Migrations.Reached.{
  at_initial, at_rating, at_bind, at_head, schema, Fits, Reached,
}
use ktayl_underwriting.Migrations.Consistent.{Reached-IsConsistent}
use ktayl_underwriting.Migrations.Head.{
  head, database, first_ruleset, first_rate_table, with_ruleset, with_rate_table, from_none,
  from_initial, from_rating, from_bind, from_head,
}

-- The same tables in order, each with the same columns in whatever order.
abbrev pub SameTables : List Table → List Table → Type 0
SameTables [] [] = Unit
SameTables (t ∷ ts) (u ∷ us) = (t.name ≡ u.name) × Perm t.columns u.columns × SameTables ts us
SameTables _ _ = ⊥

-- The columns of the manifest stand last in the table, and before two others in the model.
abbrev quote_columns : List Column
quote_columns = quote_table.columns

abbrev manifest_columns : List Column
manifest_columns = take 5 (drop 6 quote_model.columns)

pub head-models : SameTables at_head models
head-models = (
  refl,
  Perm.refl _,
  (
    refl,
    Perm.refl _,
    (
      refl,
      Perm.refl _,
      (
        refl,
        Perm.refl _,
        (
          refl,
          Perm.refl _,
          (
            refl,
            Perm.refl _,
            (
              refl,
              Perm.append_left (take 6 quote_columns)
                  ∣ Permᴰ.append_comm (drop 6 quote_columns) manifest_columns ∣₁,
              (refl, Perm.refl _, tt),
            ),
          ),
        ),
      ),
    ),
  ),
)

-- Which revision a schema has.
abbrev At : Option String → List Table → Option String → List Table → Type 0
At r ts r' ts' = (r ≡ r') × (ts ≡ ts')

abbrev Known : Option String → List Table → Type 0
Known r ts =
    At r ts none []
    ⊎ (At r ts (some "0001_initial") at_initial
        ⊎ (At r ts (some "0002_rating") at_rating
            ⊎ (At r ts (some "0003_bind") at_bind ⊎ At r ts (some head) at_head)))

some-injective : {A : Type 0} {a b : A} → some a ≡ some b → a ≡ b
some-injective h = cc

schema-Known : (r : Option String) (ts : List Table) → schema r ≡ some ts → Known r ts
schema-Known none ts h = inl (refl, sym (some-injective h))
schema-Known (some r) ts h = elim (Bool-cases (str_eq r "0001_initial")) [
  | inl p ↦ inr (inl (ap some ((eq_iff _ _).0 p), sym (some-injective (rw p at h))))
  | inr n ↦ elim (Bool-cases (str_eq r "0002_rating")) [
    | inl p ↦ inr (inr (inl (ap some ((eq_iff _ _).0 p), sym (some-injective (rw (n, p) at h)))))
    | inr n2 ↦ elim (Bool-cases (str_eq r "0003_bind")) [
      | inl p ↦
          inr (
            inr (inr (inl (ap some ((eq_iff _ _).0 p), sym (some-injective (rw (n, n2, p) at h))))))
      | inr n3 ↦ elim (Bool-cases (str_eq r "0004_quote_manifest")) [
        | inl p ↦ inr (
            inr (
              inr
                (inr (ap some ((eq_iff _ _).0 p), sym (some-injective (rw (n, n2, n3, p) at h))))))
        | inr n4 ↦ absurd (cc (rw (n, n2, n3, n4) at h))
      ]
    ]
  ]
]

with_ruleset-Grows :
    (env : Env) (rows : Db) → rows.rulesets ≡ [] → Grows rows (with_ruleset env rows)
with_ruleset-Grows env rows empty = record {
  counterparties = Extends-refl rows.counterparties;
  submissions = Extends-refl rows.submissions;
  rulesets = (first_ruleset env rows ∷ [], rw empty refl);
  rate_tables = Extends-refl rows.rate_tables;
  decisions = Extends-refl rows.decisions;
  quotes = Extends-refl rows.quotes;
  bindings = Extends-refl rows.bindings;
  audit = Extends-refl rows.audit;
}

with_rate_table-Grows :
    (env : Env) (rows : Db) → rows.rate_tables ≡ [] → Grows rows (with_rate_table env rows)
with_rate_table-Grows env rows empty = record {
  counterparties = Extends-refl rows.counterparties;
  submissions = Extends-refl rows.submissions;
  rulesets = Extends-refl rows.rulesets;
  rate_tables = (first_rate_table env rows ∷ [], rw empty refl);
  decisions = Extends-refl rows.decisions;
  quotes = Extends-refl rows.quotes;
  bindings = Extends-refl rows.bindings;
  audit = Extends-refl rows.audit;
}

module _ (env : Env) (alembic : Alembic env) where
  -- An upgrade that ends with the schema at head and keeps what is stored.
  abbrev pub Ends : Database → Type 0
  Ends db =
      (rows : Db) × (alembic.upgrade db ≡ ok (database (some head) at_head rows))
      × Grows db.rows rows

  found-Ends :
      (r r' : Option String) (ts ts' : List Table) (rows : Db)
      → At r ts r' ts'
      → Ends (database r' ts' rows)
      → Ends (database r ts rows)
  found-Ends r r' ts ts' rows (p, q) h =
      subst (λ x. Ends (database x ts rows)) (sym p)
        (subst (λ x. Ends (database r' x rows)) (sym q) h)

  none-Ends : (rows : Db) → Fits [] rows → Ends (database none [] rows)
  unfolding has_table
  none-Ends rows fits =
      let rulesets = fits.rulesets refl in
      let tables = fits.rate_tables refl in
      (
        with_rate_table env (with_ruleset env rows),
        from_none env alembic rows rulesets tables,
        Grows-trans (with_ruleset-Grows env rows rulesets)
            (with_rate_table-Grows env (with_ruleset env rows) tables),
      )

  initial-Ends :
      (rows : Db) → Fits at_initial rows → Ends (database (some "0001_initial") at_initial rows)
  unfolding has_table
  initial-Ends rows fits =
      let tables = fits.rate_tables refl in
      (
        with_rate_table env rows,
        from_initial env alembic rows tables,
        with_rate_table-Grows env rows tables,
      )

  Known-Ends :
      (r : Option String) (ts : List Table) (rows : Db)
      → Fits ts rows
      → Known r ts
      → Ends (database r ts rows)
  Known-Ends r ts rows fits (inl at) =
      found-Ends r none ts [] rows at (none-Ends rows (subst (λ x. Fits x rows) at.1 fits))
  Known-Ends r ts rows fits (inr (inl at)) =
      found-Ends r _ ts _ rows at (initial-Ends rows (subst (λ x. Fits x rows) at.1 fits))
  Known-Ends r ts rows fits (inr (inr (inl at))) =
      found-Ends r _ ts _ rows at (rows, from_rating env alembic rows, unchanged rows)
  Known-Ends r ts rows fits (inr (inr (inr (inl at)))) =
      found-Ends r _ ts _ rows at (rows, from_bind env alembic rows, unchanged rows)
  Known-Ends r ts rows fits (inr (inr (inr (inr at)))) =
      found-Ends r _ ts _ rows at (rows, from_head env alembic rows, unchanged rows)

  pub Reached-Ends : (db : Database) → Reached env db → Ends db
  Reached-Ends db reached =
      let was = Reached-IsConsistent db reached in
      Known-Ends db.revision db.tables db.rows was.rows_fit
        (schema-Known db.revision db.tables was.schema_known)

  -- From any database that revisions, up and down, and use have left, an upgrade to head succeeds: it stores the last
  -- revision, leaves the tables of the ORM models with the same columns, and keeps every row that was stored. A
  -- second upgrade changes nothing.
  pub upgrade-Latest :
      (db : Database)
      → Reached env db
      → (db' : Database) × (alembic.upgrade db ≡ ok db')
        × (db'.revision ≡ some head)
        × SameTables db'.tables models
        × Grows db.rows db'.rows
        × (alembic.upgrade db' ≡ ok db')
  upgrade-Latest db reached =
      let (rows, ends, grows) = Reached-Ends db reached in
      (
        database (some head) at_head rows,
        ends,
        refl,
        head-models,
        grows,
        from_head env alembic rows,
      )
