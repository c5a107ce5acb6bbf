-- ===== src/System/RefinesSeed.antt =====
-- Seeding appends rulesets and rate tables and touches nothing else.
use ktayl_underwriting.Prelude.{
  ℕ, suc, ◌≤◌, ◌≡◌, refl, ap, ◌∙◌, inl, inr, Option-cases, List, [], ◌∷◌, ◌++◌, append_assoc,
  append-nil, arith,
}
use ktayl_underwriting.Store.Rows.{AppetiteRuleset, RateTable, Db, Env, Result, ok, raised}
use ktayl_underwriting.Store.Queries.{
  current_ruleset, current_rate_table, rate_table_version, create_ruleset, create_rate_table,
}
use ktayl_underwriting.Appetite.{AppetiteRules}
use ktayl_underwriting.Rating.Tables.{RateRules}
use ktayl_underwriting.Appetite
use ktayl_underwriting.Rating.Tables
use ktayl_underwriting.System.Run.{
  committed, seed_ruleset_v1, seed_rate_table_v1, seed_rate_table_v2, seed,
}
use ktayl_underwriting.System.Steps.{Step, seeded, with_seeds}

abbrev Seeds : Db → Db → Type 0
Seeds db db' =
    (rs : List AppetiteRuleset) × (ts : List RateTable) × (n : ℕ) × (db.drawn ≤ n)
    × (db' ≡ with_seeds rs ts n db)

Seeds-refl : (db : Db) → Seeds db db
Seeds-refl db =
    ([], [], db.drawn, omega arith, cc (append-nil db.rulesets, append-nil db.rate_tables))

Seeds-trans : (a b c : Db) → Seeds a b → Seeds b c → Seeds a c
Seeds-trans a b c (rs, ts, n, le, p) (rs', ts', m, le', q) = (
  rs ++ rs',
  ts ++ ts',
  m,
  omega (arith, le, le', ap (λ (d : Db). d.drawn) p),
  q
      ∙ ap (with_seeds rs' ts' m) p
      ∙ cc (append_assoc a.rulesets rs rs', append_assoc a.rate_tables ts ts'),
)

committed-Seeds :
    {A : Type 0} (db : Db) (r : Result (A × Db))
    → ((a : A) (db' : Db) → r ≡ ok (a, db') → Seeds db db')
    → Seeds db (committed db r)
committed-Seeds db (ok (a, db')) h = h a db' refl
committed-Seeds db (raised e) h = Seeds-refl db

module _ (env : Env) (version : ℕ) where
  create_ruleset-eq-ok :
      (rules : AppetiteRules) (db db' : Db) (row : AppetiteRuleset)
      → create_ruleset env version rules db ≡ ok (row, db')
      → db' ≡ record db { rulesets = db.rulesets ++ row ∷ []; drawn = suc db.drawn }
  unfolding create_ruleset
  create_ruleset-eq-ok rules db db' row e = ground arith

  create_ruleset-Seeds :
      (rules : AppetiteRules) (db : Db)
      → Seeds db (committed db (create_ruleset env version rules db))
  create_ruleset-Seeds rules db =
      committed-Seeds db (create_ruleset env version rules db) λ row db' e. (
        row ∷ [],
        [],
        suc db.drawn,
        omega arith,
        cc (create_ruleset-eq-ok rules db db' row e, append-nil db.rate_tables),
      )

  create_rate_table-eq-ok :
      (rules : RateRules) (db db' : Db) (row : RateTable)
      → create_rate_table env version rules db ≡ ok (row, db')
      → db' ≡ record db { rate_tables = db.rate_tables ++ row ∷ []; drawn = suc db.drawn }
  unfolding create_rate_table
  create_rate_table-eq-ok rules db db' row e = ground arith

  create_rate_table-Seeds :
      (rules : RateRules) (db : Db)
      → Seeds db (committed db (create_rate_table env version rules db))
  create_rate_table-Seeds rules db =
      committed-Seeds db (create_rate_table env version rules db) λ row db' e. (
        [],
        row ∷ [],
        suc db.drawn,
        omega arith,
        cc (create_rate_table-eq-ok rules db db' row e, append-nil db.rulesets),
      )

seed_ruleset_v1-Seeds : (env : Env) (db : Db) → Seeds db (seed_ruleset_v1 env db)
unfolding seed_ruleset_v1
seed_ruleset_v1-Seeds env db = elim (Option-cases (current_ruleset db)) [
  | inl absent ↦ rw (absent, seed_ruleset_v1) (create_ruleset-Seeds env 1 Appetite.v1_rules db)
  | inr (r, there) ↦ rw (there, seed_ruleset_v1) (Seeds-refl db)
]

seed_rate_table_v1-Seeds : (env : Env) (db : Db) → Seeds db (seed_rate_table_v1 env db)
unfolding seed_rate_table_v1
seed_rate_table_v1-Seeds env db = elim (Option-cases (current_rate_table db)) [
  | inl absent ↦ rw (absent, seed_rate_table_v1) (create_rate_table-Seeds env 1 Tables.v1_rules db)
  | inr (t, there) ↦ rw (there, seed_rate_table_v1) (Seeds-refl db)
]

seed_rate_table_v2-Seeds : (env : Env) (db : Db) → Seeds db (seed_rate_table_v2 env db)
unfolding seed_rate_table_v2
seed_rate_table_v2-Seeds env db = elim (Option-cases (rate_table_version db 2)) [
  | inl absent ↦ rw (absent, seed_rate_table_v2) (create_rate_table-Seeds env 2 Tables.v2_rules db)
  | inr (t, there) ↦ rw (there, seed_rate_table_v2) (Seeds-refl db)
]

seed-Seeds : (env : Env) (db : Db) → Seeds db (seed env db)
unfolding seed
seed-Seeds env db =
    let db1 = seed_ruleset_v1 env db in
    let db2 = seed_rate_table_v1 env db1 in
    Seeds-trans db db2 (seed_rate_table_v2 env db2)
      (Seeds-trans db db1 db2 (seed_ruleset_v1-Seeds env db) (seed_rate_table_v1-Seeds env db1))
      (seed_rate_table_v2-Seeds env db2)

pub seed-Step : (env : Env) (db : Db) → Step env db (seed env db)
seed-Step env db = let (rs, ts, n, le, e) = seed-Seeds env db in seeded rs ts n le e

pub seed_audit : (env : Env) (db : Db) → (seed env db).audit ≡ db.audit
seed_audit env db = let (rs, ts, n, le, e) = seed-Seeds env db in ap (λ (d : Db). d.audit) e
