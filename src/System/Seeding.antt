-- ===== src/System/Seeding.antt =====
-- Seeding, which each start of the service does again.
use ktayl_underwriting.Prelude.{
  ◌≡◌, refl, sym, ap, subst, ◌∙◌, Option, none, some, List, [], ◌∷◌, ◌++◌, ltb, ◌==◌, Bool, true,
  Bool-cases, find, arith, inl, inr, Option-cases,
}
use ktayl_underwriting.Rating.Tables
use ktayl_underwriting.Store.Rows.{AppetiteRuleset, RateTable, Db, Env}
use ktayl_underwriting.Store.Newest.{newest}
use ktayl_underwriting.Store.Queries.{
  current_ruleset, current_rate_table, rate_table_version, create_ruleset, create_rate_table,
}
use ktayl_underwriting.System.Run.{seed_ruleset_v1, seed_rate_table_v1, seed_rate_table_v2, seed}

abbrev IsPresent : {A : Type 0} → Option A → Type 0
IsPresent none = ⊥
IsPresent (some a) = Unit

-- What seeding provides.
pub record IsSeeded (db : Db) : Type 0 where
  pub appetite : IsPresent (current_ruleset db)
  pub rates : IsPresent (current_rate_table db)
  pub version_2 : IsPresent (rate_table_version db 2)

-- Only an empty table has no newest row, and one that a row was added to is not empty.
newest-none : {A : Type 0} (after : A → A → Bool) (xs : List A) → newest after xs ≡ none → xs ≡ []
newest-none after [] h = refl
newest-none after (x ∷ xs) h = cc

newest-IsPresent :
    {A : Type 0} (after : A → A → Bool) (xs : List A) (y : A)
    → IsPresent (newest after (xs ++ y ∷ []))
newest-IsPresent after [] y = tt
newest-IsPresent after (x ∷ xs) y = tt

find-IsPresent :
    {A : Type 0} (p : A → Bool) (xs : List A) (y : A)
    → p y ≡ true
    → IsPresent (find p (xs ++ y ∷ []))
find-IsPresent p [] y h = rw h tt
find-IsPresent p (x ∷ xs) y h = elim (Bool-cases (p x)) [
  | inl hit ↦ rw hit tt
  | inr miss ↦ rw miss (find-IsPresent p xs y h)
]

module _ (env : Env) where
  appetite-IsPresent :
      (db : Db) (rulesets : List AppetiteRuleset)
      → db.rulesets ≡ rulesets
      → IsPresent (current_ruleset (seed_ruleset_v1 env db))
  unfolding seed_ruleset_v1 current_ruleset create_ruleset
  appetite-IsPresent db [] h = rw h tt
  appetite-IsPresent db (r ∷ rs) h = rw (h, seed_ruleset_v1) (rw h tt)

  rates-IsPresent :
      (db : Db) (tables : List RateTable)
      → db.rate_tables ≡ tables
      → IsPresent (current_rate_table (seed_rate_table_v1 env db))
  unfolding seed_rate_table_v1 current_rate_table create_rate_table
  rates-IsPresent db [] h = rw h tt
  rates-IsPresent db (r ∷ rs) h = rw (h, seed_rate_table_v1) (rw h tt)

  keep_appetite :
      (db : Db) {r : AppetiteRuleset} → current_ruleset db ≡ some r → seed_ruleset_v1 env db ≡ db
  unfolding seed_ruleset_v1
  keep_appetite db there = rw (there, seed_ruleset_v1) refl

  keep_rates :
      (db : Db) {t : RateTable} → current_rate_table db ≡ some t → seed_rate_table_v1 env db ≡ db
  unfolding seed_rate_table_v1
  keep_rates db there = rw (there, seed_rate_table_v1) refl

  keep_version_2 :
      (db : Db) {t : RateTable} → rate_table_version db 2 ≡ some t → seed_rate_table_v2 env db ≡ db
  unfolding seed_rate_table_v2
  keep_version_2 db there = rw (there, seed_rate_table_v2) refl

  abbrev by_version : RateTable → RateTable → Bool
  by_version a b = ltb b.version a.version

  version_2_row : Db → RateTable
  version_2_row db = record {
    id = env.uuid db.drawn;
    version = 2;
    effective_at = env.now db.drawn;
    rules = Tables.v2_rules;
  }

  create_version_2 :
      (db : Db)
      → rate_table_version db 2 ≡ none
      → (seed_rate_table_v2 env db).rate_tables ≡ db.rate_tables ++ version_2_row db ∷ []
  unfolding seed_rate_table_v2 create_rate_table version_2_row
  create_version_2 db absent = ground arith

  version_2_seeded :
      (db : Db)
      → IsPresent (current_rate_table db)
      → IsPresent (current_rate_table (seed_rate_table_v2 env db))
        × IsPresent (rate_table_version (seed_rate_table_v2 env db) 2)
  unfolding current_rate_table rate_table_version version_2_row
  version_2_seeded db h = elim (Option-cases (rate_table_version db 2)) [
    | inl absent ↦
        let added = create_version_2 db absent in
        (
          subst (λ ts. IsPresent (newest by_version ts)) (sym added)
              (newest-IsPresent by_version db.rate_tables (version_2_row db)),
          subst (λ ts. IsPresent (find (λ (t : RateTable). t.version == 2) ts)) (sym added)
              (find-IsPresent (λ (t : RateTable). t.version == 2) db.rate_tables (version_2_row db)
                refl),
        )
    | inr (t, there) ↦
        let kept = sym (keep_version_2 db there) in
        (
          subst (λ (d : Db). IsPresent (current_rate_table d)) kept h,
          subst (λ (d : Db). IsPresent (rate_table_version d 2)) kept (rw there tt),
        )
  ]

  v1_rulesets : (db : Db) → (seed_rate_table_v1 env db).rulesets ≡ db.rulesets
  unfolding seed_rate_table_v1 create_rate_table
  v1_rulesets db = ground arith

  v2_rulesets : (db : Db) → (seed_rate_table_v2 env db).rulesets ≡ db.rulesets
  unfolding seed_rate_table_v2 create_rate_table
  v2_rulesets db = ground arith

  -- Whatever is stored before, seeding leaves a current ruleset, a current rate table and version 2 of the rate table.
  pub seed-IsSeeded : (db : Db) → IsSeeded (seed env db)
  unfolding seed current_ruleset
  seed-IsSeeded db =
      let db1 = seed_ruleset_v1 env db in
      let db2 = seed_rate_table_v1 env db1 in
      let (rates, version_2) = version_2_seeded db2 (rates-IsPresent db1 db1.rate_tables refl) in
      record {
        appetite =
            subst (λ rs. IsPresent (newest (λ (a b : AppetiteRuleset). ltb b.version a.version) rs))
              (sym (v2_rulesets db2 ∙ v1_rulesets db1)) (appetite-IsPresent db db.rulesets refl);
        rates = rates;
        version_2 = version_2;
      }

  present : {A : Type 0} (o : Option A) → IsPresent o → (a : A) × (o ≡ some a)
  present none h = elim h [ ]
  present (some a) h = (a, refl)

  again : (db : Db) → IsSeeded db → seed env db ≡ db
  unfolding seed
  again db h =
      let (r, p) = present (current_ruleset db) h.appetite in
      let (t, q) = present (current_rate_table db) h.rates in
      let (t2, q2) = present (rate_table_version db 2) h.version_2 in
      ap (λ d. seed_rate_table_v2 env (seed_rate_table_v1 env d)) (keep_appetite db p)
      ∙ ap (seed_rate_table_v2 env) (keep_rates db q)
      ∙ keep_version_2 db q2

  -- Seeding twice is seeding once: a restart of the service leaves all tables as they are.
  pub seed-seed : (db : Db) → seed env (seed env db) ≡ seed env db
  seed-seed db = again (seed env db) (seed-IsSeeded db)
