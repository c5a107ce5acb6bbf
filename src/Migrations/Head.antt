-- ===== src/Migrations/Head.antt =====
-- What an upgrade to head makes of a database.
use ktayl_underwriting.Prelude.{◌≡◌, refl, ap, ◌∙◌, String, none, some, Option, List, [], ◌∷◌, suc}
use ktayl_underwriting.Store.Rows.{AppetiteRuleset, RateTable, Db, Env, Result, ok, ◌>>=◌}
use ktayl_underwriting.Migrations.{Table, Database, has_table, alter, write, apply, apply_all}
use ktayl_underwriting.Migrations.Versions.{
  Script, initial, rating, bind, quote_manifest, first_ruleset_id, first_rate_table_id,
  appetite_v1_rules, rating_v1_rules,
}
use ktayl_underwriting.Migrations.Upgrade.{successor, run_script, Alembic}
use ktayl_underwriting.Migrations.Reached.{at_initial, at_rating, at_bind, at_head}

abbrev pub head : String
head = "0004_quote_manifest"

abbrev pub database : Option String → List Table → Db → Database
database r ts rows = record { revision = r; tables = ts; rows = rows }

module _ (env : Env) where
  -- The rows that the revisions insert.
  abbrev pub first_ruleset : Db → AppetiteRuleset
  first_ruleset rows = record {
    id = first_ruleset_id;
    version = 1;
    effective_at = env.now rows.drawn;
    rules = appetite_v1_rules;
  }

  abbrev pub first_rate_table : Db → RateTable
  first_rate_table rows = record {
    id = first_rate_table_id;
    version = 1;
    effective_at = env.now rows.drawn;
    rules = rating_v1_rules;
  }

  abbrev pub with_ruleset : Db → Db
  with_ruleset rows = record rows { rulesets = first_ruleset rows ∷ []; drawn = suc rows.drawn }

  abbrev pub with_rate_table : Db → Db
  with_rate_table rows = record rows {
    rate_tables = first_rate_table rows ∷ [];
    drawn = suc rows.drawn;
  }

  run_manifest :
      (rows : Db)
      → run_script env quote_manifest (database (some "0003_bind") at_bind rows)
        ≡ ok (database (some head) at_head rows)
  unfolding run_script apply_all apply alter write has_table
  run_manifest rows = refl

  run_bind :
      (rows : Db)
      → run_script env bind (database (some "0002_rating") at_rating rows)
        ≡ ok (database (some "0003_bind") at_bind rows)
  unfolding run_script apply_all apply alter write has_table
  run_bind rows = refl

  run_rating :
      (rows : Db)
      → rows.rate_tables ≡ []
      → run_script env rating (database (some "0001_initial") at_initial rows)
        ≡ ok (database (some "0002_rating") at_rating (with_rate_table rows))
  unfolding run_script apply_all apply alter write has_table
  run_rating rows empty = rw empty (rw empty refl)

  run_initial :
      (rows : Db)
      → rows.rulesets ≡ []
      → run_script env initial (database none [] rows)
        ≡ ok (database (some "0001_initial") at_initial (with_ruleset rows))
  unfolding run_script apply_all apply alter write has_table
  run_initial rows empty = rw empty (rw empty refl)

  module _ (alembic : Alembic env) where
    step :
        (s : Script) (db db' : Database)
        → successor db.revision ≡ some s
        → run_script env s db ≡ ok db'
        → alembic.upgrade db ≡ alembic.upgrade db'
    step s db db' next h = alembic.one_more db s next ∙ ap (λ r. r >>= alembic.upgrade) h

    abbrev pub upgraded_to : Db → Result Database
    upgraded_to rows = ok (database (some head) at_head rows)

    pub from_head :
        (rows : Db) → alembic.upgrade (database (some head) at_head rows) ≡ upgraded_to rows
    unfolding successor
    from_head rows = alembic.at_head (database (some head) at_head rows) (_, refl) refl

    pub from_bind :
        (rows : Db) → alembic.upgrade (database (some "0003_bind") at_bind rows) ≡ upgraded_to rows
    unfolding successor
    from_bind rows = step quote_manifest _ _ refl (run_manifest rows) ∙ from_head rows

    pub from_rating :
        (rows : Db)
        → alembic.upgrade (database (some "0002_rating") at_rating rows) ≡ upgraded_to rows
    unfolding successor
    from_rating rows = step bind _ _ refl (run_bind rows) ∙ from_bind rows

    pub from_initial :
        (rows : Db)
        → rows.rate_tables ≡ []
        → alembic.upgrade (database (some "0001_initial") at_initial rows)
          ≡ upgraded_to (with_rate_table rows)
    unfolding successor
    from_initial rows empty =
        step rating _ _ refl (run_rating rows empty) ∙ from_rating (with_rate_table rows)

    pub from_none :
        (rows : Db)
        → rows.rulesets ≡ []
        → rows.rate_tables ≡ []
        → alembic.upgrade (database none [] rows)
          ≡ upgraded_to (with_rate_table (with_ruleset rows))
    unfolding successor
    from_none rows empty empty' =
        step initial _ _ refl (run_initial rows empty) ∙ from_initial (with_ruleset rows) empty'
