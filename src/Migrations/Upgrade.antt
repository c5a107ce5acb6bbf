-- ===== src/Migrations/Upgrade.antt =====
-- `alembic upgrade head`, which migrations/env.py runs in one transaction: Alembic is outside the repository, and a
-- parameter with what its documentation says of a chain of revisions.
use ktayl_underwriting.Prelude.{◌≡◌, String, Bool, true, false, Option, none, some, str_eq, find}
use ktayl_underwriting.Store.Rows.{Env, Result, ok, ◌>>=◌}
use ktayl_underwriting.Migrations.{Database, apply_all}
use ktayl_underwriting.Migrations.Versions.{Script, scripts}

abbrev pub same_revision : Option String → Option String → Bool
same_revision none none = true
same_revision (some a) (some b) = str_eq a b
same_revision _ _ = false

-- The revision whose `down_revision` is the one that is stored.
unfoldable pub successor : Option String → Option Script
successor stored = find (λ (s : Script). same_revision s.down_revision stored) scripts

-- One revision: its `upgrade`, and its name in `alembic_version`.
unfoldable pub run_script : Env → Script → Database → Result Database
run_script env s db =
    apply_all env s.upgrade db >>= λ db'. ok (record db' { revision = some s.revision })

-- The revision that is stored is one of these.
abbrev pub IsKnown : Option String → Type 0
IsKnown stored =
    (s : Script) × (find (λ (s : Script). same_revision (some s.revision) stored) scripts ≡ some s)

-- `command.upgrade(cfg, "head")`: nothing where no revision follows the one that is stored, if that is one of these; else the revision that
-- follows, and the same from there. A failure keeps nothing.
pub record Alembic (env : Env) : Type 0 where
  pub upgrade : Database → Result Database
  pub at_head :
      (db : Database) → IsKnown db.revision → successor db.revision ≡ none → upgrade db ≡ ok db
  pub one_more :
      (db : Database) (s : Script)
      → successor db.revision ≡ some s
      → upgrade db ≡ (run_script env s db >>= upgrade)
