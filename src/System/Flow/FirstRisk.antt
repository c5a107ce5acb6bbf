-- ===== src/System/Flow/FirstRisk.antt =====
-- The first start of the service, on a database without tables, and the first risk that it takes in.
use ktayl_underwriting.Prelude.{◌≡◌, refl, String, true, some, none, []}
use ktayl_underwriting.Store.Rows.{Db, Env, empty}
use ktayl_underwriting.Store.Queries.{
  current_ruleset, current_rate_table, rate_table_version, create_rate_table, by_policy_number,
}
use ktayl_underwriting.Startup.{available}
use ktayl_underwriting.Migrations.{Database}
use ktayl_underwriting.Migrations.Upgrade.{Alembic}
use ktayl_underwriting.Migrations.Reached.{at_head}
use ktayl_underwriting.Migrations.Head.{
  head, database, with_ruleset, with_rate_table, from_none, first_ruleset,
}
use ktayl_underwriting.Workbench.Submissions.{SubmissionCreate}
use ktayl_underwriting.Bind.Interfaces.{PolicyClient, Publisher}
use ktayl_underwriting.Rating.Tables
use ktayl_underwriting.System.Run.{seed, seed_ruleset_v1, seed_rate_table_v1, seed_rate_table_v2}
use ktayl_underwriting.System.Keys.{IsFair}
use ktayl_underwriting.System.Lifespan.{Connection, lifespan}
use ktayl_underwriting.System.Lifespan.Starts.{waited, rest_of, start_at}
use ktayl_underwriting.System.Flow.Terms.{IsWithinAppetite, IsWilling, IsOpen}
use ktayl_underwriting.System.Flow.Served.{IsServed, flow-IsServed}

-- The rows that the revisions insert into a database without tables.
abbrev pub migrated : Env → Db
migrated env = with_rate_table env (with_ruleset env empty)

pub first-IsOpen : (env : Env) → IsOpen env (seed env (migrated env))
unfolding seed seed_ruleset_v1 seed_rate_table_v1 seed_rate_table_v2 current_ruleset
    current_rate_table rate_table_version create_rate_table by_policy_number
first-IsOpen env = record {
  appetite_row = first_ruleset env empty;
  appetite = refl;
  appetite_rules = refl;
  rate_row = record {
    id = env.uuid 2;
    version = 2;
    effective_at = env.now 2;
    rules = Tables.v2_rules;
  };
  rates = refl;
  rates_version = refl;
  rates_rules = refl;
  keyed = record {
    counterparties = record { drawn = tt; distinct = tt };
    submissions = record { drawn = tt; distinct = tt };
    decisions = record { drawn = tt; distinct = tt };
    quotes = record { drawn = tt; distinct = tt };
  };
  referenced = record {
    owners = tt;
    shown = tt;
    decisions = tt;
    quotes = tt;
    bindings = tt;
    bound_quotes = tt;
    audit = tt;
  };
  new_number = λ n le. refl;
}

-- A first start, on a database without tables, goes on to serve once its wait for the database succeeds, and its first
-- risk, where it is within the appetite of ruleset version 1, is taken through all four endpoints: created with 201,
-- accepted, quoted and bound with 200, if the policy service creates, submits and activates what it is asked to and no
-- id and no time is given twice.
pub first_risk-IsServed :
    {R W : Type 0} (env : Env) (alembic : Alembic env) (connection : Connection R) (r : R)
    (client : PolicyClient W) (publisher : Publisher W) (payload : SubmissionCreate)
    (actor : String) (w : W)
    → IsFair env
    → waited env alembic connection (database none [] empty, r) ≡ available
    → IsWithinAppetite payload
    → IsWilling client
    → (db : Database) × (r' : R) × (lifespan env true alembic connection (database none [] empty, r)
        ≡ (available, (db, r')))
      × IsServed env client publisher payload actor db.rows w
first_risk-IsServed env alembic connection r client publisher payload actor w fair waits within
      willing =
    let start = database none [] empty in
    (
      database (some head) at_head (seed env (migrated env)),
      rest_of env alembic connection (start, r),
      start_at env alembic connection start r (migrated env) waits
          (from_none env alembic empty refl refl),
      flow-IsServed env client publisher payload actor (seed env (migrated env)) w fair within
          (first-IsOpen env) willing,
    )
