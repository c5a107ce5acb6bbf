-- ===== src/Tests/FlowTests.antt =====
-- The first risk of the fixtures, from the first start to its binding.
use ktayl_underwriting.Prelude.{ℕ, ◌≢◌, arith, ◌≡◌, refl, true, false, none, []}
use ktayl_underwriting.Prelude.Text.{upper}
use ktayl_underwriting.Enums.{Occupancy}
use ktayl_underwriting.Store.Rows.{empty}
use ktayl_underwriting.Startup.{available, wait_for_db, wait_loop}
use ktayl_underwriting.Migrations.{Database}
use ktayl_underwriting.Migrations.Head.{database}
use ktayl_underwriting.System.Run.{seed}
use ktayl_underwriting.System.Lifespan.{lifespan}
use ktayl_underwriting.System.Lifespan.Starts.{waited}
use ktayl_underwriting.System.Flow.Terms.{IsWithinAppetite, IsWilling}
use ktayl_underwriting.System.Flow.Served.{IsServed, flow-IsServed}
use ktayl_underwriting.System.Flow.FirstRisk.{migrated, first-IsOpen, first_risk-IsServed}
use ktayl_underwriting.Tests.Fixtures.{env, client, publisher, payload}
use ktayl_underwriting.Tests.ViewTests.{env-IsFair}
use ktayl_underwriting.Tests.MigrationTests.{alembic, connection}

warehouse≢fireworks : Occupancy.warehouse ≢ Occupancy.fireworks_manufacturing
warehouse≢fireworks h = cc

pub payload-IsWithinAppetite : IsWithinAppetite payload
unfolding upper
payload-IsWithinAppetite = record {
  lob = refl;
  some_value = omega arith;
  within_limit = omega arith;
  occupancy = warehouse≢fireworks;
  country = refl;
}

pub client-IsWilling : IsWilling client
client-IsWilling = record {
  creates = λ req w. (_, _, refl);
  submits = λ id w. (_, refl);
  activates = λ id w. (_, refl);
}

flow-IsServed_example :
    IsServed env client (publisher false) payload "u" (seed env (migrated env)) []
flow-IsServed_example =
    flow-IsServed env client (publisher false) payload "u" (seed env (migrated env)) [] env-IsFair
      payload-IsWithinAppetite (first-IsOpen env) client-IsWilling

first_waits : waited env alembic connection (database none [] empty, 0) ≡ available
unfolding wait_for_db wait_loop
first_waits = refl

first_risk-IsServed_example :
    (db : Database) × (r' : ℕ) × (lifespan env true alembic connection (database none [] empty, 0)
      ≡ (available, (db, r')))
    × IsServed env client (publisher true) payload "u" db.rows []
first_risk-IsServed_example =
    first_risk-IsServed env alembic connection 0 client (publisher true) payload "u" [] env-IsFair
      first_waits payload-IsWithinAppetite client-IsWilling
