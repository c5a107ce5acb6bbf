-- ===== src/System/Lifespan/Starts.antt =====
-- What a start of the service comes to.
use ktayl_underwriting.Prelude.{
  ℕ, zero, suc, ◌≡◌, ◌≢◌, refl, sym, ap, ◌∙◌, subst, inl, inr, ◌⊎◌, true, some,
}
use ktayl_underwriting.Store.Rows.{Db, Env, ok, raised}
use ktayl_underwriting.Startup.{
  Started, pause, available, gave_up, aborted, Driver, bootstrap_database, wait_for_db, wait_loop,
  wait_interval, wait_max_attempts, then_migrate,
}
use ktayl_underwriting.Startup.Waiting.{probe_cases}
use ktayl_underwriting.Migrations.{Database, has_table}
use ktayl_underwriting.Migrations.Upgrade.{Alembic}
use ktayl_underwriting.Migrations.Models.{models}
use ktayl_underwriting.Migrations.Reached.{Reached, at_head}
use ktayl_underwriting.Migrations.Head.{head, database, from_head}
use ktayl_underwriting.Migrations.Latest.{SameTables, head-models, Reached-Ends}
use ktayl_underwriting.System.Growth.{Grows, Grows-trans, Step-Grows}
use ktayl_underwriting.System.Run.{seed}
use ktayl_underwriting.System.RefinesSeed.{seed-Step}
use ktayl_underwriting.System.Seeding.{IsSeeded, seed-IsSeeded, seed-seed}
use ktayl_underwriting.System.Lifespan.{Connection, driver, seed_tables, then_seed, lifespan}

started_cases : (s : Started) → (s ≡ available) ⊎ (s ≢ available)
started_cases available = inl refl
started_cases gave_up = inr λ h. cc
started_cases aborted = inr λ h. cc

-- What the endpoints work on: the last revision, the tables of the ORM models, a current ruleset and rate tables.
pub record IsReady (db : Database) : Type 0 where
  pub at_last : db.revision ≡ some head
  pub tables_match : SameTables db.tables models
  pub seeds : IsSeeded db.rows

module _ {R : Type 0} (env : Env) (alembic : Alembic env) (connection : Connection R) where
  abbrev d : Driver (Database × R)
  d = driver env alembic connection

  -- The wait writes nothing.
  pause-keeps : (left : ℕ) (w : Database × R) → (pause d wait_interval left w).0 ≡ w.0
  pause-keeps zero w = refl
  pause-keeps (suc left) w = refl

  wait_loop-keeps : (left : ℕ) (w : Database × R) → (wait_loop d wait_interval left w).1.0 ≡ w.0
  unfolding wait_loop
  wait_loop-keeps zero w = refl
  wait_loop-keeps (suc left) w = elim (probe_cases (d.probe w).0) [
    | inl unready ↦
        let w' = pause d wait_interval left (d.probe w).1 in
        rw (unready, wait_loop) (wait_loop-keeps left w' ∙ pause-keeps left (d.probe w).1)
    | inr (inl answered) ↦ rw (answered, wait_loop) refl
    | inr (inr failed) ↦ rw (failed, wait_loop) refl
  ]

  wait_for_db-keeps :
      (w : Database × R) → (wait_for_db d wait_interval wait_max_attempts w).1.0 ≡ w.0
  unfolding wait_for_db
  wait_for_db-keeps w = wait_loop-keeps wait_max_attempts w

  -- What the wait of a start comes to.
  abbrev pub waited : Database × R → Started
  waited w = (wait_for_db d wait_interval wait_max_attempts w).0

  abbrev pub rest_of : Database × R → R
  rest_of w = (wait_for_db d wait_interval wait_max_attempts w).1.1

  wait_ends :
      (db : Database) (r : R)
      → wait_for_db d wait_interval wait_max_attempts (db, r)
        ≡ (waited (db, r), (db, rest_of (db, r)))
  wait_ends db r = cc (wait_for_db-keeps (db, r))

  -- A start whose wait succeeds, with the database that the upgrade gives.
  pub start_at :
      (db : Database) (r : R) (rows : Db)
      → waited (db, r) ≡ available
      → alembic.upgrade db ≡ ok (database (some head) at_head rows)
      → lifespan env true alembic connection (db, r)
        ≡ (available, (database (some head) at_head (seed env rows), rest_of (db, r)))
  unfolding lifespan bootstrap_database seed_tables has_table seed
  start_at db r rows waits upgraded =
      let bootstrapped : bootstrap_database d (db, r)
          ≡ (available, (database (some head) at_head rows, rest_of (db, r))) =
        ap (then_migrate d) (wait_ends db r)
        ∙ ap (λ s. then_migrate d (s, (db, rest_of (db, r)))) waits
        ∙ ap
            (λ x. elim x as (λ _. Started × (Database × R)) [
              | raised e ↦ (aborted, (db, rest_of (db, r)))
              | ok db' ↦ (available, (db', rest_of (db, r)))
            ])
            upgraded in
      ap (then_seed env) bootstrapped

  -- From any database that revisions, up and down, and use have left: a start whose wait for the database succeeds goes on
  -- to serve requests. Its database then has the last revision, the tables of the ORM models with the same columns, a
  -- current ruleset, a current rate table and version 2 of the rate table, and every row that was stored is kept.
  pub lifespan-IsReady :
      (db : Database) (r : R)
      → Reached env db
      → waited (db, r) ≡ available
      → (db' : Database) × (r' : R) × (lifespan env true alembic connection (db, r)
          ≡ (available, (db', r')))
        × IsReady db'
        × Grows db.rows db'.rows
  lifespan-IsReady db r reached waits =
      let (rows, upgraded, grows) = Reached-Ends env alembic db reached in
      (
        database (some head) at_head (seed env rows),
        rest_of (db, r),
        start_at db r rows waits upgraded,
        record { at_last = refl; tables_match = head-models; seeds = seed-IsSeeded env rows },
        Grows-trans grows (Step-Grows (seed-Step env rows)),
      )

  -- A start whose wait does not succeed raises what the wait raised, and leaves the database as it was.
  pub lifespan_stops :
      (db : Database) (r : R)
      → waited (db, r) ≢ available
      → lifespan env true alembic connection (db, r) ≡ (waited (db, r), (db, rest_of (db, r)))
  unfolding lifespan bootstrap_database
  lifespan_stops db r fails =
      ap (λ x. then_seed env (then_migrate d x)) (wait_ends db r) ∙ stopped (waited (db, r)) fails
    where
      stopped :
          (s : Started)
          → s ≢ available
          → then_seed env (then_migrate d (s, (db, rest_of (db, r)))) ≡ (s, (db, rest_of (db, r)))
      stopped available h = absurd (h refl)
      stopped gave_up h = refl
      stopped aborted h = refl

  -- A start again, by whatever network, changes nothing: after a start whose wait succeeded, on a database that revisions and
  -- use have left, a second start leaves that database as it is, whether its own wait succeeds or not.
  pub lifespan-lifespan :
      (db : Database) (r again : R)
      → Reached env db
      → waited (db, r) ≡ available
      → (let db' = (lifespan env true alembic connection (db, r)).1.0 in
          (lifespan env true alembic connection (db', again)).1.0 ≡ db')
  lifespan-lifespan db r again reached waits =
      let (rows, upgraded, grows) = Reached-Ends env alembic db reached in
      let db' = database (some head) at_head (seed env rows) in
      let settled : (lifespan env true alembic connection (db', again)).1.0 ≡ db' =
        elim (started_cases (waited (db', again))) [
          | inl waits_again ↦
              ap (λ x. x.1.0)
                (start_at db' again (seed env rows) waits_again
                  (from_head env alembic (seed env rows)))
              ∙ ap (database (some head) at_head) (seed-seed env rows)
          | inr fails ↦ ap (λ x. x.1.0) (lifespan_stops db' again fails)
        ] in
      let first_end = start_at db r rows waits upgraded in
      subst (λ x. (lifespan env true alembic connection (x, again)).1.0 ≡ x)
        (sym (ap (λ x. x.1.0) first_end)) settled

  -- On a database that revisions and use have left, a start comes to what its wait comes to, and not half-way: it either
  -- goes on to serve, with a database that is at the last revision, has the tables of the ORM models and the seeds, and
  -- keeps every row that was stored; or it raises what the wait raised, with the database as it was.
  pub lifespan_all_or_nothing :
      (db : Database) (r : R)
      → Reached env db
      → (let (s, (db', _)) = lifespan env true alembic connection (db, r) in
          (s ≡ waited (db, r))
          × (((s ≡ available) × IsReady db' × Grows db.rows db'.rows)
              ⊎ ((s ≢ available) × (db' ≡ db))))
  lifespan_all_or_nothing db r reached = elim (started_cases (waited (db, r))) [
    | inl waits ↦
        let (db', r', e, ready, grows) = lifespan-IsReady db r reached waits in
        let served = ap (λ x. x.0) e in
        (
          served ∙ sym waits,
          inl (
            served,
            subst (λ x. IsReady x) (sym (ap (λ x. x.1.0) e)) ready,
            subst (λ (x : Database). Grows db.rows x.rows) (sym (ap (λ x. x.1.0) e)) grows,
          ),
        )
    | inr fails ↦
        let e = lifespan_stops db r fails in
        let raises = ap (λ x. x.0) e in
        (raises, inr ((λ h. fails (sym raises ∙ h)), ap (λ x. x.1.0) e))
  ]
