-- ===== src/Tests/MigrationTests.antt =====
-- The migrations and the start of the service, with an Alembic that runs the revisions in the order of their list.
use ktayl_underwriting.Prelude.{
  ℕ, ◌+◌, ◌≡◌, refl, sym, ap, ◌∙◌, true, none, some, Option, List, [], ◌∷◌, ◌≢◌, ◌⊎◌, eq_iff, ltb,
  if◌then◌else◌, find, find_holds, find-All, arith, String, Mem, first, later,
}
use ktayl_underwriting.Appetite
use ktayl_underwriting.Rating.Tables
use ktayl_underwriting.Store.Rows.{empty, Result, ok, raised, ◌>>=◌}
use ktayl_underwriting.Store.Results.{ok-injective, >>=-eq-ok}
use ktayl_underwriting.Startup.{accepts, not_ready, broken, available, wait_for_db, wait_loop}
use ktayl_underwriting.Migrations.{Database, alter, alter_all, has_table, apply_all, apply, write}
use ktayl_underwriting.Migrations.Versions.{
  Script, scripts, initial, rating, bind, quote_manifest, appetite_v1_rules, rating_v1_rules,
}
use ktayl_underwriting.Migrations.Upgrade.{same_revision, successor, run_script, Alembic}
use ktayl_underwriting.Migrations.Undo.{downgrade-upgrade}
use ktayl_underwriting.Migrations.Closed.{IsClosed}
use ktayl_underwriting.Migrations.Reached.{at_initial, Reached, fresh, upgraded, Fits}
use ktayl_underwriting.Migrations.Consistent.{IsConsistent, Reached-IsConsistent}
use ktayl_underwriting.Migrations.Head.{database, with_ruleset}
use ktayl_underwriting.System.Growth.{Grows}
use ktayl_underwriting.System.Lifespan.{Connection, lifespan}
use ktayl_underwriting.System.Lifespan.Starts.{
  waited, rest_of, IsReady, lifespan-IsReady, lifespan_stops, lifespan_all_or_nothing,
  lifespan-lifespan,
}
use ktayl_underwriting.Tests.Fixtures.{env}

run_all : List Script → Database → Result Database
run_all [] db = ok db
run_all (s ∷ ss) db = run_script env s db >>= run_all ss

-- The list from the revision that follows the stored one.
pub walk : List Script → Option String → Database → Result Database
walk [] stored db = ok db
walk (s ∷ ss) stored db =
    let rest = walk ss stored db in
    if same_revision s.down_revision stored then run_all (s ∷ ss) db else rest

same_revision-eq : (a b : Option String) → same_revision a b ≡ true → a ≡ b
same_revision-eq none none h = refl
same_revision-eq (some a) (some b) h = ap some ((eq_iff a b).0 h)
same_revision-eq none (some b) h = absurd (cc)
same_revision-eq (some a) none h = absurd (cc)

pub followed :
    (r : Option String) (s : Script) → successor r ≡ some s → (r ≡ s.down_revision) × Mem s scripts
unfolding successor
followed r s h = (
  sym (
      same_revision-eq s.down_revision r
        (find_holds (λ (x : Script). same_revision x.down_revision r) scripts h)),
  find-All (λ (x : Script). Mem x scripts) (λ (x : Script). same_revision x.down_revision r) scripts
      (first, (later first, (later (later first), (later (later (later first)), tt)))) h,
)

then_eq :
    {A B : Type 0} (r : Result A) (f g : A → Result B)
    → ((a : A) → r ≡ ok a → f a ≡ g a)
    → (r >>= f) ≡ (r >>= g)
then_eq (raised e) f g h = refl
then_eq (ok a) f g h = h a refl

run_script-revision :
    (s : Script) (db db' : Database) → run_script env s db ≡ ok db' → db'.revision ≡ some s.revision
unfolding run_script
run_script-revision s db db' h =
    let (db1, p, q) = >>=-eq-ok (apply_all env s.upgrade db) _ h in
    sym (ap (λ (d : Database). d.revision) (ok-injective q))

abbrev go : Database → Result Database
go db = walk scripts db.revision db

-- What stands after a revision in the list.
after_it :
    (s : Script) (ss : List Script) (db : Database)
    → db.revision ≡ s.down_revision
    → walk scripts s.down_revision db ≡ run_all (s ∷ ss) db
    → ((db' : Database) → walk scripts (some s.revision) db' ≡ run_all ss db')
    → go db ≡ (run_script env s db >>= go)
unfolding run_all
after_it s ss db at here below =
    ap (λ r. walk scripts r db) at
    ∙ here
    ∙ then_eq (run_script env s db) (run_all ss) go λ db' h.
      sym (below db') ∙ ap (λ r. walk scripts r db') (sym (run_script-revision s db db' h))

pub one_more :
    (db : Database) (s : Script)
    → Mem s scripts
    → db.revision ≡ s.down_revision
    → go db ≡ (run_script env s db >>= go)
unfolding walk run_all
one_more db s first at = after_it s (rating ∷ bind ∷ quote_manifest ∷ []) db at refl λ db'. refl
one_more db s (later first) at = after_it s (bind ∷ quote_manifest ∷ []) db at refl λ db'. refl
one_more db s (later (later first)) at = after_it s (quote_manifest ∷ []) db at refl λ db'. refl
one_more db s (later (later (later first))) at = after_it s [] db at refl λ db'. refl
one_more db s (later (later (later (later m)))) at = elim m [ ]

none_left :
    (ss : List Script) (db : Database) (r : Option String)
    → find (λ (x : Script). same_revision x.down_revision r) ss ≡ none
    → walk ss r db ≡ ok db
unfolding walk
none_left [] db r h = refl
none_left (s ∷ ss) db r h = ground (arith, none_left ss db r)

pub nothing_left : (db : Database) → successor db.revision ≡ none → go db ≡ ok db
unfolding successor
nothing_left db h = none_left scripts db db.revision h

abbrev pub alembic : Alembic env
alembic = record {
  upgrade = go;
  at_head = λ db known h. nothing_left db h;
  one_more = λ db s h. let (at, m) = followed db.revision s h in one_more db s m at;
}

-- The payloads of the revisions are those of the code.
same_payloads : (appetite_v1_rules ≡ Appetite.v1_rules) × (rating_v1_rules ≡ Tables.v1_rules)
same_payloads = (refl, refl)

-- A database that only the first revision has reached.
abbrev old : Database
old = database (some "0001_initial") at_initial (with_ruleset env empty)

empty-Fits : Fits [] empty
empty-Fits = record {
  counterparties = λ h. refl;
  submissions = λ h. refl;
  rulesets = λ h. refl;
  rate_tables = λ h. refl;
  decisions = λ h. refl;
  quotes = λ h. refl;
  bindings = λ h. refl;
  audit = λ h. refl;
}

old-Reached : Reached env old
unfolding run_script apply_all apply alter write has_table
old-Reached =
    upgraded initial {db = database none [] empty} first (fresh empty empty-Fits) refl refl

-- The database answers from the third time on.
abbrev pub connection : Connection ℕ
connection = record {
  probe = λ n. ((if ltb n 2 then not_ready else accepts), n + 1);
  sleep = λ time n. n;
  dispose = λ n. n;
}

abbrev unreachable : Connection ℕ
unreachable = record connection { probe = λ n. (broken, n) }

waits : waited env alembic connection (old, 0) ≡ available
unfolding wait_for_db wait_loop
waits = refl

none-IsClosed : IsClosed []
none-IsClosed name h = refl

initial_made : alter_all initial.upgrade [] ≡ ok at_initial
unfolding alter_all alter has_table
initial_made = refl

Reached-IsConsistent_example : IsConsistent old
Reached-IsConsistent_example = Reached-IsConsistent old old-Reached

good_start :
    (db' : Database) × (r' : ℕ) × (lifespan env true alembic connection (old, 0)
      ≡ (available, (db', r')))
    × IsReady db'
    × Grows old.rows db'.rows
good_start = lifespan-IsReady env alembic connection old 0 old-Reached waits

lifespan-lifespan_example :
    let db' = (lifespan env true alembic connection (old, 0)).1.0 in
    (lifespan env true alembic connection (db', 1)).1.0 ≡ db'
lifespan-lifespan_example = lifespan-lifespan env alembic connection old 0 1 old-Reached waits

not_waits : waited env alembic unreachable (old, 0) ≢ available
unfolding wait_for_db wait_loop
not_waits h = cc

stopped_start :
    lifespan env true alembic unreachable (old, 0)
    ≡ (waited env alembic unreachable (old, 0), (old, rest_of env alembic unreachable (old, 0)))
stopped_start = lifespan_stops env alembic unreachable old 0 not_waits

lifespan_all_or_nothing_example :
    let (s, (db', _)) = lifespan env true alembic connection (old, 0) in
    (s ≡ waited env alembic connection (old, 0))
    × (((s ≡ available) × IsReady db' × Grows old.rows db'.rows) ⊎ ((s ≢ available) × (db' ≡ old)))
lifespan_all_or_nothing_example = lifespan_all_or_nothing env alembic connection old 0 old-Reached

downgrade-upgrade_example : (alter_all initial.downgrade at_initial ≡ ok []) × IsClosed at_initial
downgrade-upgrade_example = downgrade-upgrade initial [] at_initial first none-IsClosed initial_made
