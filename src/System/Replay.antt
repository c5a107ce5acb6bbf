-- ===== src/System/Replay.antt =====
-- Each stored price can be computed again.
use ktayl_underwriting.Prelude.{
  ◌≡◌, sym, subst, some, List, [], ◌∷◌, ltb, All, All-map, All-append, All-Mem, Mem, Mem-append,
}
use ktayl_underwriting.Store.Rows.{RateTable, Quote, Db, Env}
use ktayl_underwriting.Store.Newest.{newest-All}
use ktayl_underwriting.Store.Queries.{current_rate_table}
use ktayl_underwriting.Bind.Interfaces.{PolicyClient, Publisher}
use ktayl_underwriting.System.Pricing.{IsPricedBy}
use ktayl_underwriting.System.Run.{Request, run}
use ktayl_underwriting.System.Steps.{Step, same, seeded, created, assessed, quoted, bound}
use ktayl_underwriting.System.Runs.{Reach, here, next, run-Reach}

-- Some stored rate table prices the quote's manifest at what the quote holds.
abbrev pub IsReplayable : Db → Quote → Type 0
IsReplayable db q = (t : RateTable) × Mem t db.rate_tables × IsPricedBy q t

abbrev pub AllReplayable : Db → Type 0
AllReplayable db = All (IsReplayable db) db.quotes

current_rate_table-Mem :
    (db : Db) {t : RateTable} → current_rate_table db ≡ some t → Mem t db.rate_tables
unfolding current_rate_table
current_rate_table-Mem db h =
    newest-All (λ t. Mem t db.rate_tables) (λ (a b : RateTable). ltb b.version a.version)
      db.rate_tables (All-Mem (λ t. Mem t db.rate_tables) db.rate_tables λ t m. m) h

Step-AllReplayable :
    {env : Env} {db db' : Db} → Step env db db' → AllReplayable db → AllReplayable db'
Step-AllReplayable (same p) h = subst AllReplayable (sym p) h
Step-AllReplayable {env} {db} (seeded rs ts n _ p) h =
    subst AllReplayable (sym p)
      (All-map (λ q (t, m, priced). (t, Mem-append db.rate_tables ts m, priced)) db.quotes h)
Step-AllReplayable (created c s e _ _ p) h = subst AllReplayable (sym p) h
Step-AllReplayable (assessed d e _ _ p) h = subst AllReplayable (sym p) h
Step-AllReplayable {env} {db} (quoted q e may _ p) h = subst AllReplayable (sym p) (
    All-append (IsReplayable db) db.quotes (q ∷ []) h
      ((may.table, current_rate_table-Mem db may.is_current, may.is_priced), tt))
Step-AllReplayable (bound b e _ _ p) h = subst AllReplayable (sym p) h

Reach-AllReplayable :
    {env : Env} {db db' : Db} → Reach env db db' → AllReplayable db → AllReplayable db'
Reach-AllReplayable here h = h
Reach-AllReplayable (next r st) h = Step-AllReplayable st (Reach-AllReplayable r h)

-- Whatever requests are served, starting from tables without quotes, each quote that is then stored is replayable: some
-- stored rate table gives, for the facts of the quote's manifest, the breakdown that the quote holds, with its line items,
-- its amounts and its rate-table version.
pub run-AllReplayable :
    {W : Type 0} (env : Env) (client : PolicyClient W) (publisher : Publisher W) (rs : List Request)
    (db : Db) (w : W)
    → db.quotes ≡ []
    → AllReplayable (run env client publisher rs (db, w)).0
run-AllReplayable env client publisher rs db w none_quoted =
    Reach-AllReplayable (run-Reach env client publisher rs (db, w))
      (subst (All (IsReplayable db)) (sym none_quoted) tt)
