-- ===== src/System/Growth.antt =====
-- Nothing that was committed is changed or removed.
use ktayl_underwriting.Prelude.{
  sym, List, [], ◌∷◌, Extends, Extends-refl, Extends-append, Extends-trans, subst,
}
use ktayl_underwriting.Store.Rows.{Db, Env}
use ktayl_underwriting.Bind.Interfaces.{PolicyClient, Publisher}
use ktayl_underwriting.System.Run.{Request, run}
use ktayl_underwriting.System.Steps.{Step, same, seeded, created, assessed, quoted, bound}
use ktayl_underwriting.System.Runs.{Reach, here, next, run-Reach}

-- Each table of `db'` begins with that of `db`.
pub record Grows (db db' : Db) : Type 0 where
  pub counterparties : Extends db.counterparties db'.counterparties
  pub submissions : Extends db.submissions db'.submissions
  pub rulesets : Extends db.rulesets db'.rulesets
  pub rate_tables : Extends db.rate_tables db'.rate_tables
  pub decisions : Extends db.decisions db'.decisions
  pub quotes : Extends db.quotes db'.quotes
  pub bindings : Extends db.bindings db'.bindings
  pub audit : Extends db.audit db'.audit

abbrev pub unchanged : (db : Db) → Grows db db
unchanged db = record {
  counterparties = Extends-refl db.counterparties;
  submissions = Extends-refl db.submissions;
  rulesets = Extends-refl db.rulesets;
  rate_tables = Extends-refl db.rate_tables;
  decisions = Extends-refl db.decisions;
  quotes = Extends-refl db.quotes;
  bindings = Extends-refl db.bindings;
  audit = Extends-refl db.audit;
}

pub Grows-trans : {a b c : Db} → Grows a b → Grows b c → Grows a c
Grows-trans {a} {b} {c} g h = record {
  counterparties =
      Extends-trans a.counterparties b.counterparties c.counterparties g.counterparties
        h.counterparties;
  submissions = Extends-trans a.submissions b.submissions c.submissions g.submissions h.submissions;
  rulesets = Extends-trans a.rulesets b.rulesets c.rulesets g.rulesets h.rulesets;
  rate_tables = Extends-trans a.rate_tables b.rate_tables c.rate_tables g.rate_tables h.rate_tables;
  decisions = Extends-trans a.decisions b.decisions c.decisions g.decisions h.decisions;
  quotes = Extends-trans a.quotes b.quotes c.quotes g.quotes h.quotes;
  bindings = Extends-trans a.bindings b.bindings c.bindings g.bindings h.bindings;
  audit = Extends-trans a.audit b.audit c.audit g.audit h.audit;
}

pub Step-Grows : {env : Env} {db db' : Db} → Step env db db' → Grows db db'
Step-Grows {env} {db} {db'} (same p) = subst (Grows db) (sym p) (unchanged db)
Step-Grows {env} {db} {db'} (seeded rs ts n _ p) = subst (Grows db) (sym p) (record {
  counterparties = Extends-refl db.counterparties;
  submissions = Extends-refl db.submissions;
  rulesets = Extends-append db.rulesets rs;
  rate_tables = Extends-append db.rate_tables ts;
  decisions = Extends-refl db.decisions;
  quotes = Extends-refl db.quotes;
  bindings = Extends-refl db.bindings;
  audit = Extends-refl db.audit;
})
Step-Grows {env} {db} {db'} (created c s e _ _ p) = subst (Grows db) (sym p) (record {
  counterparties = Extends-append db.counterparties (c ∷ []);
  submissions = Extends-append db.submissions (s ∷ []);
  rulesets = Extends-refl db.rulesets;
  rate_tables = Extends-refl db.rate_tables;
  decisions = Extends-refl db.decisions;
  quotes = Extends-refl db.quotes;
  bindings = Extends-refl db.bindings;
  audit = Extends-append db.audit (e ∷ []);
})
Step-Grows {env} {db} {db'} (assessed d e _ _ p) = subst (Grows db) (sym p) (record {
  counterparties = Extends-refl db.counterparties;
  submissions = Extends-refl db.submissions;
  rulesets = Extends-refl db.rulesets;
  rate_tables = Extends-refl db.rate_tables;
  decisions = Extends-append db.decisions (d ∷ []);
  quotes = Extends-refl db.quotes;
  bindings = Extends-refl db.bindings;
  audit = Extends-append db.audit (e ∷ []);
})
Step-Grows {env} {db} {db'} (quoted q e _ _ p) = subst (Grows db) (sym p) (record {
  counterparties = Extends-refl db.counterparties;
  submissions = Extends-refl db.submissions;
  rulesets = Extends-refl db.rulesets;
  rate_tables = Extends-refl db.rate_tables;
  decisions = Extends-refl db.decisions;
  quotes = Extends-append db.quotes (q ∷ []);
  bindings = Extends-refl db.bindings;
  audit = Extends-append db.audit (e ∷ []);
})
Step-Grows {env} {db} {db'} (bound b e _ _ p) = subst (Grows db) (sym p) (record {
  counterparties = Extends-refl db.counterparties;
  submissions = Extends-refl db.submissions;
  rulesets = Extends-refl db.rulesets;
  rate_tables = Extends-refl db.rate_tables;
  decisions = Extends-refl db.decisions;
  quotes = Extends-refl db.quotes;
  bindings = Extends-append db.bindings (b ∷ []);
  audit = Extends-append db.audit (e ∷ []);
})

Reach-Grows : {env : Env} {db db' : Db} → Reach env db db' → Grows db db'
Reach-Grows {env} {db} here = unchanged db
Reach-Grows (next r st) = Grows-trans (Reach-Grows r) (Step-Grows st)

-- After any sequence of requests each table still begins with the rows that it had: no decision, price, binding,
-- ruleset, rate table or audit entry is ever changed or removed.
pub run-Grows :
    {W : Type 0} (env : Env) (client : PolicyClient W) (publisher : Publisher W) (rs : List Request)
    (s : Db × W)
    → Grows s.0 (run env client publisher rs s).0
run-Grows env client publisher rs s = Reach-Grows (run-Reach env client publisher rs s)
