-- ===== src/System/Keys.antt =====
-- The keys of the tables: what the ids and the times of the rows are, and that references are met.
use ktayl_underwriting.Prelude.{ℕ, suc, ◌≤◌, sym, subst, arith}
use ktayl_underwriting.Store.Rows.{Counterparty, Submission, Decision, Quote, Db, Env, empty}
use ktayl_underwriting.System.Steps.{Step, same, seeded, created, assessed, quoted, bound}
use ktayl_underwriting.System.Runs.{Reach, here, next}
use ktayl_underwriting.System.Draws.{IsInjective, IsFresh, IsFresh-le, IsFresh-snoc}

-- What is assumed of `uuid.uuid4()` and of the clock: no id and no time is given twice.
pub record IsFair (env : Env) : Type 0 where
  pub new_id : IsInjective env.uuid
  pub new_time : IsInjective env.now

abbrev counterparty_key : Counterparty → ℕ
counterparty_key c = c.id

abbrev submission_key : Submission → ℕ
submission_key s = s.id

abbrev decision_time : Decision → ℕ
decision_time d = d.decided_at

abbrev quote_time : Quote → ℕ
quote_time q = q.created_at

-- Ids and times are those of the first `n` draws, and none is there twice.
pub record IsKeyedAt (env : Env) (n : ℕ) (db : Db) : Type 0 where
  pub counterparties : IsFresh env.uuid counterparty_key n db.counterparties
  pub submissions : IsFresh env.uuid submission_key n db.submissions
  pub decisions : IsFresh env.now decision_time n db.decisions
  pub quotes : IsFresh env.now quote_time n db.quotes

abbrev pub IsKeyed : Env → Db → Type 0
IsKeyed env db = IsKeyedAt env db.drawn db

IsKeyedAt-le : (env : Env) (m n : ℕ) (db : Db) → m ≤ n → IsKeyedAt env m db → IsKeyedAt env n db
IsKeyedAt-le env m n db le h = record {
  counterparties = IsFresh-le env.uuid counterparty_key m n db.counterparties le h.counterparties;
  submissions = IsFresh-le env.uuid submission_key m n db.submissions le h.submissions;
  decisions = IsFresh-le env.now decision_time m n db.decisions le h.decisions;
  quotes = IsFresh-le env.now quote_time m n db.quotes le h.quotes;
}

module _ {env : Env} (fair : IsFair env) where
  Step-IsKeyed : {db db' : Db} → Step env db db' → IsKeyed env db → IsKeyed env db'
  Step-IsKeyed (same p) h = subst (IsKeyed env) (sym p) h
  Step-IsKeyed {db} (seeded rs ts n le p) h =
      let l = IsKeyedAt-le env db.drawn n db le h in
      subst (IsKeyed env) (sym p) (record {
        counterparties = l.counterparties;
        submissions = l.submissions;
        decisions = l.decisions;
        quotes = l.quotes;
      })
  Step-IsKeyed {db} (created c s e may _ p) h =
      let n = db.drawn in
      let l = IsKeyedAt-le env n (suc (suc (suc n))) db (omega arith) h in
      subst (IsKeyed env) (sym p) (record {
        counterparties =
            IsFresh-snoc env.uuid counterparty_key n n (suc (suc (suc n))) db.counterparties c
              fair.new_id (omega arith) (omega arith) may.owner_key h.counterparties;
        submissions =
            IsFresh-snoc env.uuid submission_key n (suc n) (suc (suc (suc n))) db.submissions s
              fair.new_id (omega arith) (omega arith) may.key h.submissions;
        decisions = l.decisions;
        quotes = l.quotes;
      })
  Step-IsKeyed {db} (assessed d e may _ p) h =
      let n = db.drawn in
      let l = IsKeyedAt-le env n (suc (suc n)) db (omega arith) h in
      subst (IsKeyed env) (sym p) (record {
        counterparties = l.counterparties;
        submissions = l.submissions;
        decisions =
            IsFresh-snoc env.now decision_time n n (suc (suc n)) db.decisions d fair.new_time
              (omega arith) (omega arith) may.dated h.decisions;
        quotes = l.quotes;
      })
  Step-IsKeyed {db} (quoted q e may _ p) h =
      let n = db.drawn in
      let l = IsKeyedAt-le env n (suc (suc n)) db (omega arith) h in
      subst (IsKeyed env) (sym p) (record {
        counterparties = l.counterparties;
        submissions = l.submissions;
        decisions = l.decisions;
        quotes =
            IsFresh-snoc env.now quote_time n n (suc (suc n)) db.quotes q fair.new_time
              (omega arith) (omega arith) may.dated h.quotes;
      })
  Step-IsKeyed {db} (bound b e may _ p) h =
      let l = IsKeyedAt-le env db.drawn (suc (suc db.drawn)) db (omega arith) h in
      subst (IsKeyed env) (sym p) (record {
        counterparties = l.counterparties;
        submissions = l.submissions;
        decisions = l.decisions;
        quotes = l.quotes;
      })

  pub Reach-IsKeyed : {db db' : Db} → Reach env db db' → IsKeyed env db → IsKeyed env db'
  Reach-IsKeyed here h = h
  Reach-IsKeyed (next r st) h = Step-IsKeyed st (Reach-IsKeyed r h)

pub empty-IsKeyed : (env : Env) → IsKeyed env empty
empty-IsKeyed env = record {
  counterparties = record { drawn = tt; distinct = tt };
  submissions = record { drawn = tt; distinct = tt };
  decisions = record { drawn = tt; distinct = tt };
  quotes = record { drawn = tt; distinct = tt };
}
