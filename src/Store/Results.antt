-- ===== src/Store/Results.antt =====
-- Inversion of results, and what a read that found a row says.
use ktayl_underwriting.Prelude.{ℕ, ◌≡◌, refl, ap, Option, none, some, find_holds, ==_iff, ◌==◌}
use ktayl_underwriting.Store.Rows.{
  Submission, Binding, Db, Fault, Result, ok, raised, ◌>>=◌, or_raise,
}
use ktayl_underwriting.Store.Queries.{find_submission, get_submission, by_submission}

pub >>=-eq-ok :
    {Row Next : Type 0} (found : Result Row) (next : Row → Result Next) {last : Next}
    → (found >>= next) ≡ ok last
    → (row : Row) × (found ≡ ok row) × (next row ≡ ok last)
>>=-eq-ok (ok row) next h = (row, refl, h)
>>=-eq-ok (raised fault) next h = cc

pub ok-injective : {Row : Type 0} {a b : Row} → ok a ≡ ok b → a ≡ b
ok-injective h = cc

pub or_raise-eq-ok :
    {Row : Type 0} (found : Option Row) (missing : Fault) {row : Row}
    → or_raise found missing ≡ ok row
    → found ≡ some row
or_raise-eq-ok none missing h = cc
or_raise-eq-ok (some row) missing h = ap some (ok-injective h)

-- `get_submission` returns the row with that id.
pub get_submission-eq-ok :
    (db : Db) (id : ℕ) {s : Submission}
    → get_submission db id ≡ ok s
    → (find_submission db id ≡ some s) × (s.id ≡ id)
unfolding get_submission
get_submission-eq-ok db id {s} h =
    let found = or_raise-eq-ok (find_submission db id) _ h in
    (found, (==_iff s.id id).0 (find_holds (λ (x : Submission). x.id == id) db.submissions found))

-- `by_submission` returns a binding of that submission.
pub by_submission_holds :
    (db : Db) (id : ℕ) {b : Binding} → by_submission db id ≡ some b → b.submission_id ≡ id
unfolding by_submission
by_submission_holds db id {b} h =
    (==_iff b.submission_id id).0
      (find_holds (λ (x : Binding). x.submission_id == id) db.bindings h)
