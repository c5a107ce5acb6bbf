-- ===== src/System/References/Refers.antt =====
-- References from the rows of one table to the rows of another.
use ktayl_underwriting.Prelude.{
  ℕ, ◌≡◌, refl, sym, ◌∙◌, subst, true, some, List, [], ◌∷◌, ◌++◌, All, All-map, All-append, find,
  ◌==◌, ==_iff, inl, inr, Option-cases, find-append_some, find-append_none, Mem, first, later, Bool,
  Bool-cases,
}
use ktayl_underwriting.Store.Rows.{
  Counterparty, Submission, Decision, Quote, Binding, AuditEntry, Db,
}
use ktayl_underwriting.Store.Newest.{newest-Mem}
use ktayl_underwriting.Store.Queries.{find_submission, latest_quote, quote_after}

-- A row with the key is there.
abbrev pub Refers : {A : Type 0} → (A → ℕ) → List A → ℕ → Type 0
Refers key xs id = (x : _) × (find (λ x. key x == id) xs ≡ some x)

module _ {A : Type 0} (key : A → ℕ) (id : ℕ) where
  pub Refers-append : (xs ys : List A) → Refers key xs id → Refers key (xs ++ ys) id
  Refers-append xs ys (x, e) = (x, find-append_some (λ x. key x == id) xs ys e)

  pub Refers-snoc : (xs : List A) (y : A) → id ≡ key y → Refers key (xs ++ y ∷ []) id
  Refers-snoc xs y e = elim (Option-cases (find (λ x. key x == id) xs)) [
    | inl absent ↦ (
      y,
      find-append_none (λ x. key x == id) xs (y ∷ []) absent
          ∙ rw ((==_iff (key y) id).1 (sym e)) refl,
    )
    | inr (x, there) ↦ (x, find-append_some (λ x. key x == id) xs (y ∷ []) there)
  ]

-- The references of some rows are met.
abbrev pub AllRefer : {A B : Type 0} → (A → ℕ) → (B → ℕ) → List A → List B → Type 0
AllRefer key ref xs rows = All (λ r. Refers key xs (ref r)) rows

pub AllRefer-append :
    {A B : Type 0} (key : A → ℕ) (ref : B → ℕ) (xs ys : List A) (rows : List B)
    → AllRefer key ref xs rows
    → AllRefer key ref (xs ++ ys) rows
AllRefer-append key ref xs ys rows h = All-map (λ r. Refers-append key (ref r) xs ys) rows h

pub AllRefer-snoc :
    {A B : Type 0} (key : A → ℕ) (ref : B → ℕ) (xs : List A) (rows : List B) (r : B)
    → AllRefer key ref xs rows
    → Refers key xs (ref r)
    → AllRefer key ref xs (rows ++ r ∷ [])
AllRefer-snoc key ref xs rows r h k =
    All-append (λ r. Refers key xs (ref r)) rows (r ∷ []) h (k, tt)

abbrev pub counterparty_key : Counterparty → ℕ
counterparty_key c = c.id

abbrev pub submission_key : Submission → ℕ
submission_key s = s.id

abbrev pub owner_ref : Submission → ℕ
owner_ref s = s.counterparty_id

abbrev pub decision_ref : Decision → ℕ
decision_ref d = d.submission_id

abbrev pub quote_ref : Quote → ℕ
quote_ref q = q.submission_id

abbrev pub quote_key : Quote → ℕ
quote_key q = q.id

abbrev pub bound_quote : Binding → ℕ
bound_quote b = b.quote_id

abbrev pub binding_ref : Binding → ℕ
binding_ref b = b.submission_id

abbrev pub entry_ref : AuditEntry → ℕ
entry_ref e = e.submission_id

-- The submission that a row was recorded for is there.
pub Refers-found :
    (db : Db) (id id' : ℕ) {s : Submission}
    → find_submission db id ≡ some s
    → id' ≡ id
    → Refers submission_key db.submissions id'
unfolding find_submission
Refers-found db id id' {s} found e = subst (Refers submission_key db.submissions) (sym e) (s, found)

find-Mem :
    {A : Type 0} (p : A → Bool) (xs : List A) {a : A}
    → Mem a xs
    → p a ≡ true
    → (x : A) × (find p xs ≡ some x)
find-Mem p (x ∷ xs) first h = (x, rw h refl)
find-Mem p (x ∷ xs) (later m) h =
    let (y, e) = find-Mem p xs m h in
    elim (Bool-cases (p x)) [ inl hit ↦ (x, rw hit refl) | inr miss ↦ (y, rw miss e) ]
find-Mem p [] m h = elim m [ ]

-- The latest quote of a submission is there.
pub Refers-latest :
    (db : Db) (id id' : ℕ) {q : Quote}
    → latest_quote db id ≡ some q
    → id' ≡ q.id
    → Refers quote_key db.quotes id'
unfolding latest_quote
Refers-latest db id id' {q} h e =
    let (m, _) = newest-Mem (λ (x : Quote). x.submission_id) quote_after id db.quotes h in
    find-Mem (λ x. x.id == id') db.quotes m ((==_iff q.id id').1 (sym e))
