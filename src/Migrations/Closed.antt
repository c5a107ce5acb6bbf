-- ===== src/Migrations/Closed.antt =====
-- Tables that refer to no table that is not there, and what the tests of a statement tell.
use ktayl_underwriting.Prelude.{
  ◌≡◌, refl, ap, ◌∙◌, String, Bool, true, false, not, ◌&&◌, ◌||◌, Option, none, some, List, [], ◌∷◌,
  ◌++◌, str_eq, eq_iff, select, Bool-cases, inl, inr, arith, if◌then◌else◌,
}
use ktayl_underwriting.Store.Rows.{ok, raised, database_error}
use ktayl_underwriting.Store.Results.{ok-injective}
use ktayl_underwriting.Migrations.{
  Column, Table, any, has_table, key_refers_to, refers_to, table_refers_to, key_dangles, dangles,
}

-- No table refers to one that is not there.
abbrev pub IsClosed : List Table → Type 0
IsClosed tables =
    (name : String) → has_table name tables ≡ false → any (table_refers_to name) tables ≡ false

module _ {A : Type 0} (p : A → Bool) where
  pub any-append : (xs ys : List A) → any p xs ≡ false → any p (xs ++ ys) ≡ any p ys
  any-append [] ys h = refl
  any-append (x ∷ xs) ys h = ground (arith, any-append xs ys)

  pub any-append_left : (xs ys : List A) → any p (xs ++ ys) ≡ false → any p xs ≡ false
  any-append_left [] ys h = refl
  any-append_left (x ∷ xs) ys h = ground (arith, any-append_left xs ys)

  pub any-append_right : (xs ys : List A) → any p (xs ++ ys) ≡ false → any p ys ≡ false
  any-append_right [] ys h = h
  any-append_right (x ∷ xs) ys h = ground (arith, any-append_right xs ys)

  -- Where nothing passes, leaving out what passes leaves all.
  pub select-none : (xs : List A) → any p xs ≡ false → select (λ x. not (p x)) xs ≡ xs
  select-none [] h = refl
  select-none (x ∷ xs) h = elim (Bool-cases (p x)) [
    | inl hit ↦ absurd (cc (rw hit at h))
    | inr miss ↦ rw miss (ap (◌∷◌ x) (select-none xs (rw miss at h)))
  ]

  pub select-append_last :
      (xs : List A) (x : A)
      → any p xs ≡ false
      → p x ≡ true
      → select (λ y. not (p y)) (xs ++ x ∷ []) ≡ xs
  select-append_last [] x h k = rw k refl
  select-append_last (y ∷ xs) x h k = elim (Bool-cases (p y)) [
    | inl hit ↦ absurd (cc (rw hit at h))
    | inr miss ↦ rw miss (ap (◌∷◌ y) (select-append_last xs x (rw miss at h) k))
  ]

  pub any-last : (xs : List A) (x : A) → p x ≡ true → any p (xs ++ x ∷ []) ≡ true
  any-last [] x k = rw k refl
  any-last (y ∷ xs) x k = ground (arith, any-last xs x k)

pub str_eq_refl : (s : String) → str_eq s s ≡ true
str_eq_refl s = (eq_iff s s).1 refl

-- Inversion of a test that raises on one side.
pub passed_else :
    {A : Type 0} (b : Bool) {x y : A}
    → (if b then raised database_error else ok x) ≡ ok y
    → (b ≡ false) × (x ≡ y)
passed_else true h = absurd (cc)
passed_else false h = (refl, ok-injective h)

pub passed :
    {A : Type 0} (b : Bool) {x y : A}
    → (if b then ok x else raised database_error) ≡ ok y
    → (b ≡ true) × (x ≡ y)
passed true h = (refl, ok-injective h)
passed false h = absurd (cc)

pub or_false : (a b : Bool) → a || b ≡ false → (a ≡ false) × (b ≡ false)
or_false false b h = (refl, h)
or_false true b h = absurd (cc)

pub and_true : (a b : Bool) → a && b ≡ true → (a ≡ true) × (b ≡ true)
and_true true b h = (refl, h)
and_true false b h = absurd (cc)

pub not-true : (a : Bool) → not a ≡ true → a ≡ false
not-true true h = absurd (cc)
not-true false h = refl

pub if_false : (a b : Bool) → (if a then true else b) ≡ false → (a ≡ false) × (b ≡ false)
if_false true b h = absurd (cc)
if_false false b h = (refl, h)

module _ (name : String) (ts : List Table) (absent : has_table name ts ≡ false) where
  -- A key that does not dangle refers to no table that is not there.
  pub key_refers_elsewhere :
      (key : Option (String × String)) → key_dangles ts key ≡ false → key_refers_to name key ≡ false
  key_refers_elsewhere none h = refl
  key_refers_elsewhere (some (t, column)) h = elim (Bool-cases (str_eq t name)) [
    | inl same ↦
        let there : has_table t ts ≡ false =
          ap (λ n. has_table n ts) ((eq_iff t name).0 same) ∙ absent in
        absurd (cc (rw there at h))
    | inr differs ↦ differs
  ]

  pub refers_elsewhere :
      (columns : List Column)
      → any (dangles ts) columns ≡ false
      → any (refers_to name) columns ≡ false
  refers_elsewhere [] h = refl
  refers_elsewhere (c ∷ cs) h =
      let (p, q) = if_false _ _ h in
      rw (key_refers_elsewhere c.references p) (refers_elsewhere cs q)
