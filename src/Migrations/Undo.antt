-- ===== src/Migrations/Undo.antt =====
-- What a revision builds, its `downgrade` takes down.
use ktayl_underwriting.Prelude.{
  ◌≡◌, refl, sym, ap, ◌∙◌, subst, String, Bool, true, false, ◌&&◌, List, [], ◌∷◌, ◌++◌, str_eq, All,
  Mem, first, later, Bool-cases, inl, inr, if◌then◌else◌,
}
use ktayl_underwriting.Store.Rows.{Result, ok, raised, ◌>>=◌}
use ktayl_underwriting.Store.Results.{ok-injective, >>=-eq-ok}
use ktayl_underwriting.Migrations.{
  Column, Table, Op, create_table, drop_table, add_column, drop_column, insert_ruleset,
  insert_rate_table, any, named, has_table, refers_to, table_refers_to, dangles, has_column,
  without_column, change, others, alter, alter_all,
}
use ktayl_underwriting.Migrations.Versions.{Script, scripts}
use ktayl_underwriting.Migrations.Closed.{
  IsClosed, any-append, any-append_left, select-append_last, any-last, str_eq_refl, passed_else,
  passed, or_false, and_true, not-true, if_false, key_refers_elsewhere, refers_elsewhere,
}

-- What undoes a statement that builds; an insertion is undone with its table.
abbrev pub undo : Op → List Op
undo (create_table t) = drop_table t.name ∷ []
undo (add_column name c) = drop_column name c.name ∷ []
undo _ = []

abbrev pub undo_all : List Op → List Op
undo_all [] = []
undo_all (o ∷ os) = undo_all os ++ undo o

then_all :
    {A : Type 0} (r : Result A) (f g : A → Result A) (h : A → Result A)
    → ((a : A) → f a ≡ (g a >>= h))
    → (r >>= f) ≡ ((r >>= g) >>= h)
then_all (raised e) f g h k = refl
then_all (ok a) f g h k = k a

alter_all-append :
    (os ps : List Op) (ts : List Table)
    → alter_all (os ++ ps) ts ≡ (alter_all os ts >>= alter_all ps)
unfolding alter_all
alter_all-append [] ps ts = refl
alter_all-append (o ∷ os) ps ts =
    then_all (alter o ts) (alter_all (os ++ ps)) (alter_all os) (alter_all ps)
      (alter_all-append os ps)

-- A statement that builds.
abbrev pub Builds : Op → Type 0
Builds (drop_table name) = ⊥
Builds (drop_column name column) = ⊥
Builds _ = Unit

module _ (t : Table) (ts : List Table) (absent : has_table t.name ts ≡ false) where
  create-drop : IsClosed ts → alter (drop_table t.name) (ts ++ t ∷ []) ≡ ok ts
  unfolding alter has_table
  create-drop closed =
      let there : has_table t.name (ts ++ t ∷ []) ≡ true =
        any-last (named t.name) ts t (str_eq_refl t.name) in
      let rest : others t.name (ts ++ t ∷ []) ≡ ts =
        select-append_last (named t.name) ts t absent (str_eq_refl t.name) in
      rw (there, rest, closed t.name absent) refl

  create-IsClosed : any (dangles ts) t.columns ≡ false → IsClosed ts → IsClosed (ts ++ t ∷ [])
  unfolding has_table
  create-IsClosed sound closed name h =
      let before = any-append_left (named name) ts (t ∷ []) h in
      any-append (table_refers_to name) ts (t ∷ []) (closed name before)
      ∙ rw (refers_elsewhere name ts before t.columns sound) refl

-- A table keeps its name.
pub change-has_table :
    (name other : String) (f : List Column → List Column) (ts : List Table)
    → has_table other (change name f ts) ≡ has_table other ts
unfolding has_table
change-has_table name other f [] = refl
change-has_table name other f (t ∷ ts) = elim (Bool-cases (named name t)) [
  | inl hit ↦
      rw hit (ap (λ b. if named other t then true else b) (change-has_table name other f ts))
  | inr miss ↦
      rw miss (ap (λ b. if named other t then true else b) (change-has_table name other f ts))
]

-- The table of a new column.
module _ (name : String) (c : Column) where
  abbrev pub is_there : Table → Bool
  is_there t = named name t && has_column c.name t

  abbrev grown : List Column → List Column
  grown columns = columns ++ c ∷ []

  change-is_there :
      (ts : List Table) → has_table name ts ≡ true → any is_there (change name grown ts) ≡ true
  unfolding has_table
  change-is_there [] h = absurd (cc)
  change-is_there (t ∷ ts) h = elim (Bool-cases (named name t)) [
    | inl hit ↦ rw hit (
        rw (hit, any-last (λ (d : Column). str_eq d.name c.name) t.columns c (str_eq_refl c.name))
          refl)
    | inr miss ↦ rw miss (rw miss (change-is_there ts (rw miss at h)))
  ]

  change-change :
      (ts : List Table)
      → any is_there ts ≡ false
      → change name (without_column c.name) (change name grown ts) ≡ ts
  change-change [] h = refl
  change-change (t ∷ ts) h =
      let (here, below) = if_false (is_there t) (any is_there ts) h in
      elim (Bool-cases (named name t)) [
        | inl hit ↦
            let columns : without_column c.name (grown t.columns) ≡ t.columns =
              select-append_last (λ (d : Column). str_eq d.name c.name) t.columns c (rw hit at here)
                (str_eq_refl c.name) in
            rw hit (rw (hit, columns) (ap (◌∷◌ t) (change-change ts below)))
        | inr miss ↦ rw miss (rw miss (ap (◌∷◌ t) (change-change ts below)))
      ]

  change-refers :
      (other : String) (ts : List Table)
      → refers_to other c ≡ false
      → any (table_refers_to other) ts ≡ false
      → any (table_refers_to other) (change name grown ts) ≡ false
  change-refers other [] new h = refl
  change-refers other (t ∷ ts) new h =
      let (here, below) = if_false _ _ h in
      elim (Bool-cases (named name t)) [
        | inl hit ↦
            let columns : any (refers_to other) (grown t.columns) ≡ false =
              any-append (refers_to other) t.columns (c ∷ []) here ∙ rw new refl in
            rw (hit, columns) (change-refers other ts new below)
        | inr miss ↦ rw (miss, here) (change-refers other ts new below)
      ]

-- A statement that builds, and what it is undone by.
undo_lem :
    (o : Op) (ts ts' : List Table)
    → Builds o
    → IsClosed ts
    → alter o ts ≡ ok ts'
    → (alter_all (undo o) ts' ≡ ok ts) × IsClosed ts'
unfolding alter alter_all
undo_lem (create_table t) ts ts' builds closed h =
    let (fails, e) = passed_else _ h in
    let (absent, sound) = or_false _ _ fails in
    subst (λ x. (alter_all (drop_table t.name ∷ []) x ≡ ok ts) × IsClosed x) e
      (
        ap (λ r. r >>= alter_all []) (create-drop t ts absent closed),
        create-IsClosed t ts absent sound closed,
      )
undo_lem (drop_table name) ts ts' builds closed h = elim builds [ ]
undo_lem (drop_column name column) ts ts' builds closed h = elim builds [ ]
undo_lem (add_column name c) ts ts' builds closed h =
    let (holds, e) = passed _ h in
    let (rest, sound) = and_true _ _ holds in
    let (rest', nullable) = and_true _ _ rest in
    let (there, fresh) = and_true _ _ rest' in
    let ts1 = change name (grown name c) ts in
    let back : alter (drop_column name c.name) ts1 ≡ ok ts =
      rw (change-is_there name c ts there, change-change name c ts (not-true _ fresh)) refl in
    subst (λ x. (alter_all (drop_column name c.name ∷ []) x ≡ ok ts) × IsClosed x) e
      (
        ap (λ r. r >>= alter_all []) back,
        λ other h.
            let before = sym (change-has_table name other (grown name c) ts) ∙ h in
            change-refers name c other ts
              (key_refers_elsewhere other ts before c.references (not-true _ sound))
              (closed other before),
      )
undo_lem (insert_ruleset id version rules) ts ts' builds closed h =
    let (there, e) = passed _ h in subst (λ x. (ok x ≡ ok ts) × IsClosed x) e (refl, closed)
undo_lem (insert_rate_table id version rules) ts ts' builds closed h =
    let (there, e) = passed _ h in subst (λ x. (ok x ≡ ok ts) × IsClosed x) e (refl, closed)

-- Statements that build, one after the other, and the inverse ones in the opposite order.
undo_all_lem :
    (os : List Op) (ts ts' : List Table)
    → All Builds os
    → IsClosed ts
    → alter_all os ts ≡ ok ts'
    → (alter_all (undo_all os) ts' ≡ ok ts) × IsClosed ts'
unfolding alter_all
undo_all_lem [] ts ts' builds closed h = (h2, subst IsClosed (ok-injective h) closed)
  where
    h2 : ok ts' ≡ ok ts
    h2 = sym h
undo_all_lem (o ∷ os) ts ts' builds closed h =
    let (ts1, p, q) = >>=-eq-ok (alter o ts) (alter_all os) h in
    let (back, closed1) = undo_lem o ts ts1 builds.0 closed p in
    let (rest, closed2) = undo_all_lem os ts1 ts' builds.1 closed1 q in
    (
      alter_all-append (undo_all os) (undo o) ts' ∙ ap (λ r. r >>= alter_all (undo o)) rest ∙ back,
      closed2,
    )

undoes : (s : Script) → Mem s scripts → All Builds s.upgrade × (s.downgrade ≡ undo_all s.upgrade)
undoes s first = ((tt, (tt, (tt, (tt, (tt, (tt, tt)))))), refl)
undoes s (later first) = ((tt, (tt, (tt, tt))), refl)
undoes s (later (later first)) = ((tt, tt), refl)
undoes s (later (later (later first))) = ((tt, (tt, (tt, (tt, (tt, tt))))), refl)
undoes s (later (later (later (later m)))) = elim m [ ]

-- The downgrade of each of the four revisions undoes its upgrade: on any schema in which no table refers to one that is
-- not there and on which the upgrade succeeds, the downgrade then succeeds and gives back the schema, each
-- column as it was, and such a schema is also what lies between them.
pub downgrade-upgrade :
    (s : Script) (ts ts' : List Table)
    → Mem s scripts
    → IsClosed ts
    → alter_all s.upgrade ts ≡ ok ts'
    → (alter_all s.downgrade ts' ≡ ok ts) × IsClosed ts'
downgrade-upgrade s ts ts' m closed h =
    let (builds, e) = undoes s m in
    let (back, closed') = undo_all_lem s.upgrade ts ts' builds closed h in
    (ap (λ os. alter_all os ts') e ∙ back, closed')
