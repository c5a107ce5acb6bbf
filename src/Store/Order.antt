-- ===== src/Store/Order.antt =====
-- `ORDER BY`: insertion that keeps the order of rows with equal keys, of which SQL leaves the order open.
use mathlib.Core.List.{Perm}
use mathlib.Core.List.Perm
use ktayl_underwriting.Prelude.{
  ◌≡◌, refl, ap, ◌∙◌, map, Bool, true, false, List, [], ◌∷◌, inl, inr, Bool-cases, All, All-map,
  if◌then◌else◌,
}

module _ {A : Type 0} (before : A → A → Bool) where
  abbrev pub insert_by : A → List A → List A
  insert_by e [] = e ∷ []
  insert_by e (x ∷ xs) = if before x e then x ∷ insert_by e xs else e ∷ x ∷ xs

  abbrev pub order_by : List A → List A
  order_by [] = []
  order_by (e ∷ es) = insert_by e (order_by es)

  insert_by-perm : (e : A) (xs : List A) → Perm (insert_by e xs) (e ∷ xs)
  insert_by-perm e [] = Perm.rfl
  insert_by-perm e (x ∷ xs) = elim (Bool-cases (before x e)) [
    | inl earlier ↦ rw earlier (Perm.trans (Perm.cons x (insert_by-perm e xs)) (Perm.swap e x xs))
    | inr not_earlier ↦ rw not_earlier Perm.rfl
  ]

  -- Nothing is lost and nothing is made.
  pub order_by-perm : (xs : List A) → Perm (order_by xs) xs
  order_by-perm [] = Perm.rfl
  order_by-perm (x ∷ xs) =
      Perm.trans (insert_by-perm x (order_by xs)) (Perm.cons x (order_by-perm xs))

  -- No row comes before one that stands in front of it.
  abbrev pub InOrder : List A → Type 0
  InOrder [] = Unit
  InOrder (x ∷ xs) = All (λ y. before y x ≡ false) xs × InOrder xs

All-insert_by :
    {A : Type 0} (P : A → Type 0) (before : A → A → Bool) (e : A) (xs : List A)
    → P e
    → All P xs
    → All P (insert_by before e xs)
All-insert_by P before e [] p h = (p, tt)
All-insert_by P before e (x ∷ xs) p h = elim (Bool-cases (before x e)) [
  | inl earlier ↦ rw earlier (h.0, All-insert_by P before e xs p h.1)
  | inr not_earlier ↦ rw not_earlier (p, h)
]

pub All-order_by :
    {A : Type 0} (P : A → Type 0) (before : A → A → Bool) (xs : List A)
    → All P xs
    → All P (order_by before xs)
All-order_by P before [] h = tt
All-order_by P before (x ∷ xs) h =
    All-insert_by P before x (order_by before xs) h.0 (All-order_by P before xs h.1)

module _ {A : Type 0} (before : A → A → Bool)
    (asym : (x y : A) → before x y ≡ true → before y x ≡ false)
    (chain : (x y z : A) → before y x ≡ false → before z y ≡ false → before z x ≡ false) where
  insert_by-InOrder :
      (e : A) (xs : List A) → InOrder before xs → InOrder before (insert_by before e xs)
  insert_by-InOrder e [] h = (tt, tt)
  insert_by-InOrder e (x ∷ xs) h = elim (Bool-cases (before x e)) [
    | inl earlier ↦ rw earlier (
      All-insert_by (λ y. before y x ≡ false) before e xs (asym x e earlier) h.0,
      insert_by-InOrder e xs h.1,
    )
    | inr not_earlier ↦
        rw not_earlier ((not_earlier, All-map (λ y p. chain e x y not_earlier p) xs h.0), h)
  ]

  pub order_by-InOrder : (xs : List A) → InOrder before (order_by before xs)
  order_by-InOrder [] = tt
  order_by-InOrder (x ∷ xs) = insert_by-InOrder x (order_by before xs) (order_by-InOrder xs)

module _ {A B : Type 0} (f : A → B) (before : B → B → Bool) where
  insert_by-map :
      (e : A) (xs : List A)
      → insert_by before (f e) (map f xs) ≡ map f (insert_by (λ x y. before (f x) (f y)) e xs)
  insert_by-map e [] = refl
  insert_by-map e (x ∷ xs) = elim (Bool-cases (before (f x) (f e))) [
    | inl earlier ↦ rw earlier (ap (◌∷◌ (f x)) (insert_by-map e xs))
    | inr not_earlier ↦ rw not_earlier refl
  ]

  pub order_by-map :
      (xs : List A) → order_by before (map f xs) ≡ map f (order_by (λ x y. before (f x) (f y)) xs)
  order_by-map [] = refl
  order_by-map (x ∷ xs) =
      ap (insert_by before (f x)) (order_by-map xs)
      ∙ insert_by-map x (order_by (λ x y. before (f x) (f y)) xs)
