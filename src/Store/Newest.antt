-- ===== src/Store/Newest.antt =====
-- `ORDER BY … DESC LIMIT 1`. SQL leaves open which of several rows with equal keys comes first; here it is
-- the one inserted first.
use ktayl_underwriting.Prelude.{
  ℕ, ◌≡◌, refl, subst, Bool, true, false, Option, none, some, List, [], ◌∷◌, ◌++◌, arith, All,
  All-map, All-Mem, Mem, select, select-All, select-passes, ◌==◌, ==_iff, if◌then◌else◌,
}

module _ {ℓ} {A : Type ℓ} (after : A → A → Bool) where
  -- The later of a row and a row that was inserted after it.
  abbrev pub later_of : A → Option A → A
  later_of x none = x
  later_of x (some y) = if after y x then y else x

  abbrev pub newest : List A → Option A
  newest [] = none
  newest (x ∷ xs) = some (later_of x (newest xs))

  -- A row that comes after all others is the newest.
  pub newest-append :
      (xs : List A) (y : A) → All (λ x. after y x ≡ true) xs → newest (xs ++ y ∷ []) ≡ some y
  newest-append [] y h = refl
  newest-append (x ∷ xs) y h = ground (arith, newest-append xs y h.1)

module _ {ℓ κ} {A : Type ℓ} (P : A → Type κ) where
  abbrev Holds : Option A → Type κ
  Holds none = Unit
  Holds (some x) = P x

  later_of-Holds :
      (after : A → A → Bool) (x : A) (o : Option A) → P x → Holds o → P (later_of after x o)
  later_of-Holds after x none px h = px
  later_of-Holds after x (some y) px h = choose (after y x)
    where
      choose : (b : Bool) → P (if b then y else x)
      choose true = h
      choose false = px

  newest-Holds : (after : A → A → Bool) (xs : List A) → All P xs → Holds (newest after xs)
  newest-Holds after [] h = tt
  newest-Holds after (x ∷ xs) h =
      later_of-Holds after x (newest after xs) h.0 (newest-Holds after xs h.1)

  -- The newest row is one of the rows.
  pub newest-All :
      (after : A → A → Bool) (xs : List A) {y : A} → All P xs → newest after xs ≡ some y → P y
  newest-All after xs h e = subst Holds e (newest-Holds after xs h)

-- The newest of the rows of a submission is one of the rows, and is about it.
pub newest-Mem :
    {A : Type 0} (key : A → ℕ) (after : A → A → Bool) (id : ℕ) (xs : List A) {a : A}
    → newest after (select (λ x. key x == id) xs) ≡ some a
    → Mem a xs × (key a ≡ id)
newest-Mem key after id xs {a} e =
    let own = select (λ x. key x == id) xs in
    (
      newest-All (λ x. Mem x xs) after own
          (select-All (λ x. Mem x xs) (λ x. key x == id) xs (All-Mem (λ x. Mem x xs) xs (λ x m. m)))
          e,
      newest-All (λ x. key x ≡ id) after own
          (All-map (λ x hit. (==_iff (key x) id).0 hit) own (select-passes (λ x. key x == id) xs))
          e,
    )
