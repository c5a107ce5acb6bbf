-- ===== src/System/Draws.antt =====
-- Keys that are taken by counting draws, as the ids and the times of rows are.
use ktayl_underwriting.Prelude.{
  ℕ, ◌≤◌, ◌<◌, ◌≡◌, ◌≢◌, sym, ◌∙◌, List, [], ◌∷◌, ◌++◌, arith, All, All-map, All-append,
}

abbrev pub IsInjective : (ℕ → ℕ) → Type 0
IsInjective f = (m n : ℕ) → f m ≡ f n → m ≡ n

module _ {A : Type 0} (f : ℕ → ℕ) (key : A → ℕ) where
  -- The key was taken by one of the first `n` draws.
  abbrev pub IsDrawn : ℕ → A → Type 0
  IsDrawn n x = (k : ℕ) × (k < n) × (key x ≡ f k)

  -- No two rows have the same key.
  abbrev pub Distinct : List A → Type 0
  Distinct [] = Unit
  Distinct (x ∷ xs) = All (λ y. key x ≢ key y) xs × Distinct xs

  pub record IsFresh (n : ℕ) (xs : List A) : Type 0 where
    pub drawn : All (IsDrawn n) xs
    pub distinct : Distinct xs

  pub IsFresh-le : (m n : ℕ) (xs : List A) → m ≤ n → IsFresh m xs → IsFresh n xs
  IsFresh-le m n xs le h = record {
    drawn = All-map (λ x (k, lt, e). (k, omega (arith, le, lt), e)) xs h.drawn;
    distinct = h.distinct;
  }

  Distinct-snoc :
      (xs : List A) (y : A) → Distinct xs → All (λ x. key x ≢ key y) xs → Distinct (xs ++ y ∷ [])
  Distinct-snoc [] y h k = (tt, tt)
  Distinct-snoc (x ∷ xs) y h k =
      (All-append (λ z. key x ≢ key z) xs (y ∷ []) h.0 (k.0, tt), Distinct-snoc xs y h.1 k.1)

  -- A key that is taken by a later draw is new.
  pub IsFresh-other :
      (m n : ℕ) (xs : List A) → IsInjective f → m ≤ n → IsFresh m xs → All (λ x. key x ≢ f n) xs
  IsFresh-other m n xs inj le h =
      All-map
        (λ x (k, lt, e) same.
          let equal = inj k n (sym e ∙ same) in absurd (omega (arith, equal, lt, le)))
        xs h.drawn

  pub IsFresh-snoc :
      (m n l : ℕ) (xs : List A) (y : A)
      → IsInjective f
      → m ≤ n
      → n < l
      → key y ≡ f n
      → IsFresh m xs
      → IsFresh l (xs ++ y ∷ [])
  IsFresh-snoc m n l xs y inj le lt e h = record {
    drawn =
        All-append (IsDrawn l) xs (y ∷ []) (IsFresh-le m l xs (omega (arith, le, lt)) h).drawn
          ((n, lt, e), tt);
    distinct =
        Distinct-snoc xs y h.distinct
          (All-map (λ x other same. other (same ∙ e)) xs (IsFresh-other m n xs inj le h));
  }
