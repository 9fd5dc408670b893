-- ===== src/Sort.antt =====
-- Python's `sorted` by a text key, as insertion sort, and its laws.
use drive_sanitization_manag.Prelude.{
  ℕ, ◌≡◌, refl, ap, ◌∙◌, Bool, true, Bool-cases, inl, inr, List, [], ◌∷◌, All, codes_le,
  codes_le_total, any, ◌||◌, arith, if◌then◌else◌,
}

module _ {A : Type 0} (key : A → List ℕ) where
  abbrev pub insert : A → List A → List A
  insert x [] = x ∷ []
  insert x (y ∷ ys) = if codes_le (key x) (key y) then x ∷ y ∷ ys else y ∷ insert x ys

  unfoldable pub sort : List A → List A
  sort [] = []
  sort (x ∷ xs) = insert x (sort xs)

  -- Each element is at most the next.
  abbrev pub Sorted : List A → Type 0
  Sorted [] = Unit
  Sorted (x ∷ []) = Unit
  Sorted (x ∷ y ∷ ys) = (codes_le (key x) (key y) ≡ true) × Sorted (y ∷ ys)

  Sorted-cons :
      (x y : A) (ys : List A)
      → codes_le (key y) (key x) ≡ true
      → Sorted (y ∷ ys)
      → Sorted (y ∷ insert x ys)
  Sorted-cons x y [] h s = (h, tt)
  Sorted-cons x y (z ∷ zs) h s = elim (Bool-cases (codes_le (key x) (key z))) [
    | inl e ↦ rw e (h, (e, s.1))
    | inr e ↦ rw e (s.0, Sorted-cons x z zs (codes_le_total (key x) (key z) e) s.1)
  ]

  Sorted-insert : (x : A) (xs : List A) → Sorted xs → Sorted (insert x xs)
  Sorted-insert x [] s = tt
  Sorted-insert x (y ∷ ys) s = elim (Bool-cases (codes_le (key x) (key y))) [
    | inl e ↦ rw e (e, s)
    | inr e ↦ rw e (Sorted-cons x y ys (codes_le_total (key x) (key y) e) s)
  ]

  pub Sorted-sort : (xs : List A) → Sorted (sort xs)
  unfolding sort
  Sorted-sort [] = tt
  Sorted-sort (x ∷ xs) = Sorted-insert x (sort xs) (Sorted-sort xs)

  pub sort-Sorted : (xs : List A) → Sorted xs → sort xs ≡ xs
  unfolding sort
  sort-Sorted [] s = refl
  sort-Sorted (x ∷ []) s = refl
  sort-Sorted (x ∷ y ∷ ys) s = ap (insert x) (sort-Sorted (y ∷ ys) s.1) ∙ (rw s.0)

  -- What holds of every element holds after sorting, and the other way round.
  All-insert {κ} : (P : A → Type κ) (x : A) (xs : List A) → P x → All P xs → All P (insert x xs)
  All-insert P x [] p h = (p, tt)
  All-insert P x (y ∷ ys) p h = elim (Bool-cases (codes_le (key x) (key y))) [
    | inl e ↦ rw e (p, h)
    | inr e ↦ rw e (h.0, All-insert P x ys p h.1)
  ]

  pub All-sort {κ} : (P : A → Type κ) (xs : List A) → All P xs → All P (sort xs)
  unfolding sort
  All-sort P [] h = tt
  All-sort P (x ∷ xs) h = All-insert P x (sort xs) h.0 (All-sort P xs h.1)

  any-insert : (p : A → Bool) (x : A) (xs : List A) → any p (insert x xs) ≡ (p x || any p xs)
  any-insert p x [] = refl
  any-insert p x (y ∷ ys) = elim (Bool-cases (codes_le (key x) (key y))) [
    | inl e ↦ rw e refl
    | inr e ↦ rw e (ground (arith, any-insert p x ys))
  ]

  -- A search finds the same before and after sorting.
  pub any-sort : (p : A → Bool) (xs : List A) → any p (sort xs) ≡ any p xs
  unfolding sort
  any-sort p [] = refl
  any-sort p (x ∷ xs) = any-insert p x (sort xs) ∙ ap (λ b. p x || b) (any-sort p xs)
