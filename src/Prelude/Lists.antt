-- ===== src/Prelude/Lists.antt =====
-- Lists measured by native numbers, Boolean searches over them, and predicates by recursion.
use Prim.Native.Nat.{ℕ, suc, ◌+◌}
use mathlib.Core.Path.{◌≡◌, refl}
use mathlib.Core.Bool.{Bool, true, false, ◌&&◌, ◌||◌}
use mathlib.Core.List.{List, [], ◌∷◌, ◌++◌}
use native.Mathlib.Omega.{arith}
use drive_sanitization_manag.Prelude.Tests.{if◌then◌else◌}

pub or_true : (a : Bool) → (a || true) ≡ true
or_true a = ground arith

pub or_rest : {a b : Bool} → a ≡ false → (a || b) ≡ true → b ≡ true
or_rest h k = ground arith

module _ {ℓ} {A : Type ℓ} where
  abbrev pub length : List A → ℕ
  length [] = 0
  length (x ∷ xs) = suc (length xs)

  abbrev pub any : (A → Bool) → List A → Bool
  any p [] = false
  any p (x ∷ xs) = p x || any p xs

  abbrev pub all : (A → Bool) → List A → Bool
  all p [] = true
  all p (x ∷ xs) = p x && all p xs

  -- [x for x in xs if p(x)]
  abbrev pub select : (A → Bool) → List A → List A
  select p [] = []
  select p (x ∷ xs) = let rest = select p xs in if p x then x ∷ rest else rest

  abbrev pub All {κ} : (A → Type κ) → List A → Type κ
  All P [] = Unit
  All P (x ∷ xs) = P x × All P xs

  pub length-append : (xs ys : List A) → length (xs ++ ys) ≡ length xs + length ys
  length-append [] ys = omega arith
  length-append (x ∷ xs) ys = omega (arith, length-append xs ys)

  pub All-append {κ} : (P : A → Type κ) (xs ys : List A) → All P xs → All P ys → All P (xs ++ ys)
  All-append P [] ys h k = k
  All-append P (x ∷ xs) ys h k = (h.0, All-append P xs ys h.1 k)

  pub All-map {κ ι} :
      (P : A → Type κ) (Q : A → Type ι) (f : (x : A) → P x → Q x) (xs : List A)
      → All P xs
      → All Q xs
  All-map P Q f [] h = tt
  All-map P Q f (x ∷ xs) h = (f x h.0, All-map P Q f xs h.1)

  -- A Boolean search that finds nothing, as a predicate, and back.
  pub all→All : (p : A → Bool) (xs : List A) → all p xs ≡ true → All (λ x. p x ≡ true) xs
  all→All p [] h = tt
  all→All p (x ∷ xs) h = (ground arith, all→All p xs (ground arith))

  pub All→all : (p : A → Bool) (xs : List A) → All (λ x. p x ≡ true) xs → all p xs ≡ true
  All→all p [] h = refl
  All→all p (x ∷ xs) h = ground (arith, All→all p xs h.1)

  pub any→All : (p : A → Bool) (xs : List A) → any p xs ≡ false → All (λ x. p x ≡ false) xs
  any→All p [] h = tt
  any→All p (x ∷ xs) h = (ground arith, any→All p xs (ground arith))

  pub any-append : (p : A → Bool) (xs ys : List A) → any p (xs ++ ys) ≡ (any p xs || any p ys)
  any-append p [] ys = refl
  any-append p (x ∷ xs) ys = ground (arith, any-append p xs ys)

  pub any_imp :
      (p q : A → Bool) (xs : List A)
      → ((x : A) → p x ≡ true → q x ≡ true)
      → any p xs ≡ true
      → any q xs ≡ true
  any_imp p q [] f h = h
  any_imp p q (x ∷ xs) f h = ground (arith, f x, any_imp p q xs f)

  selected_cons {κ} :
      (P : A → Type κ) (f : A → Bool) (x : A) (rest : List A) (b : Bool)
      → f x ≡ b
      → All P (if b then x ∷ rest else rest)
      → (f x ≡ true → P x) × All P rest
  selected_cons P f x rest true h k = (λ t. k.0, k.1)
  selected_cons P f x rest false h k = (λ t. cc, k)

  -- What holds of every selected element.
  pub All-select {κ} :
      (P : A → Type κ) (f : A → Bool) (xs : List A)
      → All P (select f xs)
      → All (λ x. f x ≡ true → P x) xs
  All-select P f [] h = tt
  All-select P f (x ∷ xs) h =
      let (first, rest) = selected_cons P f x (select f xs) (f x) refl h in
      (first, All-select P f xs rest)

  -- A search that finds nothing selects nothing.
  pub select_none : (f : A → Bool) (xs : List A) → any f xs ≡ false → select f xs ≡ []
  select_none f [] h = refl
  select_none f (x ∷ xs) h = ground (arith, select_none f xs)

  selected-All_cons :
      (f : A → Bool) (x : A) (rest : List A) (b : Bool)
      → f x ≡ b
      → All (λ y. f y ≡ true) rest
      → All (λ y. f y ≡ true) (if b then x ∷ rest else rest)
  selected-All_cons f x rest true h k = (h, k)
  selected-All_cons f x rest false h k = k

  -- What is selected passes the test.
  pub select_passes : (f : A → Bool) (xs : List A) → All (λ x. f x ≡ true) (select f xs)
  select_passes f [] = tt
  select_passes f (x ∷ xs) = selected-All_cons f x (select f xs) (f x) refl (select_passes f xs)
