-- ===== src/Discovery/Keys.antt =====
-- About searches among the elements of a list, each once, and among the keys of `duplicates`.
use drive_sanitization_manag.Prelude.{
  ℕ, ◌≡◌, refl, sym, ap, subst, ◌∙◌, Bool, true, false, ◌&&◌, ◌||◌, not, Bool-cases, inl, inr, List,
  [], ◌∷◌, ◌++◌, map, any, any_imp, length, select, ltb, ◌+◌, codes_eq_iff, arith,
}
use drive_sanitization_manag.Discovery.Annotate.{Kind, wwn, serial, distinct, filled, same_key}

pub Bool-ext : (a b : Bool) → (a ≡ true → b ≡ true) → (b ≡ true → a ≡ true) → a ≡ b
Bool-ext a b f g = ground (arith, f, g)

module _ {A : Type 0} where
  pub any-select : (q f : A → Bool) (xs : List A) → any q (select f xs) ≡ any (λ x. f x && q x) xs
  any-select q f [] = refl
  any-select q f (x ∷ xs) = elim (Bool-cases (f x)) [
    | inl e ↦ rw e (ap (λ b. q x || b) (any-select q f xs))
    | inr e ↦ rw e (any-select q f xs)
  ]

  pub filled-map-select :
      {B : Type 0} (g : A → B) (f : A → Bool) (xs : List A)
      → filled (map g (select f xs)) ≡ any f xs
  filled-map-select g f [] = refl
  filled-map-select g f (x ∷ xs) = elim (Bool-cases (f x)) [
    | inl e ↦ rw e refl
    | inr e ↦ rw e (filled-map-select g f xs)
  ]

  pub filled-map : {B : Type 0} (g : A → B) (xs : List A) → filled (map g xs) ≡ any (λ x. true) xs
  filled-map g [] = refl
  filled-map g (x ∷ xs) = refl

  pub any_ext : (p q : A → Bool) (xs : List A) → ((x : A) → p x ≡ q x) → any p xs ≡ any q xs
  any_ext p q [] h = refl
  any_ext p q (x ∷ xs) h = rw (h x) (ap (λ b. q x || b) (any_ext p q xs h))

  module _ (same : A → A → Bool) (same_path : (x y : A) → same x y ≡ true → x ≡ y) where
    kept : (q : A → Bool) (x y : A) → q x ≡ false → (not (same x y) && q y) ≡ q y
    kept q x y h = elim (Bool-cases (same x y)) [
      | inl e ↦ rw e (sym (sym (ap q (same_path x y e)) ∙ h))
      | inr e ↦ rw e refl
    ]

    -- A search among the elements, each once, finds what a search among all finds.
    pub any-distinct : (q : A → Bool) (xs : List A) → any q (distinct same xs) ≡ any q xs
    any-distinct q [] = refl
    any-distinct q (x ∷ xs) = elim (Bool-cases (q x)) [
      | inl e ↦ rw e refl
      | inr e ↦ rw e (
          any-select q (λ y. not (same x y)) (distinct same xs)
          ∙ any_ext (λ y. not (same x y) && q y) q (distinct same xs) (λ y. kept q x y e)
          ∙ any-distinct q xs)
    ]

  pub count_any : (f : A → Bool) (xs : List A) → any f xs ≡ ltb 0 (length (select f xs))
  count_any f [] = refl
  count_any f (x ∷ xs) = elim (Bool-cases (f x)) [
    | inl e ↦ rw e (ground arith)
    | inr e ↦ rw e (count_any f xs)
  ]

  pub length-select_append :
      (f : A → Bool) (xs ys : List A)
      → length (select f (xs ++ ys)) ≡ length (select f xs) + length (select f ys)
  length-select_append f [] ys = omega arith
  length-select_append f (x ∷ xs) ys = elim (Bool-cases (f x)) [
    | inl e ↦ rw e (let rest = length-select_append f xs ys in omega arith)
    | inr e ↦ rw e (length-select_append f xs ys)
  ]

pub same_key-path : (i j : Kind × List ℕ) → same_key i j ≡ true → i ≡ j
same_key-path (wwn, v) (wwn, w) h = ap (λ x. (wwn, x)) ((codes_eq_iff v w).0 h)
same_key-path (wwn, v) (serial, w) h = cc
same_key-path (serial, v) (wwn, w) h = cc
same_key-path (serial, v) (serial, w) h = ap (λ x. (serial, x)) ((codes_eq_iff v w).0 h)

pub same_key_refl : (i : Kind × List ℕ) → same_key i i ≡ true
same_key_refl (wwn, v) = (codes_eq_iff v v).1 refl
same_key_refl (serial, v) = (codes_eq_iff v v).1 refl

-- The members of two lists of keys are compared in either order.
pub any_swap :
    (q : Kind × List ℕ → Bool) (is js : List (Kind × List ℕ))
    → any (λ i. q i && any (same_key i) js) is ≡ true
    → any (λ j. q j && any (same_key j) is) js ≡ true
any_swap q [] js h = cc
any_swap q (i ∷ is) js h = elim (Bool-cases (q i && any (same_key i) js)) [
  | inl e ↦
      let itself = same_key_refl i in
      any_imp (same_key i) (λ j. q j && any (same_key j) (i ∷ is)) js
        (λ j k.
          subst (λ x. (q x && any (same_key x) (i ∷ is)) ≡ true) (same_key-path i j k)
            (ground arith))
        (ground arith)
  | inr e ↦
      any_imp (λ j. q j && any (same_key j) is) (λ j. q j && any (same_key j) (i ∷ is)) js
        (λ j k. ground arith) (any_swap q is js (ground arith))
]

pub drop_second :
    (q : Kind × List ℕ → Bool) (is js : List (Kind × List ℕ))
    → any (λ i. q i && any (same_key i) js) is ≡ true
    → any q is ≡ true
drop_second q is js h = any_imp (λ i. q i && any (same_key i) js) q is (λ i k. ground arith) h
