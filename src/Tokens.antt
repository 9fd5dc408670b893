-- ===== src/Tokens.antt =====
-- The allocation of a fresh token: the first usable one of so many that `secrets` returns.
use drive_sanitization_manag.Prelude.{
  ℕ, zero, suc, String, ◌≡◌, refl, subst, Bool, true, false, List, [], ◌∷◌, Option, none, some,
  if◌then◌else◌,
}

-- The loop `for _ in range(n)` that breaks at a usable candidate. A list that is shorter stands for
-- candidates that are refused from there on.
abbrev pub allocate : (String → Bool) → ℕ → List String → Option String
allocate good zero ts = none
allocate good (suc n) [] = none
allocate good (suc n) (t ∷ ts) = let later = allocate good n ts in if good t then some t else later

abbrev pub is_some : {A : Type 0} → Option A → Bool
is_some none = false
is_some (some a) = true

pub some_inj : {A : Type 0} {a b : A} → ◌≡◌ {A = Option A} (some a) (some b) → a ≡ b
some_inj h = cc

first_good :
    (good : String → Bool) (b : Bool) (s t : String) (later : Option String)
    → good s ≡ b
    → (later ≡ some t → good t ≡ true)
    → (if b then some s else later) ≡ some t
    → good t ≡ true
first_good good true s t later e h k = subst (λ x. good x ≡ true) (some_inj k) e
first_good good false s t later e h k = h k

-- A token that is allocated is usable.
pub allocate-usable :
    (good : String → Bool) (n : ℕ) (ts : List String) (t : String)
    → allocate good n ts ≡ some t
    → good t ≡ true
allocate-usable good zero ts t h = cc
allocate-usable good (suc n) [] t h = cc
allocate-usable good (suc n) (s ∷ ts) t h =
    first_good good (good s) s t (allocate good n ts) refl (allocate-usable good n ts t) h
