-- ===== src/Prelude/Results.antt =====
-- Code that may raise: a value or an error, with the error type of the component.
use mathlib.Core.Path.{◌≡◌, refl}
use mathlib.Core.Bool.{Bool, true, false}
use mathlib.Core.List.{List, [], ◌∷◌}
use native.Mathlib.Omega.{arith}
use drive_sanitization_manag.Prelude.Tests.{if◌then◌else◌}
use drive_sanitization_manag.Prelude.Lists.{All}

pub data Result (E A : Type 0) : Type 0 where
  ok : A → Result E A
  err : E → Result E A

infixl 5 ◌>>=◌ ◌>>◌
abbrev pub ◌>>=◌ : {E A B : Type 0} → Result E A → (A → Result E B) → Result E B
err raised >>= next = err raised
ok value >>= next = next value

-- A check, then the rest.
abbrev pub ◌>>◌ : {E B : Type 0} → Result E (Unit {0}) → Result E B → Result E B
check >> rest = check >>= λ _. rest

-- `if not test: raise e`
abbrev pub guard : {E : Type 0} → Bool → E → Result E (Unit {0})
guard false raised = err raised
guard true raised = ok tt

-- `except ...: raise e`: every error of the call becomes `e`.
abbrev pub rethrow : {E F A : Type 0} → F → Result E A → Result F A
rethrow f (ok a) = ok a
rethrow f (err e) = err f

-- A chain that returned: its first call returned, and then the rest did.
pub >>=-eq-ok :
    {E A B : Type 0} (first : Result E A) (next : A → Result E B) {result : B}
    → (first >>= next) ≡ ok result
    → (value : A) × (first ≡ ok value) × (next value ≡ ok result)
>>=-eq-ok (err raised) next h = cc
>>=-eq-ok (ok value) next h = (value, refl, h)

pub >>-eq-ok :
    {E B : Type 0} (m : Result E (Unit {0})) (k : Result E B) {b : B}
    → (m >> k) ≡ ok b
    → (m ≡ ok tt) × (k ≡ ok b)
>>-eq-ok (ok a) k h = (refl, h)
>>-eq-ok (err e) k h = (cc, cc)

pub bind-if :
    {E A B : Type 0} (c : Bool) (a : A) (e : E) (f : A → Result E B)
    → ((if c then ok a else err e) >>= f) ≡ (if c then f a else err e)
bind-if true a e f = refl
bind-if false a e f = refl

-- The same with another error.
abbrev pub lifted : {E F A D : Type 0} → (E → F) → Result E A × D → Result F A × D
lifted f (ok a, d) = (ok a, d)
lifted f (err e, d) = (err (f e), d)

-- What follows a check, on the disk that it left.
abbrev pub on_ok : {E A B D : Type 0} → Result E A × D → (A → D → Result E B × D) → Result E B × D
on_ok (err e, d) next = (err e, d)
on_ok (ok a, d) next = next a d

pub ok_inj : {E A : Type 0} {a b : A} → ◌≡◌ {A = Result E A} (ok a) (ok b) → a ≡ b
ok_inj h = cc

pub guard-eq-ok : {E : Type 0} (b : Bool) (e : E) → guard b e ≡ ok tt → b ≡ true
guard-eq-ok b e h = ground arith

-- A chain of checks passes when each of them does.
module _ {E : Type 0} where
  abbrev pub sequence : List (Result E (Unit {0})) → Result E (Unit {0})
  sequence [] = ok tt
  sequence (c ∷ []) = c
  sequence (c ∷ d ∷ cs) = c >> sequence (d ∷ cs)

  pub sequence-All :
      (cs : List (Result E (Unit {0}))) → sequence cs ≡ ok tt → All (λ c. c ≡ ok tt) cs
  sequence-All [] h = tt
  sequence-All (c ∷ []) h = (h, tt)
  sequence-All (c ∷ d ∷ cs) h =
      let (first, rest) = >>-eq-ok c (sequence (d ∷ cs)) h in (first, sequence-All (d ∷ cs) rest)
