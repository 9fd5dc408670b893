-- ===== src/History.antt =====
-- Sequences of calls on a state, of which some grant something: two grants of one sequence never clash,
-- if a grant blocks what clashes with it and every call, of those that are fair, keeps what is blocked.
use drive_sanitization_manag.Prelude.{◌≡◌, refl, List, [], ◌∷◌, Option, none, some, All}

module _ {C D R : Type 0} (step : C → D → Option R × D) where
  abbrev pub emit : Option R → List R → List R
  emit none rs = rs
  emit (some r) rs = r ∷ rs

  -- What a sequence of calls grants.
  abbrev pub granted : List C → D → List R
  granted [] d = []
  granted (c ∷ calls) d = emit (step c d).0 (granted calls (step c d).1)

  -- No grant clashes with an earlier one.
  abbrev pub Clashless : (R → R → Type 0) → List R → Type 0
  Clashless Clash [] = Unit
  Clashless Clash (r ∷ rs) = All (λ s. ¬ Clash r s) rs × Clashless Clash rs

  module _ (Fair : C → Type 0) (Clash : R → R → Type 0) (Blocks : R → D → Type 0)
      (keeps : (c : C) (d : D) (r : R) → Fair c → Blocks r d → Blocks r (step c d).1)
      (blocks : (c : C) (d : D) (r : R) → Fair c → (step c d).0 ≡ some r → Blocks r (step c d).1)
      (refuses : (c : C) (d : D) (r s : R)
        → Fair c
        → Blocks r d
        → (step c d).0 ≡ some s
        → ¬ Clash r s) where
    never_emit :
        (r : R) (c : C) (d : D) (m : Option R) (rs : List R)
        → Fair c
        → Blocks r d
        → (step c d).0 ≡ m
        → All (λ s. ¬ Clash r s) rs
        → All (λ s. ¬ Clash r s) (emit m rs)
    never_emit r c d none rs fair b h rest = rest
    never_emit r c d (some s) rs fair b h rest = (refuses c d r s fair b h, rest)

    -- What is blocked is never granted.
    pub never_granted :
        (r : R) (calls : List C) (d : D)
        → All Fair calls
        → Blocks r d
        → All (λ s. ¬ Clash r s) (granted calls d)
    never_granted r [] d fair b = tt
    never_granted r (c ∷ calls) d fair b =
        never_emit r c d (step c d).0 (granted calls (step c d).1) fair.0 b refl
          (never_granted r calls (step c d).1 fair.1 (keeps c d r fair.0 b))

    Clashless-emit :
        (c : C) (d : D) (m : Option R) (calls : List C)
        → All Fair (c ∷ calls)
        → (step c d).0 ≡ m
        → Clashless Clash (granted calls (step c d).1)
        → Clashless Clash (emit m (granted calls (step c d).1))
    Clashless-emit c d none calls fair h rest = rest
    Clashless-emit c d (some r) calls fair h rest =
        (never_granted r calls (step c d).1 fair.1 (blocks c d r fair.0 h), rest)

    pub granted-Clashless :
        (calls : List C) (d : D) → All Fair calls → Clashless Clash (granted calls d)
    granted-Clashless [] d fair = tt
    granted-Clashless (c ∷ calls) d fair =
        Clashless-emit c d (step c d).0 calls fair refl
          (granted-Clashless calls (step c d).1 fair.1)
