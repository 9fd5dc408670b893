-- ===== src/Auth/Gate/Once.antt =====
-- About sequences of calls of the one-shot gate in one process.
use drive_sanitization_manag.Prelude.{
  ℕ, String, ◌≡◌, ◌≢◌, ap, ◌∙◌, false, inl, inr, Option, List, [], ◌∷◌, ◌++◌, All, All-map, Result,
  ok, err, member, arith, eq_iff,
}
use drive_sanitization_manag.Platform.{Platform}
use drive_sanitization_manag.Auth.Types.{
  TrustedExecutionBindingDecision, OneShotExecutionGateDecision,
}
use drive_sanitization_manag.Auth.Gate.{ApprovalRegistry, GateError, satisfy}
use drive_sanitization_manag.Auth.Gate.Grant.{satisfy-Outcome}

-- One call of the gate. Other threads may have changed the registry before it in every field but
-- the consumed bindings, which only the gate writes: `world` is the registry they left.
pub record Attempt : Type 0 where
  pub world : ApprovalRegistry
  pub built : Option TrustedExecutionBindingDecision
  pub approval_id : String
  pub first_clock : Option ℕ
  pub locked_clock : Option ℕ

abbrev pub grant : Result GateError OneShotExecutionGateDecision → List OneShotExecutionGateDecision
grant (ok g) = g ∷ []
grant (err e) = []

abbrev pub Distinct : List OneShotExecutionGateDecision → Type 0
Distinct [] = Unit
Distinct (g ∷ gs) = All (λ h. h.binding_id ≢ g.binding_id) gs × Distinct gs

abbrev New : List String → List OneShotExecutionGateDecision → Type 0
New used gs = All (λ g. member g.binding_id used ≡ false) gs

new_head : (s b : String) (used : List String) → member s (b ∷ used) ≡ false → s ≢ b
new_head s b used h e = ground (arith, eq_iff s b)

new_tail : (s b : String) (used : List String) → member s (b ∷ used) ≡ false → member s used ≡ false
new_tail s b used h = ground arith

abbrev Fresh : List String → List OneShotExecutionGateDecision → Type 0
Fresh used gs = New used gs × Distinct gs

Fresh-cons :
    (b : String) (used : List String) (g : OneShotExecutionGateDecision)
    (gs : List OneShotExecutionGateDecision)
    → g.binding_id ≡ b
    → member b used ≡ false
    → Fresh (b ∷ used) gs
    → Fresh used (g ∷ gs)
Fresh-cons b used g gs e m f = (
  (rw e m, All-map _ _ (λ h k. new_tail h.binding_id b used k) gs f.0),
  (All-map _ _ (λ h k same. new_head h.binding_id b used k (same ∙ e)) gs f.0, f.1),
)

module _ (p : Platform) where
  abbrev pub attempt :
      Attempt → List String → Result GateError OneShotExecutionGateDecision × ApprovalRegistry
  attempt a used =
      satisfy p a.built a.approval_id a.first_clock a.locked_clock
        (record a.world { consumed_execution_bindings = used })

  -- The gates that a sequence of calls returns.
  abbrev pub grants : List Attempt → List String → List OneShotExecutionGateDecision
  grants [] used = []
  grants (a ∷ rest) used =
      let (result, r) = attempt a used in grant result ++ grants rest r.consumed_execution_bindings

  grants-Fresh : (calls : List Attempt) (used : List String) → Fresh used (grants calls used)
  grants-Fresh [] used = (tt, tt)
  grants-Fresh (a ∷ rest) used =
      elim (satisfy-Outcome p a.built a.approval_id a.first_clock a.locked_clock
        (record a.world { consumed_execution_bindings = used })) [
          | inl (g, result, granted) ↦
              rw (result, granted.consumed)
                (Fresh-cons granted.binding.binding_id used g _
                  (ap (λ x. x.binding_id) granted.gate) granted.unused
                  (grants-Fresh rest (granted.binding.binding_id ∷ used)))
          | inr (e, result, same) ↦ rw (result, same) (grants-Fresh rest used)
        ]

  -- Whatever calls are made, in any order, with any clocks, and with any changes of the rest of the
  -- registry between them, no two of the gates that they return have the same binding, and none has
  -- a binding that was consumed at the start.
  pub grants_once :
      (calls : List Attempt) (used : List String)
      → All (λ g. member g.binding_id used ≡ false) (grants calls used)
        × Distinct (grants calls used)
  grants_once calls used = grants-Fresh calls used
