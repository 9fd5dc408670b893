-- ===== src/Auth/Gate/Grant.antt =====
-- The one-shot gate: what a grant shows, and what a refusal leaves.
use drive_sanitization_manag.Prelude.{
  ℕ, ◌+◌, ◌≤◌, String, ◌≡◌, refl, subst, Bool, true, false, not, ◌⊎◌, inl, inr, Option, none, some,
  ◌∷◌, Result, ok, err, ◌>>=◌, >>=-eq-ok, >>-eq-ok, ok_inj, guard, guard-eq-ok, member, ltb, arith,
}
use Prim.Native.Nat.{max}
use drive_sanitization_manag.Platform.{Platform, parse_utc}
use drive_sanitization_manag.Auth.Types.{
  TrustedExecutionBindingDecision, OneShotExecutionGateDecision,
}
use drive_sanitization_manag.Auth.Binding
use drive_sanitization_manag.Auth.Gate.{
  ApprovalRegistry, GateError, Admission, or_raise, same_evidence, max_future_skew, gate_for,
  integrity_valid, admit, evaluate, consume, satisfy, binding_unavailable, binding_invalid,
  timestamps_invalid, clock_invalid, clock_rolled_back, binding_stale, provenance_changed,
  evidence_changed, already_consumed, lock_clock_invalid, lock_clock_rolled_back, expired,
  construction_failed,
}

or_raise-eq-ok :
    {A : Type 0} (o : Option A) (e : GateError) (a : A) → or_raise o e ≡ ok a → o ≡ some a
or_raise-eq-ok none e a h = cc
or_raise-eq-ok (some b) e a h = cc

le_of_not-ltb : (a b : ℕ) → not (ltb a b) ≡ true → b ≤ a
le_of_not-ltb a b h = ground arith

not-true : (b : Bool) → not b ≡ true → b ≡ false
not-true b h = ground arith

module _ (p : Platform) where
  -- What a passed admission shows.
  record Admitted (built : Option TrustedExecutionBindingDecision) (clock : Option ℕ)
      (a : Admission) : Type 0 where
    binding : built ≡ some a.binding
    intact : Binding.integrity_valid p a.binding ≡ true
    revalidated : parse_utc p a.binding.revalidated_at_utc ≡ some a.revalidated_at
    until : parse_utc p a.binding.prerequisite_valid_until_utc ≡ some a.valid_until
    now : clock ≡ some a.first_now

  admit-eq-ok :
      (built : Option TrustedExecutionBindingDecision) (clock : Option ℕ) (a : Admission)
      → admit p built clock ≡ ok a
      → Admitted built clock a
  unfolding admit
  admit-eq-ok built clock a h =
      let (b, hb, h₁) = >>=-eq-ok (or_raise built binding_unavailable) _ h in
      let (g, h₂) = >>-eq-ok (guard (Binding.integrity_valid p b) binding_invalid) _ h₁ in
      let (t, ht, h₃) =
        >>=-eq-ok (or_raise (parse_utc p b.revalidated_at_utc) timestamps_invalid) _ h₂ in
      let (u, hu, h₄) =
        >>=-eq-ok (or_raise (parse_utc p b.prerequisite_valid_until_utc) timestamps_invalid) _ h₃ in
      let (n, hn, h₅) = >>=-eq-ok (or_raise clock clock_invalid) _ h₄ in
      let (_, h₆) = >>-eq-ok (guard (not (ltb (n + max_future_skew) t)) clock_rolled_back) _ h₅ in
      let (_, h₇) = >>-eq-ok (guard (not (ltb u n)) binding_stale) _ h₆ in
      subst (Admitted built clock) (ok_inj h₇) (record {
        binding = or_raise-eq-ok built _ b hb;
        intact = guard-eq-ok _ binding_invalid g;
        revalidated = or_raise-eq-ok _ _ t ht;
        until = or_raise-eq-ok _ _ u hu;
        now = or_raise-eq-ok _ _ n hn;
      })

  -- What a gate shows of the moment at which it was granted.
  record Evaluated (a : Admission) (clock : Option ℕ) (r : ApprovalRegistry)
      (g : OneShotExecutionGateDecision) : Type 0 where
    locked_now : ℕ
    clock_read : clock ≡ some locked_now
    unused : member a.binding.binding_id r.consumed_execution_bindings ≡ false
    no_rollback : max a.revalidated_at a.first_now ≤ locked_now + max_future_skew
    in_time : locked_now ≤ a.valid_until
    gate : g ≡ gate_for p a.binding locked_now
    intact : integrity_valid p g ≡ true

  evaluate-eq-ok :
      (id : String) (a : Admission) (clock : Option ℕ) (r : ApprovalRegistry)
      (g : OneShotExecutionGateDecision)
      → evaluate p id a clock r ≡ ok g
      → Evaluated a clock r g
  unfolding evaluate
  evaluate-eq-ok id a clock r g h =
      let (evidence, _, h₁) = >>=-eq-ok (or_raise (r.approvals id) provenance_changed) _ h in
      let (retained, _, h₂) =
        >>=-eq-ok (or_raise (r.successful_revalidations id) provenance_changed) _ h₁ in
      let (challenge, _, h₃) =
        >>=-eq-ok (or_raise (r.challenges a.binding.challenge_id) provenance_changed) _ h₂ in
      let (_, h₄) = >>-eq-ok (guard (member id r.consumed_approvals) provenance_changed) _ h₃ in
      let (_, h₅) =
        >>-eq-ok (guard (member challenge.challenge_id r.approved_challenges) provenance_changed) _
          h₄ in
      let (_, h₆) =
        >>-eq-ok (guard (same_evidence a.binding evidence retained.0 retained.1) evidence_changed) _
          h₅ in
      let (fresh, h₇) =
        >>-eq-ok
          (guard (not (member a.binding.binding_id r.consumed_execution_bindings)) already_consumed)
          _ h₆ in
      let (n, hn, h₈) = >>=-eq-ok (or_raise clock lock_clock_invalid) _ h₇ in
      let (back, h₉) =
        >>-eq-ok
          (guard (not (ltb (n + max_future_skew) (max a.revalidated_at a.first_now)))
            lock_clock_rolled_back)
          _ h₈ in
      let (time, h₁₀) = >>-eq-ok (guard (not (ltb a.valid_until n)) expired) _ h₉ in
      let (whole, h₁₁) =
        >>-eq-ok (guard (integrity_valid p (gate_for p a.binding n)) construction_failed) _ h₁₀ in
      subst (Evaluated a clock r) (ok_inj h₁₁) (record {
        locked_now = n;
        clock_read = or_raise-eq-ok clock _ n hn;
        unused = not-true _ (guard-eq-ok _ already_consumed fresh);
        no_rollback = le_of_not-ltb _ _ (guard-eq-ok _ lock_clock_rolled_back back);
        in_time = le_of_not-ltb _ _ (guard-eq-ok _ expired time);
        gate = refl;
        intact = guard-eq-ok _ construction_failed whole;
      })

  -- A grant: of an intact binding that was not consumed before, at a moment of the locked clock no
  -- later than its expiry and at most the permitted skew before its revalidation, with an intact gate
  -- that names the binding; the registry differs by that consumption alone.
  pub record Granted (built : Option TrustedExecutionBindingDecision) (clock : Option ℕ)
      (r : ApprovalRegistry) (g : OneShotExecutionGateDecision) (r' : ApprovalRegistry)
      : Type 0 where
    pub binding : TrustedExecutionBindingDecision
    pub revalidated_at : ℕ
    pub valid_until : ℕ
    pub locked_now : ℕ
    pub built_binding : built ≡ some binding
    pub binding_intact : Binding.integrity_valid p binding ≡ true
    pub revalidated : parse_utc p binding.revalidated_at_utc ≡ some revalidated_at
    pub until : parse_utc p binding.prerequisite_valid_until_utc ≡ some valid_until
    pub clock_read : clock ≡ some locked_now
    pub no_rollback : revalidated_at ≤ locked_now + max_future_skew
    pub in_time : locked_now ≤ valid_until
    pub unused : member binding.binding_id r.consumed_execution_bindings ≡ false
    pub gate : g ≡ gate_for p binding locked_now
    pub gate_intact : integrity_valid p g ≡ true
    pub consumed : r' ≡ record r {
      consumed_execution_bindings = binding.binding_id ∷ r.consumed_execution_bindings;
    }

  abbrev pub Outcome :
      Option TrustedExecutionBindingDecision
      → Option ℕ
      → ApprovalRegistry
      → Result GateError OneShotExecutionGateDecision × ApprovalRegistry
      → Type 0
  Outcome built clock r s =
      ((g : OneShotExecutionGateDecision) × (s.0 ≡ ok g) × Granted built clock r g s.1)
      ⊎ ((e : GateError) × (s.0 ≡ err e) × (s.1 ≡ r))

  consume-Outcome :
      (built : Option TrustedExecutionBindingDecision) (id : String) (first locked : Option ℕ)
      (r : ApprovalRegistry) (m : Result GateError OneShotExecutionGateDecision)
      → (admit p built first >>= λ a. evaluate p id a locked r) ≡ m
      → Outcome built locked r (consume m r)
  consume-Outcome built id first locked r (err e) h = inr (e, refl, refl)
  consume-Outcome built id first locked r (ok g) h =
      let (a, admitted, evaluated) = >>=-eq-ok (admit p built first) _ h in
      let m = admit-eq-ok built first a admitted in
      let v = evaluate-eq-ok id a locked r g evaluated in
      inl (
        g,
        refl,
        record {
          binding = a.binding;
          revalidated_at = a.revalidated_at;
          valid_until = a.valid_until;
          locked_now = v.locked_now;
          built_binding = m.binding;
          binding_intact = m.intact;
          revalidated = m.revalidated;
          until = m.until;
          clock_read = v.clock_read;
          no_rollback = omega (arith, v.no_rollback);
          in_time = v.in_time;
          unused = v.unused;
          gate = v.gate;
          gate_intact = v.intact;
          consumed = λ i. record r {
            consumed_execution_bindings = (v.gate i).binding_id ∷ r.consumed_execution_bindings;
          };
        },
      )

  -- The gate either grants an intact, unexpired, unconsumed binding and consumes it, with no other
  -- change of the registry, or raises and leaves the registry as it was.
  pub satisfy-Outcome :
      (built : Option TrustedExecutionBindingDecision) (id : String) (first locked : Option ℕ)
      (r : ApprovalRegistry)
      → Outcome built locked r (satisfy p built id first locked r)
  unfolding satisfy
  satisfy-Outcome built id first locked r = consume-Outcome built id first locked r _ refl
