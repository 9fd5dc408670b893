-- ===== src/Attempt/Steps.antt =====
-- About `record_execution_attempt` as a step of the journal of attempts.
use Prim.Native.String.{◌++◌ as join}
use drive_sanitization_manag.Prelude.{
  ℕ, String, ◌≡◌, refl, sym, ap, subst, Bool, true, false, ◌&&◌, ◌||◌, not, inl, inr, List, [], ◌∷◌,
  ◌++◌, any, any_imp, Result, ok, err, >>=-eq-ok, >>-eq-ok, ok_inj, guard, guard-eq-ok, ◌==◌,
  eq_iff, arith, if◌then◌else◌,
}
use drive_sanitization_manag.Platform.{Platform}
use drive_sanitization_manag.Files.{Disk, Faults, Looked}
use drive_sanitization_manag.Auth.Text.{prefixed_hex}
use drive_sanitization_manag.Store.{StoreError}
use drive_sanitization_manag.Store.Atomic.{stored}
use drive_sanitization_manag.Store.Keeps.{OpOutcome, locked_after-OpOutcome, write_and-OpOutcome}
use drive_sanitization_manag.Executor.Record.{ExecutorAuthorizationRecord}
use drive_sanitization_manag.Executor.Operations.{ExecutorError}
use drive_sanitization_manag.Attempt.Record.{ExecutionAttemptRecord, record_valid, layout}
use drive_sanitization_manag.Attempt.Operations.{
  AttemptError, of_store, already_exists, authorization_changed, id_invalid, record_invalid,
  verification_failed, Capability, Cycle, check_capability, final_cycle, conflicts, lift_executor,
  same_record, reserved_matches, build_record, check_before, with_id, is_written, verify,
  new_attempt, add_attempt, attempt_within, record_execution_attempt,
}

-- What an attempt is identified by.
pub data Attribute : Type 0 where
  authorization lease handoff gate binding : Attribute

unfoldable pub of_authorization : Attribute → ExecutorAuthorizationRecord → String
of_authorization authorization v = v.authorization_id
of_authorization lease v = v.lease_binding_id
of_authorization handoff v = v.handoff_id
of_authorization gate v = v.gate_id
of_authorization binding v = v.binding_id

unfoldable pub of_attempt : Attribute → ExecutionAttemptRecord → String
of_attempt authorization e = e.authorization_id
of_attempt lease e = e.lease_binding_id
of_attempt handoff e = e.handoff_id
of_attempt gate e = e.gate_id
of_attempt binding e = e.binding_id

unfoldable pub has : Attribute → ExecutorAuthorizationRecord → ExecutionAttemptRecord → Bool
has a v e = of_attempt a e == of_authorization a v

-- The entry has one of the five in common with the authorization.
abbrev pub repeats : ExecutorAuthorizationRecord → ExecutionAttemptRecord → Bool
repeats v e =
    e.authorization_id == v.authorization_id
    || e.lease_binding_id == v.lease_binding_id
    || e.handoff_id == v.handoff_id
    || e.gate_id == v.gate_id
    || e.binding_id == v.binding_id

pub has-repeats :
    (a : Attribute) (v : ExecutorAuthorizationRecord) (e : ExecutionAttemptRecord)
    → has a v e ≡ true
    → repeats v e ≡ true
unfolding has of_attempt of_authorization
has-repeats authorization v e h = ground arith
has-repeats lease v e h = ground arith
has-repeats handoff v e h = ground arith
has-repeats gate v e h = ground arith
has-repeats binding v e h = ground arith

lift_executor-ok :
    {A : Type 0} (m : Result ExecutorError A) (a : A) → lift_executor m ≡ ok a → m ≡ ok a
lift_executor-ok (ok b) a h = ap ok (ok_inj h)
lift_executor-ok (err e) a h = cc

module _ (p : Platform) (euid : ℕ) where
  open p use {Bytes}

  same_repeats :
      (c : Capability) (a b : ExecutorAuthorizationRecord) (e : ExecutionAttemptRecord)
      → (same_record a b && reserved_matches p euid c a) ≡ true
      → repeats a e ≡ true
      → conflicts c b e ≡ true
  same_repeats c a b e h r =
      let same_gate = (eq_iff a.gate_id b.gate_id).0 in
      let same_binding = (eq_iff a.binding_id b.binding_id).0 in
      let same_authorization = (eq_iff a.authorization_id c.authorization_id).0 in
      let same_lease = (eq_iff a.lease_binding_id c.lease_binding_id).0 in
      let same_handoff = (eq_iff a.handoff_id c.identity.handoff_id).0 in ground arith

  -- An attempt of the authorization that is read last is added, where no entry has its
  -- authorization, lease, handoff, gate or binding.
  pub data Adds (after : Result ExecutorError ExecutorAuthorizationRecord)
      : ExecutionAttemptRecord
        → List ExecutionAttemptRecord
        → List ExecutionAttemptRecord
        → Type 0 where
    adds :
        (v : ExecutorAuthorizationRecord) (id : String) (now : ℕ) (es : List ExecutionAttemptRecord)
        → after ≡ ok v
        → any (repeats v) es ≡ false
        → Adds after (build_record p euid v id now) es (es ++ build_record p euid v id now ∷ [])

  not-any :
      (c : Capability) (a b : ExecutorAuthorizationRecord) (es : List ExecutionAttemptRecord)
      → (same_record a b && reserved_matches p euid c a) ≡ true
      → not (any (conflicts c b) es) ≡ true
      → any (repeats a) es ≡ false
  not-any c a b es h fresh =
      let same = any_imp (repeats a) (conflicts c b) es (λ e r. same_repeats c a b e h r) in
      ground arith

  new_attempt-eq-ok :
      (c : Capability) (cycle : Cycle) (token : String) (now : ℕ)
      (after : Result ExecutorError ExecutorAuthorizationRecord) (b : ExecutorAuthorizationRecord)
      (es : List ExecutionAttemptRecord) (r : ExecutionAttemptRecord)
      → new_attempt p euid c cycle token now after b es ≡ ok r
      → Adds after r es (es ++ r ∷ [])
  unfolding new_attempt
  new_attempt-eq-ok c cycle token now after b es r h =
      let (fresh, h₁) = >>-eq-ok (guard (not (any (conflicts c b) es)) already_exists) _ h in
      let (_, h₂) = >>-eq-ok (final_cycle c.identity cycle) _ h₁ in
      let (a, ha, h₃) = >>=-eq-ok (lift_executor after) _ h₂ in
      let (same, h₄) =
        >>-eq-ok (guard (same_record a b && reserved_matches p euid c a) authorization_changed) _
          h₃ in
      let (_, h₅) =
        >>-eq-ok (guard (prefixed_hex "xeattempt_" (join "xeattempt_" token)) id_invalid) _ h₄ in
      let (_, h₆) =
        >>-eq-ok
          (guard (record_valid p (build_record p euid a (join "xeattempt_" token) now))
            record_invalid)
          _ h₅ in
      subst (λ x. Adds after x es (es ++ x ∷ [])) (ok_inj h₆)
        (adds a (join "xeattempt_" token) now es (lift_executor-ok after a ha) (
          not-any c a b es (guard-eq-ok _ authorization_changed same)
            (guard-eq-ok _ already_exists fresh)))

  found-ok :
      (found : Bool) (r a : ExecutionAttemptRecord)
      → ◌≡◌ {A = Result AttemptError ExecutionAttemptRecord}
          (if found then ok r else err verification_failed)
          (ok a)
      → a ≡ r
  found-ok true r a h = ok_inj (sym h)
  found-ok false r a h = cc

  verify-ok :
      (r : ExecutionAttemptRecord) (m : Result StoreError (List ExecutionAttemptRecord))
      (a : ExecutionAttemptRecord)
      → verify p euid r m ≡ ok a
      → a ≡ r
  verify-ok r (err e) a h = cc
  verify-ok r (ok es) a h = found-ok (is_written r (with_id r.attempt_id es)) r a h

  add_attempt-OpOutcome :
      (after : Result ExecutorError ExecutorAuthorizationRecord)
      (m : Result AttemptError ExecutionAttemptRecord) (f again : Faults)
      (es : List ExecutionAttemptRecord) (d : Disk Bytes)
      → ((r : ExecutionAttemptRecord) → m ≡ ok r → Adds after r es (es ++ r ∷ []))
      → stored p euid (layout p) d.file ≡ ok es
      → OpOutcome p euid (layout p) (Adds after) d.file (add_attempt p euid m f again es d)
  add_attempt-OpOutcome after (err e) f again es d h k = inr (e, refl, inl refl)
  add_attempt-OpOutcome after (ok r) f again es d h k =
      write_and-OpOutcome p euid (layout p) of_store (Adds after) r f es (es ++ r ∷ []) d _ k
        (h r refl) (λ d'. refl) (λ d' a same. verify-ok r _ a same)

  attempt_within-OpOutcome :
      (entered : Result AttemptError (Unit {0})) (c : Capability) (cycle : Cycle) (token : String)
      (now : ℕ) (before after : Result ExecutorError ExecutorAuthorizationRecord) (f again : Faults)
      (d : Disk Bytes)
      → Looked f
      → OpOutcome p euid
          (layout p)
          (Adds after)
          d.file
          (attempt_within p euid entered c cycle token now before after f again d)
  attempt_within-OpOutcome (err e) c cycle token now before after f again d looked =
      inr (e, refl, inl refl)
  attempt_within-OpOutcome (ok u) c cycle token now before after f again d looked =
      locked_after-OpOutcome p euid (layout p) of_store (Adds after) (check_before p euid c before)
        _ f d looked
        (λ b es d₁ _ k.
          add_attempt-OpOutcome after (new_attempt p euid c cycle token now after b es) f again es
            d₁ (λ r h. new_attempt-eq-ok c cycle token now after b es r h) k)

  -- Where its reading finds a journal that is there, a recorded attempt that returns has added the
  -- record that it returns, an attempt of the authorization that was read last,
  -- where no stored entry had its authorization, lease, handoff, gate or binding; one that raises has
  -- left the file as it was or made such a change.
  pub record_execution_attempt_step :
      (c : Capability) (cycle : Cycle) (token : String) (now : ℕ)
      (before after : Result ExecutorError ExecutorAuthorizationRecord) (f again : Faults)
      (d : Disk Bytes)
      → Looked f
      → OpOutcome p euid
          (layout p)
          (Adds after)
          d.file
          (record_execution_attempt p euid c cycle token now before after f again d)
  unfolding record_execution_attempt
  record_execution_attempt_step c cycle token now before after f again d looked =
      attempt_within-OpOutcome (check_capability c) c cycle token now before after f again d looked
