-- ===== src/Seam/Held.antt =====
-- What the checks of `_descriptor_locked` show, written out: of the chain, the capability, the safety
-- cycle, the claim, the authorization and the journal of the attempts.
use drive_sanitization_manag.Prelude.{
  ℕ, ◌≡◌, refl, sym, ap, subst, ◌∙◌, Bool, true, false, Bool-cases, ◌&&◌, not, List, [], ◌∷◌,
  Option, none, some, codes, ◌==◌, eq_iff, Result, ok, err, >>=-eq-ok, >>-eq-ok, ok_inj, guard,
  guard-eq-ok, inl, inr, arith,
}
use drive_sanitization_manag.Value.{int_eq, py_eq}
use drive_sanitization_manag.Platform.{Platform}
use drive_sanitization_manag.Files.{Disk, Faults, Stat}
use drive_sanitization_manag.Auth.Text.{prefixed_hex}
use drive_sanitization_manag.Store.{nonempty, StoreError}
use drive_sanitization_manag.Store.File.{read_file, read_locked}
use drive_sanitization_manag.Store.Atomic.{stored}
use drive_sanitization_manag.Store.Keeps.{read_file-stored}
use drive_sanitization_manag.Executor.Record.{ExecutorAuthorizationRecord, record_value}
use drive_sanitization_manag.Executor.Operations.{Identity}
use drive_sanitization_manag.Attempt.Record.{ExecutionAttemptRecord, layout}
use drive_sanitization_manag.Attempt.Record as Attempts
use drive_sanitization_manag.Attempt.Operations.{
  Capability, Cycle, capability_inactive, chain_unavailable, identity_changed, scope_lost,
  safety_failed, descriptor_differs, descriptor_changed, live_identity_changed, equal_identity,
  exact_identity, check_capability, or_failed, final_cycle, same_record, is_written, with_id,
}
use drive_sanitization_manag.Seam.{
  SeamError, claim_unavailable, claim_inconsistent, Sight, Claim, or_seam_error, same_chain,
  is_descriptor, claim_state, same_claim, persisted_in, persisted_exact,
}

pub equal_identity-eq : (i j : Identity) → equal_identity i j ≡ true → i ≡ j
equal_identity-eq i j h =
    let handoff : (i.handoff_id == j.handoff_id) ≡ true = ground arith in
    let path : (i.target_path == j.target_path) ≡ true = ground arith in
    let number : (i.target_major_minor == j.target_major_minor) ≡ true = ground arith in
    let hash : (i.target_binding_hash == j.target_binding_hash) ≡ true = ground arith in
    λ k. record {
      handoff_id = (eq_iff i.handoff_id j.handoff_id).0 handoff k;
      target_path = (eq_iff i.target_path j.target_path).0 path k;
      target_major_minor = (eq_iff i.target_major_minor j.target_major_minor).0 number k;
      target_binding_hash = (eq_iff i.target_binding_hash j.target_binding_hash).0 hash k;
    }

-- The lease, the scopes and what the capability is for are the same.
pub record SameChain (s t : Sight) : Type 0 where
  pub lease : s.lease ≡ t.lease
  pub lease_scope : s.lease_scope ≡ t.lease_scope
  pub claim_scope : s.claim_scope ≡ t.claim_scope
  pub authorization_scope : s.authorization_scope ≡ t.authorization_scope
  pub identity : s.capability.identity ≡ t.capability.identity
  pub lease_binding : s.capability.lease_binding_id ≡ t.capability.lease_binding_id
  pub authorization : s.capability.authorization_id ≡ t.capability.authorization_id

pub same_chain-SameChain : (s t : Sight) → same_chain s t ≡ true → SameChain s t
same_chain-SameChain s t h =
    let same_lease = eq_iff s.capability.lease_binding_id t.capability.lease_binding_id in
    let same_authorization = eq_iff s.capability.authorization_id t.capability.authorization_id in
    record {
      lease = ground arith;
      lease_scope = ground arith;
      claim_scope = ground arith;
      authorization_scope = ground arith;
      identity = equal_identity-eq s.capability.identity t.capability.identity (ground arith);
      lease_binding = same_lease.0 (ground arith);
      authorization = same_authorization.0 (ground arith);
    }

-- The capability is live and executes nothing, its lease is consumed and intact, and its scopes are
-- entered.
pub record Active (c : Capability) : Type 0 where
  pub active : c.active ≡ true
  pub not_authorized : c.execution_authorized ≡ false
  pub not_supported : c.execution_supported ≡ false
  pub not_eligible : c.executor_eligible ≡ false
  pub not_performed : c.execution_performed ≡ false
  pub consumed : c.lease_consumed ≡ true
  pub lease_is_consumed : c.lease_is_consumed ≡ true
  pub lease_intact : c.lease_intact ≡ true
  pub lease_scope : c.lease_scope_entered ≡ true
  pub authorization_scope : c.authorization_scope_entered ≡ true
  pub claim_scope : c.claim_scope_entered ≡ true
  pub identity : c.identity ≡ c.lease_identity
  pub lease_id : prefixed_hex "xeli_" c.lease_binding_id ≡ true
  pub authorization_id : prefixed_hex "xeauth_" c.authorization_id ≡ true

-- The tests of the first two guards of `check_capability`, and of `claim_state`.
abbrev is_idle : Capability → Bool
is_idle c =
    c.active
    && not c.execution_authorized
    && not c.execution_supported
    && not c.executor_eligible
    && not c.execution_performed
    && c.lease_consumed
    && c.requires_future_executor

abbrev has_chain : Capability → Bool
has_chain c =
    c.lease_scope_entered
    && c.authorization_scope_entered
    && exact_identity c.identity
    && prefixed_hex "xeli_" c.lease_binding_id
    && prefixed_hex "xeauth_" c.authorization_id
    && c.lease_is_consumed
    && c.lease_intact

abbrev is_claim_of : Identity → Claim → Bool
is_claim_of i c =
    equal_identity c.identity i
    && nonempty (codes c.pre_continuity_id)
    && nonempty (codes c.post_continuity_id)
    && is_descriptor c.fd

pub check_capability-Active : (c : Capability) → check_capability c ≡ ok tt → Active c
unfolding check_capability
check_capability-Active c h =
    let (g₁, h₁) = >>-eq-ok (guard (is_idle c) capability_inactive) _ h in
    let (g₂, h₂) = >>-eq-ok (guard (has_chain c) chain_unavailable) _ h₁ in
    let (g₃, h₃) =
      >>-eq-ok (guard (equal_identity c.identity c.lease_identity) identity_changed) _ h₂ in
    let flags = guard-eq-ok (is_idle c) capability_inactive g₁ in
    let chain = guard-eq-ok (has_chain c) chain_unavailable g₂ in
    record {
      active = ground arith;
      not_authorized = ground arith;
      not_supported = ground arith;
      not_eligible = ground arith;
      not_performed = ground arith;
      consumed = ground arith;
      lease_is_consumed = ground arith;
      lease_intact = ground arith;
      lease_scope = ground arith;
      authorization_scope = ground arith;
      claim_scope = guard-eq-ok c.claim_scope_entered scope_lost h₃;
      identity =
          equal_identity-eq c.identity c.lease_identity
            (guard-eq-ok (equal_identity c.identity c.lease_identity) identity_changed g₃);
      lease_id = ground arith;
      authorization_id = ground arith;
    }

-- The safety cycle saw the device of the identity before and after its checks, which passed, and the
-- lease is still consumed, intact and for that identity.
pub record Safe (i : Identity) (c : Cycle) : Type 0 where
  pub before : c.observed ≡ some i.target_major_minor
  pub passed : c.checks_pass ≡ true
  pub after : c.observed_after ≡ some i.target_major_minor
  pub identity : c.current_identity ≡ some i
  pub consumed : c.still_consumed ≡ true
  pub intact : c.still_intact ≡ true

or_failed-some : {A : Type 0} (o : Option A) (a : A) → or_failed o ≡ ok a → o ≡ some a
or_failed-some none a h = cc
or_failed-some (some b) a h = ap some (ok_inj h)

pub final_cycle-Safe : (i : Identity) (c : Cycle) → final_cycle i c ≡ ok tt → Safe i c
unfolding final_cycle
final_cycle-Safe i c h =
    let (a, g₁, h₁) = >>=-eq-ok (or_failed c.observed) _ h in
    let (g₂, h₂) = >>-eq-ok (guard (a == i.target_major_minor) descriptor_differs) _ h₁ in
    let (g₃, h₃) = >>-eq-ok (guard c.checks_pass safety_failed) _ h₂ in
    let (b, g₄, h₄) = >>=-eq-ok (or_failed c.observed_after) _ h₃ in
    let (g₅, h₅) = >>-eq-ok (guard (b == i.target_major_minor) descriptor_changed) _ h₄ in
    let (j, g₆, h₆) = >>=-eq-ok (or_failed c.current_identity) _ h₅ in
    let live =
      guard-eq-ok (equal_identity j i && c.still_consumed && c.still_intact) live_identity_changed
        h₆ in
    record {
      before =
          or_failed-some c.observed a g₁
          ∙ ap some (
              (eq_iff a i.target_major_minor).0
                (guard-eq-ok (a == i.target_major_minor) descriptor_differs g₂));
      passed = guard-eq-ok c.checks_pass safety_failed g₃;
      after =
          or_failed-some c.observed_after b g₄
          ∙ ap some (
              (eq_iff b i.target_major_minor).0
                (guard-eq-ok (b == i.target_major_minor) descriptor_changed g₅));
      identity =
          or_failed-some c.current_identity j g₆ ∙ ap some (equal_identity-eq j i (ground arith));
      consumed = ground arith;
      intact = ground arith;
    }

-- The claim that is observed now: of the identity, with both continuity ids and a descriptor, and with
-- the held object, the ids and the descriptor of the claim at the entry.
pub record SameClaim (i : Identity) (m : Option Claim) (kept : Claim) : Type 0 where
  pub claim : Claim
  pub observed : m ≡ some claim
  pub identity : claim.identity ≡ i
  pub has_pre : nonempty (codes claim.pre_continuity_id) ≡ true
  pub has_post : nonempty (codes claim.post_continuity_id) ≡ true
  pub is_open : is_descriptor claim.fd ≡ true
  pub held : claim.held_reference ≡ kept.held_reference
  pub pre : claim.pre_continuity_id ≡ kept.pre_continuity_id
  pub post : claim.post_continuity_id ≡ kept.post_continuity_id
  pub fd : int_eq claim.fd kept.fd ≡ true

or_seam_error-some :
    {A : Type 0} (o : Option A) (e : SeamError) (a : A) → or_seam_error o e ≡ ok a → o ≡ some a
or_seam_error-some none e a h = cc
or_seam_error-some (some b) e a h = ap some (ok_inj h)

pub claim_state-SameClaim :
    (i : Identity) (m : Option Claim) (kept c : Claim)
    → claim_state i m ≡ ok c
    → same_claim c kept ≡ true
    → SameClaim i m kept
unfolding claim_state
claim_state-SameClaim i m kept c h same =
    let (b, g₁, h₁) = >>=-eq-ok (or_seam_error m claim_unavailable) _ h in
    let (g₂, h₂) = >>-eq-ok (guard (is_claim_of i b) claim_inconsistent) _ h₁ in
    let checks = guard-eq-ok (is_claim_of i b) claim_inconsistent g₂ in
    let still : same_claim b kept ≡ true =
      subst (λ x. same_claim x kept ≡ true) (sym (ok_inj h₂)) same in
    let same_pre = eq_iff b.pre_continuity_id kept.pre_continuity_id in
    let same_post = eq_iff b.post_continuity_id kept.post_continuity_id in
    record {
      claim = b;
      observed = or_seam_error-some m claim_unavailable b g₁;
      identity = equal_identity-eq b.identity i (ground arith);
      has_pre = ground arith;
      has_post = ground arith;
      is_open = ground arith;
      held = ground arith;
      pre = same_pre.0 (ground arith);
      post = same_post.0 (ground arith);
      fd = ground arith;
    }

-- The authorization that is read now, and that of the entry: they have one gate and binding, and
-- equal values in all of their fields.
pub record SameAuthorization (a kept : ExecutorAuthorizationRecord) : Type 0 where
  pub gate : a.gate_id ≡ kept.gate_id
  pub binding : a.binding_id ≡ kept.binding_id
  pub fields : py_eq (record_value a) (record_value kept) ≡ true

pub same_record-SameAuthorization :
    (a kept : ExecutorAuthorizationRecord) → same_record a kept ≡ true → SameAuthorization a kept
same_record-SameAuthorization a kept h =
    let same_gate = eq_iff a.gate_id kept.gate_id in
    let same_binding = eq_iff a.binding_id kept.binding_id in
    record {
      gate = same_gate.0 (ground arith);
      binding = same_binding.0 (ground arith);
      fields = ground arith;
    }

module _ (p : Platform) (euid : ℕ) where
  open p use {Bytes}

  -- The journal that is stored has one entry of the attempt's id, with the attempt's fields.
  pub record Persisted (r : ExecutionAttemptRecord) (file : Option (Stat × Bytes)) : Type 0 where
    pub entries : List ExecutionAttemptRecord
    pub is_stored : stored p euid (layout p) file ≡ ok entries
    pub entry : ExecutionAttemptRecord
    pub only : with_id r.attempt_id entries ≡ entry ∷ []
    pub fields : py_eq (Attempts.record_value entry) (Attempts.record_value r) ≡ true

  is_written-one :
      (r : ExecutionAttemptRecord) (es : List ExecutionAttemptRecord)
      → is_written r es ≡ true
      → (e : ExecutionAttemptRecord) × (es ≡ e ∷ [])
        × (py_eq (Attempts.record_value e) (Attempts.record_value r) ≡ true)
  is_written-one r [] h = cc
  is_written-one r (e ∷ []) h = (e, refl, h)
  is_written-one r (e ∷ f ∷ es) h = cc

  read-Persisted :
      (r : ExecutionAttemptRecord) (m : Result StoreError (List ExecutionAttemptRecord))
      (file : Option (Stat × Bytes))
      → ((es : List ExecutionAttemptRecord) → m ≡ ok es → stored p euid (layout p) file ≡ ok es)
      → persisted_in r m ≡ true
      → Persisted r file
  read-Persisted r (err e) file f h = cc
  read-Persisted r (ok es) file f h =
      let (e, one, same) = is_written-one r (with_id r.attempt_id es) h in
      record { entries = es; is_stored = f es refl; entry = e; only = one; fields = same }

  -- Also a journal that is not found does not show the attempt.
  pub persisted_exact-Persisted :
      (r : ExecutionAttemptRecord) (f : Faults) (d : Disk Bytes)
      → persisted_exact p euid r f d ≡ true
      → Persisted r d.file
  unfolding persisted_exact read_locked
  persisted_exact-Persisted r f d h = elim (Bool-cases f.lookup_fails) [
    | inl blind ↦ let lost : persisted_in r (ok []) ≡ true = rw blind at h in cc
    | inr finds ↦
        let found : persisted_in r (read_file p euid (layout p) f.open_fails d.file) ≡ true =
          rw finds at h in
        read-Persisted r (read_file p euid (layout p) f.open_fails d.file) d.file
          (read_file-stored p euid (layout p) f.open_fails d.file) found
  ]
