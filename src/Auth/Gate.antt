-- ===== src/Auth/Gate.antt =====
-- `OneShotExecutionGateDecision`: its integrity check, and `satisfy_one_shot_execution_gate`, which
-- consumes one trusted binding in the registry. The binding that `build_trusted_execution_binding`
-- returns (none where it raises) is an argument, and so are the two readings of the clock (none
-- where it is invalid). The registry is the one under its lock: other threads may have changed it
-- since the binding was built.
pub mod Grant
pub mod Once
use Prim.Native.String.{◌++◌}
use drive_sanitization_manag.Prelude.{
  ℕ, ◌+◌, String, Bool, true, false, ◌&&◌, not, List, [], ◌∷◌, Option, none, some, all, leb, ltb,
  ◌==◌, member, Result, ok, err, ◌>>=◌, ◌>>◌, guard, if◌then◌else◌,
}
use Prim.Native.Nat.{max}
use drive_sanitization_manag.Value.{Value, ℤ, pos, int_eq, int, text, obj, Fields, end, field}
use drive_sanitization_manag.Platform.{Platform, parse_utc}
use drive_sanitization_manag.Auth.Text.{prefixed_hex, hash_value, exact_text, approval_text}
use drive_sanitization_manag.Auth.Types.{
  TrustedExecutionBindingDecision, OneShotExecutionGateDecision, HumanApprovalEvidence,
  ApprovalChallenge, ApprovalRevalidationDecision, AuthorizationDecision,
}
use drive_sanitization_manag.Auth.Binding
use drive_sanitization_manag.Auth.Binding.{ordered_times}

-- EXECUTION_GATE_POLICY_VERSION, EXECUTION_GATE_STATUS_SATISFIED
abbrev pub policy_version : String
policy_version = "phase6d-b-one-shot-currentness-v1"

abbrev pub status_satisfied : String
status_satisfied = "execution_gate_satisfied"

-- MAX_FUTURE_SKEW_SECONDS, in microseconds
abbrev pub max_future_skew : ℕ
max_future_skew = 5000000

-- The fields of `ApprovalRegistry` that the gate reads and writes.
pub record ApprovalRegistry : Type 0 where
  pub challenges : String → Option ApprovalChallenge
  pub approvals : String → Option HumanApprovalEvidence
  pub approved_challenges : List String
  pub consumed_approvals : List String
  pub successful_revalidations :
      String → Option (ApprovalRevalidationDecision × AuthorizationDecision)
  pub consumed_execution_bindings : List String

-- Every refusal of the gate is a OneShotExecutionGateError; the constructors are its messages.
pub data GateError : Type 0 where
  binding_unavailable binding_invalid timestamps_invalid clock_invalid : GateError
  clock_rolled_back binding_stale provenance_changed evidence_changed : GateError
  already_consumed lock_clock_invalid lock_clock_rolled_back expired : GateError
  construction_failed : GateError

-- `_one_shot_execution_gate_payload`
abbrev pub payload : OneShotExecutionGateDecision → Value
payload g = obj (
    field "policy_version" (text g.policy_version) (
      field "schema_version" (int g.schema_version) (
        field "status" (text g.status) (
          field "binding_id" (text g.binding_id) (
            field "approval_id" (text g.approval_id) (
              field "challenge_id" (text g.challenge_id) (
                field "approval_evidence_hash" (text g.approval_evidence_hash) (
                  field "revalidation_id" (text g.revalidation_id) (
                    field "request_id" (text g.request_id) (
                      field "request_hash" (text g.request_hash) (
                        field "record_snapshot_hash" (text g.record_snapshot_hash) (
                          field "fresh_prerequisite_decision_id"
                            (text g.fresh_prerequisite_decision_id)
                            (field "method_profile_id" (text g.method_profile_id) (
                              field "operation" (text g.operation) (
                                field "target_binding_hash" (text g.target_binding_hash) (
                                  field "constraint_evaluation_hash"
                                    (text g.constraint_evaluation_hash)
                                    (field "evaluated_at_utc" (text g.evaluated_at_utc) (
                                      field "prerequisite_valid_until_utc"
                                        (text g.prerequisite_valid_until_utc) end))))))))))))))))))

abbrev pub or_raise : {A : Type 0} → Option A → GateError → Result GateError A
or_raise none e = err e
or_raise (some a) e = ok a

abbrev pub is_some_text : Option String → String → Bool
is_some_text none s = false
is_some_text (some t) s = t == s

-- What the gate knows before it takes the lock.
pub record Admission : Type 0 where
  pub binding : TrustedExecutionBindingDecision
  pub revalidated_at : ℕ
  pub valid_until : ℕ
  pub first_now : ℕ

-- The registry still holds the evidence that the binding names.
abbrev pub same_evidence :
    TrustedExecutionBindingDecision
    → HumanApprovalEvidence
    → ApprovalRevalidationDecision
    → AuthorizationDecision
    → Bool
same_evidence b evidence revalidation fresh =
    evidence.approval_id == b.approval_id
    && evidence.challenge_id == b.challenge_id
    && evidence.evidence_hash == b.approval_evidence_hash
    && revalidation.revalidation_id == b.revalidation_id
    && is_some_text revalidation.request_id b.request_id
    && revalidation.evaluated_at_utc == b.revalidated_at_utc
    && fresh.decision_id == b.fresh_prerequisite_decision_id
    && is_some_text fresh.request_hash b.request_hash
    && is_some_text fresh.record_snapshot_hash b.record_snapshot_hash
    && is_some_text fresh.target_binding_hash b.target_binding_hash
    && is_some_text fresh.prerequisite_valid_until_utc b.prerequisite_valid_until_utc

-- The consumption: the registry changes only with a gate.
abbrev pub consume :
    Result GateError OneShotExecutionGateDecision
    → ApprovalRegistry
    → Result GateError OneShotExecutionGateDecision × ApprovalRegistry
consume (ok g) r =
    (ok g, record r { consumed_execution_bindings = g.binding_id ∷ r.consumed_execution_bindings })
consume (err e) r = (err e, r)

module _ (p : Platform) where
  -- `_one_shot_execution_gate_integrity_valid`
  unfoldable pub integrity_valid : OneShotExecutionGateDecision → Bool
  integrity_valid g =
      g.policy_version == policy_version
      && int_eq g.schema_version (pos 1)
      && g.status == status_satisfied
      && prefixed_hex "xeb_" g.binding_id
      && prefixed_hex "xgate_" g.gate_id
      && all approval_text (g.approval_id ∷ g.challenge_id ∷ g.request_id ∷ [])
      && all exact_text (g.method_profile_id ∷ g.operation ∷ [])
      && all hash_value (
          g.approval_evidence_hash ∷ g.revalidation_id ∷ g.request_hash ∷ g.record_snapshot_hash
          ∷ g.fresh_prerequisite_decision_id ∷ g.target_binding_hash ∷ g.constraint_evaluation_hash
          ∷ [])
      && ordered_times p g.evaluated_at_utc (parse_utc p g.evaluated_at_utc)
          g.prerequisite_valid_until_utc (parse_utc p g.prerequisite_valid_until_utc)
      && g.gate_id == ("xgate_" ++ p.digest (payload g))

  -- The checks before the lock.
  unfoldable pub admit :
      Option TrustedExecutionBindingDecision → Option ℕ → Result GateError Admission
  admit built clock = do
    b ← or_raise built binding_unavailable
    guard (Binding.integrity_valid p b) binding_invalid
    revalidated_at ← or_raise (parse_utc p b.revalidated_at_utc) timestamps_invalid
    valid_until ← or_raise (parse_utc p b.prerequisite_valid_until_utc) timestamps_invalid
    now ← or_raise clock clock_invalid
    guard (not (ltb (now + max_future_skew) revalidated_at)) clock_rolled_back
    guard (not (ltb valid_until now)) binding_stale
    ok (record {
      binding = b;
      revalidated_at = revalidated_at;
      valid_until = valid_until;
      first_now = now;
    })

  abbrev pub unsigned : TrustedExecutionBindingDecision → ℕ → OneShotExecutionGateDecision
  unsigned b now = record {
    gate_id = "";
    policy_version = policy_version;
    schema_version = pos 1;
    status = status_satisfied;
    binding_id = b.binding_id;
    approval_id = b.approval_id;
    challenge_id = b.challenge_id;
    approval_evidence_hash = b.approval_evidence_hash;
    revalidation_id = b.revalidation_id;
    request_id = b.request_id;
    request_hash = b.request_hash;
    record_snapshot_hash = b.record_snapshot_hash;
    fresh_prerequisite_decision_id = b.fresh_prerequisite_decision_id;
    method_profile_id = b.method_profile_id;
    operation = b.operation;
    target_binding_hash = b.target_binding_hash;
    constraint_evaluation_hash = b.constraint_evaluation_hash;
    prerequisite_valid_until_utc = b.prerequisite_valid_until_utc;
    evaluated_at_utc = p.iso now;
  }

  abbrev pub gate_for : TrustedExecutionBindingDecision → ℕ → OneShotExecutionGateDecision
  gate_for b now = record (unsigned b now) {
    gate_id = "xgate_" ++ p.digest (payload (unsigned b now));
  }

  -- The checks under the lock, and the gate.
  unfoldable pub evaluate :
      String
      → Admission
      → Option ℕ
      → ApprovalRegistry
      → Result GateError OneShotExecutionGateDecision
  evaluate approval_id a clock r = do
    evidence ← or_raise (r.approvals approval_id) provenance_changed
    retained ← or_raise (r.successful_revalidations approval_id) provenance_changed
    challenge ← or_raise (r.challenges a.binding.challenge_id) provenance_changed
    guard (member approval_id r.consumed_approvals) provenance_changed
    guard (member challenge.challenge_id r.approved_challenges) provenance_changed
    guard (same_evidence a.binding evidence retained.0 retained.1) evidence_changed
    guard (not (member a.binding.binding_id r.consumed_execution_bindings)) already_consumed
    now ← or_raise clock lock_clock_invalid
    guard (not (ltb (now + max_future_skew) (max a.revalidated_at a.first_now)))
        lock_clock_rolled_back
    guard (not (ltb a.valid_until now)) expired
    guard (integrity_valid (gate_for a.binding now)) construction_failed
    ok (gate_for a.binding now)

  -- `satisfy_one_shot_execution_gate`
  unfoldable pub satisfy :
      Option TrustedExecutionBindingDecision
      → String
      → Option ℕ
      → Option ℕ
      → ApprovalRegistry
      → Result GateError OneShotExecutionGateDecision × ApprovalRegistry
  unfolding admit evaluate
  satisfy built approval_id first_clock locked_clock r =
      consume (admit built first_clock >>= λ a. evaluate approval_id a locked_clock r) r
