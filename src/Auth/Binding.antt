-- ===== src/Auth/Binding.antt =====
-- `TrustedExecutionBindingDecision`: its canonical payload and its integrity check.
use Prim.Native.String.{◌++◌}
use drive_sanitization_manag.Prelude.{
  ℕ, String, Bool, false, ◌&&◌, [], ◌∷◌, Option, none, some, all, leb, ◌==◌,
}
use drive_sanitization_manag.Value.{Value, pos, int_eq, int, text, obj, end, field}
use drive_sanitization_manag.Platform.{Platform, parse_utc}
use drive_sanitization_manag.Auth.Text.{prefixed_hex, hash_value, exact_text, approval_text}
use drive_sanitization_manag.Auth.Types.{TrustedExecutionBindingDecision}

-- EXECUTION_BINDING_POLICY_VERSION, EXECUTION_BINDING_STATUS_SATISFIED
abbrev pub policy_version : String
policy_version = "phase6d-a-execution-binding-v2"

abbrev pub status_satisfied : String
status_satisfied = "execution_binding_satisfied"

-- `_trusted_execution_binding_payload`
abbrev pub payload : TrustedExecutionBindingDecision → Value
payload b = obj (
    field "policy_version" (text b.policy_version) (
      field "schema_version" (int b.schema_version) (
        field "status" (text b.status) (
          field "approval_id" (text b.approval_id) (
            field "challenge_id" (text b.challenge_id) (
              field "approval_evidence_hash" (text b.approval_evidence_hash) (
                field "revalidation_id" (text b.revalidation_id) (
                  field "request_id" (text b.request_id) (
                    field "request_hash" (text b.request_hash) (
                      field "record_snapshot_hash" (text b.record_snapshot_hash) (
                        field "original_prerequisite_decision_id"
                          (text b.original_prerequisite_decision_id)
                          (field "fresh_prerequisite_decision_id"
                            (text b.fresh_prerequisite_decision_id)
                            (field "method_profile_id" (text b.method_profile_id) (
                              field "operation" (text b.operation) (
                                field "target_binding_hash" (text b.target_binding_hash) (
                                  field "constraint_evaluation_hash"
                                    (text b.constraint_evaluation_hash)
                                    (field "revalidated_at_utc" (text b.revalidated_at_utc) (
                                      field "prerequisite_valid_until_utc"
                                        (text b.prerequisite_valid_until_utc) end))))))))))))))))))

module _ (p : Platform) where
  -- Both texts are canonical timestamps, the first no later than the second.
  abbrev pub ordered_times : String → Option ℕ → String → Option ℕ → Bool
  ordered_times s none t u = false
  ordered_times s (some a) t none = false
  ordered_times s (some a) t (some b) = p.iso a == s && p.iso b == t && leb a b

  -- `_trusted_execution_binding_integrity_valid`
  unfoldable pub integrity_valid : TrustedExecutionBindingDecision → Bool
  integrity_valid b =
      b.policy_version == policy_version
      && int_eq b.schema_version (pos 1)
      && b.status == status_satisfied
      && all approval_text (b.approval_id ∷ b.challenge_id ∷ b.request_id ∷ [])
      && all exact_text (b.method_profile_id ∷ b.operation ∷ [])
      && all hash_value (
          b.approval_evidence_hash ∷ b.revalidation_id ∷ b.request_hash ∷ b.record_snapshot_hash
          ∷ b.original_prerequisite_decision_id ∷ b.fresh_prerequisite_decision_id
          ∷ b.target_binding_hash ∷ b.constraint_evaluation_hash ∷ [])
      && prefixed_hex "xeb_" b.binding_id
      && ordered_times b.revalidated_at_utc (parse_utc p b.revalidated_at_utc)
          b.prerequisite_valid_until_utc (parse_utc p b.prerequisite_valid_until_utc)
      && b.binding_id == ("xeb_" ++ p.digest (payload b))
