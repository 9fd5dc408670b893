-- ===== src/Auth/Types.antt =====
-- The frozen records of sanitization_authorization.py that the execution gate reads.
use drive_sanitization_manag.Prelude.{String, Bool, Option, List}
use drive_sanitization_manag.Value.{ℤ}

pub record TargetIdentityBinding : Type 0 where
  pub path : String
  pub serial : Option String
  pub wwn : Option String
  pub size_bytes : ℤ
  pub model : Option String
  pub transport : Option String
  pub read_only : Bool
  pub mounted : Bool
  pub protected : Bool
  pub system_protected : Bool
  pub review_required : Bool
  pub ambiguous : Bool
  pub major_minor : Option String

pub record AuthorizationDecision : Type 0 where
  pub decision_id : String
  pub policy_version : String
  pub schema_version : ℤ
  pub evidence_origin : String
  pub request_id : String
  pub request_hash : Option String
  pub record_snapshot_hash : Option String
  pub discovery_snapshot_hash : Option String
  pub target_binding_hash : Option String
  pub status : String
  pub reason_codes : List String
  pub evaluated_at_utc : String
  pub discovery_captured_at_utc : String
  pub prerequisite_valid_until_utc : Option String
  pub target_binding : Option TargetIdentityBinding

pub record ApprovalChallenge : Type 0 where
  pub challenge_id : String
  pub policy_version : String
  pub schema_version : ℤ
  pub request_id : String
  pub request_hash : String
  pub record_snapshot_hash : String
  pub prerequisite_decision_id : String
  pub target_binding_hash : String
  pub created_at_utc : String
  pub valid_until_utc : String
  pub challenge_hash : String

pub record HumanApprovalEvidence : Type 0 where
  pub approval_id : String
  pub challenge_id : String
  pub policy_version : String
  pub schema_version : ℤ
  pub request_id : String
  pub request_hash : String
  pub record_snapshot_hash : String
  pub prerequisite_decision_id : String
  pub target_binding_hash : String
  pub approved_at_utc : String
  pub revalidation_valid_until_utc : String
  pub evidence_hash : String

pub record ApprovalRevalidationDecision : Type 0 where
  pub revalidation_id : String
  pub policy_version : String
  pub schema_version : ℤ
  pub approval_id : String
  pub challenge_id : Option String
  pub request_id : Option String
  pub original_prerequisite_decision_id : Option String
  pub fresh_prerequisite_decision_id : Option String
  pub original_target_binding_hash : Option String
  pub fresh_target_binding_hash : Option String
  pub status : String
  pub reason_codes : List String
  pub evaluated_at_utc : String

pub record TrustedExecutionBindingDecision : Type 0 where
  pub binding_id : String
  pub policy_version : String
  pub schema_version : ℤ
  pub status : String
  pub approval_id : String
  pub challenge_id : String
  pub approval_evidence_hash : String
  pub revalidation_id : String
  pub request_id : String
  pub request_hash : String
  pub record_snapshot_hash : String
  pub original_prerequisite_decision_id : String
  pub fresh_prerequisite_decision_id : String
  pub method_profile_id : String
  pub operation : String
  pub target_binding_hash : String
  pub constraint_evaluation_hash : String
  pub revalidated_at_utc : String
  pub prerequisite_valid_until_utc : String

pub record OneShotExecutionGateDecision : Type 0 where
  pub gate_id : String
  pub policy_version : String
  pub schema_version : ℤ
  pub status : String
  pub binding_id : String
  pub approval_id : String
  pub challenge_id : String
  pub approval_evidence_hash : String
  pub revalidation_id : String
  pub request_id : String
  pub request_hash : String
  pub record_snapshot_hash : String
  pub fresh_prerequisite_decision_id : String
  pub method_profile_id : String
  pub operation : String
  pub target_binding_hash : String
  pub constraint_evaluation_hash : String
  pub evaluated_at_utc : String
  pub prerequisite_valid_until_utc : String

pub record DurableExecutionGateJournalEntry : Type 0 where
  pub binding_id : String
  pub state : String
  pub request_hash : String
  pub record_snapshot_hash : String
  pub target_binding_hash : String
  pub reserved_at_utc : String
  pub gate_id : Option String
  pub completed_at_utc : Option String
  pub entry_hash : String
