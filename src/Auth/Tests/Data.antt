-- ===== src/Auth/Tests/Data.antt =====
-- The data of the runs: a binding with its evidence, and calls.
use Prim.Native.String.{◌++◌}
use drive_sanitization_manag.Prelude.{[], ◌∷◌, none, some, true}
use drive_sanitization_manag.Value.{pos}
use drive_sanitization_manag.Auth.Types.{
  AuthorizationDecision, ApprovalChallenge, HumanApprovalEvidence, ApprovalRevalidationDecision,
  TrustedExecutionBindingDecision,
}
use drive_sanitization_manag.Auth.Binding
use drive_sanitization_manag.Auth.Gate.{ApprovalRegistry}
use drive_sanitization_manag.Auth.Gate.Once.{Attempt}
use drive_sanitization_manag.Auth.Durable.{Call}
use drive_sanitization_manag.Samples.{zeros, hash, early, late, no_faults}

abbrev pub binding : TrustedExecutionBindingDecision
binding = record {
  binding_id = "xeb_" ++ zeros;
  policy_version = Binding.policy_version;
  schema_version = pos 1;
  status = Binding.status_satisfied;
  approval_id = "approval-1";
  challenge_id = "challenge-1";
  approval_evidence_hash = hash;
  revalidation_id = hash;
  request_id = "request-1";
  request_hash = hash;
  record_snapshot_hash = hash;
  original_prerequisite_decision_id = hash;
  fresh_prerequisite_decision_id = hash;
  method_profile_id = "profile";
  operation = "clear";
  target_binding_hash = hash;
  constraint_evaluation_hash = hash;
  revalidated_at_utc = early;
  prerequisite_valid_until_utc = late;
}

abbrev pub challenge : ApprovalChallenge
challenge = record {
  challenge_id = "challenge-1";
  policy_version = "";
  schema_version = pos 1;
  request_id = "request-1";
  request_hash = hash;
  record_snapshot_hash = hash;
  prerequisite_decision_id = hash;
  target_binding_hash = hash;
  created_at_utc = early;
  valid_until_utc = late;
  challenge_hash = hash;
}

abbrev pub evidence : HumanApprovalEvidence
evidence = record {
  approval_id = "approval-1";
  challenge_id = "challenge-1";
  policy_version = "";
  schema_version = pos 1;
  request_id = "request-1";
  request_hash = hash;
  record_snapshot_hash = hash;
  prerequisite_decision_id = hash;
  target_binding_hash = hash;
  approved_at_utc = early;
  revalidation_valid_until_utc = late;
  evidence_hash = hash;
}

abbrev pub revalidation : ApprovalRevalidationDecision
revalidation = record {
  revalidation_id = hash;
  policy_version = "";
  schema_version = pos 1;
  approval_id = "approval-1";
  challenge_id = some "challenge-1";
  request_id = some "request-1";
  original_prerequisite_decision_id = some hash;
  fresh_prerequisite_decision_id = some hash;
  original_target_binding_hash = some hash;
  fresh_target_binding_hash = some hash;
  status = "satisfied";
  reason_codes = [];
  evaluated_at_utc = early;
}

abbrev pub decision : AuthorizationDecision
decision = record {
  decision_id = hash;
  policy_version = "";
  schema_version = pos 1;
  evidence_origin = "";
  request_id = "request-1";
  request_hash = some hash;
  record_snapshot_hash = some hash;
  discovery_snapshot_hash = some hash;
  target_binding_hash = some hash;
  status = "satisfied";
  reason_codes = [];
  evaluated_at_utc = early;
  discovery_captured_at_utc = early;
  prerequisite_valid_until_utc = some late;
  target_binding = none;
}

abbrev pub registry : ApprovalRegistry
registry = record {
  challenges = λ id. some challenge;
  approvals = λ id. some evidence;
  approved_challenges = "challenge-1" ∷ [];
  consumed_approvals = "approval-1" ∷ [];
  successful_revalidations = λ id. some (revalidation, decision);
  consumed_execution_bindings = [];
}

abbrev pub call : Call
call = record {
  built = some binding;
  rebuilt = some binding;
  approval_id = "approval-1";
  journal_clock = some 0;
  first_clock = some 0;
  locked_clock = some 60000000;
  registry = registry;
  reserve_faults = no_faults;
  rollback_faults = no_faults;
  complete_faults = no_faults;
}

-- The gate's clock is past the expiry of the binding.
abbrev pub late_call : Call
late_call = record call { locked_clock = some 60000001 }

-- The system fails before the completion replaces the file.
abbrev pub cut_call : Call
cut_call = record call { complete_faults = record no_faults { before_replace = true } }

-- The reservation of a call that does not find the journal.
abbrev pub blind_call : Call
blind_call = record call { reserve_faults = record no_faults { lookup_fails = true } }

abbrev pub retry : Attempt
retry = record {
  world = registry;
  built = some binding;
  approval_id = "approval-1";
  first_clock = some 0;
  locked_clock = some 60000000;
}
