-- ===== src/Auth/Tests/Approvals.antt =====
-- A run of `record_human_approval`, and its theorem at that.
use drive_sanitization_manag.Prelude.{
  ◌≡◌, refl, [], ◌∷◌, List, String, none, some, ok, err, codes, codes_eq, if◌then◌else◌, is_space,
  strip,
}
use drive_sanitization_manag.Platform.{Platform, parse_utc, canonical_hash}
use drive_sanitization_manag.Auth.Types.{ApprovalChallenge}
use drive_sanitization_manag.Auth.Text.{approval_text, hash_value}
use drive_sanitization_manag.Auth.Gate.{ApprovalRegistry}
use drive_sanitization_manag.Auth.Approval
use drive_sanitization_manag.Auth.Approval.{
  approve, challenge_valid, evidence_for, record_human_approval, already_approved,
}
use drive_sanitization_manag.Auth.Approval.Grant.{
  ApprovalOutcome, record_human_approval-ApprovalOutcome,
}
use drive_sanitization_manag.Auth.Tests.Data.{challenge, registry}
use drive_sanitization_manag.Samples.{platform, early, late}

-- Two instants as far apart as a challenge lives.
abbrev slow_platform : Platform
slow_platform = record platform {
  from_iso = λ s.
      if codes_eq s (codes early)
      then some 0
      else if codes_eq s (codes late)
      then some 180000000
      else none;
}

abbrev open_challenge : ApprovalChallenge
open_challenge = record challenge { policy_version = Approval.policy_version }

abbrev open_registry : ApprovalRegistry
open_registry = record registry {
  challenges = λ id. some open_challenge;
  approvals = λ id. none;
  approved_challenges = [];
}

abbrev tokens : List String
tokens = "appr_" ∷ "appr_first" ∷ []

approval_given :
    (record_human_approval slow_platform "challenge-1" (some 0) tokens open_registry).0
    ≡ ok (evidence_for slow_platform open_challenge "appr_first" 0)
unfolding record_human_approval approve challenge_valid approval_text hash_value parse_utc
    canonical_hash is_space strip
approval_given = refl

approval_refused :
    (record_human_approval slow_platform "challenge-1"
      (some 0)
      tokens
      (record open_registry { approved_challenges = "challenge-1" ∷ [] })).0
    ≡ err already_approved
unfolding record_human_approval approve challenge_valid approval_text hash_value parse_utc
    canonical_hash is_space strip
approval_refused = refl

record_human_approval-ApprovalOutcome_example :
    ApprovalOutcome slow_platform "challenge-1"
      (some 0)
      open_registry
      (record_human_approval slow_platform "challenge-1" (some 0) tokens open_registry)
record_human_approval-ApprovalOutcome_example =
    record_human_approval-ApprovalOutcome slow_platform "challenge-1" (some 0) tokens open_registry
