-- ===== src/Auth/Approval.antt =====
-- `ApprovalRegistry.record_human_approval`: the challenge it looks up, the evidence it makes, and the
-- registry it leaves. The clock (none where it is invalid) and the tokens that `secrets` returns are
-- arguments. The method holds the lock of the registry from the lookup on.
pub mod Grant
use drive_sanitization_manag.Prelude.{
  ℕ, zero, suc, ◌+◌, String, Bool, true, false, ◌&&◌, not, List, [], ◌∷◌, Option, none, some, all,
  ltb, leb, ◌==ℕ◌, ◌==◌, codes, member, Result, ok, err, ◌>>=◌, ◌>>◌, guard, if◌then◌else◌,
}
use drive_sanitization_manag.Value.{Value, pos, int_eq, int, text, obj, end, field}
use drive_sanitization_manag.Platform.{Platform, parse_utc, canonical_hash}
use drive_sanitization_manag.Tokens.{allocate, is_some}
use drive_sanitization_manag.Auth.Text.{drop_prefix, hash_value, approval_text}
use drive_sanitization_manag.Auth.Types.{ApprovalChallenge, HumanApprovalEvidence}
use drive_sanitization_manag.Auth.Gate.{ApprovalRegistry, max_future_skew}

-- Every refusal is an ApprovalError; the constructors are its messages.
pub data ApprovalError : Type 0 where
  challenge_id_invalid challenge_unknown already_approved clock_invalid : ApprovalError
  timestamps_invalid clock_behind challenge_expired no_token : ApprovalError

abbrev pub policy_version : String
policy_version = "phase6a2-approval-v1"

-- APPROVAL_CHALLENGE_LIFETIME_SECONDS and APPROVAL_REVALIDATION_WINDOW_SECONDS, in microseconds
abbrev pub challenge_lifetime : ℕ
challenge_lifetime = 180000000

abbrev pub revalidation_window : ℕ
revalidation_window = 30000000

-- _APPROVAL_TOKEN_ALLOCATION_MAX_ATTEMPTS
abbrev pub max_attempts : ℕ
max_attempts = 32

-- `_challenge_payload`
abbrev pub challenge_payload : ApprovalChallenge → Value
challenge_payload c = obj (
    field "challenge_id" (text c.challenge_id) (
      field "policy_version" (text policy_version) (
        field "schema_version" (int (pos 1)) (
          field "request_id" (text c.request_id) (
            field "request_hash" (text c.request_hash) (
              field "record_snapshot_hash" (text c.record_snapshot_hash) (
                field "prerequisite_decision_id" (text c.prerequisite_decision_id) (
                  field "target_binding_hash" (text c.target_binding_hash) (
                    field "created_at_utc" (text c.created_at_utc)
                      (field "valid_until_utc" (text c.valid_until_utc) end))))))))))

-- `_approval_evidence_payload`
abbrev pub evidence_payload : HumanApprovalEvidence → Value
evidence_payload e = obj (
    field "approval_id" (text e.approval_id) (
      field "challenge_id" (text e.challenge_id) (
        field "policy_version" (text policy_version) (
          field "schema_version" (int (pos 1)) (
            field "request_id" (text e.request_id) (
              field "request_hash" (text e.request_hash) (
                field "record_snapshot_hash" (text e.record_snapshot_hash) (
                  field "prerequisite_decision_id" (text e.prerequisite_decision_id) (
                    field "target_binding_hash" (text e.target_binding_hash) (
                      field "approved_at_utc" (text e.approved_at_utc) (
                        field "revalidation_valid_until_utc" (text e.revalidation_valid_until_utc)
                          end)))))))))))

abbrev pub or_raise : {A : Type 0} → Option A → ApprovalError → Result ApprovalError A
or_raise none e = err e
or_raise (some a) e = ok a

abbrev pub nonempty_suffix : Option (List ℕ) → Bool
nonempty_suffix none = false
nonempty_suffix (some []) = false
nonempty_suffix (some (c ∷ rest)) = true

-- The test of a candidate for a token that starts with the prefix.
abbrev pub usable : String → (String → Bool) → String → Bool
usable prefix taken t =
    approval_text t && nonempty_suffix (drop_prefix (codes prefix) (codes t)) && not (taken t)

abbrev pub with_approval :
    Result ApprovalError HumanApprovalEvidence
    → String
    → ApprovalRegistry
    → Result ApprovalError HumanApprovalEvidence × ApprovalRegistry
with_approval (err e) challenge_id r = (err e, r)
with_approval (ok v) challenge_id r = (
  ok v,
  record r {
    approvals = λ id. if id == v.approval_id then some v else r.approvals id;
    approved_challenges = challenge_id ∷ r.approved_challenges;
  },
)

module _ (p : Platform) where
  -- The two times are canonical, and the challenge lives as long as the policy says.
  abbrev pub lifetime_valid : ApprovalChallenge → Option ℕ → Option ℕ → Bool
  lifetime_valid c none u = false
  lifetime_valid c (some created) none = false
  lifetime_valid c (some created) (some until) =
      p.iso created == c.created_at_utc
      && p.iso until == c.valid_until_utc
      && until ==ℕ created + challenge_lifetime

  -- `_approval_challenge_integrity_valid`
  unfoldable pub challenge_valid : ApprovalChallenge → Bool
  challenge_valid c =
      c.policy_version == policy_version
      && int_eq c.schema_version (pos 1)
      && all approval_text (c.challenge_id ∷ c.request_id ∷ [])
      && all hash_value (
          c.request_hash ∷ c.record_snapshot_hash ∷ c.prerequisite_decision_id
          ∷ c.target_binding_hash ∷ c.challenge_hash ∷ [])
      && lifetime_valid c (parse_utc p c.created_at_utc) (parse_utc p c.valid_until_utc)
      && c.challenge_hash == canonical_hash p (challenge_payload c)

  abbrev pub unsigned : ApprovalChallenge → String → ℕ → HumanApprovalEvidence
  unsigned c approval_id now = record {
    approval_id = approval_id;
    challenge_id = c.challenge_id;
    policy_version = policy_version;
    schema_version = pos 1;
    request_id = c.request_id;
    request_hash = c.request_hash;
    record_snapshot_hash = c.record_snapshot_hash;
    prerequisite_decision_id = c.prerequisite_decision_id;
    target_binding_hash = c.target_binding_hash;
    approved_at_utc = p.iso now;
    revalidation_valid_until_utc = p.iso (now + revalidation_window);
    evidence_hash = "";
  }

  abbrev pub evidence_for : ApprovalChallenge → String → ℕ → HumanApprovalEvidence
  evidence_for c approval_id now = record (unsigned c approval_id now) {
    evidence_hash = canonical_hash p (evidence_payload (unsigned c approval_id now));
  }

  -- The checks under the lock, and the evidence.
  unfoldable pub approve :
      String
      → Option ℕ
      → List String
      → ApprovalRegistry
      → Result ApprovalError HumanApprovalEvidence
  approve challenge_id clock tokens r = do
    guard (approval_text challenge_id) challenge_id_invalid
    c ← or_raise (r.challenges challenge_id) challenge_unknown
    guard (challenge_valid c) challenge_unknown
    guard (not (member challenge_id r.approved_challenges)) already_approved
    now ← or_raise clock clock_invalid
    created ← or_raise (parse_utc p c.created_at_utc) timestamps_invalid
    until ← or_raise (parse_utc p c.valid_until_utc) timestamps_invalid
    guard (not (ltb (now + max_future_skew) created)) clock_behind
    guard (not (ltb until now)) challenge_expired
    approval_id ←
        or_raise (allocate (usable "appr_" (λ t. is_some (r.approvals t))) max_attempts tokens)
          no_token
    ok (evidence_for c approval_id now)

  -- `record_human_approval`
  unfoldable pub record_human_approval :
      String
      → Option ℕ
      → List String
      → ApprovalRegistry
      → Result ApprovalError HumanApprovalEvidence × ApprovalRegistry
  record_human_approval challenge_id clock tokens r =
      with_approval (approve challenge_id clock tokens r) challenge_id r
