-- ===== src/Attempt/Operations.antt =====
-- `record_execution_attempt` and `entry_for_authorization`. A capability is given with the flags that
-- the code reads of it, of its lease and of its scopes; the two readings of the reserved authorization
-- (`authorization_scope.record`, Executor.Live.reserved_state), the observations of the final safety
-- cycle (none where the call raises), the token of `secrets` and the clock are arguments.
use Prim.Native.String.{◌++◌ as join}
use drive_sanitization_manag.Prelude.{
  ℕ, String, Bool, true, false, ◌&&◌, ◌||◌, not, List, [], ◌∷◌, ◌++◌, all, any, Option, none, some,
  select, ◌==◌, Result, ok, err, ◌>>=◌, ◌>>◌, guard, if◌then◌else◌,
}
use drive_sanitization_manag.Value.{pos, py_eq}
use drive_sanitization_manag.Platform.{Platform}
use drive_sanitization_manag.Files.{Disk, Faults}
use drive_sanitization_manag.Auth.Text.{prefixed_hex}
use drive_sanitization_manag.Store.{StoreError, plain_text}
use drive_sanitization_manag.Store.Document.{ascii_hash}
use drive_sanitization_manag.Store.File.{read_locked, locked, locked_after, write_and}
use drive_sanitization_manag.Executor.Record
use drive_sanitization_manag.Executor.Record.{ExecutorAuthorizationRecord, state_reserved}
use drive_sanitization_manag.Executor.Operations.{ExecutorError, Identity, same_identity}
use drive_sanitization_manag.Attempt.Record.{
  ExecutionAttemptRecord, policy_version, state_attempting, record_value, record_payload,
  record_valid, layout,
}

-- Every refusal is an ExecutionAttemptError, but for what the reading of the authorization raises;
-- the constructors are its messages.
pub data AttemptError : Type 0 where
  of_store : StoreError → AttemptError
  of_executor : ExecutorError → AttemptError
  capability_inactive chain_unavailable identity_changed scope_lost : AttemptError
  authorization_unavailable already_exists descriptor_differs descriptor_changed : AttemptError
  live_identity_changed safety_failed authorization_changed id_invalid record_invalid : AttemptError
  verification_failed authorization_id_invalid authorization_duplicated : AttemptError

pub record Capability : Type 0 where
  pub active : Bool
  pub execution_authorized : Bool
  pub execution_supported : Bool
  pub executor_eligible : Bool
  pub execution_performed : Bool
  pub lease_consumed : Bool
  pub requires_future_executor : Bool
  -- The private chain: the scopes that are entered, the state and the identity of the lease, and the
  -- verdict of its integrity check.
  pub lease_scope_entered : Bool
  pub authorization_scope_entered : Bool
  pub claim_scope_entered : Bool
  pub lease_is_consumed : Bool
  pub lease_intact : Bool
  pub lease_identity : Identity
  -- What the capability froze.
  pub identity : Identity
  pub lease_binding_id : String
  pub authorization_id : String

-- The final safety cycle: what the pinned descriptor shows before and after, whether the fresh checks
-- pass, the identity of the scope, and the lease again.
pub record Cycle : Type 0 where
  pub observed : Option String
  pub checks_pass : Bool
  pub observed_after : Option String
  pub current_identity : Option Identity
  pub still_consumed : Bool
  pub still_intact : Bool

abbrev pub equal_identity : Identity → Identity → Bool
equal_identity i j =
    i.handoff_id == j.handoff_id
    && i.target_path == j.target_path
    && i.target_major_minor == j.target_major_minor
    && i.target_binding_hash == j.target_binding_hash

abbrev pub exact_identity : Identity → Bool
exact_identity i =
    all plain_text
      (i.handoff_id ∷ i.target_path ∷ i.target_major_minor ∷ i.target_binding_hash ∷ [])

-- `_active_capability_state`
unfoldable pub check_capability : Capability → Result AttemptError (Unit {0})
check_capability c = do
  guard
      (c.active
        && not c.execution_authorized
        && not c.execution_supported
        && not c.executor_eligible
        && not c.execution_performed
        && c.lease_consumed
        && c.requires_future_executor)
      capability_inactive
  guard
      (c.lease_scope_entered
        && c.authorization_scope_entered
        && exact_identity c.identity
        && prefixed_hex "xeli_" c.lease_binding_id
        && prefixed_hex "xeauth_" c.authorization_id
        && c.lease_is_consumed
        && c.lease_intact)
      chain_unavailable
  guard (equal_identity c.identity c.lease_identity) identity_changed
  guard c.claim_scope_entered scope_lost

abbrev pub or_failed : {A : Type 0} → Option A → Result AttemptError A
or_failed none = err safety_failed
or_failed (some a) = ok a

-- `_final_pinned_safety_cycle`
unfoldable pub final_cycle : Identity → Cycle → Result AttemptError (Unit {0})
final_cycle i c = do
  observed ← or_failed c.observed
  guard (observed == i.target_major_minor) descriptor_differs
  guard c.checks_pass safety_failed
  after ← or_failed c.observed_after
  guard (after == i.target_major_minor) descriptor_changed
  current ← or_failed c.current_identity
  guard (equal_identity current i && c.still_consumed && c.still_intact) live_identity_changed

-- An entry that the new attempt would repeat.
abbrev pub conflicts : Capability → ExecutorAuthorizationRecord → ExecutionAttemptRecord → Bool
conflicts c a e =
    e.authorization_id == c.authorization_id
    || e.lease_binding_id == c.lease_binding_id
    || e.handoff_id == c.identity.handoff_id
    || e.gate_id == a.gate_id
    || e.binding_id == a.binding_id

-- `==` of two authorizations: of the attributes that a lease is matched by, and of all fields.
abbrev pub same_record : ExecutorAuthorizationRecord → ExecutorAuthorizationRecord → Bool
same_record a b =
    a.gate_id == b.gate_id
    && a.binding_id == b.binding_id
    && py_eq (Record.record_value a) (Record.record_value b)

-- The one entry of an id is the record that was written.
abbrev pub is_written : ExecutionAttemptRecord → List ExecutionAttemptRecord → Bool
is_written r [] = false
is_written r (e ∷ []) = py_eq (record_value e) (record_value r)
is_written r (e ∷ f ∷ es) = false

abbrev pub with_id : String → List ExecutionAttemptRecord → List ExecutionAttemptRecord
with_id id es = select (λ (e : ExecutionAttemptRecord). e.attempt_id == id) es

abbrev pub of_authorization : String → List ExecutionAttemptRecord → List ExecutionAttemptRecord
of_authorization id es = select (λ (e : ExecutionAttemptRecord). e.authorization_id == id) es

abbrev pub at_most_one :
    List ExecutionAttemptRecord → Result AttemptError (Option ExecutionAttemptRecord)
at_most_one [] = ok none
at_most_one (e ∷ []) = ok (some e)
at_most_one (e ∷ f ∷ es) = err authorization_duplicated

abbrev pub lift_executor : {A : Type 0} → Result ExecutorError A → Result AttemptError A
lift_executor (ok a) = ok a
lift_executor (err e) = err (of_executor e)

abbrev pub unsigned_attempt : ExecutorAuthorizationRecord → String → String → ExecutionAttemptRecord
unsigned_attempt a attempt_id now = record {
  attempt_id = attempt_id;
  policy_version = policy_version;
  schema_version = pos 1;
  state = state_attempting;
  authorization_id = a.authorization_id;
  lease_binding_id = a.lease_binding_id;
  handoff_id = a.handoff_id;
  target_path = a.target_path;
  target_major_minor = a.target_major_minor;
  target_binding_hash = a.target_binding_hash;
  gate_id = a.gate_id;
  binding_id = a.binding_id;
  journal_policy_version = a.journal_policy_version;
  journal_schema_version = a.journal_schema_version;
  journal_state = a.journal_state;
  journal_entry_hash = a.journal_entry_hash;
  approval_id = a.approval_id;
  request_id = a.request_id;
  request_hash = a.request_hash;
  record_snapshot_hash = a.record_snapshot_hash;
  internal_record_id = a.internal_record_id;
  method_profile_id = a.method_profile_id;
  operation = a.operation;
  attempted_at_utc = now;
  execution_started_proven = false;
  execution_returned = false;
  sanitization_verified = false;
  automatic_replay_allowed = false;
  requires_manual_review_if_interrupted = true;
  record_hash = "sha256:0000000000000000000000000000000000000000000000000000000000000000";
}

module _ (p : Platform) (euid : ℕ) where
  open p use {Bytes, iso_micro}

  -- `_reserved_record_matches`
  abbrev pub reserved_matches : Capability → ExecutorAuthorizationRecord → Bool
  reserved_matches c a =
      Record.record_valid p a
      && a.state == state_reserved
      && a.authorization_id == c.authorization_id
      && a.lease_binding_id == c.lease_binding_id
      && same_identity c.identity a

  -- `_build_record`
  abbrev pub build_record : ExecutorAuthorizationRecord → String → ℕ → ExecutionAttemptRecord
  build_record a attempt_id now = record (unsigned_attempt a attempt_id (iso_micro now)) {
    record_hash = ascii_hash p (record_payload (unsigned_attempt a attempt_id (iso_micro now)));
  }

  -- The authorization that is read first.
  abbrev pub check_before :
      Capability
      → Result ExecutorError ExecutorAuthorizationRecord
      → Result AttemptError ExecutorAuthorizationRecord
  check_before c before = do
    a ← lift_executor before
    guard (reserved_matches c a) authorization_unavailable
    ok a

  -- The record that is to be written, or the refusal.
  unfoldable pub new_attempt :
      Capability
      → Cycle
      → String
      → ℕ
      → Result ExecutorError ExecutorAuthorizationRecord
      → ExecutorAuthorizationRecord
      → List ExecutionAttemptRecord
      → Result AttemptError ExecutionAttemptRecord
  new_attempt c cycle token now after b es = do
    guard (not (any (conflicts c b) es)) already_exists
    final_cycle c.identity cycle
    a ← lift_executor after
    guard (same_record a b && reserved_matches c a) authorization_changed
    guard (prefixed_hex "xeattempt_" (join "xeattempt_" token)) id_invalid
    guard (record_valid p (build_record a (join "xeattempt_" token) now)) record_invalid
    ok (build_record a (join "xeattempt_" token) now)

  -- The reading after the write.
  abbrev pub verify :
      ExecutionAttemptRecord
      → Result StoreError (List ExecutionAttemptRecord)
      → Result AttemptError ExecutionAttemptRecord
  verify r (err e) = err (of_store e)
  verify r (ok es) =
      if is_written r (with_id r.attempt_id es) then ok r else err verification_failed

  abbrev pub add_attempt :
      Result AttemptError ExecutionAttemptRecord
      → Faults
      → Faults
      → List ExecutionAttemptRecord
      → Disk Bytes
      → Result AttemptError ExecutionAttemptRecord × Disk Bytes
  add_attempt (err e) f again es d = (err e, d)
  add_attempt (ok r) f again es d =
      write_and p euid (layout p) of_store f (es ++ r ∷ []) d
        (λ d'. (verify r (read_locked p euid (layout p) again d'), d'))

  abbrev pub attempt_within :
      Result AttemptError (Unit {0})
      → Capability
      → Cycle
      → String
      → ℕ
      → Result ExecutorError ExecutorAuthorizationRecord
      → Result ExecutorError ExecutorAuthorizationRecord
      → Faults
      → Faults
      → Disk Bytes
      → Result AttemptError ExecutionAttemptRecord × Disk Bytes
  attempt_within (err e) c cycle token now before after f again d = (err e, d)
  attempt_within (ok u) c cycle token now before after f again d =
      locked_after p euid (layout p) of_store f d (check_before c before)
        (λ b es d₁. add_attempt (new_attempt c cycle token now after b es) f again es d₁)

  -- `record_execution_attempt`
  unfoldable pub record_execution_attempt :
      Capability
      → Cycle
      → String
      → ℕ
      → Result ExecutorError ExecutorAuthorizationRecord
      → Result ExecutorError ExecutorAuthorizationRecord
      → Faults
      → Faults
      → Disk Bytes
      → Result AttemptError ExecutionAttemptRecord × Disk Bytes
  record_execution_attempt c cycle token now before after f again d =
      attempt_within (check_capability c) c cycle token now before after f again d

  -- `entry_for_authorization`
  unfoldable pub attempt_for_authorization :
      String
      → Faults
      → Disk Bytes
      → Result AttemptError (Option ExecutionAttemptRecord) × Disk Bytes
  attempt_for_authorization id f d =
      if prefixed_hex "xeauth_" id
      then locked p euid (layout p) of_store f d
          (λ es d₁. (at_most_one (of_authorization id es), d₁))
      else (err authorization_id_invalid, d)
