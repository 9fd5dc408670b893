-- ===== src/Seam.antt =====
-- execution_seam.py: the private scope that binds an active capability to its attempt, and gives its
-- descriptor out once. An object is named by its identity; what the other modules answer at each call
-- (the capability and its chain, the lease, the claim, the safety cycle, the authorization) is an
-- argument.
pub mod Held
pub mod Steps
pub mod Once
mod Tests
use drive_sanitization_manag.Prelude.{
  ℕ, String, Bool, true, false, ◌&&◌, not, List, [], ◌∷◌, Option, none, some, codes, ◌==◌, ◌==ℕ◌,
  Result, ok, err, ◌>>=◌, ◌>>◌, guard, if◌then◌else◌,
}
use drive_sanitization_manag.Value.{ℤ, int_eq, pos, negsuc}
use drive_sanitization_manag.Platform.{Platform}
use drive_sanitization_manag.Files.{Disk, Faults}
use drive_sanitization_manag.Auth.Journal
use drive_sanitization_manag.Store.{StoreError, nonempty}
use drive_sanitization_manag.Store.File.{open_lock, read_locked}
use drive_sanitization_manag.Executor.Record.{ExecutorAuthorizationRecord}
use drive_sanitization_manag.Executor.Operations.{ExecutorError, Identity}
use drive_sanitization_manag.Attempt.Record.{
  ExecutionAttemptRecord, state_attempting, record_valid, layout,
}
use drive_sanitization_manag.Attempt.Operations.{
  AttemptError, Capability, Cycle, equal_identity, check_capability, final_cycle, reserved_matches,
  same_record, is_written, with_id,
}

pub data SeamError : Type 0 where
  of_attempt : AttemptError → SeamError
  of_executor : ExecutorError → SeamError
  of_store : StoreError → SeamError
  record_invalid single_use semantics_changed attempt_mismatch attempt_unavailable : SeamError
  claim_unavailable claim_inconsistent descriptor_unavailable descriptor_differs : SeamError
  chain_changed authorization_changed attempt_changed claim_changed : SeamError
  inactive already_issued lock_lost : SeamError

-- What `_active_capability_state` reads and returns.
pub record Sight : Type 0 where
  pub capability : Capability
  pub lease : ℕ
  pub lease_scope : ℕ
  pub claim_scope : ℕ
  pub authorization_scope : ℕ

pub record LeaseSemantics : Type 0 where
  pub absolute_write_exclusion_guaranteed : Bool
  pub ordinary_raw_writers_excluded : Bool
  pub execution_supported : Bool
  pub executor_eligible : Bool
  pub execution_authorized : Bool
  pub internal_integrity_binding_only : Bool
  pub external_authorization_proven : Bool

-- What `claim_scope._state_locked()` returns.
pub record Claim : Type 0 where
  pub held_reference : ℕ
  pub identity : Identity
  pub pre_continuity_id : String
  pub post_continuity_id : String
  pub fd : ℤ

-- What the scope keeps while it is entered.
pub record Frozen : Type 0 where
  pub chain : Sight
  pub authorization : ExecutorAuthorizationRecord
  pub claim : Claim

pub record Seam : Type 0 where
  pub attempt_record : ExecutionAttemptRecord
  pub used : Bool
  pub entered : Bool
  pub descriptor_issued : Bool
  pub attempt_lock_fd : Option ℕ
  pub frozen : Option Frozen

-- What an entry sees, in its order. A reading that raises has no value.
pub record Entry : Type 0 where
  pub before : Sight
  pub semantics : LeaseSemantics
  pub lock_faults : Faults
  pub lock_fd : ℕ
  pub authorization_before : Result ExecutorError ExecutorAuthorizationRecord
  pub first_read : Faults
  pub claim_before : Option Claim
  pub cycle : Cycle
  pub observed : Option String
  pub after : Sight
  pub authorization_after : Result ExecutorError ExecutorAuthorizationRecord
  pub second_read : Faults
  pub claim_after : Option Claim

-- What a use of the descriptor sees.
pub record Use : Type 0 where
  pub now : Sight
  pub cycle : Cycle
  pub observed : Option String
  pub authorization : Result ExecutorError ExecutorAuthorizationRecord
  pub read : Faults
  pub claim : Option Claim

abbrev pub lift_attempt : {A : Type 0} → Result AttemptError A → Result SeamError A
lift_attempt (ok a) = ok a
lift_attempt (err e) = err (of_attempt e)

abbrev pub lift_executor : {A : Type 0} → Result ExecutorError A → Result SeamError A
lift_executor (ok a) = ok a
lift_executor (err e) = err (of_executor e)

abbrev pub or_seam_error : {A : Type 0} → Option A → SeamError → Result SeamError A
or_seam_error none e = err e
or_seam_error (some a) e = ok a

-- `_same_chain`
abbrev pub same_chain : Sight → Sight → Bool
same_chain s t =
    s.lease ==ℕ t.lease
    && s.lease_scope ==ℕ t.lease_scope
    && s.claim_scope ==ℕ t.claim_scope
    && s.authorization_scope ==ℕ t.authorization_scope
    && equal_identity s.capability.identity t.capability.identity
    && s.capability.lease_binding_id == t.capability.lease_binding_id
    && s.capability.authorization_id == t.capability.authorization_id

abbrev pub conservative : LeaseSemantics → Bool
conservative l =
    not l.absolute_write_exclusion_guaranteed
    && not l.ordinary_raw_writers_excluded
    && not l.execution_supported
    && not l.executor_eligible
    && not l.execution_authorized
    && l.internal_integrity_binding_only
    && not l.external_authorization_proven

abbrev pub is_descriptor : ℤ → Bool
is_descriptor (pos n) = true
is_descriptor (negsuc n) = false

-- `_claim_state_locked`
unfoldable pub claim_state : Identity → Option Claim → Result SeamError Claim
claim_state i claim = do
  c ← or_seam_error claim claim_unavailable
  guard
      (equal_identity c.identity i
        && nonempty (codes c.pre_continuity_id)
        && nonempty (codes c.post_continuity_id)
        && is_descriptor c.fd)
      claim_inconsistent
  ok c

abbrev pub same_claim : Claim → Claim → Bool
same_claim b c =
    b.held_reference ==ℕ c.held_reference
    && b.pre_continuity_id == c.pre_continuity_id
    && b.post_continuity_id == c.post_continuity_id
    && int_eq b.fd c.fd

-- The fields that an attempt copies from its authorization.
abbrev pub same_provenance : ExecutionAttemptRecord → ExecutorAuthorizationRecord → Bool
same_provenance r a =
    r.authorization_id == a.authorization_id
    && r.lease_binding_id == a.lease_binding_id
    && r.handoff_id == a.handoff_id
    && r.target_path == a.target_path
    && r.target_major_minor == a.target_major_minor
    && r.target_binding_hash == a.target_binding_hash
    && r.gate_id == a.gate_id
    && r.binding_id == a.binding_id
    && r.journal_policy_version == a.journal_policy_version
    && int_eq r.journal_schema_version a.journal_schema_version
    && r.journal_state == a.journal_state
    && r.journal_entry_hash == a.journal_entry_hash
    && r.approval_id == a.approval_id
    && r.request_id == a.request_id
    && r.request_hash == a.request_hash
    && r.record_snapshot_hash == a.record_snapshot_hash
    && r.internal_record_id == a.internal_record_id
    && r.method_profile_id == a.method_profile_id
    && r.operation == a.operation

abbrev pub persisted_in :
    ExecutionAttemptRecord → Result StoreError (List ExecutionAttemptRecord) → Bool
persisted_in r (err e) = false
persisted_in r (ok es) = is_written r (with_id r.attempt_id es)

abbrev pub closed : Seam → Seam
closed s = record s { entered = false; attempt_lock_fd = none; frozen = none }

-- `__exit__`
unfoldable pub exit : Seam → Result SeamError (Unit {0}) × Seam
exit s =
    if s.entered
    then ((or_seam_error s.attempt_lock_fd lock_lost >>= λ fd. ok tt), closed s)
    else (err inactive, s)

module _ (p : Platform) (euid : ℕ) where
  open p use {Bytes}

  -- `_attempt_matches`
  unfoldable pub attempt_matches :
      ExecutionAttemptRecord → ExecutorAuthorizationRecord → Capability → Bool
  attempt_matches r a c =
      record_valid p r
      && r.state == state_attempting
      && not r.execution_started_proven
      && not r.execution_returned
      && not r.sanitization_verified
      && not r.automatic_replay_allowed
      && r.requires_manual_review_if_interrupted
      && reserved_matches p euid c a
      && a.journal_state == Journal.state_completed
      && same_provenance r a

  -- `_persisted_exact`
  unfoldable pub persisted_exact : ExecutionAttemptRecord → Faults → Disk Bytes → Bool
  persisted_exact r f d = persisted_in r (read_locked p euid (layout p) f d)

  -- `__init__`
  unfoldable pub new_seam : ExecutionAttemptRecord → Result SeamError Seam
  new_seam r = do
    guard (record_valid p r) record_invalid
    ok (record {
      attempt_record = r;
      used = false;
      entered = false;
      descriptor_issued = false;
      attempt_lock_fd = none;
      frozen = none;
    })

  -- The body of `__enter__` under the lock.
  unfoldable pub inspect : Entry → ExecutionAttemptRecord → Disk Bytes → Result SeamError Frozen
  inspect e r d = do
    a ← lift_executor e.authorization_before
    guard (attempt_matches r a e.before.capability) attempt_mismatch
    guard (persisted_exact r e.first_read d) attempt_unavailable
    c ← claim_state e.before.capability.identity e.claim_before
    lift_attempt (final_cycle e.before.capability.identity e.cycle)
    observed ← or_seam_error e.observed descriptor_unavailable
    guard (observed == e.before.capability.identity.target_major_minor) descriptor_differs
    lift_attempt (check_capability e.after.capability)
    guard (same_chain e.before e.after) chain_changed
    b ← lift_executor e.authorization_after
    guard (same_record b a && attempt_matches r b e.before.capability) authorization_changed
    guard (persisted_exact r e.second_read d) attempt_changed
    now ← claim_state e.before.capability.identity e.claim_after
    guard (same_claim now c) claim_changed
    ok (record { chain = e.before; authorization = a; claim = c })

  abbrev pub after_inspection :
      Result SeamError Frozen
      → ℕ
      → Seam
      → Disk Bytes
      → Result SeamError (Unit {0}) × Seam × Disk Bytes
  after_inspection (err x) fd s d = (err x, s, d)
  after_inspection (ok frozen) fd s d =
      (ok tt, record s { entered = true; attempt_lock_fd = some fd; frozen = some frozen }, d)

  abbrev pub after_lock :
      Result StoreError (Unit {0}) × Disk Bytes
      → Entry
      → Seam
      → Result SeamError (Unit {0}) × Seam × Disk Bytes
  after_lock (err x, d) e s = (err (of_store x), s, d)
  after_lock (ok u, d) e s = after_inspection (inspect e s.attempt_record d) e.lock_fd s d

  abbrev pub after_chain :
      Result SeamError (Unit {0})
      → Entry
      → Seam
      → Disk Bytes
      → Result SeamError (Unit {0}) × Seam × Disk Bytes
  after_chain (err x) e s d = (err x, s, d)
  after_chain (ok u) e s d = after_lock (open_lock euid e.lock_faults d) e s

  -- `__enter__`
  unfoldable pub enter : Entry → Seam → Disk Bytes → Result SeamError (Unit {0}) × Seam × Disk Bytes
  enter e s d =
      if s.used
      then (err single_use, s, d)
      else after_chain
          (lift_attempt (check_capability e.before.capability)
            >> guard (conservative e.semantics) semantics_changed)
          e (record s { used = true }) d

  -- The checks of `_descriptor_locked`, and the descriptor. A scope that is entered has its chain.
  unfoldable pub check_use : Use → Seam → Disk Bytes → Result SeamError ℤ
  check_use u s d = do
    guard s.entered inactive
    guard (not s.descriptor_issued) already_issued
    lift_attempt (check_capability u.now.capability)
    frozen ← or_seam_error s.frozen chain_changed
    guard (same_chain frozen.chain u.now) chain_changed
    lift_attempt (final_cycle frozen.chain.capability.identity u.cycle)
    observed ← or_seam_error u.observed descriptor_unavailable
    guard (observed == frozen.chain.capability.identity.target_major_minor) descriptor_differs
    a ← lift_executor u.authorization
    guard (same_record a frozen.authorization) authorization_changed
    guard (persisted_exact s.attempt_record u.read d) attempt_changed
    c ← claim_state frozen.chain.capability.identity u.claim
    guard (same_claim c frozen.claim) claim_changed
    ok frozen.claim.fd

  abbrev pub issue : Result SeamError ℤ → Seam → Result SeamError ℤ × Seam
  issue (err x) s = (err x, s)
  issue (ok fd) s = (ok fd, record s { descriptor_issued = true })

  -- `_descriptor_locked`
  unfoldable pub descriptor_locked : Use → Seam → Disk Bytes → Result SeamError ℤ × Seam
  descriptor_locked u s d = issue (check_use u s d) s
