-- ===== src/Executor/Live.antt =====
-- `_handoff_and_journal_provenance`, `record_trusted_executor_authorization` and
-- `reserve_executor_authorization`. A handoff comes with the verdict of its integrity check; the scope
-- of the lease gives its identity and its binding id, or nothing where it raises. A lease is named by
-- its object's identity; `_LIVE_AUTHORIZATIONS` is the list of its entries.
use drive_sanitization_manag.Prelude.{
  ℕ, String, Bool, false, ◌&&◌, List, [], ◌∷◌, Option, none, some, any, ◌==◌, ◌==ℕ◌, Result, ok,
  err, ◌>>=◌, ◌>>◌, guard, if◌then◌else◌,
}
use drive_sanitization_manag.Value.{ℤ, pos, int_eq}
use drive_sanitization_manag.Platform.{Platform}
use drive_sanitization_manag.Files.{Disk, Faults}
use drive_sanitization_manag.Auth.Text.{prefixed_hex}
use drive_sanitization_manag.Auth.Types.{DurableExecutionGateJournalEntry}
use drive_sanitization_manag.Auth.Journal
use drive_sanitization_manag.Auth.Journal.{JournalError, state_completed, entry_valid}
use drive_sanitization_manag.Auth.Journal.Operations.{entry_for_binding}
use drive_sanitization_manag.Store.{StoreError, plain_text}
use drive_sanitization_manag.Executor.Record.{
  ExecutorAuthorizationRecord, state_reserved, record_valid, layout,
}
use drive_sanitization_manag.Executor.Operations.{
  ExecutorError, id_invalid, handoff_invalid, handoff_incomplete, journal_unavailable,
  journal_mismatch, record_id_unavailable, lease_unavailable, lease_exit_failed, handoff_mismatch,
  live_collision, not_live, scope_unavailable, scope_mismatch, scope_not_live, of_store, Provenance,
  Identity, same_identity, or_raise, matching, only_one, authorize, reserve,
}
use drive_sanitization_manag.Store.File.{read_locked}

-- The fields of ImmutableExecutionHandoffContract that are read here.
pub record Handoff : Type 0 where
  pub handoff_id : String
  pub gate_id : String
  pub binding_id : String
  pub journal_policy_version : String
  pub journal_schema_version : ℤ
  pub journal_state : String
  pub journal_entry_hash : String
  pub approval_id : String
  pub request_id : String
  pub request_hash : String
  pub record_snapshot_hash : String
  pub internal_record_id : String
  pub method_profile_id : String
  pub operation : String
  pub target_binding_hash : String

-- What the locked scope of a lease shows.
pub record Scope : Type 0 where
  pub identity : Identity
  pub lease_binding_id : String

abbrev pub Live : Type 0
Live = List (String × ℕ)

-- `_LIVE_AUTHORIZATIONS.get(id) is lease`
abbrev pub attached : String → ℕ → Live → Bool
attached id lease [] = false
attached id lease ((i, l) ∷ live) = if i == id then l ==ℕ lease else attached id lease live

abbrev pub is_text : Option String → String → Bool
is_text none s = false
is_text (some t) s = t == s

-- The completed entry is the handoff's.
abbrev pub completed_for : Handoff → DurableExecutionGateJournalEntry → Bool
completed_for h e =
    e.state == state_completed
    && e.binding_id == h.binding_id
    && is_text e.gate_id h.gate_id
    && e.entry_hash == h.journal_entry_hash
    && e.request_hash == h.request_hash
    && e.record_snapshot_hash == h.record_snapshot_hash
    && e.target_binding_hash == h.target_binding_hash

abbrev pub is_completed_handoff : Handoff → Bool
is_completed_handoff h =
    h.journal_state == state_completed
    && h.journal_policy_version == Journal.policy_version
    && int_eq h.journal_schema_version (pos 1)

abbrev pub provenance_of : Handoff → Scope → Provenance
provenance_of h s = record {
  lease_binding_id = s.lease_binding_id;
  handoff_id = s.identity.handoff_id;
  target_path = s.identity.target_path;
  target_major_minor = s.identity.target_major_minor;
  target_binding_hash = s.identity.target_binding_hash;
  gate_id = h.gate_id;
  binding_id = h.binding_id;
  journal_policy_version = h.journal_policy_version;
  journal_schema_version = h.journal_schema_version;
  journal_state = h.journal_state;
  journal_entry_hash = h.journal_entry_hash;
  approval_id = h.approval_id;
  request_id = h.request_id;
  request_hash = h.request_hash;
  record_snapshot_hash = h.record_snapshot_hash;
  internal_record_id = h.internal_record_id;
  method_profile_id = h.method_profile_id;
  operation = h.operation;
}

-- The journal's answer, none where it raised or has no entry.
abbrev pub found :
    {B : Type 0}
    → Result JournalError (Option DurableExecutionGateJournalEntry) × B
    → Result ExecutorError (Option DurableExecutionGateJournalEntry)
found (ok o, d) = ok o
found (err e, d) = err journal_unavailable

abbrev pub lift_store : {A : Type 0} → Result StoreError A → Result ExecutorError A
lift_store (ok a) = ok a
lift_store (err e) = err (of_store e)

-- The registration of a new authorization, which fails on an id that is live already.
abbrev pub latched :
    {B : Type 0}
    → Result ExecutorError ExecutorAuthorizationRecord × B
    → ℕ
    → Live
    → Result ExecutorError ExecutorAuthorizationRecord × B × Live
latched (err e, d) lease live = (err e, d, live)
latched (ok r, d) lease live =
    if any (λ (x : String × ℕ). x.0 == r.authorization_id) live
    then (err live_collision, d, live)
    else (ok r, d, (r.authorization_id, lease) ∷ live)

-- The error of a body in the scope of the lease, whose `__exit__` may raise in its place.
abbrev pub exit_error : Bool → ExecutorError → ExecutorError
exit_error exit_fails e = if exit_fails then lease_exit_failed else e

-- The end of that scope: what the body did stays done.
abbrev pub exited : {A B : Type 0} → Bool → Result ExecutorError A × B → Result ExecutorError A × B
exited exit_fails (err e, b) = (err (exit_error exit_fails e), b)
exited exit_fails (ok a, b) = if exit_fails then (err lease_exit_failed, b) else (ok a, b)

abbrev pub exited_live :
    {A B : Type 0} → Bool → Result ExecutorError A × B × Live → Result ExecutorError A × B × Live
exited_live exit_fails (err e, b, live) = (err (exit_error exit_fails e), b, live)
exited_live exit_fails (ok a, b, live) =
    if exit_fails then (err lease_exit_failed, b, live) else (ok a, b, live)

module _ (p : Platform) (euid : ℕ) where
  open p use {Bytes}

  abbrev pub check_entry :
      Handoff → Option DurableExecutionGateJournalEntry → Result ExecutorError (Unit {0})
  check_entry h none = err journal_mismatch
  check_entry h (some e) = guard (entry_valid p e && completed_for h e) journal_mismatch

  -- `_handoff_and_journal_provenance`: the checks. Its dict is `provenance_of` without the lease.
  unfoldable pub check_provenance :
      Handoff → Bool → Faults → Disk Bytes → Result ExecutorError (Unit {0})
  check_provenance h intact f journal = do
    guard intact handoff_invalid
    guard (is_completed_handoff h) handoff_incomplete
    o ← found (entry_for_binding p euid h.binding_id f journal)
    check_entry h o
    guard (plain_text h.internal_record_id) record_id_unavailable

  -- The disk of the gate's journal after the checks, which may have made its lock file.
  abbrev pub journal_after : Handoff → Bool → Faults → Disk Bytes → Disk Bytes
  journal_after h intact f journal =
      if intact && is_completed_handoff h
      then (entry_for_binding p euid h.binding_id f journal).1
      else journal

  -- The scope of the lease, which has to be that of the handoff.
  abbrev pub check_scope : Handoff → Bool → Option Scope → Result ExecutorError Scope
  check_scope h exit_fails none = err lease_unavailable
  check_scope h exit_fails (some s) = do
    guard
        (s.identity.handoff_id == h.handoff_id
          && s.identity.target_binding_hash == h.target_binding_hash)
        (exit_error exit_fails handoff_mismatch)
    ok s

  abbrev pub record_within :
      Result ExecutorError Scope
      → Handoff
      → Bool
      → ℕ
      → List String
      → Option ℕ
      → Faults
      → Disk Bytes
      → Live
      → Result ExecutorError ExecutorAuthorizationRecord × Disk Bytes × Live
  record_within (err e) h exit_fails lease tokens clock f d live = (err e, d, live)
  record_within (ok s) h exit_fails lease tokens clock f d live =
      exited_live exit_fails
        (latched (authorize p euid (provenance_of h s) tokens clock f d) lease live)

  -- `record_trusted_executor_authorization`: its result, its store, the live authorizations, and the
  -- gate's journal. `exit_fails` is whether the `__exit__` of the lease's scope raises.
  unfoldable pub record_trusted :
      Handoff
      → Bool
      → Option Scope
      → Bool
      → ℕ
      → List String
      → Option ℕ
      → Faults
      → Faults
      → Disk Bytes
      → Disk Bytes
      → Live
      → (Result ExecutorError ExecutorAuthorizationRecord × Disk Bytes × Live) × Disk Bytes
  record_trusted h intact scope exit_fails lease tokens clock journal_faults f journal d live = (
    record_within
        (check_provenance h intact journal_faults journal >> check_scope h exit_fails scope) h
        exit_fails lease tokens clock f d live,
    journal_after h intact journal_faults journal,
  )

  abbrev pub reserve_within :
      Result ExecutorError Scope
      → String
      → Bool
      → Option ℕ
      → Faults
      → Disk Bytes
      → Result ExecutorError ExecutorAuthorizationRecord × Disk Bytes
  reserve_within (err e) id exit_fails clock f d = (err e, d)
  reserve_within (ok s) id exit_fails clock f d =
      exited exit_fails (reserve p euid id s.lease_binding_id s.identity clock f d)

  -- `reserve_executor_authorization`
  unfoldable pub reserve_live :
      String
      → Option Scope
      → Bool
      → ℕ
      → Option ℕ
      → Faults
      → Disk Bytes
      → Live
      → Result ExecutorError ExecutorAuthorizationRecord × Disk Bytes
  reserve_live id scope exit_fails lease clock f d live =
      reserve_within
        (guard (prefixed_hex "xeauth_" id) id_invalid
          >> (or_raise scope lease_unavailable >>= λ s.
              guard (attached id lease live) (exit_error exit_fails not_live) >> ok s))
        id exit_fails clock f d

  -- `_LockedReservedExecutorAuthorizationScope._state_locked`, while its lock is held.
  unfoldable pub reserved_state :
      String
      → Scope
      → ℕ
      → Live
      → Faults
      → Disk Bytes
      → Result ExecutorError ExecutorAuthorizationRecord
  reserved_state id s lease live f d = do
    es ← lift_store (read_locked p euid (layout p) f d)
    e ← or_raise (only_one (matching id es)) scope_unavailable
    guard
        (record_valid p e
          && e.state == state_reserved
          && e.lease_binding_id == s.lease_binding_id
          && same_identity s.identity e)
        scope_mismatch
    guard (attached id lease live) scope_not_live
    ok e
