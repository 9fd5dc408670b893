-- ===== src/Auth/Journal/Operations.antt =====
-- The operations of the journal: `_reserve`, `_rollback_reservation`, `_complete` and
-- `entry_for_binding`.
use drive_sanitization_manag.Prelude.{
  on_ok, ℕ, String, Bool, ◌&&◌, not, List, [], ◌∷◌, ◌++◌, map, Option, none, some, any, select,
  ◌==◌, Result, ok, err, if◌then◌else◌,
}
use drive_sanitization_manag.Platform.{Platform, canonical_hash}
use drive_sanitization_manag.Files.{Disk, Faults}
use drive_sanitization_manag.Auth.Text.{prefixed_hex}
use drive_sanitization_manag.Auth.Types.{
  TrustedExecutionBindingDecision, OneShotExecutionGateDecision, DurableExecutionGateJournalEntry,
}
use drive_sanitization_manag.Auth.Binding
use drive_sanitization_manag.Auth.Gate
use drive_sanitization_manag.Auth.Journal.{
  JournalError, binding_invalid, clock_invalid, already_reserved, rollback_refused, gate_invalid,
  reservation_unavailable, gate_mismatch, completion_invalid, binding_id_invalid,
  duplicate_bindings, state_reserved, state_completed, entry_payload, entry_valid,
}
use drive_sanitization_manag.Auth.Journal.Store.{open_lock, read_entries, write_entries}

-- Some entry has this binding id.
abbrev pub contains : String → List DurableExecutionGateJournalEntry → Bool
contains id es = any (λ (e : DurableExecutionGateJournalEntry). e.binding_id == id) es

abbrev pub matching :
    String → List DurableExecutionGateJournalEntry → List DurableExecutionGateJournalEntry
matching id es = select (λ (e : DurableExecutionGateJournalEntry). e.binding_id == id) es

abbrev pub without :
    String → List DurableExecutionGateJournalEntry → List DurableExecutionGateJournalEntry
without id es = select (λ (e : DurableExecutionGateJournalEntry). not (e.binding_id == id)) es

-- `[completed if entry.binding_id == binding_id else entry for entry in entries]`
abbrev pub replaced :
    String
    → DurableExecutionGateJournalEntry
    → List DurableExecutionGateJournalEntry
    → List DurableExecutionGateJournalEntry
replaced id completed es = map (λ e. if e.binding_id == id then completed else e) es

-- The only match, if there is one and it is reserved.
abbrev pub only_reserved :
    List DurableExecutionGateJournalEntry → Option DurableExecutionGateJournalEntry
only_reserved [] = none
only_reserved (e ∷ []) = if e.state == state_reserved then some e else none
only_reserved (e ∷ f ∷ es) = none

abbrev pub reserved_unsigned :
    TrustedExecutionBindingDecision → String → DurableExecutionGateJournalEntry
reserved_unsigned b now = record {
  binding_id = b.binding_id;
  state = state_reserved;
  request_hash = b.request_hash;
  record_snapshot_hash = b.record_snapshot_hash;
  target_binding_hash = b.target_binding_hash;
  reserved_at_utc = now;
  gate_id = none;
  completed_at_utc = none;
  entry_hash = "";
}

abbrev pub completed_unsigned :
    DurableExecutionGateJournalEntry
    → OneShotExecutionGateDecision
    → DurableExecutionGateJournalEntry
completed_unsigned e g = record e {
  state = state_completed;
  gate_id = some g.gate_id;
  completed_at_utc = some g.evaluated_at_utc;
}

-- The gate names the hashes of the reservation.
abbrev pub same_hashes : DurableExecutionGateJournalEntry → OneShotExecutionGateDecision → Bool
same_hashes e g =
    e.request_hash == g.request_hash
    && e.record_snapshot_hash == g.record_snapshot_hash
    && e.target_binding_hash == g.target_binding_hash

module _ (p : Platform) (euid : ℕ) where
  open p use {Bytes, iso}

  abbrev pub signed : DurableExecutionGateJournalEntry → DurableExecutionGateJournalEntry
  signed e = record e { entry_hash = canonical_hash p (entry_payload e) }

  abbrev pub reserved_entry : TrustedExecutionBindingDecision → ℕ → DurableExecutionGateJournalEntry
  reserved_entry b now = signed (reserved_unsigned b (iso now))

  abbrev pub completed_entry :
      DurableExecutionGateJournalEntry
      → OneShotExecutionGateDecision
      → DurableExecutionGateJournalEntry
  completed_entry e g = signed (completed_unsigned e g)

  abbrev pub read_locked :
      Faults → Disk Bytes → Result JournalError (List DurableExecutionGateJournalEntry) × Disk Bytes
  read_locked f d = (read_entries p euid f d, d)

  -- The write, and then the result of the operation.
  abbrev pub write_and :
      {A : Type 0}
      → A
      → Faults
      → List DurableExecutionGateJournalEntry
      → Disk Bytes
      → Result JournalError A × Disk Bytes
  write_and a f es d = on_ok (write_entries p euid f es d) (λ _ d'. (ok a, d'))

  -- The body of `_reserve` behind its lock and its reading.
  unfoldable pub reserve_into :
      DurableExecutionGateJournalEntry
      → Faults
      → List DurableExecutionGateJournalEntry
      → Disk Bytes
      → Result JournalError DurableExecutionGateJournalEntry × Disk Bytes
  reserve_into e f es d =
      if contains e.binding_id es then (err already_reserved, d) else write_and e f (es ++ e ∷ []) d

  abbrev pub reserve_at :
      Option ℕ
      → TrustedExecutionBindingDecision
      → Faults
      → Disk Bytes
      → Result JournalError DurableExecutionGateJournalEntry × Disk Bytes
  reserve_at none b f d = (err clock_invalid, d)
  reserve_at (some now) b f d =
      on_ok (open_lock p euid f d)
        (λ _ d₁. on_ok (read_locked f d₁) (λ es d₂. reserve_into (reserved_entry b now) f es d₂))

  -- `_reserve`
  unfoldable pub reserve :
      TrustedExecutionBindingDecision
      → Option ℕ
      → Faults
      → Disk Bytes
      → Result JournalError DurableExecutionGateJournalEntry × Disk Bytes
  reserve b clock f d =
      if Binding.integrity_valid p b then reserve_at clock b f d else (err binding_invalid, d)

  abbrev pub rollback_match :
      Option DurableExecutionGateJournalEntry
      → String
      → Faults
      → List DurableExecutionGateJournalEntry
      → Disk Bytes
      → Result JournalError (Unit {0}) × Disk Bytes
  rollback_match none id f es d = (err rollback_refused, d)
  rollback_match (some e) id f es d = write_and tt f (without id es) d

  -- `_rollback_reservation`
  unfoldable pub rollback :
      String → Faults → Disk Bytes → Result JournalError (Unit {0}) × Disk Bytes
  rollback id f d = on_ok (open_lock p euid f d) (λ _ d₁.
      on_ok (read_locked f d₁)
        (λ es d₂. rollback_match (only_reserved (matching id es)) id f es d₂))

  abbrev pub complete_match :
      Option DurableExecutionGateJournalEntry
      → String
      → OneShotExecutionGateDecision
      → Faults
      → List DurableExecutionGateJournalEntry
      → Disk Bytes
      → Result JournalError DurableExecutionGateJournalEntry × Disk Bytes
  complete_match none id g f es d = (err reservation_unavailable, d)
  complete_match (some e) id g f es d =
      if not (same_hashes e g)
      then (err gate_mismatch, d)
      else if not (entry_valid p (completed_entry e g))
      then (err completion_invalid, d)
      else write_and (completed_entry e g) f (replaced id (completed_entry e g) es) d

  -- `_complete`
  unfoldable pub complete :
      String
      → OneShotExecutionGateDecision
      → Faults
      → Disk Bytes
      → Result JournalError DurableExecutionGateJournalEntry × Disk Bytes
  complete id g f d =
      if Gate.integrity_valid p g && g.binding_id == id
      then on_ok (open_lock p euid f d) (λ _ d₁.
        on_ok (read_locked f d₁)
          (λ es d₂. complete_match (only_reserved (matching id es)) id g f es d₂))
      else (err gate_invalid, d)

  abbrev pub at_most_one :
      List DurableExecutionGateJournalEntry
      → Result JournalError (Option DurableExecutionGateJournalEntry)
  at_most_one [] = ok none
  at_most_one (e ∷ []) = ok (some e)
  at_most_one (e ∷ f ∷ es) = err duplicate_bindings

  -- `entry_for_binding`
  unfoldable pub entry_for_binding :
      String
      → Faults
      → Disk Bytes
      → Result JournalError (Option DurableExecutionGateJournalEntry) × Disk Bytes
  entry_for_binding id f d =
      if prefixed_hex "xeb_" id
      then on_ok (open_lock p euid f d)
          (λ _ d₁. on_ok (read_locked f d₁) (λ es d₂. (at_most_one (matching id es), d₂)))
      else (err binding_id_invalid, d)
