-- ===== src/Auth/Journal.antt =====
-- `DurableExecutionGateConsumptionJournal` of sanitization_authorization.py: its entries, their
-- integrity, and the errors of its operations. The children hold the document, the file and the
-- operations.
pub mod Document
pub mod Store
pub mod Operations
pub mod RoundTrip
pub mod Atomic
pub mod Steps
pub mod Blocked
pub mod Kept
pub mod ReadBack
use drive_sanitization_manag.Prelude.{
  ℕ, String, Bool, true, false, ◌&&◌, List, [], ◌∷◌, Option, none, some, all, leb, ◌==◌, member,
  if◌then◌else◌,
}
use drive_sanitization_manag.Value.{Value, null, text, obj, Fields, end, field}
use drive_sanitization_manag.Platform.{Platform, parse_utc, canonical_hash}
use drive_sanitization_manag.Auth.Text.{prefixed_hex, hash_value}
use drive_sanitization_manag.Auth.Types.{DurableExecutionGateJournalEntry}

-- Every refusal is a DurableExecutionGateJournalError; the constructors are its messages.
pub data JournalError : Type 0 where
  parent_unavailable parent_untrusted lock_unavailable lock_untrusted : JournalError
  open_failed file_untrusted size_exceeded file_empty file_malformed : JournalError
  document_invalid entry_shape_invalid entry_invalid bindings_unsorted : JournalError
  gates_duplicated hash_invalid duplicate_bindings refused_invalid_entry : JournalError
  inspection_failed no_progress persistence_failed binding_invalid clock_invalid : JournalError
  already_reserved rollback_refused gate_invalid reservation_unavailable : JournalError
  gate_mismatch completion_invalid binding_id_invalid : JournalError

-- DURABLE_GATE_JOURNAL_POLICY_VERSION, DURABLE_GATE_JOURNAL_MAX_BYTES and the two states
abbrev pub policy_version : String
policy_version = "phase6d-c-durable-consumption-v1"

abbrev pub max_bytes : ℕ
max_bytes = 1048576

abbrev pub state_reserved : String
state_reserved = "reserved"

abbrev pub state_completed : String
state_completed = "completed"

abbrev pub optional_text_value : Option String → Value
optional_text_value none = null
optional_text_value (some s) = text s

abbrev pub is_none : Option String → Bool
is_none none = true
is_none (some s) = false

-- `_durable_gate_journal_entry_payload`, its keys in the order of `sort_keys`.
abbrev pub entry_payload : DurableExecutionGateJournalEntry → Value
entry_payload e = obj (
    field "binding_id" (text e.binding_id) (
      field "completed_at_utc" (optional_text_value e.completed_at_utc) (
        field "gate_id" (optional_text_value e.gate_id) (
          field "record_snapshot_hash" (text e.record_snapshot_hash) (
            field "request_hash" (text e.request_hash) (
              field "reserved_at_utc" (text e.reserved_at_utc) (
                field "state" (text e.state)
                  (field "target_binding_hash" (text e.target_binding_hash) end))))))))

module _ (p : Platform) where
  -- The completion is a canonical timestamp no earlier than the reservation.
  abbrev pub completed_after : ℕ → String → Option ℕ → Bool
  completed_after reserved s none = false
  completed_after reserved s (some completed) = p.iso completed == s && leb reserved completed

  abbrev pub completion_valid : ℕ → Option String → Option String → Bool
  completion_valid reserved (some gate) (some completed) =
      prefixed_hex "xgate_" gate && completed_after reserved completed (parse_utc p completed)
  completion_valid reserved _ _ = false

  -- The timestamps and the gate id, by the state of the entry.
  abbrev pub times_valid : DurableExecutionGateJournalEntry → Option ℕ → Bool
  times_valid e none = false
  times_valid e (some reserved) =
      p.iso reserved == e.reserved_at_utc
      && (if e.state == state_reserved
          then is_none e.gate_id && is_none e.completed_at_utc
          else completion_valid reserved e.gate_id e.completed_at_utc)

  -- `_durable_gate_journal_entry_integrity_valid`
  unfoldable pub entry_valid : DurableExecutionGateJournalEntry → Bool
  entry_valid e =
      prefixed_hex "xeb_" e.binding_id
      && member e.state (state_reserved ∷ state_completed ∷ [])
      && all hash_value
          (e.request_hash ∷ e.record_snapshot_hash ∷ e.target_binding_hash ∷ e.entry_hash ∷ [])
      && times_valid e (parse_utc p e.reserved_at_utc)
      && e.entry_hash == canonical_hash p (entry_payload e)
