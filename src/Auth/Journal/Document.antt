-- ===== src/Auth/Journal/Document.antt =====
-- The document of the journal: from the entries to JSON, and back with every check of
-- `_read_entries_locked`.
use drive_sanitization_manag.Prelude.{
  has_duplicates, same_texts, String, Bool, false, not, List, [], ◌∷◌, Option, none, some, map,
  ◌==◌, codes, Result, ok, err, ◌>>=◌, ◌>>◌, guard,
}
use drive_sanitization_manag.Value.{
  has_keys, text_of, optional_text_of, Value, int, pos, text, arr, obj, Items, nil, cons, to_items,
  Fields, end, field, lookup_field, int_eq,
}
use drive_sanitization_manag.Platform.{Platform, canonical_hash}
use drive_sanitization_manag.Sort.{sort}
use drive_sanitization_manag.Auth.Text.{hash_value}
use drive_sanitization_manag.Auth.Types.{DurableExecutionGateJournalEntry}
use drive_sanitization_manag.Auth.Journal.{
  JournalError, document_invalid, entry_shape_invalid, entry_invalid, bindings_unsorted,
  gates_duplicated, hash_invalid, policy_version, optional_text_value, entry_valid,
}

-- `asdict(entry)`, its keys in the order of `sort_keys`.
abbrev pub entry_value : DurableExecutionGateJournalEntry → Value
entry_value e = obj (
    field "binding_id" (text e.binding_id) (
      field "completed_at_utc" (optional_text_value e.completed_at_utc) (
        field "entry_hash" (text e.entry_hash) (
          field "gate_id" (optional_text_value e.gate_id) (
            field "record_snapshot_hash" (text e.record_snapshot_hash) (
              field "request_hash" (text e.request_hash) (
                field "reserved_at_utc" (text e.reserved_at_utc) (
                  field "state" (text e.state)
                    (field "target_binding_hash" (text e.target_binding_hash) end)))))))))

abbrev pub entries_value : List DurableExecutionGateJournalEntry → Value
entries_value es = arr (to_items (map entry_value es))

-- The payload that the journal hash covers.
abbrev pub store_payload : List DurableExecutionGateJournalEntry → Value
store_payload es = obj (
    field "entries" (entries_value es)
      (field "policy_version" (text policy_version) (field "schema_version" (int (pos 1)) end)))

abbrev pub entry_keys : List String
entry_keys =
    "binding_id" ∷ "state" ∷ "request_hash" ∷ "record_snapshot_hash" ∷ "target_binding_hash"
    ∷ "reserved_at_utc" ∷ "gate_id" ∷ "completed_at_utc" ∷ "entry_hash" ∷ []

abbrev pub document_keys : List String
document_keys = "policy_version" ∷ "schema_version" ∷ "entries" ∷ "journal_hash" ∷ []

-- A field of another type is one that the integrity check refuses.
abbrev pub or_invalid : {A : Type 0} → Option A → Result JournalError A
or_invalid none = err entry_invalid
or_invalid (some a) = ok a

abbrev pub entry_of_fields : Fields → Result JournalError DurableExecutionGateJournalEntry
entry_of_fields fs = do
  binding ← or_invalid (text_of (lookup_field "binding_id" fs))
  state ← or_invalid (text_of (lookup_field "state" fs))
  request ← or_invalid (text_of (lookup_field "request_hash" fs))
  snapshot ← or_invalid (text_of (lookup_field "record_snapshot_hash" fs))
  target ← or_invalid (text_of (lookup_field "target_binding_hash" fs))
  reserved ← or_invalid (text_of (lookup_field "reserved_at_utc" fs))
  gate ← or_invalid (optional_text_of (lookup_field "gate_id" fs))
  completed ← or_invalid (optional_text_of (lookup_field "completed_at_utc" fs))
  hash ← or_invalid (text_of (lookup_field "entry_hash" fs))
  ok (record {
    binding_id = binding;
    state = state;
    request_hash = request;
    record_snapshot_hash = snapshot;
    target_binding_hash = target;
    reserved_at_utc = reserved;
    gate_id = gate;
    completed_at_utc = completed;
    entry_hash = hash;
  })

abbrev pub binding_ids : List DurableExecutionGateJournalEntry → List String
binding_ids es = map (λ e. e.binding_id) es

abbrev pub present : Option String → List String → List String
present none ids = ids
present (some i) ids = i ∷ ids

-- `[entry.gate_id for entry in entries if entry.gate_id is not None]`
abbrev pub gate_ids : List DurableExecutionGateJournalEntry → List String
gate_ids [] = []
gate_ids (e ∷ es) = present e.gate_id (gate_ids es)

module _ (p : Platform) where
  abbrev pub journal_hash : List DurableExecutionGateJournalEntry → String
  journal_hash es = canonical_hash p (store_payload es)

  -- The document that `_write_entries_locked` encodes.
  abbrev pub document : List DurableExecutionGateJournalEntry → Value
  document es = obj (
      field "entries" (entries_value es) (
        field "journal_hash" (text (journal_hash es)) (
          field "policy_version" (text policy_version) (field "schema_version" (int (pos 1)) end))))

  unfoldable pub decode_entry : Value → Result JournalError DurableExecutionGateJournalEntry
  decode_entry (obj fs) = do
    guard (has_keys entry_keys fs) entry_shape_invalid
    e ← entry_of_fields fs
    guard (entry_valid p e) entry_invalid
    ok e
  decode_entry _ = err entry_shape_invalid

  unfoldable pub decode_entries :
      Items → Result JournalError (List DurableExecutionGateJournalEntry)
  decode_entries nil = ok []
  decode_entries (cons v vs) = do e ← decode_entry v; es ← decode_entries vs; ok (e ∷ es)

  abbrev pub is_policy : Option Value → Bool
  is_policy (some (text s)) = s == policy_version
  is_policy _ = false

  abbrev pub is_schema : Option Value → Bool
  is_schema (some (int n)) = int_eq n (pos 1)
  is_schema _ = false

  -- The checks of the entries together, and of the hash of the whole.
  unfoldable pub check_entries :
      String
      → List DurableExecutionGateJournalEntry
      → Result JournalError (List DurableExecutionGateJournalEntry)
  check_entries hash es = do
    guard (same_texts (binding_ids es) (sort codes (binding_ids es))) bindings_unsorted
    guard (not (has_duplicates (binding_ids es))) bindings_unsorted
    guard (not (has_duplicates (gate_ids es))) gates_duplicated
    guard (hash == journal_hash es) hash_invalid
    ok es

  abbrev pub decode_body :
      Option Value → Option Value → Result JournalError (List DurableExecutionGateJournalEntry)
  decode_body (some (arr vs)) (some (text hash)) = do
    guard (hash_value hash) document_invalid
    es ← decode_entries vs
    check_entries hash es
  decode_body _ _ = err document_invalid

  -- `_read_entries_locked` behind `json.loads`.
  unfoldable pub decode : Value → Result JournalError (List DurableExecutionGateJournalEntry)
  decode (obj fs) = do
    guard (has_keys document_keys fs) document_invalid
    guard (is_policy (lookup_field "policy_version" fs)) document_invalid
    guard (is_schema (lookup_field "schema_version" fs)) document_invalid
    decode_body (lookup_field "entries" fs) (lookup_field "journal_hash" fs)
  decode _ = err document_invalid
