-- ===== src/Executor/Record.antt =====
-- `ExecutorAuthorizationRecord` of executor_authorization.py: its integrity, its JSON form, and the layout
-- of the store that holds such records.
use drive_sanitization_manag.Prelude.{
  ℕ, String, Bool, false, ◌&&◌, List, [], ◌∷◌, Option, none, some, all, leb, member, ◌==◌, Result,
  ok, ◌>>=◌, if◌then◌else◌,
}
use drive_sanitization_manag.Value.{
  Value, ℤ, int_eq, pos, int, text, obj, Fields, to_fields, lookup_field, text_of, int_of,
  optional_text_of,
}
use drive_sanitization_manag.Platform.{Platform}
use drive_sanitization_manag.Auth.Text.{prefixed_hex}
use drive_sanitization_manag.Auth.Journal.{optional_text_value, is_none}
use drive_sanitization_manag.Store.{
  Layout, StoreError, persistence_failed, or_invalid, plain_text, parse_micro,
}
use drive_sanitization_manag.Store.Document.{ascii_hash}

-- EXECUTOR_AUTHORIZATION_POLICY_VERSION and the two states
abbrev pub policy_version : String
policy_version = "phase6e-b3f-b-durable-executor-authorization-v1"

abbrev pub state_authorized : String
state_authorized = "AUTHORIZED"

abbrev pub state_reserved : String
state_reserved = "RESERVED"

pub record ExecutorAuthorizationRecord : Type 0 where
  pub authorization_id : String
  pub policy_version : String
  pub schema_version : ℤ
  pub state : String
  pub lease_binding_id : String
  pub handoff_id : String
  pub target_path : String
  pub target_major_minor : String
  pub target_binding_hash : String
  pub gate_id : String
  pub binding_id : String
  pub journal_policy_version : String
  pub journal_schema_version : ℤ
  pub journal_state : String
  pub journal_entry_hash : String
  pub approval_id : String
  pub request_id : String
  pub request_hash : String
  pub record_snapshot_hash : String
  pub internal_record_id : String
  pub method_profile_id : String
  pub operation : String
  pub authorized_at_utc : String
  pub reserved_at_utc : Option String
  pub record_hash : String

-- `asdict`
abbrev pub record_value : ExecutorAuthorizationRecord → Value
record_value e = obj (
    to_fields (
      ("approval_id", text e.approval_id)
      ∷ ("authorization_id", text e.authorization_id)
      ∷ ("authorized_at_utc", text e.authorized_at_utc)
      ∷ ("binding_id", text e.binding_id)
      ∷ ("gate_id", text e.gate_id)
      ∷ ("handoff_id", text e.handoff_id)
      ∷ ("internal_record_id", text e.internal_record_id)
      ∷ ("journal_entry_hash", text e.journal_entry_hash)
      ∷ ("journal_policy_version", text e.journal_policy_version)
      ∷ ("journal_schema_version", int e.journal_schema_version)
      ∷ ("journal_state", text e.journal_state)
      ∷ ("lease_binding_id", text e.lease_binding_id)
      ∷ ("method_profile_id", text e.method_profile_id)
      ∷ ("operation", text e.operation)
      ∷ ("policy_version", text e.policy_version)
      ∷ ("record_hash", text e.record_hash)
      ∷ ("record_snapshot_hash", text e.record_snapshot_hash)
      ∷ ("request_hash", text e.request_hash)
      ∷ ("request_id", text e.request_id)
      ∷ ("reserved_at_utc", optional_text_value e.reserved_at_utc)
      ∷ ("schema_version", int e.schema_version)
      ∷ ("state", text e.state)
      ∷ ("target_binding_hash", text e.target_binding_hash)
      ∷ ("target_major_minor", text e.target_major_minor)
      ∷ ("target_path", text e.target_path)
      ∷ []))

-- `_record_payload`
abbrev pub record_payload : ExecutorAuthorizationRecord → Value
record_payload e = obj (
    to_fields (
      ("approval_id", text e.approval_id)
      ∷ ("authorization_id", text e.authorization_id)
      ∷ ("authorized_at_utc", text e.authorized_at_utc)
      ∷ ("binding_id", text e.binding_id)
      ∷ ("gate_id", text e.gate_id)
      ∷ ("handoff_id", text e.handoff_id)
      ∷ ("internal_record_id", text e.internal_record_id)
      ∷ ("journal_entry_hash", text e.journal_entry_hash)
      ∷ ("journal_policy_version", text e.journal_policy_version)
      ∷ ("journal_schema_version", int e.journal_schema_version)
      ∷ ("journal_state", text e.journal_state)
      ∷ ("lease_binding_id", text e.lease_binding_id)
      ∷ ("method_profile_id", text e.method_profile_id)
      ∷ ("operation", text e.operation)
      ∷ ("policy_version", text e.policy_version)
      ∷ ("record_snapshot_hash", text e.record_snapshot_hash)
      ∷ ("request_hash", text e.request_hash)
      ∷ ("request_id", text e.request_id)
      ∷ ("reserved_at_utc", optional_text_value e.reserved_at_utc)
      ∷ ("schema_version", int e.schema_version)
      ∷ ("state", text e.state)
      ∷ ("target_binding_hash", text e.target_binding_hash)
      ∷ ("target_major_minor", text e.target_major_minor)
      ∷ ("target_path", text e.target_path)
      ∷ []))

abbrev pub field_names : List String
field_names =
    "authorization_id" ∷ "policy_version" ∷ "schema_version" ∷ "state" ∷ "lease_binding_id"
    ∷ "handoff_id" ∷ "target_path" ∷ "target_major_minor" ∷ "target_binding_hash" ∷ "gate_id"
    ∷ "binding_id" ∷ "journal_policy_version" ∷ "journal_schema_version" ∷ "journal_state"
    ∷ "journal_entry_hash" ∷ "approval_id" ∷ "request_id" ∷ "request_hash" ∷ "record_snapshot_hash"
    ∷ "internal_record_id" ∷ "method_profile_id" ∷ "operation" ∷ "authorized_at_utc"
    ∷ "reserved_at_utc" ∷ "record_hash" ∷ []

abbrev pub of_fields : Fields → Result StoreError ExecutorAuthorizationRecord
of_fields fs = do
  authorization_id ← or_invalid (text_of (lookup_field "authorization_id" fs))
  policy_version ← or_invalid (text_of (lookup_field "policy_version" fs))
  schema_version ← or_invalid (int_of (lookup_field "schema_version" fs))
  state ← or_invalid (text_of (lookup_field "state" fs))
  lease_binding_id ← or_invalid (text_of (lookup_field "lease_binding_id" fs))
  handoff_id ← or_invalid (text_of (lookup_field "handoff_id" fs))
  target_path ← or_invalid (text_of (lookup_field "target_path" fs))
  target_major_minor ← or_invalid (text_of (lookup_field "target_major_minor" fs))
  target_binding_hash ← or_invalid (text_of (lookup_field "target_binding_hash" fs))
  gate_id ← or_invalid (text_of (lookup_field "gate_id" fs))
  binding_id ← or_invalid (text_of (lookup_field "binding_id" fs))
  journal_policy_version ← or_invalid (text_of (lookup_field "journal_policy_version" fs))
  journal_schema_version ← or_invalid (int_of (lookup_field "journal_schema_version" fs))
  journal_state ← or_invalid (text_of (lookup_field "journal_state" fs))
  journal_entry_hash ← or_invalid (text_of (lookup_field "journal_entry_hash" fs))
  approval_id ← or_invalid (text_of (lookup_field "approval_id" fs))
  request_id ← or_invalid (text_of (lookup_field "request_id" fs))
  request_hash ← or_invalid (text_of (lookup_field "request_hash" fs))
  record_snapshot_hash ← or_invalid (text_of (lookup_field "record_snapshot_hash" fs))
  internal_record_id ← or_invalid (text_of (lookup_field "internal_record_id" fs))
  method_profile_id ← or_invalid (text_of (lookup_field "method_profile_id" fs))
  operation ← or_invalid (text_of (lookup_field "operation" fs))
  authorized_at_utc ← or_invalid (text_of (lookup_field "authorized_at_utc" fs))
  reserved_at_utc ← or_invalid (optional_text_of (lookup_field "reserved_at_utc" fs))
  record_hash ← or_invalid (text_of (lookup_field "record_hash" fs))
  ok (record {
    authorization_id = authorization_id;
    policy_version = policy_version;
    schema_version = schema_version;
    state = state;
    lease_binding_id = lease_binding_id;
    handoff_id = handoff_id;
    target_path = target_path;
    target_major_minor = target_major_minor;
    target_binding_hash = target_binding_hash;
    gate_id = gate_id;
    binding_id = binding_id;
    journal_policy_version = journal_policy_version;
    journal_schema_version = journal_schema_version;
    journal_state = journal_state;
    journal_entry_hash = journal_entry_hash;
    approval_id = approval_id;
    request_id = request_id;
    request_hash = request_hash;
    record_snapshot_hash = record_snapshot_hash;
    internal_record_id = internal_record_id;
    method_profile_id = method_profile_id;
    operation = operation;
    authorized_at_utc = authorized_at_utc;
    reserved_at_utc = reserved_at_utc;
    record_hash = record_hash;
  })

module _ (p : Platform) where
  -- The moment is written in the canonical form.
  abbrev pub canonical_time : String → Option ℕ → Bool
  canonical_time s none = false
  canonical_time s (some t) = p.iso_micro t == s

  abbrev pub no_earlier : Option ℕ → Option ℕ → Bool
  no_earlier (some a) (some b) = leb a b
  no_earlier _ _ = false

  abbrev pub reservation_valid : ExecutorAuthorizationRecord → Option String → Bool
  reservation_valid e none = false
  reservation_valid e (some s) =
      canonical_time s (parse_micro p s)
      && no_earlier (parse_micro p e.authorized_at_utc) (parse_micro p s)

  -- `_record_integrity_valid`
  unfoldable pub record_valid : ExecutorAuthorizationRecord → Bool
  record_valid e =
      e.policy_version == policy_version
      && int_eq e.schema_version (pos 1)
      && member e.state (state_authorized ∷ state_reserved ∷ [])
      && prefixed_hex "xeauth_" e.authorization_id
      && prefixed_hex "xeli_" e.lease_binding_id
      && all plain_text (
          e.handoff_id ∷ e.target_path ∷ e.target_major_minor ∷ e.target_binding_hash ∷ e.gate_id
          ∷ e.binding_id ∷ e.journal_policy_version ∷ e.journal_state ∷ e.journal_entry_hash
          ∷ e.approval_id ∷ e.request_id ∷ e.request_hash ∷ e.record_snapshot_hash
          ∷ e.internal_record_id ∷ e.method_profile_id ∷ e.operation ∷ [])
      && canonical_time e.authorized_at_utc (parse_micro p e.authorized_at_utc)
      && (if e.state == state_authorized
          then is_none e.reserved_at_utc
          else reservation_valid e e.reserved_at_utc)
      && e.record_hash == ascii_hash p (record_payload e)

  abbrev pub layout : Layout ExecutorAuthorizationRecord
  layout = record {
    policy = policy_version;
    field_names = field_names;
    id = λ e. e.authorization_id;
    unique =
        (λ e. e.lease_binding_id)
        ∷ (λ e. e.handoff_id)
        ∷ (λ e. e.gate_id)
        ∷ (λ e. e.binding_id)
        ∷ [];
    valid = record_valid;
    value = record_value;
    of_fields = of_fields;
    os_failure = persistence_failed;
  }
