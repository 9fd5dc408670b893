-- ===== src/Executor/Operations.antt =====
-- The operations of DurableExecutorAuthorizationStore: `_authorize`, `_reserve` and
-- `entry_for_authorization`. The tokens that `secrets` returns and the clock (none where it is invalid)
-- are arguments.
use Prim.Native.String.{◌++◌ as join}
use drive_sanitization_manag.Prelude.{
  ℕ, String, Bool, ◌&&◌, ◌||◌, not, List, [], ◌∷◌, ◌++◌, map, Option, none, some, any, select, ◌==◌,
  Result, ok, err, ◌>>=◌, ◌>>◌, guard, if◌then◌else◌,
}
use drive_sanitization_manag.Value.{ℤ, pos}
use drive_sanitization_manag.Platform.{Platform}
use drive_sanitization_manag.Files.{Disk, Faults}
use drive_sanitization_manag.Tokens.{allocate}
use drive_sanitization_manag.Auth.Text.{prefixed_hex}
use drive_sanitization_manag.Store.{StoreError}
use drive_sanitization_manag.Store.Document.{ascii_hash}
use drive_sanitization_manag.Store.File.{locked, write_and}
use drive_sanitization_manag.Executor.Record.{
  ExecutorAuthorizationRecord, policy_version, state_authorized, state_reserved, record_payload,
  record_valid, layout,
}

-- Every refusal is an ExecutorAuthorizationError; the constructors are its messages.
pub data ExecutorError : Type 0 where
  of_store : StoreError → ExecutorError
  already_authorized no_unique_id clock_invalid authorization_invalid : ExecutorError
  unknown_authorization not_authorized lease_mismatch reservation_invalid : ExecutorError
  id_invalid id_duplicated handoff_invalid handoff_incomplete journal_unavailable : ExecutorError
  journal_mismatch record_id_unavailable lease_unavailable lease_exit_failed handoff_mismatch :
      ExecutorError
  live_collision not_live scope_unavailable scope_mismatch scope_not_live : ExecutorError

-- The provenance that `record_trusted_executor_authorization` puts together.
pub record Provenance : Type 0 where
  pub lease_binding_id : String
  pub handoff_id : String
  pub target_path : String
  pub target_major_minor : String
  pub target_binding_hash : String
  pub gate_id : String
  pub binding_id : String
  pub journal_policy_version : String
  pub journal_schema_version : ℤ
  pub journal_state : String
  pub journal_entry_hash : String
  pub approval_id : String
  pub request_id : String
  pub request_hash : String
  pub record_snapshot_hash : String
  pub internal_record_id : String
  pub method_profile_id : String
  pub operation : String

-- The identity of a lease: handoff id, path, major and minor number, and binding hash of its target.
pub record Identity : Type 0 where
  pub handoff_id : String
  pub target_path : String
  pub target_major_minor : String
  pub target_binding_hash : String

abbrev pub same_identity : Identity → ExecutorAuthorizationRecord → Bool
same_identity i e =
    e.handoff_id == i.handoff_id
    && e.target_path == i.target_path
    && e.target_major_minor == i.target_major_minor
    && e.target_binding_hash == i.target_binding_hash

abbrev pub or_raise : {A : Type 0} → Option A → ExecutorError → Result ExecutorError A
or_raise none e = err e
or_raise (some a) e = ok a

-- The entry has the lease, the handoff, the gate or the binding of the provenance.
abbrev pub shares : Provenance → ExecutorAuthorizationRecord → Bool
shares v e =
    e.lease_binding_id == v.lease_binding_id
    || e.handoff_id == v.handoff_id
    || e.gate_id == v.gate_id
    || e.binding_id == v.binding_id

abbrev pub matching : String → List ExecutorAuthorizationRecord → List ExecutorAuthorizationRecord
matching id es = select (λ (e : ExecutorAuthorizationRecord). e.authorization_id == id) es

abbrev pub replaced :
    String
    → ExecutorAuthorizationRecord
    → List ExecutorAuthorizationRecord
    → List ExecutorAuthorizationRecord
replaced id reserved es = map (λ e. if e.authorization_id == id then reserved else e) es

abbrev pub only_one : List ExecutorAuthorizationRecord → Option ExecutorAuthorizationRecord
only_one [] = none
only_one (e ∷ []) = some e
only_one (e ∷ f ∷ es) = none

abbrev pub at_most_one :
    List ExecutorAuthorizationRecord → Result ExecutorError (Option ExecutorAuthorizationRecord)
at_most_one [] = ok none
at_most_one (e ∷ []) = ok (some e)
at_most_one (e ∷ f ∷ es) = err id_duplicated

abbrev pub unsigned_authorization : Provenance → String → String → ExecutorAuthorizationRecord
unsigned_authorization v authorization_id now = record {
  authorization_id = authorization_id;
  policy_version = policy_version;
  schema_version = pos 1;
  state = state_authorized;
  lease_binding_id = v.lease_binding_id;
  handoff_id = v.handoff_id;
  target_path = v.target_path;
  target_major_minor = v.target_major_minor;
  target_binding_hash = v.target_binding_hash;
  gate_id = v.gate_id;
  binding_id = v.binding_id;
  journal_policy_version = v.journal_policy_version;
  journal_schema_version = v.journal_schema_version;
  journal_state = v.journal_state;
  journal_entry_hash = v.journal_entry_hash;
  approval_id = v.approval_id;
  request_id = v.request_id;
  request_hash = v.request_hash;
  record_snapshot_hash = v.record_snapshot_hash;
  internal_record_id = v.internal_record_id;
  method_profile_id = v.method_profile_id;
  operation = v.operation;
  authorized_at_utc = now;
  reserved_at_utc = none;
  record_hash = "";
}

-- A test of a candidate that no entry has.
abbrev pub fresh_id : List ExecutorAuthorizationRecord → String → Bool
fresh_id es candidate =
    prefixed_hex "xeauth_" candidate && not (any (λ e. e.authorization_id == candidate) es)

module _ (p : Platform) (euid : ℕ) where
  open p use {Bytes, iso_micro}

  abbrev pub signed : ExecutorAuthorizationRecord → ExecutorAuthorizationRecord
  signed e = record e { record_hash = ascii_hash p (record_payload e) }

  abbrev pub authorized_record : Provenance → String → ℕ → ExecutorAuthorizationRecord
  authorized_record v id now = signed (unsigned_authorization v id (iso_micro now))

  abbrev pub reserved_record : ExecutorAuthorizationRecord → ℕ → ExecutorAuthorizationRecord
  reserved_record e now = signed (record e {
    state = state_reserved;
    reserved_at_utc = some (iso_micro now);
    record_hash = "";
  })

  -- The record that `_authorize` makes, or its refusal.
  unfoldable pub new_authorization :
      Provenance
      → List String
      → Option ℕ
      → List ExecutorAuthorizationRecord
      → Result ExecutorError ExecutorAuthorizationRecord
  new_authorization v tokens clock es = do
    guard (not (any (shares v) es)) already_authorized
    id ← or_raise (allocate (fresh_id es) 8 (map (λ t. join "xeauth_" t) tokens)) no_unique_id
    now ← or_raise clock clock_invalid
    guard (record_valid p (authorized_record v id now)) authorization_invalid
    ok (authorized_record v id now)

  abbrev pub add_record :
      Result ExecutorError ExecutorAuthorizationRecord
      → Faults
      → List ExecutorAuthorizationRecord
      → Disk Bytes
      → Result ExecutorError ExecutorAuthorizationRecord × Disk Bytes
  add_record (err e) f es d = (err e, d)
  add_record (ok r) f es d =
      write_and p euid (layout p) of_store f (es ++ r ∷ []) d (λ d'. (ok r, d'))

  -- `_authorize`
  unfoldable pub authorize :
      Provenance
      → List String
      → Option ℕ
      → Faults
      → Disk Bytes
      → Result ExecutorError ExecutorAuthorizationRecord × Disk Bytes
  authorize v tokens clock f d =
      locked p euid (layout p) of_store f d
        (λ es d₁. add_record (new_authorization v tokens clock es) f es d₁)

  -- The record that `_reserve` puts in the place of the current one, or its refusal.
  unfoldable pub new_reservation :
      String
      → String
      → Identity
      → Option ℕ
      → List ExecutorAuthorizationRecord
      → Result ExecutorError ExecutorAuthorizationRecord
  new_reservation id lease_binding_id identity clock es = do
    e ← or_raise (only_one (matching id es)) unknown_authorization
    guard (e.state == state_authorized) not_authorized
    guard (e.lease_binding_id == lease_binding_id && same_identity identity e) lease_mismatch
    now ← or_raise clock clock_invalid
    guard (record_valid p (reserved_record e now)) reservation_invalid
    ok (reserved_record e now)

  abbrev pub replace_record :
      Result ExecutorError ExecutorAuthorizationRecord
      → String
      → Faults
      → List ExecutorAuthorizationRecord
      → Disk Bytes
      → Result ExecutorError ExecutorAuthorizationRecord × Disk Bytes
  replace_record (err e) id f es d = (err e, d)
  replace_record (ok r) id f es d =
      write_and p euid (layout p) of_store f (replaced id r es) d (λ d'. (ok r, d'))

  -- `_reserve`
  unfoldable pub reserve :
      String
      → String
      → Identity
      → Option ℕ
      → Faults
      → Disk Bytes
      → Result ExecutorError ExecutorAuthorizationRecord × Disk Bytes
  reserve id lease_binding_id identity clock f d =
      locked p euid (layout p) of_store f d
        (λ es d₁. replace_record (new_reservation id lease_binding_id identity clock es) id f es d₁)

  -- `entry_for_authorization`
  unfoldable pub entry_for_authorization :
      String
      → Faults
      → Disk Bytes
      → Result ExecutorError (Option ExecutorAuthorizationRecord) × Disk Bytes
  entry_for_authorization id f d =
      if prefixed_hex "xeauth_" id
      then locked p euid (layout p) of_store f d (λ es d₁. (at_most_one (matching id es), d₁))
      else (err id_invalid, d)
