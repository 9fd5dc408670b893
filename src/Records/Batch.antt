-- ===== src/Records/Batch.antt =====
-- `class BatchRecord` of drive_sanitization_manager.py: the record with its drives, validation,
-- `add_drive`, `transition_intake`, `to_dict` and `from_dict`. `drives` is a list of drive
-- records, which `validate` tests again in Python. `str.casefold` of the standard library is the
-- parameter `casefold`: its table is that of Unicode, and the theorems hold for any.
pub mod Json
pub mod Identifiers
pub mod Unique
pub mod Intake
pub mod RoundTrip
pub mod History
use drive_sanitization_manag.Prelude.{
  ℕ, String, Bool, true, false, ◌&&◌, ◌||◌, not, Option, none, some, List, [], ◌∷◌, ◌++◌, Result,
  ok, err, ◌>>=◌, ◌>>◌, guard, all, any, member, length, codes_eq, ◌==◌, ◌==ℕ◌, if◌then◌else◌, map,
}
use drive_sanitization_manag.Value.{
  Value, null, bool, int, pos, negsuc, text, arr, obj, opaque, Items, nil, cons, Fields, end, field,
  lookup_field, keys, has_key, set_default, py_eq, is_null, list_items, to_items,
}
use drive_sanitization_manag.Records.Guards.{
  RecordError, malformed, unsupported_version, duplicate_identifier, invalid_transition, Check,
  batch_statuses, intake_statuses, require_text, optional_text, status, is_count, transition,
  identifier,
}
use drive_sanitization_manag.Records.Drive
use drive_sanitization_manag.Records.Drive.{DriveRecord}

pub record BatchRecord : Type 0 where
  pub batch_job_id : Value
  pub customer_organization_reference : Value
  pub customer_job_reference_number : Value
  pub date_received : Value
  pub authorization_reference_notes : Value
  pub processing_date : Value
  pub operator_technician : Value
  pub overall_batch_status : Value
  pub final_batch_disposition : Value
  pub general_notes : Value
  pub creation_timestamp : Value
  pub last_updated_timestamp : Value
  pub drives : List DriveRecord
  pub schema_version : Value
  pub total_drive_count : Value
  pub intake_status : Value
  pub intake_review_notes : Value

-- SCHEMA_VERSION
abbrev pub schema_version : ℕ
schema_version = 1

abbrev pub count_of : List DriveRecord → Value
count_of ds = int (pos (length ds))

-- `__post_init__`
unfoldable pub post_init : BatchRecord → BatchRecord
post_init b =
    if is_null b.total_drive_count then record b { total_drive_count = count_of b.drives } else b

abbrev pub check_version : Value → Check
check_version (int (pos n)) = guard (n ==ℕ schema_version) unsupported_version
check_version (int (negsuc n)) = err unsupported_version
check_version _ = err malformed

-- The identifiers met so far, one set for each identifying field.
pub record Seen : Type 0 where
  pub internal_record_id : List (List ℕ)
  pub customer_asset_tag : List (List ℕ)
  pub serial_number : List (List ℕ)
  pub stable_device_identifier : List (List ℕ)

abbrev pub nothing_seen : Seen
nothing_seen = record {
  internal_record_id = [];
  customer_asset_tag = [];
  serial_number = [];
  stable_device_identifier = [];
}

abbrev pub note : Option (List ℕ) → List (List ℕ) → Result RecordError (List (List ℕ))
note none values = ok values
note (some i) values = if any (codes_eq i) values then err duplicate_identifier else ok (i ∷ values)

-- The checks of `validate` above its loop.
unfoldable pub check_header : BatchRecord → Check
check_header b = do
  check_version b.schema_version
  require_text b.batch_job_id
  require_text b.customer_organization_reference
  require_text b.customer_job_reference_number
  require_text b.date_received
  require_text b.operator_technician
  require_text b.creation_timestamp
  require_text b.last_updated_timestamp
  optional_text b.authorization_reference_notes
  optional_text b.processing_date
  optional_text b.final_batch_disposition
  optional_text b.general_notes
  status b.overall_batch_status batch_statuses

-- The checks of the intake fields and of the count, which the operations change.
unfoldable pub check_intake : BatchRecord → Check
check_intake b = do
  status b.intake_status intake_statuses
  optional_text b.intake_review_notes
  guard (is_count b.total_drive_count) malformed
  guard (py_eq b.total_drive_count (count_of b.drives)) malformed

-- `list.pop()`
abbrev pub pop : List DriveRecord → List DriveRecord
pop [] = []
pop (d ∷ []) = []
pop (d ∷ e ∷ ds) = d ∷ pop (e ∷ ds)

-- The end of `add_drive`: the outcome of `validate` on the extended batch, and the batch that is
-- left, which the handler of the exception restores.
abbrev pub settle : Check → Value → BatchRecord → Result RecordError (Unit {0}) × BatchRecord
settle (ok _) previous_count b = (
  ok tt,
  if py_eq b.intake_status (text "pending")
      then record b { intake_status = text "in_progress" }
      else b,
)
settle (err e) previous_count b =
    (err e, record b { drives = pop b.drives; total_drive_count = previous_count })

abbrev pub extend : DriveRecord → BatchRecord → BatchRecord
extend d b = record b {
  drives = b.drives ++ d ∷ [];
  total_drive_count = count_of (b.drives ++ d ∷ []);
}

abbrev pub no_drives : List DriveRecord → Bool
no_drives [] = true
no_drives (d ∷ ds) = false

-- Some drive whose intake is not complete.
abbrev pub unfinished : List DriveRecord → Bool
unfinished ds = any (λ (d : DriveRecord). not (py_eq d.intake_status (text "complete"))) ds

module _ (casefold : List ℕ → List ℕ) where
  -- One round of the loop over `seen.items()`, for all four fields.
  unfoldable pub note_drive : DriveRecord → Seen → Result RecordError Seen
  note_drive d seen = do
    ids ← note (identifier casefold d.internal_record_id) seen.internal_record_id
    tags ← note (identifier casefold d.customer_asset_tag) seen.customer_asset_tag
    serials ← note (identifier casefold d.serial_number) seen.serial_number
    devices ← note (identifier casefold d.stable_device_identifier) seen.stable_device_identifier
    ok (record {
      internal_record_id = ids;
      customer_asset_tag = tags;
      serial_number = serials;
      stable_device_identifier = devices;
    })

  -- The loop of `validate` over the drives.
  unfoldable pub check_drives : Value → List DriveRecord → Seen → Check
  check_drives batch [] seen = ok tt
  check_drives batch (d ∷ ds) seen = do
    Drive.validate d
    guard (py_eq d.batch_job_id batch) malformed
    seen' ← note_drive d seen
    check_drives batch ds seen'

  unfoldable pub validate : BatchRecord → Check
  validate b = do check_header b; check_intake b; check_drives b.batch_job_id b.drives nothing_seen

  unfoldable pub add_drive : DriveRecord → BatchRecord → Result RecordError (Unit {0}) × BatchRecord
  add_drive d b =
      if py_eq b.intake_status (text "complete")
      then (err invalid_transition, b)
      else if not (py_eq d.batch_job_id b.batch_job_id)
      then (err malformed, b)
      else settle (validate (extend d b)) b.total_drive_count (extend d b)

  -- `BatchRecord.transition_intake`
  unfoldable pub transition_intake : Value → BatchRecord → Result RecordError BatchRecord
  transition_intake s b = do
    validate b
    guard (not (py_eq s (text "complete") && no_drives b.drives)) invalid_transition
    guard (not (py_eq s (text "complete") && unfinished b.drives)) invalid_transition
    moved ← transition b.intake_status s
    ok (record b { intake_status = moved })
