-- ===== src/Records/Batch/Json.antt =====
-- `BatchRecord.to_dict` and `BatchRecord.from_dict` of drive_sanitization_manager.py.
use drive_sanitization_manag.Prelude.{
  ℕ, String, List, [], ◌∷◌, Result, ok, err, ◌>>=◌, ◌>>◌, guard, all, member, map,
}
use drive_sanitization_manag.Value.{
  Value, arr, obj, Items, nil, cons, Fields, end, field, keys, has_key, to_items,
}
use drive_sanitization_manag.Records.Guards.{RecordError, malformed}
use drive_sanitization_manag.Records.Drive
use drive_sanitization_manag.Records.Drive.Json
use drive_sanitization_manag.Records.Drive.{DriveRecord}
use drive_sanitization_manag.Records.Drive.Json.{value_at, with_defaults}
use drive_sanitization_manag.Records.Batch.{BatchRecord, check_version, post_init, validate}

abbrev pub drive_values : List DriveRecord → List Value
drive_values ds = map (λ d. obj (Drive.asdict d)) ds

-- `asdict`, which goes on into the drives.
abbrev pub asdict : BatchRecord → Fields
asdict b = field "batch_job_id" b.batch_job_id (
    field "customer_organization_reference" b.customer_organization_reference (
      field "customer_job_reference_number" b.customer_job_reference_number (
        field "date_received" b.date_received (
          field "authorization_reference_notes" b.authorization_reference_notes (
            field "processing_date" b.processing_date (
              field "operator_technician" b.operator_technician (
                field "overall_batch_status" b.overall_batch_status (
                  field "final_batch_disposition" b.final_batch_disposition (
                    field "general_notes" b.general_notes (
                      field "creation_timestamp" b.creation_timestamp (
                        field "last_updated_timestamp" b.last_updated_timestamp (
                          field "drives" (arr (to_items (drive_values b.drives))) (
                            field "schema_version" b.schema_version (
                              field "total_drive_count" b.total_drive_count (
                                field "intake_status" b.intake_status (
                                  field "intake_review_notes" b.intake_review_notes
                                    end))))))))))))))))

abbrev pub field_names : List String
field_names =
    "batch_job_id" ∷ "customer_organization_reference" ∷ "customer_job_reference_number"
    ∷ "date_received" ∷ "authorization_reference_notes" ∷ "processing_date" ∷ "operator_technician"
    ∷ "overall_batch_status" ∷ "final_batch_disposition" ∷ "general_notes" ∷ "creation_timestamp"
    ∷ "last_updated_timestamp" ∷ "drives" ∷ "schema_version" ∷ "total_drive_count" ∷ "intake_status"
    ∷ "intake_review_notes" ∷ []

-- `[DriveRecord.from_dict(item) for item in raw_drives]`
unfoldable pub read_drives : Items → Result RecordError (List DriveRecord)
read_drives nil = ok []
read_drives (cons v vs) = do d ← Json.from_dict v; ds ← read_drives vs; ok (d ∷ ds)

abbrev pub read_drives_value : Value → Result RecordError (List DriveRecord)
read_drives_value (arr vs) = read_drives vs
read_drives_value _ = err malformed

-- `cls(**values)` with its `__post_init__`.
abbrev pub of_values : Fields → List DriveRecord → BatchRecord
of_values values ds = post_init (record {
  batch_job_id = value_at "batch_job_id" values;
  customer_organization_reference = value_at "customer_organization_reference" values;
  customer_job_reference_number = value_at "customer_job_reference_number" values;
  date_received = value_at "date_received" values;
  authorization_reference_notes = value_at "authorization_reference_notes" values;
  processing_date = value_at "processing_date" values;
  operator_technician = value_at "operator_technician" values;
  overall_batch_status = value_at "overall_batch_status" values;
  final_batch_disposition = value_at "final_batch_disposition" values;
  general_notes = value_at "general_notes" values;
  creation_timestamp = value_at "creation_timestamp" values;
  last_updated_timestamp = value_at "last_updated_timestamp" values;
  drives = ds;
  schema_version = value_at "schema_version" values;
  total_drive_count = value_at "total_drive_count" values;
  intake_status = value_at "intake_status" values;
  intake_review_notes = value_at "intake_review_notes" values;
})

module _ (casefold : List ℕ → List ℕ) where
  unfoldable pub to_dict : BatchRecord → Result RecordError Value
  to_dict b = do validate casefold b; ok (obj (asdict b))

  unfoldable pub from_dict : Value → Result RecordError BatchRecord
  from_dict (obj raw) = do
    check_version (value_at "schema_version" raw)
    let values = with_defaults raw
    guard (all (λ k. has_key k values) field_names) malformed
    guard (all (λ k. member k field_names) (keys values)) malformed
    ds ← read_drives_value (value_at "drives" values)
    validate casefold (of_values values ds)
    ok (of_values values ds)
  from_dict _ = err malformed
