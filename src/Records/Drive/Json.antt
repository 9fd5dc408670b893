-- ===== src/Records/Drive/Json.antt =====
-- `DriveRecord.from_dict` of drive_sanitization_manager.py.
use drive_sanitization_manag.Prelude.{
  String, none, some, List, [], ◌∷◌, Result, ok, err, ◌>>◌, guard, all, member,
}
use drive_sanitization_manag.Value.{
  Value, null, text, obj, Fields, lookup_field, keys, has_key, set_default,
}
use drive_sanitization_manag.Records.Guards.{RecordError, malformed}
use drive_sanitization_manag.Records.Drive.{DriveRecord, validate}

abbrev pub field_names : List String
field_names =
    "internal_record_id" ∷ "batch_job_id" ∷ "customer_asset_tag" ∷ "manufacturer" ∷ "model"
    ∷ "serial_number" ∷ "capacity_bytes" ∷ "capacity_human" ∷ "media_type" ∷ "interface_type"
    ∷ "linux_device_path" ∷ "stable_device_identifier" ∷ "intake_timestamp" ∷ "operator"
    ∷ "initial_condition_notes" ∷ "mounted" ∷ "system_protected" ∷ "protection_reason"
    ∷ "health_smart_summary" ∷ "intended_action" ∷ "intended_disposition"
    ∷ "sanitization_eligibility_status" ∷ "sanitization_status" ∷ "sanitization_method"
    ∷ "sanitization_tool" ∷ "sanitization_tool_version" ∷ "sanitization_start_timestamp"
    ∷ "sanitization_end_timestamp" ∷ "sanitization_result" ∷ "sanitization_failure_error"
    ∷ "sanitization_measurements" ∷ "sanitization_operator_notes" ∷ "verification_required"
    ∷ "verification_method" ∷ "verification_tool" ∷ "verification_timestamp" ∷ "verification_result"
    ∷ "verification_failure_details" ∷ "verification_reviewer_operator" ∷ "verification_notes"
    ∷ "raw_sanitization_log_reference" ∷ "raw_verification_log_reference"
    ∷ "source_intake_record_reference" ∷ "report_path_reference" ∷ "evidence_hashes"
    ∷ "final_status" ∷ "final_disposition" ∷ "disposition_timestamp" ∷ "disposition_classification"
    ∷ "disposition_notes" ∷ "intake_status" ∷ "intake_review_notes" ∷ []

abbrev pub value_at : String → Fields → Value
value_at k fs = elim (lookup_field k fs) [ some v ↦ v | none ↦ null ]

-- `cls(**values)`, called when the keys of `values` are the fields of the class.
abbrev pub of_values : Fields → DriveRecord
of_values values = record {
  internal_record_id = value_at "internal_record_id" values;
  batch_job_id = value_at "batch_job_id" values;
  customer_asset_tag = value_at "customer_asset_tag" values;
  manufacturer = value_at "manufacturer" values;
  model = value_at "model" values;
  serial_number = value_at "serial_number" values;
  capacity_bytes = value_at "capacity_bytes" values;
  capacity_human = value_at "capacity_human" values;
  media_type = value_at "media_type" values;
  interface_type = value_at "interface_type" values;
  linux_device_path = value_at "linux_device_path" values;
  stable_device_identifier = value_at "stable_device_identifier" values;
  intake_timestamp = value_at "intake_timestamp" values;
  operator = value_at "operator" values;
  initial_condition_notes = value_at "initial_condition_notes" values;
  mounted = value_at "mounted" values;
  system_protected = value_at "system_protected" values;
  protection_reason = value_at "protection_reason" values;
  health_smart_summary = value_at "health_smart_summary" values;
  intended_action = value_at "intended_action" values;
  intended_disposition = value_at "intended_disposition" values;
  sanitization_eligibility_status = value_at "sanitization_eligibility_status" values;
  sanitization_status = value_at "sanitization_status" values;
  sanitization_method = value_at "sanitization_method" values;
  sanitization_tool = value_at "sanitization_tool" values;
  sanitization_tool_version = value_at "sanitization_tool_version" values;
  sanitization_start_timestamp = value_at "sanitization_start_timestamp" values;
  sanitization_end_timestamp = value_at "sanitization_end_timestamp" values;
  sanitization_result = value_at "sanitization_result" values;
  sanitization_failure_error = value_at "sanitization_failure_error" values;
  sanitization_measurements = value_at "sanitization_measurements" values;
  sanitization_operator_notes = value_at "sanitization_operator_notes" values;
  verification_required = value_at "verification_required" values;
  verification_method = value_at "verification_method" values;
  verification_tool = value_at "verification_tool" values;
  verification_timestamp = value_at "verification_timestamp" values;
  verification_result = value_at "verification_result" values;
  verification_failure_details = value_at "verification_failure_details" values;
  verification_reviewer_operator = value_at "verification_reviewer_operator" values;
  verification_notes = value_at "verification_notes" values;
  raw_sanitization_log_reference = value_at "raw_sanitization_log_reference" values;
  raw_verification_log_reference = value_at "raw_verification_log_reference" values;
  source_intake_record_reference = value_at "source_intake_record_reference" values;
  report_path_reference = value_at "report_path_reference" values;
  evidence_hashes = value_at "evidence_hashes" values;
  final_status = value_at "final_status" values;
  final_disposition = value_at "final_disposition" values;
  disposition_timestamp = value_at "disposition_timestamp" values;
  disposition_classification = value_at "disposition_classification" values;
  disposition_notes = value_at "disposition_notes" values;
  intake_status = value_at "intake_status" values;
  intake_review_notes = value_at "intake_review_notes" values;
}

abbrev pub with_defaults : Fields → Fields
with_defaults values =
    set_default "intake_review_notes" null (set_default "intake_status" (text "pending") values)

unfoldable pub from_dict : Value → Result RecordError DriveRecord
from_dict (obj raw) = do
  let values = with_defaults raw
  guard (all (λ k. has_key k values) field_names) malformed
  guard (all (λ k. member k field_names) (keys values)) malformed
  validate (of_values values)
  ok (of_values values)
from_dict _ = err malformed
