-- ===== src/Records/Drive.antt =====
-- `class DriveRecord` of drive_sanitization_manager.py: the record, its validation, its intake
-- transition and its reading from JSON. The fields are unchecked until `validate`, as in Python.
pub mod Json
pub mod Validity
pub mod Intake
pub mod RoundTrip
use drive_sanitization_manag.Prelude.{
  String, Bool, true, false, ◌&&◌, not, none, some, List, [], ◌∷◌, Result, ok, err, ◌>>=◌, ◌>>◌,
  guard, all, member, ◌==◌, if◌then◌else◌,
}
use drive_sanitization_manag.Value.{
  Value, null, text, obj, Fields, end, field, lookup_field, keys, has_key, set_default,
}
use drive_sanitization_manag.Records.Guards.{
  RecordError, malformed, Check, eligibility_statuses, sanitization_statuses, verification_results,
  final_statuses, intake_statuses, require_text, optional_text, optional_bool, status, is_count,
  transition,
}

pub record DriveRecord : Type 0 where
  pub internal_record_id : Value
  pub batch_job_id : Value
  pub customer_asset_tag : Value
  pub manufacturer : Value
  pub model : Value
  pub serial_number : Value
  pub capacity_bytes : Value
  pub capacity_human : Value
  pub media_type : Value
  pub interface_type : Value
  pub linux_device_path : Value
  pub stable_device_identifier : Value
  pub intake_timestamp : Value
  pub operator : Value
  pub initial_condition_notes : Value
  pub mounted : Value
  pub system_protected : Value
  pub protection_reason : Value
  pub health_smart_summary : Value
  pub intended_action : Value
  pub intended_disposition : Value
  pub sanitization_eligibility_status : Value
  pub sanitization_status : Value
  pub sanitization_method : Value
  pub sanitization_tool : Value
  pub sanitization_tool_version : Value
  pub sanitization_start_timestamp : Value
  pub sanitization_end_timestamp : Value
  pub sanitization_result : Value
  pub sanitization_failure_error : Value
  pub sanitization_measurements : Value
  pub sanitization_operator_notes : Value
  pub verification_required : Value
  pub verification_method : Value
  pub verification_tool : Value
  pub verification_timestamp : Value
  pub verification_result : Value
  pub verification_failure_details : Value
  pub verification_reviewer_operator : Value
  pub verification_notes : Value
  pub raw_sanitization_log_reference : Value
  pub raw_verification_log_reference : Value
  pub source_intake_record_reference : Value
  pub report_path_reference : Value
  pub evidence_hashes : Value
  pub final_status : Value
  pub final_disposition : Value
  pub disposition_timestamp : Value
  pub disposition_classification : Value
  pub disposition_notes : Value
  pub intake_status : Value
  pub intake_review_notes : Value

-- `dataclasses.asdict`: the fields in declaration order.
abbrev pub asdict : DriveRecord → Fields
asdict d = field "internal_record_id" d.internal_record_id (
    field "batch_job_id" d.batch_job_id (
      field "customer_asset_tag" d.customer_asset_tag (
        field "manufacturer" d.manufacturer (
          field "model" d.model (
            field "serial_number" d.serial_number (
              field "capacity_bytes" d.capacity_bytes (
                field "capacity_human" d.capacity_human (
                  field "media_type" d.media_type (
                    field "interface_type" d.interface_type (
                      field "linux_device_path" d.linux_device_path (
                        field "stable_device_identifier" d.stable_device_identifier (
                          field "intake_timestamp" d.intake_timestamp (
                            field "operator" d.operator (
                              field "initial_condition_notes" d.initial_condition_notes (
                                field "mounted" d.mounted (
                                  field "system_protected" d.system_protected (
                                    field "protection_reason" d.protection_reason (
                                      field "health_smart_summary" d.health_smart_summary (
                                        field "intended_action" d.intended_action (
                                          field "intended_disposition" d.intended_disposition (
                                            field "sanitization_eligibility_status"
                                              d.sanitization_eligibility_status
                                              (field "sanitization_status" d.sanitization_status (
                                                field "sanitization_method" d.sanitization_method (
                                                  field "sanitization_tool" d.sanitization_tool (
                                                    field "sanitization_tool_version"
                                                      d.sanitization_tool_version
                                                      (field "sanitization_start_timestamp"
                                                        d.sanitization_start_timestamp
                                                        (field "sanitization_end_timestamp"
                                                          d.sanitization_end_timestamp
                                                          (field "sanitization_result"
                                                            d.sanitization_result
                                                            (field "sanitization_failure_error"
                                                            d.sanitization_failure_error
                                                            (field "sanitization_measurements"
                                                            d.sanitization_measurements
                                                            (field "sanitization_operator_notes"
                                                            d.sanitization_operator_notes
                                                            (field "verification_required"
                                                            d.verification_required
                                                            (field "verification_method"
                                                            d.verification_method
                                                            (field "verification_tool"
                                                            d.verification_tool
                                                            (field "verification_timestamp"
                                                            d.verification_timestamp
                                                            (field "verification_result"
                                                            d.verification_result
                                                            (field "verification_failure_details"
                                                            d.verification_failure_details
                                                            (field "verification_reviewer_operator"
                                                            d.verification_reviewer_operator
                                                            (field "verification_notes"
                                                            d.verification_notes
                                                            (field "raw_sanitization_log_reference"
                                                            d.raw_sanitization_log_reference
                                                            (field "raw_verification_log_reference"
                                                            d.raw_verification_log_reference
                                                            (field "source_intake_record_reference"
                                                            d.source_intake_record_reference
                                                            (field "report_path_reference"
                                                            d.report_path_reference
                                                            (field "evidence_hashes"
                                                            d.evidence_hashes
                                                            (field "final_status" d.final_status (
                                                            field "final_disposition"
                                                            d.final_disposition
                                                            (field "disposition_timestamp"
                                                            d.disposition_timestamp
                                                            (field "disposition_classification"
                                                            d.disposition_classification
                                                            (field "disposition_notes"
                                                            d.disposition_notes
                                                            (field "intake_status" d.intake_status (
                                                            field "intake_review_notes"
                                                            d.intake_review_notes end)))))))))))))))
                                                            ))))))))))))))))))))))))))))))))))))

abbrev pub optional_bool_fields : List String
optional_bool_fields = "mounted" ∷ "system_protected" ∷ "verification_required" ∷ []

abbrev pub dict_fields : List String
dict_fields = "sanitization_measurements" ∷ "evidence_hashes" ∷ []

-- The loop of `validate` over `fields(self)`: every field outside the three groups is a text or
-- null.
abbrev pub is_text_field : String → Bool
is_text_field k =
    not (member k dict_fields) && not (member k optional_bool_fields) && not (k == "capacity_bytes")

abbrev pub check_texts : Fields → Check
check_texts end = ok tt
check_texts (field k v fs) = (if is_text_field k then optional_text v else ok tt) >> check_texts fs

abbrev pub all_texts : Fields → Bool
all_texts end = true
all_texts (field k (text s) fs) = all_texts fs
all_texts (field k _ fs) = false

abbrev pub is_object : Value → Bool
is_object (obj fs) = true
is_object _ = false

abbrev pub is_text_object : Value → Bool
is_text_object (obj fs) = all_texts fs
is_text_object _ = false

abbrev pub is_count_or_null : Value → Bool
is_count_or_null null = true
is_count_or_null v = is_count v

unfoldable pub validate : DriveRecord → Check
validate d = do
  require_text d.internal_record_id
  require_text d.batch_job_id
  guard (is_count_or_null d.capacity_bytes) malformed
  optional_bool d.mounted
  optional_bool d.system_protected
  optional_bool d.verification_required
  check_texts (asdict d)
  status d.sanitization_eligibility_status eligibility_statuses
  status d.sanitization_status sanitization_statuses
  status d.verification_result verification_results
  status d.final_status final_statuses
  status d.intake_status intake_statuses
  guard (is_object d.sanitization_measurements) malformed
  guard (is_text_object d.evidence_hashes) malformed

-- `DriveRecord.transition_intake`: the record after the call, or the exception.
unfoldable pub transition_intake : DriveRecord → Value → Result RecordError DriveRecord
transition_intake d s = do
  validate d
  moved ← transition d.intake_status s
  ok (record d { intake_status = moved })
