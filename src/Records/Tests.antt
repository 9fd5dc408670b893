-- ===== src/Records/Tests.antt =====
-- Runs of the record model on small batches, and the theorems about records at those.
use drive_sanitization_manag.Prelude.{
  ℕ, ◌+◌, String, ◌≡◌, refl, ◌↔◌, ◌&&◌, List, [], ◌∷◌, ok, err, All, map, leb, if◌then◌else◌,
}
use drive_sanitization_manag.Value.{Value, null, int, pos, text, obj, end, py_eq}
use drive_sanitization_manag.Records.Guards.{
  duplicate_identifier, invalid_transition, require_text, optional_text, optional_bool, status,
  transition, identifier,
}
use drive_sanitization_manag.Records.Guards.Steps.{Stage, complete, stage_name, may_move}
use drive_sanitization_manag.Records.Drive
use drive_sanitization_manag.Records.Drive.{DriveRecord}
use drive_sanitization_manag.Records.Drive.Intake
use drive_sanitization_manag.Records.Batch.{
  BatchRecord, note_drive, check_drives, check_header, check_intake, validate, add_drive,
  transition_intake,
}
use drive_sanitization_manag.Records.Batch.Json.{asdict, to_dict, from_dict}
use drive_sanitization_manag.Records.Batch.Identifiers.{Belongs, UniqueIds}
use drive_sanitization_manag.Records.Batch.Unique.{validate_exact}
use drive_sanitization_manag.Records.Batch.Intake.{
  Outcome, Moved, add_drive_atomic, transition_intake_ready,
}
use drive_sanitization_manag.Records.Batch.RoundTrip.{from_dict-to_dict}
use drive_sanitization_manag.Records.Batch.History.{
  add, move, run, IsSound, run-IsSound, run_complete,
}

-- The ASCII part of `str.casefold`.
abbrev casefold : List ℕ → List ℕ
casefold = map (λ c. if leb 65 c && leb c 90 then c + 32 else c)

abbrev drive : String → Value → String → DriveRecord
drive id serial intake = record {
  internal_record_id = text id;
  batch_job_id = text "job-1";
  customer_asset_tag = null;
  manufacturer = null;
  model = null;
  serial_number = serial;
  capacity_bytes = null;
  capacity_human = null;
  media_type = null;
  interface_type = null;
  linux_device_path = null;
  stable_device_identifier = null;
  intake_timestamp = null;
  operator = null;
  initial_condition_notes = null;
  mounted = null;
  system_protected = null;
  protection_reason = null;
  health_smart_summary = null;
  intended_action = null;
  intended_disposition = null;
  sanitization_eligibility_status = text "unknown";
  sanitization_status = text "not_started";
  sanitization_method = null;
  sanitization_tool = null;
  sanitization_tool_version = null;
  sanitization_start_timestamp = null;
  sanitization_end_timestamp = null;
  sanitization_result = null;
  sanitization_failure_error = null;
  sanitization_measurements = obj end;
  sanitization_operator_notes = null;
  verification_required = null;
  verification_method = null;
  verification_tool = null;
  verification_timestamp = null;
  verification_result = text "not_performed";
  verification_failure_details = null;
  verification_reviewer_operator = null;
  verification_notes = null;
  raw_sanitization_log_reference = null;
  raw_verification_log_reference = null;
  source_intake_record_reference = null;
  report_path_reference = null;
  evidence_hashes = obj end;
  final_status = text "pending";
  final_disposition = null;
  disposition_timestamp = null;
  disposition_classification = null;
  disposition_notes = null;
  intake_status = text intake;
  intake_review_notes = null;
}

abbrev batch : List DriveRecord → ℕ → String → BatchRecord
batch ds n intake = record {
  batch_job_id = text "job-1";
  customer_organization_reference = text "org";
  customer_job_reference_number = text "ref";
  date_received = text "2024-05-01";
  authorization_reference_notes = null;
  processing_date = null;
  operator_technician = text "tech";
  overall_batch_status = text "received";
  final_batch_disposition = null;
  general_notes = null;
  creation_timestamp = text "t0";
  last_updated_timestamp = text "t1";
  drives = ds;
  schema_version = int (pos 1);
  total_drive_count = int (pos n);
  intake_status = text intake;
  intake_review_notes = null;
}

abbrev first : DriveRecord
first = drive "d1" (text " SN-7 ") "complete"

abbrev second : DriveRecord
second = drive "d2" (text "sn-7") "pending"

abbrev empty : BatchRecord
empty = batch [] 0 "pending"

abbrev one : BatchRecord
one = batch (first ∷ []) 1 "in_progress"

abbrev finished : BatchRecord
finished = batch (first ∷ []) 1 "complete"

one_valid : validate casefold one ≡ ok tt
unfolding validate check_header check_intake check_drives note_drive Drive.validate require_text
    optional_text optional_bool status py_eq identifier
one_valid = refl

finished_valid : validate casefold finished ≡ ok tt
unfolding validate check_header check_intake check_drives note_drive Drive.validate require_text
    optional_text optional_bool status py_eq identifier
finished_valid = refl

-- Case and outer spaces do not tell identifiers apart.
duplicate_refused : (add_drive casefold second one).0 ≡ err duplicate_identifier
unfolding add_drive validate check_header check_intake check_drives note_drive Drive.validate
    require_text optional_text optional_bool status py_eq identifier
duplicate_refused = refl

first_accepted : add_drive casefold first empty ≡ (ok tt, one)
unfolding add_drive validate check_header check_intake check_drives note_drive Drive.validate
    require_text optional_text optional_bool status py_eq identifier
first_accepted = refl

finishes : transition_intake casefold (text "complete") one ≡ ok finished
unfolding transition_intake transition validate check_header check_intake check_drives note_drive
    Drive.validate require_text optional_text optional_bool status py_eq identifier
finishes = refl

finished-IsSound : IsSound casefold finished
unfolding py_eq
finished-IsSound = record {
  valid = finished_valid;
  some_drives = λ e. refl;
  all_complete = λ e. (refl, tt);
}

second_valid : Drive.validate second ≡ ok tt
unfolding Drive.validate require_text optional_text optional_bool status
second_valid = refl

second_begins :
    Drive.transition_intake second (text "in_progress")
    ≡ ok (drive "d2" (text "sn-7") "in_progress")
unfolding Drive.transition_intake transition Drive.validate require_text optional_text optional_bool
    status
second_begins = refl

validate_exact_example : (validate casefold one ≡ ok tt) ↔ (
    (check_header one ≡ ok tt)
    × (check_intake one ≡ ok tt)
    × All (Belongs casefold one.batch_job_id) one.drives
    × UniqueIds casefold one.drives)
validate_exact_example = validate_exact casefold one

add_drive_atomic_example : Outcome casefold second one (add_drive casefold second one)
add_drive_atomic_example = add_drive_atomic casefold second one

transition_intake_ready_example : Moved casefold one (text "complete") finished
transition_intake_ready_example =
    transition_intake_ready casefold (text "complete") one finished finishes

run-IsSound_example :
    IsSound casefold (run casefold (add second ∷ move (text "pending") ∷ []) finished)
run-IsSound_example =
    run-IsSound casefold (add second ∷ move (text "pending") ∷ []) finished finished-IsSound

run_complete_example :
    run casefold (add second ∷ move (text "in_progress") ∷ []) finished ≡ finished
run_complete_example =
    run_complete casefold (add second ∷ move (text "in_progress") ∷ []) finished refl

to_dict-one : to_dict casefold one ≡ ok (obj (asdict one))
unfolding to_dict validate check_header check_intake check_drives note_drive Drive.validate
    require_text optional_text optional_bool status py_eq identifier
to_dict-one = refl

from_dict-to_dict_example : from_dict casefold (obj (asdict one)) ≡ ok one
from_dict-to_dict_example = from_dict-to_dict casefold one (obj (asdict one)) to_dict-one

transition_intake_exact_example :
    (a : Stage) × (second.intake_status ≡ text (stage_name a))
    × (Drive.transition_intake second (text "complete") ≡ (
        if may_move a complete
        then ok (Intake.with_intake second (text "complete"))
        else err invalid_transition))
transition_intake_exact_example = Intake.transition_intake_exact second complete second_valid

transition_intake_sound_example :
    Intake.Moved second (text "in_progress") (drive "d2" (text "sn-7") "in_progress")
transition_intake_sound_example =
    Intake.transition_intake_sound second (text "in_progress")
      (drive "d2" (text "sn-7") "in_progress") second_begins
