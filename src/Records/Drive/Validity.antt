-- ===== src/Records/Drive/Validity.antt =====
-- What `DriveRecord.validate` accepts, one fact for each of its checks.
use drive_sanitization_manag.Prelude.{
  ◌≡◌, true, ok, guard, guard-eq-ok, sequence-All, List, [], ◌∷◌,
}
use drive_sanitization_manag.Records.Guards.{
  malformed, Check, eligibility_statuses, sanitization_statuses, verification_results,
  final_statuses, intake_statuses, require_text, optional_bool, status,
}
use drive_sanitization_manag.Records.Drive.{
  DriveRecord, asdict, check_texts, is_object, is_text_object, is_count_or_null, validate,
}

pub record IsValid (d : DriveRecord) : Type 0 where
  pub internal_record_id : require_text d.internal_record_id ≡ ok tt
  pub batch_job_id : require_text d.batch_job_id ≡ ok tt
  pub capacity_bytes : is_count_or_null d.capacity_bytes ≡ true
  pub mounted : optional_bool d.mounted ≡ ok tt
  pub system_protected : optional_bool d.system_protected ≡ ok tt
  pub verification_required : optional_bool d.verification_required ≡ ok tt
  pub texts : check_texts (asdict d) ≡ ok tt
  pub eligibility : status d.sanitization_eligibility_status eligibility_statuses ≡ ok tt
  pub sanitization : status d.sanitization_status sanitization_statuses ≡ ok tt
  pub verification : status d.verification_result verification_results ≡ ok tt
  pub final : status d.final_status final_statuses ≡ ok tt
  pub intake : status d.intake_status intake_statuses ≡ ok tt
  pub measurements : is_object d.sanitization_measurements ≡ true
  pub hashes : is_text_object d.evidence_hashes ≡ true

-- The checks of `validate`, in its order.
abbrev checks : DriveRecord → List Check
checks d =
    require_text d.internal_record_id
    ∷ require_text d.batch_job_id
    ∷ guard (is_count_or_null d.capacity_bytes) malformed
    ∷ optional_bool d.mounted
    ∷ optional_bool d.system_protected
    ∷ optional_bool d.verification_required
    ∷ check_texts (asdict d)
    ∷ status d.sanitization_eligibility_status eligibility_statuses
    ∷ status d.sanitization_status sanitization_statuses
    ∷ status d.verification_result verification_results
    ∷ status d.final_status final_statuses
    ∷ status d.intake_status intake_statuses
    ∷ guard (is_object d.sanitization_measurements) malformed
    ∷ guard (is_text_object d.evidence_hashes) malformed
    ∷ []

pub IsValid-of_validate : (d : DriveRecord) → validate d ≡ ok tt → IsValid d
unfolding validate
IsValid-of_validate d h =
    let f = sequence-All (checks d) h in
    record {
      internal_record_id = f.0;
      batch_job_id = f.1.0;
      capacity_bytes = guard-eq-ok (is_count_or_null d.capacity_bytes) malformed f.1.1.0;
      mounted = f.1.1.1.0;
      system_protected = f.1.1.1.1.0;
      verification_required = f.1.1.1.1.1.0;
      texts = f.1.1.1.1.1.1.0;
      eligibility = f.1.1.1.1.1.1.1.0;
      sanitization = f.1.1.1.1.1.1.1.1.0;
      verification = f.1.1.1.1.1.1.1.1.1.0;
      final = f.1.1.1.1.1.1.1.1.1.1.0;
      intake = f.1.1.1.1.1.1.1.1.1.1.1.0;
      measurements =
          guard-eq-ok (is_object d.sanitization_measurements) malformed f.1.1.1.1.1.1.1.1.1.1.1.1.0;
      hashes =
          guard-eq-ok (is_text_object d.evidence_hashes) malformed f.1.1.1.1.1.1.1.1.1.1.1.1.1.0;
    }

pub validate_of_IsValid : (d : DriveRecord) → IsValid d → validate d ≡ ok tt
unfolding validate
validate_of_IsValid d v = rw (
  v.internal_record_id, v.batch_job_id, v.capacity_bytes, v.mounted, v.system_protected,
  v.verification_required, v.texts, v.eligibility, v.sanitization, v.verification, v.final,
  v.intake, v.measurements, v.hashes,
)
