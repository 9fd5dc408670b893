-- ===== src/Records/Batch/RoundTrip.antt =====
-- About `BatchRecord.from_dict` on what `to_dict` returns.
use drive_sanitization_manag.Prelude.{
  ℕ, false, subst, sequence-All, All-map, guard, ◌≡◌, refl, true, List, [], ◌∷◌, ok, All, >>-eq-ok,
  ok_inj, guard-eq-ok,
}
use drive_sanitization_manag.Value.{Value, null, int, is_null, py_eq, to_items, obj}
use drive_sanitization_manag.Records.Guards.{
  malformed, is_count, Check, status, intake_statuses, optional_text,
}
use drive_sanitization_manag.Records.Drive
use drive_sanitization_manag.Records.Drive.{DriveRecord}
use drive_sanitization_manag.Records.Drive.RoundTrip.{from_dict-asdict}
use drive_sanitization_manag.Records.Batch.{
  BatchRecord, count_of, check_header, check_intake, check_version, post_init, validate,
}
use drive_sanitization_manag.Records.Batch.Json.{
  drive_values, asdict, read_drives, to_dict, from_dict,
}
use drive_sanitization_manag.Records.Batch.Identifiers.{Belongs}
use drive_sanitization_manag.Records.Batch.Unique.{validate_exact}

read_drives-drive_values :
    (ds : List DriveRecord)
    → All (λ d. Drive.validate d ≡ ok tt) ds
    → read_drives (to_items (drive_values ds)) ≡ ok ds
unfolding read_drives
read_drives-drive_values [] h = refl
read_drives-drive_values (d ∷ ds) h = rw (from_dict-asdict d h.0, read_drives-drive_values ds h.1)

check_version_of_header :
    (b : BatchRecord) → check_header b ≡ ok tt → check_version b.schema_version ≡ ok tt
unfolding check_header
check_version_of_header b h = (>>-eq-ok (check_version b.schema_version) _ h).0

count-ne-null : (v : Value) → is_count v ≡ true → is_null v ≡ false
count-ne-null null h = cc
count-ne-null (int n) h = refl
count-ne-null _ h = refl

post_init_of_valid : (b : BatchRecord) → is_count b.total_drive_count ≡ true → post_init b ≡ b
unfolding post_init
post_init_of_valid b h = rw (count-ne-null b.total_drive_count h)

abbrev checks_of : BatchRecord → List Check
checks_of b =
    status b.intake_status intake_statuses
    ∷ optional_text b.intake_review_notes
    ∷ guard (is_count b.total_drive_count) malformed
    ∷ guard (py_eq b.total_drive_count (count_of b.drives)) malformed
    ∷ []

module _ (casefold : List ℕ → List ℕ) where
  from_dict-asdict_batch :
      (b : BatchRecord) → validate casefold b ≡ ok tt → from_dict casefold (obj (asdict b)) ≡ ok b
  unfolding from_dict check_intake
  from_dict-asdict_batch b valid =
      let (header, intake, belong, unique) = (validate_exact casefold b).0 valid in
      let f = sequence-All (checks_of b) intake in
      rw (
        check_version_of_header b header,
        read_drives-drive_values b.drives
            (All-map (Belongs casefold b.batch_job_id) _ (λ d p. p.valid) b.drives belong),
        post_init_of_valid b (guard-eq-ok (is_count b.total_drive_count) malformed f.1.1.0),
        valid,
      )

  -- The dict that `to_dict` returns is read by `from_dict` as the same batch, with the same drives.
  pub from_dict-to_dict :
      (b : BatchRecord) (v : Value) → to_dict casefold b ≡ ok v → from_dict casefold v ≡ ok b
  unfolding to_dict from_dict
  from_dict-to_dict b v h =
      let (valid, h₁) = >>-eq-ok (validate casefold b) _ h in
      subst (λ x. from_dict casefold x ≡ ok b) (ok_inj h₁) (from_dict-asdict_batch b valid)
