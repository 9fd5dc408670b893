-- ===== src/Records/Batch/Unique.antt =====
-- `BatchRecord.validate` exactly: its checks of each drive, and that no two drives of the batch
-- share an identifier.
use drive_sanitization_manag.Prelude.{
  ℕ, ◌≡◌, ◌↔◌, refl, Option, none, some, List, [], ◌∷◌, ok, >>=-eq-ok, >>-eq-ok, guard, guard-eq-ok,
  All,
}
use drive_sanitization_manag.Value.{Value, py_eq}
use drive_sanitization_manag.Records.Guards.{malformed, identifier}
use drive_sanitization_manag.Records.Drive
use drive_sanitization_manag.Records.Drive.{DriveRecord}
use drive_sanitization_manag.Records.Batch.{
  BatchRecord, Seen, nothing_seen, note_drive, check_drives, check_header, check_intake, validate,
}
use drive_sanitization_manag.Records.Batch.Identifiers.{
  Fresh, FreshIds, FreshIds-push, AllFresh, noted, note_drive_fresh, note_drive-eq-ok, Belongs,
  UniqueIds,
}

module _ (casefold : List ℕ → List ℕ) where
  -- The loop passes exactly on drives that belong to the batch, are new to the sets, and differ.
  record Passes (batch : Value) (ds : List DriveRecord) (s : Seen) : Type 0 where
    belong : All (Belongs casefold batch) ds
    fresh : AllFresh casefold ds s
    unique : UniqueIds casefold ds

  Passes-cons :
      (batch : Value) (d : DriveRecord) (ds : List DriveRecord) (s : Seen)
      → Belongs casefold batch d
      → AllFresh casefold (d ∷ []) s
      → Passes batch ds (noted casefold d s)
      → Passes batch (d ∷ ds) s
  Passes-cons batch d ds s b f p =
      let ids =
        (FreshIds-push casefold (λ e. e.internal_record_id) _ ds _).0 p.fresh.internal_record_id in
      let tags =
        (FreshIds-push casefold (λ e. e.customer_asset_tag) _ ds _).0 p.fresh.customer_asset_tag in
      let serials =
        (FreshIds-push casefold (λ e. e.serial_number) _ ds _).0 p.fresh.serial_number in
      let devices =
        (FreshIds-push casefold (λ e. e.stable_device_identifier) _ ds _).0
          p.fresh.stable_device_identifier in
      record {
        belong = (b, p.belong);
        fresh = record {
          internal_record_id = (f.internal_record_id.0, ids.1);
          customer_asset_tag = (f.customer_asset_tag.0, tags.1);
          serial_number = (f.serial_number.0, serials.1);
          stable_device_identifier = (f.stable_device_identifier.0, devices.1);
        };
        unique = record {
          internal_record_id = (ids.0, p.unique.internal_record_id);
          customer_asset_tag = (tags.0, p.unique.customer_asset_tag);
          serial_number = (serials.0, p.unique.serial_number);
          stable_device_identifier = (devices.0, p.unique.stable_device_identifier);
        };
      }

  Passes-tail :
      (batch : Value) (d : DriveRecord) (ds : List DriveRecord) (s : Seen)
      → Passes batch (d ∷ ds) s
      → Passes batch ds (noted casefold d s)
  Passes-tail batch d ds s p = record {
    belong = p.belong.1;
    fresh = record {
      internal_record_id =
          (FreshIds-push casefold (λ e. e.internal_record_id) _ ds _).1
            (p.unique.internal_record_id.0, p.fresh.internal_record_id.1);
      customer_asset_tag =
          (FreshIds-push casefold (λ e. e.customer_asset_tag) _ ds _).1
            (p.unique.customer_asset_tag.0, p.fresh.customer_asset_tag.1);
      serial_number =
          (FreshIds-push casefold (λ e. e.serial_number) _ ds _).1
            (p.unique.serial_number.0, p.fresh.serial_number.1);
      stable_device_identifier =
          (FreshIds-push casefold (λ e. e.stable_device_identifier) _ ds _).1
            (p.unique.stable_device_identifier.0, p.fresh.stable_device_identifier.1);
    };
    unique = record {
      internal_record_id = p.unique.internal_record_id.1;
      customer_asset_tag = p.unique.customer_asset_tag.1;
      serial_number = p.unique.serial_number.1;
      stable_device_identifier = p.unique.stable_device_identifier.1;
    };
  }

  Passes-head :
      (batch : Value) (d : DriveRecord) (ds : List DriveRecord) (s : Seen)
      → Passes batch (d ∷ ds) s
      → AllFresh casefold (d ∷ []) s
  Passes-head batch d ds s p = record {
    internal_record_id = (p.fresh.internal_record_id.0, tt);
    customer_asset_tag = (p.fresh.customer_asset_tag.0, tt);
    serial_number = (p.fresh.serial_number.0, tt);
    stable_device_identifier = (p.fresh.stable_device_identifier.0, tt);
  }

  Passes-of_check :
      (batch : Value) (ds : List DriveRecord) (s : Seen)
      → check_drives casefold batch ds s ≡ ok tt
      → Passes batch ds s
  unfolding check_drives
  Passes-of_check batch [] s h = record {
    belong = tt;
    fresh = record {
      internal_record_id = tt;
      customer_asset_tag = tt;
      serial_number = tt;
      stable_device_identifier = tt;
    };
    unique = record {
      internal_record_id = tt;
      customer_asset_tag = tt;
      serial_number = tt;
      stable_device_identifier = tt;
    };
  }
  Passes-of_check batch (d ∷ ds) s h =
      let (v, h₁) = >>-eq-ok (Drive.validate d) _ h in
      let (g, h₂) = >>-eq-ok (guard (py_eq d.batch_job_id batch) malformed) _ h₁ in
      let (t, noted_t, h₃) =
        >>=-eq-ok (note_drive casefold d s) (check_drives casefold batch ds) h₂ in
      let (f, same) = note_drive-eq-ok casefold d s t noted_t in
      Passes-cons batch d ds s
        (record { valid = v; same_batch = guard-eq-ok (py_eq d.batch_job_id batch) malformed g }) f
        (Passes-of_check batch ds (noted casefold d s) (rw same at h₃))

  check_of_Passes :
      (batch : Value) (ds : List DriveRecord) (s : Seen)
      → Passes batch ds s
      → check_drives casefold batch ds s ≡ ok tt
  unfolding check_drives
  check_of_Passes batch [] s p = refl
  check_of_Passes batch (d ∷ ds) s p =
      rw
        (
          p.belong.0.valid,
          p.belong.0.same_batch,
          note_drive_fresh casefold d s (Passes-head batch d ds s p),
        )
        (check_of_Passes batch ds (noted casefold d s) (Passes-tail batch d ds s p))

  Fresh-nil : (o : Option (List ℕ)) → Fresh o []
  Fresh-nil none = tt
  Fresh-nil (some i) = refl

  FreshIds-nil : (key : DriveRecord → Value) (ds : List DriveRecord) → FreshIds casefold key ds []
  FreshIds-nil key [] = tt
  FreshIds-nil key (d ∷ ds) = (Fresh-nil (identifier casefold (key d)), FreshIds-nil key ds)

  -- `validate` passes exactly on a batch whose own fields pass their checks, whose drives are each
  -- valid and carry the batch's job id, and no two of whose drives share an internal record id, an
  -- asset tag, a serial number or a stable device identifier, compared stripped and case-folded.
  pub validate_exact :
      (b : BatchRecord)
      → (validate casefold b ≡ ok tt) ↔ (
          (check_header b ≡ ok tt)
          × (check_intake b ≡ ok tt)
          × All (Belongs casefold b.batch_job_id) b.drives
          × UniqueIds casefold b.drives)
  unfolding validate
  validate_exact b = (
    λ h.
        let (header, h₁) = >>-eq-ok (check_header b) _ h in
        let (intake, h₂) = >>-eq-ok (check_intake b) _ h₁ in
        let p = Passes-of_check b.batch_job_id b.drives nothing_seen h₂ in
        (header, intake, p.belong, p.unique),
    λ (header, intake, belong, unique).
        rw (header, intake)
          (check_of_Passes b.batch_job_id b.drives nothing_seen (record {
            belong = belong;
            fresh = record {
              internal_record_id = FreshIds-nil (λ d. d.internal_record_id) b.drives;
              customer_asset_tag = FreshIds-nil (λ d. d.customer_asset_tag) b.drives;
              serial_number = FreshIds-nil (λ d. d.serial_number) b.drives;
              stable_device_identifier = FreshIds-nil (λ d. d.stable_device_identifier) b.drives;
            };
            unique = unique;
          })),
  )
