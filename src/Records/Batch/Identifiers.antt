-- ===== src/Records/Batch/Identifiers.antt =====
-- The identifiers of the drives of a batch: when two differ, and when `note_drive` takes one in.
use drive_sanitization_manag.Prelude.{
  ℕ, ◌≡◌, ◌≢◌, ◌↔◌, refl, ◌∙◌, true, false, Option, none, some, List, [], ◌∷◌, Result, ok, err,
  ◌>>=◌, All, any, codes_eq, codes_eq_iff, arith,
}
use drive_sanitization_manag.Value.{Value, py_eq}
use drive_sanitization_manag.Records.Guards.{identifier}
use drive_sanitization_manag.Records.Drive
use drive_sanitization_manag.Records.Drive.{DriveRecord}
use drive_sanitization_manag.Records.Batch.{Seen, note, note_drive}

-- Two identifiers that are both there differ.
abbrev pub Differ : Option (List ℕ) → Option (List ℕ) → Type 0
Differ none o = Unit
Differ (some i) none = Unit
Differ (some i) (some j) = i ≢ j

-- An identifier that is there is none of those met before.
abbrev pub Fresh : Option (List ℕ) → List (List ℕ) → Type 0
Fresh none xs = Unit
Fresh (some i) xs = any (codes_eq i) xs ≡ false

abbrev pub push : Option (List ℕ) → List (List ℕ) → List (List ℕ)
push none xs = xs
push (some i) xs = i ∷ xs

note-eq-ok :
    (o : Option (List ℕ)) (xs ys : List (List ℕ))
    → note o xs ≡ ok ys
    → Fresh o xs × (ys ≡ push o xs)
note-eq-ok none xs ys h = (tt, cc)
note-eq-ok (some i) xs ys h = ground arith

note-Fresh : (o : Option (List ℕ)) (xs : List (List ℕ)) → Fresh o xs → note o xs ≡ ok (push o xs)
note-Fresh none xs h = refl
note-Fresh (some i) xs h = rw h

Fresh-push :
    (o p : Option (List ℕ)) (xs : List (List ℕ)) → Fresh p (push o xs) ↔ (Differ o p × Fresh p xs)
Fresh-push none none xs = (λ h. (tt, tt), λ h. tt)
Fresh-push none (some j) xs = (λ h. (tt, h), λ h. h.1)
Fresh-push (some i) none xs = (λ h. (tt, tt), λ h. tt)
Fresh-push (some i) (some j) xs = (
  λ h. (λ e. ground (arith, codes_eq_iff j i), ground arith),
  λ h. ground (arith, codes_eq_iff j i, h.0),
)

abbrev seen_of : List (List ℕ) → List (List ℕ) → List (List ℕ) → List (List ℕ) → Seen
seen_of a b c d = record {
  internal_record_id = a;
  customer_asset_tag = b;
  serial_number = c;
  stable_device_identifier = d;
}

-- Inversion of four calls in a row.
four_ok :
    {E X S : Type 0} (p q r s : Result E X) (f : X → X → X → X → S) (t : S)
    → (do a ← p; b ← q; c ← r; d ← s; ok (f a b c d)) ≡ ok t
    → (a b c d : X) × (p ≡ ok a) × (q ≡ ok b) × (r ≡ ok c) × (s ≡ ok d) × (t ≡ f a b c d)
four_ok (ok a) (ok b) (ok c) (ok d) f t h = (a, b, c, d, refl, refl, refl, refl, cc)
four_ok (err e) _ _ _ f t h = absurd (cc)
four_ok (ok a) (err e) _ _ f t h = absurd (cc)
four_ok (ok a) (ok b) (err e) _ f t h = absurd (cc)
four_ok (ok a) (ok b) (ok c) (err e) f t h = absurd (cc)

module _ (casefold : List ℕ → List ℕ) where
  -- No two of the drives share the identifier that `key` reads.
  abbrev pub DistinctIds : (DriveRecord → Value) → List DriveRecord → Type 0
  DistinctIds key [] = Unit
  DistinctIds key (d ∷ ds) =
      All (λ e. Differ (identifier casefold (key d)) (identifier casefold (key e))) ds
      × DistinctIds key ds

  abbrev pub FreshIds : (DriveRecord → Value) → List DriveRecord → List (List ℕ) → Type 0
  FreshIds key ds xs = All (λ d. Fresh (identifier casefold (key d)) xs) ds

  pub FreshIds-push :
      (key : DriveRecord → Value) (o : Option (List ℕ)) (ds : List DriveRecord) (xs : List (List ℕ))
      → FreshIds key ds (push o xs)
        ↔ (All (λ e. Differ o (identifier casefold (key e))) ds × FreshIds key ds xs)
  FreshIds-push key o [] xs = (λ h. (tt, tt), λ h. tt)
  FreshIds-push key o (d ∷ ds) xs =
      let one = Fresh-push o (identifier casefold (key d)) xs in
      let rest = FreshIds-push key o ds xs in
      (
        λ h. (((one.0 h.0).0, (rest.0 h.1).0), ((one.0 h.0).1, (rest.0 h.1).1)),
        λ h. (one.1 (h.0.0, h.1.0), rest.1 (h.0.1, h.1.1)),
      )

  -- What `check_drives` asks of one drive by itself.
  pub record Belongs (batch : Value) (d : DriveRecord) : Type 0 where
    pub valid : Drive.validate d ≡ ok tt
    pub same_batch : py_eq d.batch_job_id batch ≡ true

  -- The four identifiers of the drives, each distinct.
  pub record UniqueIds (ds : List DriveRecord) : Type 0 where
    pub internal_record_id : DistinctIds (λ d. d.internal_record_id) ds
    pub customer_asset_tag : DistinctIds (λ d. d.customer_asset_tag) ds
    pub serial_number : DistinctIds (λ d. d.serial_number) ds
    pub stable_device_identifier : DistinctIds (λ d. d.stable_device_identifier) ds

  pub record AllFresh (ds : List DriveRecord) (s : Seen) : Type 0 where
    pub internal_record_id : FreshIds (λ d. d.internal_record_id) ds s.internal_record_id
    pub customer_asset_tag : FreshIds (λ d. d.customer_asset_tag) ds s.customer_asset_tag
    pub serial_number : FreshIds (λ d. d.serial_number) ds s.serial_number
    pub stable_device_identifier :
        FreshIds (λ d. d.stable_device_identifier) ds s.stable_device_identifier

  abbrev pub noted : DriveRecord → Seen → Seen
  noted d s = record {
    internal_record_id = push (identifier casefold d.internal_record_id) s.internal_record_id;
    customer_asset_tag = push (identifier casefold d.customer_asset_tag) s.customer_asset_tag;
    serial_number = push (identifier casefold d.serial_number) s.serial_number;
    stable_device_identifier =
        push (identifier casefold d.stable_device_identifier) s.stable_device_identifier;
  }

  pub note_drive_fresh :
      (d : DriveRecord) (s : Seen) → AllFresh (d ∷ []) s → note_drive casefold d s ≡ ok (noted d s)
  unfolding note_drive
  note_drive_fresh d s f = rw (
    note-Fresh _ _ f.internal_record_id.0,
    note-Fresh _ _ f.customer_asset_tag.0,
    note-Fresh _ _ f.serial_number.0,
    note-Fresh _ _ f.stable_device_identifier.0,
  )

  pub note_drive-eq-ok :
      (d : DriveRecord) (s t : Seen)
      → note_drive casefold d s ≡ ok t
      → AllFresh (d ∷ []) s × (t ≡ noted d s)
  unfolding note_drive
  note_drive-eq-ok d s t h =
      let (a, b, c, e, ha, hb, hc, he, same) = four_ok _ _ _ _ seen_of t h in
      let (fa, pa) = note-eq-ok _ _ a ha in
      let (fb, pb) = note-eq-ok _ _ b hb in
      let (fc, pc) = note-eq-ok _ _ c hc in
      let (fe, pe) = note-eq-ok _ _ e he in
      (
        record {
          internal_record_id = (fa, tt);
          customer_asset_tag = (fb, tt);
          serial_number = (fc, tt);
          stable_device_identifier = (fe, tt);
        },
        same ∙ λ i. seen_of (pa i) (pb i) (pc i) (pe i),
      )
