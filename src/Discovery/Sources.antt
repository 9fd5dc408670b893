-- ===== src/Discovery/Sources.antt =====
-- About `parse_lsblk_json` as a whole: which disks it reports, and what it asks of the protected sources.
use drive_sanitization_manag.Prelude.{
  ℕ, String, ◌≡◌, refl, sym, ap, subst, ◌∙◌, Bool, true, false, not, Bool-cases, inl, inr, List, [],
  ◌∷◌, map, Option, none, some, any, all, All, any_imp, ltb, member, ok, err, >>=-eq-ok, >>-eq-ok,
  ok_inj, guard, guard-eq-ok, codes, has_text, ◌==◌, eq_iff, arith, if◌then◌else◌,
}
use drive_sanitization_manag.Platform.{Platform}
use drive_sanitization_manag.Value.{
  Value, null, bool, int, text, arr, obj, opaque, Fields, Items, nil, cons, list_items,
}
use drive_sanitization_manag.Discovery.{
  no_device_array, sources_invalid, alias_ambiguous, source_ambiguous, source_unmatched,
  BlockDevice, list_devices, Devices,
}
use drive_sanitization_manag.Discovery.Parse.{get, parse_device, parse_devices}
use drive_sanitization_manag.Discovery.Annotate.{
  Reason, PhysicalDrive, aliases, owners, has_ambiguous_alias, drive_of, with_reasons,
  extra_reasons, annotated, drives_of, disks_of, device_array, or_malformed, source_texts,
  checked_sources, parse_lsblk_json,
}
use drive_sanitization_manag.Discovery.Keys.{count_any}

many_owners :
    (s : String) (disks ds : List BlockDevice)
    → any (λ d. any (λ t. ltb 1 (owners t disks)) (aliases d)) ds ≡ false
    → any (λ d. member s (aliases d)) ds ≡ true
    → ltb 1 (owners s disks) ≡ false
many_owners s disks [] h k = cc
many_owners s disks (d ∷ ds) h k = elim (Bool-cases (ltb 1 (owners s disks))) [
  | inr e ↦ e
  | inl e ↦ elim (Bool-cases (member s (aliases d))) [
    | inl m ↦
        let found =
          any_imp (λ t. s == t) (λ t. ltb 1 (owners t disks)) (aliases d)
            (λ t same. subst (λ x. ltb 1 (owners x disks) ≡ true) ((eq_iff s t).0 same) e) m in
        ground arith
    | inr n ↦ many_owners s disks ds (ground arith) (ground arith)
  ]
]

-- No protected source leads to two disks where no alias does: the second of the two checks never
-- refuses what the first has passed.
one_owner :
    (s : String) (disks : List BlockDevice)
    → has_ambiguous_alias disks ≡ false
    → ltb 1 (owners s disks) ≡ false
one_owner s disks h =
    let some_one = count_any (λ d. member s (aliases d)) disks in
    elim (Bool-cases (any (λ d. member s (aliases d)) disks)) [
      | inl e ↦ many_owners s disks disks h e
      | inr e ↦ ground arith
    ]

none_ambiguous :
    (sources : List String) (disks : List BlockDevice)
    → has_ambiguous_alias disks ≡ false
    → any (λ s. ltb 1 (owners s disks)) sources ≡ false
none_ambiguous [] disks h = refl
none_ambiguous (s ∷ sources) disks h =
    let first = one_owner s disks h in let rest = none_ambiguous sources disks h in ground arith

-- Every protected source is an identifier of a disk or of a descendant.
abbrev pub all_matched : List String → List BlockDevice → Bool
all_matched sources disks = all (λ s. any (λ d. member s (aliases d)) disks) sources

exactly_one :
    (sources : List String) (disks : List BlockDevice)
    → has_ambiguous_alias disks ≡ false
    → all_matched sources disks ≡ true
    → All (λ s. owners s disks ≡ 1) sources
exactly_one [] disks h k = tt
exactly_one (s ∷ sources) disks h k =
    let some_one = count_any (λ d. member s (aliases d)) disks in
    let at_most = one_owner s disks h in (ground arith, exactly_one sources disks h (ground arith))

module _ (casefold : List ℕ → List ℕ) where
  -- Behind the parsing, the disks are refused if an identifier of one disk or of its descendants is one
  -- of another disk's, and otherwise exactly if a protected source is no identifier of a disk or of a
  -- descendant: the check whether a source matches two disks never refuses anything. Where nothing is
  -- refused, each disk is reported, in order.
  pub drives_exact :
      (sources : List String) (disks : List BlockDevice)
      → drives_of casefold sources disks ≡ (
          if has_ambiguous_alias disks
          then err alias_ambiguous
          else if all_matched sources disks
          then ok (map (annotated casefold sources disks) disks)
          else err source_unmatched)
  unfolding drives_of
  drives_exact sources disks = elim (Bool-cases (has_ambiguous_alias disks)) [
    | inl e ↦ rw e refl
    | inr e ↦ rw e (
        rw (none_ambiguous sources disks e)
          (elim (Bool-cases (all_matched sources disks)) [ inl m ↦ rw m refl | inr m ↦ rw m refl ]))
  ]

  -- What is reported of parsed devices: the disks among them, each once and in order, and each
  -- protected source is an identifier of exactly one of them or of its descendants.
  pub record Discovered (sources : List String) (parsed : List BlockDevice)
      (drives : List PhysicalDrive) : Type 0 where
    pub devices : map (λ (r : PhysicalDrive). r.device) drives ≡ disks_of casefold parsed
    pub one_each : All (λ s. owners s (disks_of casefold parsed) ≡ 1) sources

  with_reasons-device :
      (rs : List Reason) (drive : PhysicalDrive)
      → (with_reasons casefold rs drive).device ≡ drive.device
  with_reasons-device [] drive = refl
  with_reasons-device (r ∷ rs) drive = refl

  map-annotated :
      (sources : List String) (all ds : List BlockDevice)
      → map (λ (r : PhysicalDrive). r.device) (map (annotated casefold sources all) ds) ≡ ds
  unfolding annotated
  map-annotated sources all [] = refl
  map-annotated sources all (d ∷ ds) =
      ap (λ x. x ∷ map (λ (r : PhysicalDrive). r.device) (map (annotated casefold sources all) ds))
        (with_reasons-device (extra_reasons casefold all d) (drive_of sources d))
      ∙ ap (λ xs. d ∷ xs) (map-annotated sources all ds)

  drives_of-eq-ok :
      (sources : List String) (parsed : List BlockDevice) (drives : List PhysicalDrive)
      → drives_of casefold sources (disks_of casefold parsed) ≡ ok drives
      → Discovered sources parsed drives
  unfolding drives_of
  drives_of-eq-ok sources parsed drives h =
      let disks = disks_of casefold parsed in
      let (u, h₁) = >>-eq-ok (guard (not (has_ambiguous_alias disks)) alias_ambiguous) _ h in
      let (_, h₂) =
        >>-eq-ok (guard (not (any (λ s. ltb 1 (owners s disks)) sources)) source_ambiguous) _ h₁ in
      let (m, h₃) = >>-eq-ok (guard (all_matched sources disks) source_unmatched) _ h₂ in
      let clear = guard-eq-ok (not (has_ambiguous_alias disks)) alias_ambiguous u in
      record {
        devices =
            ap (map (λ (r : PhysicalDrive). r.device)) (sym (ok_inj h₃))
            ∙ map-annotated sources disks disks;
        one_each =
            exactly_one sources disks (ground arith)
              (guard-eq-ok (all_matched sources disks) source_unmatched m);
      }

  parse_devices-items :
      (vs : Items) (parsed : Devices)
      → parse_devices vs ≡ ok parsed
      → map parse_device (list_items vs) ≡ map ok (list_devices parsed)
  unfolding parse_devices
  parse_devices-items nil parsed h = ap (λ x. map ok (list_devices x)) (ok_inj h)
  parse_devices-items (cons v vs) parsed h =
      let (d, first, h₁) = >>=-eq-ok (parse_device v) _ h in
      let (ds, others, h₂) = >>=-eq-ok (parse_devices vs) _ h₁ in
      ap (λ x. x ∷ map parse_device (list_items vs)) first
      ∙ ap (λ xs. ok d ∷ xs) (parse_devices-items vs ds others)
      ∙ ap (λ x. map ok (list_devices x)) (ok_inj h₂)

  or_malformed-some :
      (m : Option Value) (document : Value)
      → or_malformed casefold m ≡ ok document
      → m ≡ some document
  or_malformed-some none document h = cc
  or_malformed-some (some v) document h = ap some (ok_inj h)

  array_of :
      (v : Value) (items : Items)
      → elim v [ arr vs ↦ ok vs | _ ↦ err no_device_array ] ≡ ok items
      → v ≡ arr items
  array_of (arr vs) items h = ap arr (ok_inj h)
  array_of null items h = cc
  array_of (bool b) items h = cc
  array_of (int n) items h = cc
  array_of (text s) items h = cc
  array_of (obj fs) items h = cc
  array_of (opaque n) items h = cc

  -- The document is an object with an array of devices.
  abbrev pub Listing : Option Value → Items → Type 0
  Listing m items = (fs : Fields) × (m ≡ some (obj fs)) × (get "blockdevices" fs ≡ arr items)

  device_array-Listing :
      (m : Option Value) (v : Value) (items : Items)
      → m ≡ some v
      → device_array casefold v ≡ ok items
      → Listing m items
  device_array-Listing m (obj fs) items h k = (fs, h, array_of (get "blockdevices" fs) items k)
  device_array-Listing m (arr vs) items h k = cc
  device_array-Listing m null items h k = cc
  device_array-Listing m (bool b) items h k = cc
  device_array-Listing m (int n) items h k = cc
  device_array-Listing m (text s) items h k = cc
  device_array-Listing m (opaque n) items h k = cc

  -- The protected sources are texts that are not blank.
  abbrev pub Accepted : Option (List Value) → List String → Type 0
  Accepted protected_sources sources =
      (protected_sources ≡ some (map text sources)) × All (λ s. has_text (codes s) ≡ true) sources

  source_texts-Accepted :
      (vs : List Value) (sources : List String)
      → source_texts casefold vs ≡ ok sources
      → (vs ≡ map text sources) × All (λ s. has_text (codes s) ≡ true) sources
  source_texts-Accepted [] sources h =
      subst (λ x. ([] ≡ map text x) × All (λ s. has_text (codes s) ≡ true) x) (ok_inj h) (refl, tt)
  source_texts-Accepted (text s ∷ vs) sources h =
      let (filled, h₁) = >>-eq-ok (guard (has_text (codes s)) sources_invalid) _ h in
      let (rest, others, h₂) = >>=-eq-ok (source_texts casefold vs) _ h₁ in
      let (same, all) = source_texts-Accepted vs rest others in
      subst (λ x. (text s ∷ vs ≡ map text x) × All (λ t. has_text (codes t) ≡ true) x) (ok_inj h₂)
        (
          ap (λ ws. text s ∷ ws) same,
          (guard-eq-ok (has_text (codes s)) sources_invalid filled, all),
        )
  source_texts-Accepted (null ∷ vs) sources h = cc
  source_texts-Accepted (bool b ∷ vs) sources h = cc
  source_texts-Accepted (int n ∷ vs) sources h = cc
  source_texts-Accepted (arr ws ∷ vs) sources h = cc
  source_texts-Accepted (obj fs ∷ vs) sources h = cc
  source_texts-Accepted (opaque n ∷ vs) sources h = cc

  checked_sources-Accepted :
      (m : Option (List Value)) (sources : List String)
      → checked_sources casefold m ≡ ok sources
      → Accepted m sources
  checked_sources-Accepted none sources h = cc
  checked_sources-Accepted (some vs) sources h =
      let (same, all) = source_texts-Accepted vs sources h in (ap some same, all)

  -- parse_lsblk_json returns only where the captured document is an object whose "blockdevices" is an
  -- array of which every item parses as a device, and where the protected sources are texts
  -- that are not blank; the
  -- drives are then those of the parsed items that have type "disk", in the order of the array, and
  -- each protected source is an identifier of exactly one of those disks or of its descendants.
  pub parse_lsblk_json-Discovered :
      (p : Platform) (captured : p.Bytes) (protected_sources : Option (List Value))
      (drives : List PhysicalDrive)
      → parse_lsblk_json casefold p captured protected_sources ≡ ok drives
      → (items : Items) × (parsed : List BlockDevice) × (sources : List String) × Listing
          (p.loads captured)
          items
        × (map parse_device (list_items items) ≡ map ok parsed)
        × Accepted protected_sources sources
        × Discovered sources parsed drives
  unfolding parse_lsblk_json
  parse_lsblk_json-Discovered p captured protected_sources drives h =
      let (document, loaded, h₁) = >>=-eq-ok (or_malformed casefold (p.loads captured)) _ h in
      let (items, array, h₂) = >>=-eq-ok (device_array casefold document) _ h₁ in
      let (sources, checked, h₃) = >>=-eq-ok (checked_sources casefold protected_sources) _ h₂ in
      let (parsed, each, h₄) = >>=-eq-ok (parse_devices items) _ h₃ in
      (
        items,
        list_devices parsed,
        sources,
        device_array-Listing (p.loads captured) document items
            (or_malformed-some (p.loads captured) document loaded) array,
        parse_devices-items items parsed each,
        checked_sources-Accepted protected_sources sources checked,
        drives_of-eq-ok sources (list_devices parsed) drives h₄,
      )
