-- ===== src/Discovery/Duplicates.antt =====
-- About what protects a drive: the search for duplicates against a direct description.
use drive_sanitization_manag.Prelude.{
  ℕ, String, ◌≡◌, refl, ap, ◌∙◌, Bool, true, false, ◌&&◌, ◌||◌, List, [], ◌∷◌, any, any_imp,
  or_true, select, ltb, codes, member, ◌==◌, eq_iff, arith,
}
use drive_sanitization_manag.Sort.{sort, any-sort}
use drive_sanitization_manag.Discovery.{BlockDevice}
use drive_sanitization_manag.Discovery.Annotate.{
  Kind, Reason, matches_source, duplicate_identity, PhysicalDrive, distinct, filled, aliases,
  matches, drive_of, same_key, sort_key, identities, occurrences, count, repeated, extra_reasons,
  with_reasons, annotated,
}
use drive_sanitization_manag.Discovery.Keys.{
  Bool-ext, any-select, filled-map-select, filled-map, any_ext, any-distinct, count_any,
  same_key-path, any_swap, drop_second,
}

module _ (casefold : List ℕ → List ℕ) where
  listed :
      (occ : List (Kind × List ℕ)) (i : Kind × List ℕ)
      → ltb 1 (count casefold i occ) ≡ true
      → (ltb 1 (count casefold i occ) && any (same_key i) occ) ≡ true
  listed occ i h = let some_one = count_any (same_key i) occ in ground arith

  -- A key of one list that the other lists more than once, looked up from either side.
  search_back :
      (occ is : List (Kind × List ℕ))
      → any (λ i. ltb 1 (count casefold i occ) && any (same_key i) is) occ
        ≡ any (λ j. ltb 1 (count casefold j occ)) is
  search_back occ is =
      let many = λ (i : Kind × List ℕ). ltb 1 (count casefold i occ) in
      Bool-ext _ _ (λ h. drop_second many is occ (any_swap many occ is h))
        (λ h.
          any_swap many is occ
            (any_imp many (λ i. many i && any (same_key i) occ) is (listed occ) h))

  -- The key of a drive is listed more than once.
  abbrev pub is_shared : List BlockDevice → BlockDevice → Bool
  is_shared disks d =
      any (λ i. ltb 1 (count casefold i (occurrences casefold disks))) (identities casefold d)

  extra_shared :
      (disks : List BlockDevice) (d : BlockDevice)
      → filled (extra_reasons casefold disks d) ≡ is_shared disks d
  unfolding repeated
  extra_shared disks d =
      let occ = occurrences casefold disks in
      let is = identities casefold d in
      let many = λ (i : Kind × List ℕ). ltb 1 (count casefold i occ) in
      let one = λ (i : Kind × List ℕ). any (same_key i) is in
      filled-map-select duplicate_identity one (repeated casefold disks)
      ∙ any-select one many (sort sort_key (distinct same_key occ))
      ∙ any-sort sort_key (λ i. many i && one i) (distinct same_key occ)
      ∙ any-distinct same_key same_key-path (λ i. many i && one i) occ
      ∙ search_back occ is

  with_reasons-ambiguous :
      (rs : List Reason) (drive : PhysicalDrive)
      → drive.ambiguous ≡ false
      → (with_reasons casefold rs drive).ambiguous ≡ filled rs
  with_reasons-ambiguous [] drive h = h
  with_reasons-ambiguous (r ∷ rs) drive h = refl

  with_reasons-protected :
      (rs : List Reason) (drive : PhysicalDrive)
      → (with_reasons casefold rs drive).protected ≡ (drive.protected || filled rs)
  with_reasons-protected [] drive = ground arith
  with_reasons-protected (r ∷ rs) drive = ground arith

  matched :
      (sources : List String) (d : BlockDevice)
      → (drive_of sources d).protected ≡ any (λ s. member s (aliases d)) sources
  matched sources d =
      let found = λ (s : String). member s (aliases d) in
      let once = distinct (λ (s t : String). s == t) sources in
      filled-map matches_source (matches sources d)
      ∙ any-sort codes (λ s. true) (select found once)
      ∙ any-select (λ s. true) found once
      ∙ any_ext (λ s. found s && true) found once (λ s. ground arith)
      ∙ any-distinct (λ (s t : String). s == t) (λ s t. (eq_iff s t).0) found sources

  -- A drive is ambiguous exactly if one of its usable identities (the serial number or the WWN,
  -- stripped and case-folded) is listed more than once among all disks, and it is protected exactly if
  -- it is ambiguous or a protected source is an identifier of the disk or of a descendant.
  pub protected_exact :
      (sources : List String) (disks : List BlockDevice) (d : BlockDevice)
      → ((annotated casefold sources disks d).ambiguous ≡ is_shared disks d)
        × ((annotated casefold sources disks d).protected
            ≡ (any (λ s. member s (aliases d)) sources || is_shared disks d))
  unfolding annotated
  protected_exact sources disks d =
      let rs = extra_reasons casefold disks d in
      let shared = extra_shared disks d in
      (
        with_reasons-ambiguous rs (drive_of sources d) refl ∙ shared,
        with_reasons-protected rs (drive_of sources d)
            ∙ ap (λ b. (drive_of sources d).protected || b) shared
            ∙ ap (λ b. b || is_shared disks d) (matched sources d),
      )

  pub shown :
      (sources : List String) (disks : List BlockDevice) (d : BlockDevice)
      → is_shared disks d ≡ true
      → ((annotated casefold sources disks d).ambiguous ≡ true)
        × ((annotated casefold sources disks d).protected ≡ true)
  shown sources disks d h =
      let (a, b) = protected_exact sources disks d in
      (a ∙ h, b ∙ ap (λ c. any (λ s. member s (aliases d)) sources || c) h ∙ or_true _)
