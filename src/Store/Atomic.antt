-- ===== src/Store/Atomic.antt =====
-- About `_write_locked` and the reading of what it wrote.
use drive_sanitization_manag.Prelude.{
  ◌||◌, All, ℕ, String, eq_refl, ◌≡◌, refl, sym, ap, ◌∙◌, true, false, not, Bool-cases, ◌⊎◌, inl,
  inr, List, [], ◌∷◌, Option, some, all, All, all→All, map, leb, ◌==ℕ◌, ◌==◌, codes, has_duplicates,
  same_texts, Result, ok, err, ◌>>◌, guard, guard-eq-ok, >>-eq-ok, ok_inj,
}
use drive_sanitization_manag.Value.{to_items}
use drive_sanitization_manag.Platform.{Platform}
use drive_sanitization_manag.Platform.Laws.{is_canonical, Lawful}
use drive_sanitization_manag.Sort.{sort}
use drive_sanitization_manag.Files.{over_directory, Disk, Faults, Stat, private_stat, write_all}
use drive_sanitization_manag.Store.{
  Layout, StoreError, document_invalid, ids_unsorted, values_duplicated, hash_invalid,
  file_untrusted, size_exceeded, file_empty, refused_invalid, refused_duplicate, no_progress,
  max_bytes, plain_text,
}
use drive_sanitization_manag.Store.Document.{
  ids, all_unique, entries_value, store_hash, document, decode_entry, decode_entries, check_entries,
  decode,
}
use drive_sanitization_manag.Store.File.{
  file_trusted, id_key, loaded, read_file, check_write, replace_file, after_checks, write_locked,
}

-- What a layout has to keep: a valid record is JSON data in canonical form and is read back.
pub record LayoutLaws (p : Platform) {E : Type 0} (l : Layout E) : Type 0 where
  pub value_canonical : (e : E) → is_canonical (l.value e) ≡ true
  pub value_decoded : (e : E) → l.valid e ≡ true → decode_entry p l (l.value e) ≡ ok e

module _ (p : Platform) (euid : ℕ) {E : Type 0} (l : Layout E) where
  open p use {Bytes, size, dumps, loads}

  -- What a reading without faults finds in the file.
  abbrev pub stored : Option (Stat × Bytes) → Result StoreError (List E)
  stored file = read_file p euid l false file

  abbrev pub content_of : List E → Bytes
  content_of es = dumps (document p l (sort (id_key p euid l) es))

  -- The file holds the whole document of these entries, which passed the checks of the writer.
  pub record Written (es : List E) (file : Option (Stat × Bytes)) : Type 0 where
    pub content : file ≡ some (private_stat euid, content_of es)
    pub valid : all l.valid (sort (id_key p euid l) es) ≡ true
    pub unique : all_unique p l (l.id ∷ l.unique) (sort (id_key p euid l) es) ≡ true
    pub fits : leb (size (content_of es)) max_bytes ≡ true

  abbrev pub WriteOutcome : List E → Disk Bytes → Result StoreError (Unit {0}) × Disk Bytes → Type 0
  WriteOutcome es d s =
      ((s.0 ≡ ok tt) × Written es s.1.file)
      ⊎ ((e : StoreError) × (s.0 ≡ err e) × ((s.1.file ≡ d.file) ⊎ Written es s.1.file))

  replace_file-WriteOutcome :
      (f : Faults) (es : List E) (d : Disk Bytes)
      → all l.valid (sort (id_key p euid l) es) ≡ true
      → all_unique p l (l.id ∷ l.unique) (sort (id_key p euid l) es) ≡ true
      → leb (size (content_of es)) max_bytes ≡ true
      → WriteOutcome es d (replace_file p euid l f (content_of es) d)
  unfolding replace_file
  replace_file-WriteOutcome f es d v u s =
      elim (Bool-cases (write_all (size (content_of es)) f.written)) [
        | inr short ↦ rw short (inr (no_progress, refl, inl refl))
        | inl whole ↦ elim (Bool-cases (f.before_replace || over_directory d.file)) [
          | inl early ↦ rw (whole, early) (inr (l.os_failure, refl, inl refl))
          | inr later ↦ elim (Bool-cases f.after_replace) [
            | inl late ↦
                rw (whole, later, late)
                  (inr (
                    l.os_failure,
                    refl,
                    inr (record { content = refl; valid = v; unique = u; fits = s }),
                  ))
            | inr never ↦
                rw (whole, later, never)
                  (inl (refl, record { content = refl; valid = v; unique = u; fits = s }))
          ]
        ]
      ]

  after_checks-WriteOutcome :
      (m : Result StoreError (Unit {0})) (f : Faults) (es : List E) (d : Disk Bytes)
      → check_write p euid l f (sort (id_key p euid l) es) d ≡ m
      → WriteOutcome es d (after_checks p euid l m f (content_of es) d)
  unfolding check_write
  after_checks-WriteOutcome (err e) f es d h = inr (e, refl, inl refl)
  after_checks-WriteOutcome (ok t) f es d h =
      let ordered = sort (id_key p euid l) es in
      let (v, h₁) = >>-eq-ok (guard (all l.valid ordered) refused_invalid) _ h in
      let (u, h₂) =
        >>-eq-ok (guard (all_unique p l (l.id ∷ l.unique) ordered) refused_duplicate) _ h₁ in
      let (s, h₃) = >>-eq-ok (guard (leb (size (content_of es)) max_bytes) size_exceeded) _ h₂ in
      replace_file-WriteOutcome f es d (guard-eq-ok _ refused_invalid v)
        (guard-eq-ok _ refused_duplicate u) (guard-eq-ok _ size_exceeded s)

  -- Whatever faults the system answers with, the file is afterwards the old one or holds the whole
  -- new document, valid, within the size and with no shared attribute; where the write returns, it is
  -- the new document.
  pub write_locked_atomic :
      (f : Faults) (es : List E) (d : Disk Bytes) → WriteOutcome es d (write_locked p euid l f es d)
  unfolding write_locked
  write_locked_atomic f es d = after_checks-WriteOutcome _ f es d refl

module _ (p : Platform) (law : Lawful p) (euid : ℕ) {E : Type 0} (l : Layout E)
    (laws : LayoutLaws p l) where
  open p use {Bytes, size, dumps, loads}

  entries_canonical : (es : List E) → is_canonical (entries_value p l es) ≡ true
  unfolding is_canonical
  entries_canonical [] = refl
  entries_canonical (e ∷ es) = rw (laws.value_canonical e, entries_canonical es)

  document_canonical : (es : List E) → is_canonical (document p l es) ≡ true
  unfolding is_canonical
  document_canonical es = rw (entries_canonical es)

  decode_entries-value :
      (es : List E)
      → All (λ e. l.valid e ≡ true) es
      → decode_entries p l (to_items (map l.value es)) ≡ ok es
  unfolding decode_entries
  decode_entries-value [] v = refl
  decode_entries-value (e ∷ es) v = rw (laws.value_decoded e v.0, decode_entries-value es v.1)

  decode-document :
      (es : List E)
      → all l.valid es ≡ true
      → decode p l (document p l es) ≡ (
          guard (plain_text (store_hash p l es)) document_invalid
          >> check_entries p l (store_hash p l es) es)
  unfolding decode
  decode-document es v = rw (decode_entries-value es (all→All l.valid es v), eq_refl l.policy)

  check_entries-eq-ok :
      (hash : String) (es fs : List E) → check_entries p l hash es ≡ ok fs → fs ≡ es
  unfolding check_entries
  check_entries-eq-ok hash es fs h =
      let (_, h₁) =
        >>-eq-ok (guard (same_texts (ids p l es) (sort codes (ids p l es))) ids_unsorted) _ h in
      let (_, h₂) = >>-eq-ok (guard (not (has_duplicates (ids p l es))) ids_unsorted) _ h₁ in
      let (_, h₃) = >>-eq-ok (guard (all_unique p l l.unique es) values_duplicated) _ h₂ in
      let (_, h₄) = >>-eq-ok (guard (hash == store_hash p l es) hash_invalid) _ h₃ in
      sym (ok_inj h₄)

  -- A written file that is read at all gives its entries, in the order of their ids.
  pub stored-Written :
      (es fs : List E) (file : Option (Stat × Bytes))
      → Written p euid l es file
      → stored p euid l file ≡ ok fs
      → fs ≡ sort (id_key p euid l) es
  stored-Written es fs file w h =
      let ordered = sort (id_key p euid l) es in
      let read = sym (ap (stored p euid l) w.content) ∙ h in
      let content = content_of p euid l es in
      let (_, h₁) =
        >>-eq-ok (guard (file_trusted euid (private_stat euid) (size content)) file_untrusted) _
          read in
      let (_, h₂) = >>-eq-ok (guard (leb (size content) max_bytes) size_exceeded) _ h₁ in
      let (_, h₃) = >>-eq-ok (guard (not (size content ==ℕ 0)) file_empty) _ h₂ in
      let decoded =
        sym (decode-document ordered w.valid)
        ∙ sym (
            ap (loaded p euid l)
              (law.loads-dumps (document p l ordered) (document_canonical ordered)))
        ∙ h₃ in
      let (_, h₄) =
        >>-eq-ok (guard (plain_text (store_hash p l ordered)) document_invalid) _ decoded in
      check_entries-eq-ok (store_hash p l ordered) ordered fs h₄
