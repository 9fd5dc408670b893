-- ===== src/Auth/Journal/Atomic.antt =====
-- About `_write_entries_locked`: what its checks and its faults leave in the file.
use drive_sanitization_manag.Prelude.{
  ◌||◌, has_duplicates, ℕ, ◌≡◌, refl, sym, ap, ◌∙◌, true, false, not, Bool-cases, ◌⊎◌, inl, inr,
  List, Option, some, all, leb, ◌==ℕ◌, Result, ok, err, guard, guard-eq-ok, >>-eq-ok, arith,
}
use drive_sanitization_manag.Platform.{Platform}
use drive_sanitization_manag.Platform.Laws.{Lawful}
use drive_sanitization_manag.Sort.{sort}
use drive_sanitization_manag.Files.{over_directory, write_all, Disk, Faults, Stat, private_stat}
use drive_sanitization_manag.Auth.Text.{hash_value}
use drive_sanitization_manag.Auth.Types.{DurableExecutionGateJournalEntry}
use drive_sanitization_manag.Auth.Journal.{
  JournalError, document_invalid, file_untrusted, size_exceeded, file_empty, duplicate_bindings,
  refused_invalid_entry, no_progress, persistence_failed, max_bytes, entry_valid,
}
use drive_sanitization_manag.Auth.Journal.Document.{binding_ids, journal_hash, document}
use drive_sanitization_manag.Auth.Journal.Store.{
  id_key, file_trusted, loaded, read_file, check_write, replace_file, after_checks, write_entries,
}
use drive_sanitization_manag.Auth.Journal.RoundTrip.{
  document_canonical, decode-document, check_entries-eq-ok,
}

module _ (p : Platform) (euid : ℕ) where
  open p use {Bytes, size, dumps, loads}

  -- What a reading without faults finds in the file.
  abbrev pub stored :
      Option (Stat × Bytes) → Result JournalError (List DurableExecutionGateJournalEntry)
  stored file = read_file p euid false file

  abbrev pub content_of : List DurableExecutionGateJournalEntry → Bytes
  content_of es = dumps (document p (sort id_key es))

  -- The file holds the whole document of these entries, which passed the checks of the writer.
  pub record Written (es : List DurableExecutionGateJournalEntry) (file : Option (Stat × Bytes))
      : Type 0 where
    pub content : file ≡ some (private_stat euid, content_of es)
    pub unique : has_duplicates (binding_ids (sort id_key es)) ≡ false
    pub valid : all (entry_valid p) (sort id_key es) ≡ true
    pub fits : leb (size (content_of es)) max_bytes ≡ true

  abbrev pub WriteOutcome :
      List DurableExecutionGateJournalEntry
      → Disk Bytes
      → Result JournalError (Unit {0}) × Disk Bytes
      → Type 0
  WriteOutcome es d s =
      ((s.0 ≡ ok tt) × Written es s.1.file)
      ⊎ ((e : JournalError) × (s.0 ≡ err e) × ((s.1.file ≡ d.file) ⊎ Written es s.1.file))

  replace_file-WriteOutcome :
      (f : Faults) (es : List DurableExecutionGateJournalEntry) (d : Disk Bytes)
      → (has_duplicates (binding_ids (sort id_key es)) ≡ false)
      → (all (entry_valid p) (sort id_key es) ≡ true)
      → (leb (size (content_of es)) max_bytes ≡ true)
      → WriteOutcome es d (replace_file p euid f (content_of es) d)
  unfolding replace_file
  replace_file-WriteOutcome f es d u v s =
      elim (Bool-cases (write_all (size (content_of es)) f.written)) [
        | inr short ↦ rw short (inr (no_progress, refl, inl refl))
        | inl whole ↦ elim (Bool-cases (f.before_replace || over_directory d.file)) [
          | inl early ↦ rw (whole, early) (inr (persistence_failed, refl, inl refl))
          | inr later ↦ elim (Bool-cases f.after_replace) [
            | inl late ↦
                rw (whole, later, late)
                  (inr (
                    persistence_failed,
                    refl,
                    inr (record { content = refl; unique = u; valid = v; fits = s }),
                  ))
            | inr never ↦
                rw (whole, later, never)
                  (inl (refl, record { content = refl; unique = u; valid = v; fits = s }))
          ]
        ]
      ]

  check_write-eq-ok :
      (f : Faults) (es : List DurableExecutionGateJournalEntry) (d : Disk Bytes)
      → check_write p euid f (sort id_key es) d ≡ ok tt
      → (has_duplicates (binding_ids (sort id_key es)) ≡ false)
        × (all (entry_valid p) (sort id_key es) ≡ true)
        × (leb (size (content_of es)) max_bytes ≡ true)
  unfolding check_write
  check_write-eq-ok f es d h =
      let (u, h₁) =
        >>-eq-ok (guard (not (has_duplicates (binding_ids (sort id_key es)))) duplicate_bindings) _
          h in
      let (v, h₂) =
        >>-eq-ok (guard (all (entry_valid p) (sort id_key es)) refused_invalid_entry) _ h₁ in
      let (s, h₃) = >>-eq-ok (guard (leb (size (content_of es)) max_bytes) size_exceeded) _ h₂ in
      (
        ground (arith, guard-eq-ok _ duplicate_bindings u),
        guard-eq-ok _ refused_invalid_entry v,
        guard-eq-ok _ size_exceeded s,
      )

  after_checks-WriteOutcome :
      (m : Result JournalError (Unit {0})) (f : Faults) (es : List DurableExecutionGateJournalEntry)
      (d : Disk Bytes)
      → check_write p euid f (sort id_key es) d ≡ m
      → WriteOutcome es d (after_checks p euid m f (content_of es) d)
  after_checks-WriteOutcome (err e) f es d h = inr (e, refl, inl refl)
  after_checks-WriteOutcome (ok u) f es d h =
      let (u, v, s) = check_write-eq-ok f es d h in replace_file-WriteOutcome f es d u v s

  -- Whatever faults the system answers with, the file is afterwards the old one or holds the whole
  -- new document, valid, within the size and with each binding once; where the write returns, it is
  -- the new document.
  pub write_entries_atomic :
      (f : Faults) (es : List DurableExecutionGateJournalEntry) (d : Disk Bytes)
      → WriteOutcome es d (write_entries p euid f es d)
  unfolding write_entries
  write_entries_atomic f es d = after_checks-WriteOutcome _ f es d refl

  -- A written file that is read at all gives its entries, in the order of their binding ids.
  pub stored-Written :
      Lawful p
      → (es fs : List DurableExecutionGateJournalEntry) (file : Option (Stat × Bytes))
      → Written es file
      → stored file ≡ ok fs
      → fs ≡ sort id_key es
  stored-Written law es fs file w h =
      let read = sym (ap stored w.content) ∙ h in
      let (_, h₁) =
        >>-eq-ok (guard (file_trusted p euid (private_stat euid) (content_of es)) file_untrusted) _
          read in
      let (_, h₂) = >>-eq-ok (guard (leb (size (content_of es)) max_bytes) size_exceeded) _ h₁ in
      let (_, h₃) = >>-eq-ok (guard (not (size (content_of es) ==ℕ 0)) file_empty) _ h₂ in
      let doc = document p (sort id_key es) in
      let decoded =
        sym (decode-document p (sort id_key es) w.valid)
        ∙ sym (ap (loaded p euid) (law.loads-dumps doc (document_canonical p (sort id_key es))))
        ∙ h₃ in
      let (_, h₄) =
        >>-eq-ok (guard (hash_value (journal_hash p (sort id_key es))) document_invalid) _
          decoded in
      check_entries-eq-ok p (journal_hash p (sort id_key es)) (sort id_key es) fs h₄
