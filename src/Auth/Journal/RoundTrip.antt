-- ===== src/Auth/Journal/RoundTrip.antt =====
-- About the document: the reader's functions on what the writer makes.
use Prim.Native.String.{String}
use drive_sanitization_manag.Prelude.{
  has_duplicates, same_texts, ◌≡◌, refl, sym, true, not, List, [], ◌∷◌, Option, none, some, map,
  all, All, all→All, ok, ◌>>◌, >>-eq-ok, ok_inj, guard, codes, ◌==◌,
}
use drive_sanitization_manag.Value.{optional_text_of, to_items}
use drive_sanitization_manag.Platform.{Platform}
use drive_sanitization_manag.Platform.Laws.{is_canonical}
use drive_sanitization_manag.Sort.{sort}
use drive_sanitization_manag.Auth.Text.{hash_value}
use drive_sanitization_manag.Auth.Types.{DurableExecutionGateJournalEntry}
use drive_sanitization_manag.Auth.Journal.{
  document_invalid, bindings_unsorted, gates_duplicated, hash_invalid, optional_text_value,
  entry_valid,
}
use drive_sanitization_manag.Auth.Journal.Document.{
  entry_value, entries_value, binding_ids, gate_ids, journal_hash, document, decode_entry,
  decode_entries, check_entries, decode,
}

pub optional_text_of-value :
    (o : Option String) → optional_text_of (some (optional_text_value o)) ≡ some o
optional_text_of-value none = refl
optional_text_of-value (some s) = refl

pub optional_canonical : (o : Option String) → is_canonical (optional_text_value o) ≡ true
unfolding is_canonical
optional_canonical none = refl
optional_canonical (some s) = refl

items_canonical_lem :
    (es : List DurableExecutionGateJournalEntry) → is_canonical (entries_value es) ≡ true
unfolding is_canonical
items_canonical_lem [] = refl
items_canonical_lem (e ∷ es) =
    rw (optional_canonical e.completed_at_utc, optional_canonical e.gate_id, items_canonical_lem es)

module _ (p : Platform) where
  decode_entry-entry_value :
      (e : DurableExecutionGateJournalEntry)
      → entry_valid p e ≡ true
      → decode_entry p (entry_value e) ≡ ok e
  unfolding decode_entry
  decode_entry-entry_value e v =
      rw (optional_text_of-value e.gate_id, optional_text_of-value e.completed_at_utc, v)

  decode_entries-entry_value :
      (es : List DurableExecutionGateJournalEntry)
      → All (λ e. entry_valid p e ≡ true) es
      → decode_entries p (to_items (map entry_value es)) ≡ ok es
  unfolding decode_entries
  decode_entries-entry_value [] v = refl
  decode_entries-entry_value (e ∷ es) v =
      rw (decode_entry-entry_value e v.0, decode_entries-entry_value es v.1)

  pub document_canonical :
      (es : List DurableExecutionGateJournalEntry) → is_canonical (document p es) ≡ true
  unfolding is_canonical
  document_canonical es = rw (items_canonical_lem es)

  -- What is left to check of the document of valid entries.
  pub decode-document :
      (es : List DurableExecutionGateJournalEntry)
      → all (entry_valid p) es ≡ true
      → decode p (document p es) ≡ (
          guard (hash_value (journal_hash p es)) document_invalid
          >> check_entries p (journal_hash p es) es)
  unfolding decode
  decode-document es v = rw (decode_entries-entry_value es (all→All (entry_valid p) es v))

  pub check_entries-eq-ok :
      (hash : String) (es fs : List DurableExecutionGateJournalEntry)
      → check_entries p hash es ≡ ok fs
      → fs ≡ es
  unfolding check_entries
  check_entries-eq-ok hash es fs h =
      let (_, h₁) =
        >>-eq-ok
          (guard (same_texts (binding_ids es) (sort codes (binding_ids es))) bindings_unsorted) _
          h in
      let (_, h₂) =
        >>-eq-ok (guard (not (has_duplicates (binding_ids es))) bindings_unsorted) _ h₁ in
      let (_, h₃) = >>-eq-ok (guard (not (has_duplicates (gate_ids es))) gates_duplicated) _ h₂ in
      let (_, h₄) = >>-eq-ok (guard (hash == journal_hash p es) hash_invalid) _ h₃ in
      sym (ok_inj h₄)
