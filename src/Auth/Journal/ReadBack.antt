-- ===== src/Auth/Journal/ReadBack.antt =====
-- About `_read_entries_locked` on a file that `_write_entries_locked` wrote.
use Prim.Native.String.{◌++◌}
use text.Mathlib.TextLemmas.{nil-append, cons-append}
use Prim.Native.Char.{code}
use drive_sanitization_manag.Prelude.{
  has_duplicates, same_texts, ℕ, String, ◌≡◌, refl, sym, ap, ◌∙◌, true, false, inl, inr, List, [],
  ◌∷◌, Option, some, all, ◌==ℕ◌, ==ℕ_iff, codes, ok, ◌>>◌, guard, eq_refl,
}
use drive_sanitization_manag.Value.{Value}
use drive_sanitization_manag.Platform.{Platform, canonical_hash}
use drive_sanitization_manag.Platform.Laws.{Lawful}
use drive_sanitization_manag.Sort.{sort, Sorted, Sorted-sort, sort-Sorted}
use drive_sanitization_manag.Files.{Looked, Disk, Faults, Stat}
use drive_sanitization_manag.Auth.Text.{drop_prefix, hex_suffix, prefixed_hex, hash_value}
use drive_sanitization_manag.Auth.Types.{DurableExecutionGateJournalEntry}
use drive_sanitization_manag.Auth.Journal.{document_invalid, entry_valid}
use drive_sanitization_manag.Auth.Journal.Document.{
  binding_ids, gate_ids, store_payload, journal_hash, document, check_entries, decode,
}
use drive_sanitization_manag.Auth.Journal.Store.{id_key, read_entries, write_entries}
use drive_sanitization_manag.Auth.Journal.RoundTrip.{document_canonical, decode-document}
use drive_sanitization_manag.Auth.Journal.Atomic.{stored, Written, write_entries_atomic}

Sorted-binding_ids :
    (es : List DurableExecutionGateJournalEntry) → Sorted id_key es → Sorted codes (binding_ids es)
Sorted-binding_ids [] h = tt
Sorted-binding_ids (e ∷ []) h = tt
Sorted-binding_ids (e ∷ f ∷ es) h = (h.0, Sorted-binding_ids (f ∷ es) h.1)

same_texts_refl : (ss : List String) → same_texts ss ss ≡ true
same_texts_refl [] = refl
same_texts_refl (s ∷ ss) = rw (eq_refl s, same_texts_refl ss) refl

==ℕ_refl : (n : ℕ) → (n ==ℕ n) ≡ true
==ℕ_refl n = (==ℕ_iff n n).1 refl

drop_prefix-append : (s t : String) → drop_prefix (codes s) (codes (s ++ t)) ≡ some (codes t)
drop_prefix-append String.[] t = ap (λ u. some (codes u)) (nil-append t)
drop_prefix-append (String.◌∷◌ c s) t =
    ap (λ u. drop_prefix (codes (String.◌∷◌ c s)) (codes u)) (cons-append c s t)
    ∙ (rw (==ℕ_refl (code c), drop_prefix-append s t))

module _ (p : Platform) (law : Lawful p) where
  hash_value-canonical_hash : (v : Value) → hash_value (canonical_hash p v) ≡ true
  unfolding hash_value canonical_hash prefixed_hex
  hash_value-canonical_hash v =
      ap hex_suffix (drop_prefix-append "sha256:" (p.digest v)) ∙ law.digest_hex v

  check_entries-sort :
      (es : List DurableExecutionGateJournalEntry)
      → has_duplicates (binding_ids (sort id_key es)) ≡ false
      → has_duplicates (gate_ids (sort id_key es)) ≡ false
      → check_entries p (journal_hash p (sort id_key es)) (sort id_key es) ≡ ok (sort id_key es)
  unfolding check_entries
  check_entries-sort es u g =
      let ids = binding_ids (sort id_key es) in
      let ordered =
        sort-Sorted codes ids (Sorted-binding_ids (sort id_key es) (Sorted-sort id_key es)) in
      rw (ordered, same_texts_refl ids, u, g, eq_refl (journal_hash p (sort id_key es)))

module _ (p : Platform) (law : Lawful p) (euid : ℕ) where
  open p use {Bytes, size}

  decode-document-sort :
      (es : List DurableExecutionGateJournalEntry)
      → all (entry_valid p) (sort id_key es) ≡ true
      → has_duplicates (binding_ids (sort id_key es)) ≡ false
      → has_duplicates (gate_ids (sort id_key es)) ≡ false
      → decode p (document p (sort id_key es)) ≡ ok (sort id_key es)
  decode-document-sort es v u g =
      let hash = hash_value-canonical_hash p law (store_payload (sort id_key es)) in
      decode-document p (sort id_key es) v
      ∙ ap
          (λ b.
            guard b document_invalid
            >> check_entries p (journal_hash p (sort id_key es)) (sort id_key es))
          hash
      ∙ check_entries-sort p law es u g

  stored_back :
      (es : List DurableExecutionGateJournalEntry) (file : Option (Stat × p.Bytes))
      → Written p euid es file
      → has_duplicates (gate_ids (sort id_key es)) ≡ false
      → stored p euid file ≡ ok (sort id_key es)
  stored_back es file w g =
      ap (stored p euid) w.content
      ∙ (rw (
        ==ℕ_refl euid,
        w.fits,
        law.dumps_nonempty (document p (sort id_key es)),
        law.loads-dumps (document p (sort id_key es)) (document_canonical p (sort id_key es)),
        decode-document-sort es w.valid w.unique g,
      ))

  -- Where `_write_entries_locked` returns, a reading that finds the file and can open it gives back the entries, in
  -- the order of their binding ids, if no two of them have one gate id.
  pub write_entries-read_entries :
      (f later : Faults) (es : List DurableExecutionGateJournalEntry) (d : Disk Bytes)
      → has_duplicates (gate_ids (sort id_key es)) ≡ false
      → (write_entries p euid f es d).0 ≡ ok tt
      → Looked later
      → later.open_fails ≡ false
      → read_entries p euid later (write_entries p euid f es d).1 ≡ ok (sort id_key es)
  unfolding read_entries
  write_entries-read_entries f later es d g h looked opens =
      elim (write_entries_atomic p euid f es d) [
        | inl (_, w) ↦ rw (looked, opens) (stored_back es (write_entries p euid f es d).1.file w g)
        | inr (e, raised, _) ↦ let clash = sym h ∙ raised in cc
      ]
