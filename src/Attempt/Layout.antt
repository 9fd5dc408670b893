-- ===== src/Attempt/Layout.antt =====
-- About the layout of the execution-attempt journal: its records are read back.
use drive_sanitization_manag.Prelude.{◌≡◌, refl, true, ok}
use drive_sanitization_manag.Platform.{Platform}
use drive_sanitization_manag.Platform.Laws.{is_canonical}
use drive_sanitization_manag.Store.Document.{decode_entry}
use drive_sanitization_manag.Store.Atomic.{LayoutLaws}
use drive_sanitization_manag.Attempt.Record.{
  ExecutionAttemptRecord, record_value, layout, record_valid,
}

module _ (p : Platform) where
  record_canonical : (e : ExecutionAttemptRecord) → is_canonical (record_value e) ≡ true
  unfolding is_canonical
  record_canonical e = refl

  record_decoded :
      (e : ExecutionAttemptRecord)
      → record_valid p e ≡ true
      → decode_entry p (layout p) (record_value e) ≡ ok e
  unfolding decode_entry
  record_decoded e v = rw (v)

  pub layout_laws : LayoutLaws p (layout p)
  layout_laws = record { value_canonical = record_canonical; value_decoded = record_decoded }
