-- ===== src/Executor/Layout.antt =====
-- About the layout of the executor-authorization store: its records are read back.
use drive_sanitization_manag.Prelude.{◌≡◌, true, ok}
use drive_sanitization_manag.Platform.{Platform}
use drive_sanitization_manag.Platform.Laws.{is_canonical}
use drive_sanitization_manag.Auth.Journal.RoundTrip.{optional_text_of-value, optional_canonical}
use drive_sanitization_manag.Store.Document.{decode_entry}
use drive_sanitization_manag.Store.Atomic.{LayoutLaws}
use drive_sanitization_manag.Executor.Record.{
  ExecutorAuthorizationRecord, record_value, layout, record_valid,
}

module _ (p : Platform) where
  record_canonical : (e : ExecutorAuthorizationRecord) → is_canonical (record_value e) ≡ true
  unfolding is_canonical
  record_canonical e = rw (optional_canonical e.reserved_at_utc)

  record_decoded :
      (e : ExecutorAuthorizationRecord)
      → record_valid p e ≡ true
      → decode_entry p (layout p) (record_value e) ≡ ok e
  unfolding decode_entry
  record_decoded e v = rw (optional_text_of-value e.reserved_at_utc, v)

  pub layout_laws : LayoutLaws p (layout p)
  layout_laws = record { value_canonical = record_canonical; value_decoded = record_decoded }
