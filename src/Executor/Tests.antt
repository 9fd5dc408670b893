-- ===== src/Executor/Tests.antt =====
-- Runs of the store of authorizations, and their theorems at those.
use drive_sanitization_manag.Prelude.{
  true, false, ◌≡◌, refl, [], ◌∷◌, none, some, length, strip, ok,
}
use drive_sanitization_manag.Sort.{sort}
use drive_sanitization_manag.Platform.{parse_utc, canonical_hash}
use drive_sanitization_manag.Auth.Text.{hash_value, prefixed_hex}
use drive_sanitization_manag.Auth.Journal.{entry_valid}
use drive_sanitization_manag.Auth.Journal.Document
use drive_sanitization_manag.Auth.Journal.Operations
use drive_sanitization_manag.Auth.Journal.Store as JournalFile
use drive_sanitization_manag.History.{granted, Clashless}
use drive_sanitization_manag.Store.{plain_text, parse_micro}
use drive_sanitization_manag.Store.Document.{
  ascii_hash, decode, decode_entry, decode_entries, check_entries,
}
use drive_sanitization_manag.Store.File.{
  open_lock, read_locked, check_write, replace_file, write_locked,
}
use drive_sanitization_manag.Store.Atomic.{WriteOutcome, write_locked_atomic}
use drive_sanitization_manag.Store.Keeps.{OpOutcome}
use drive_sanitization_manag.Samples.{zeros, platform, lawful, no_faults}
use drive_sanitization_manag.Executor.Record.{record_valid, layout}
use drive_sanitization_manag.Executor.Operations.{
  authorize, reserve, new_authorization, new_reservation,
}
use drive_sanitization_manag.Executor.Steps.{
  Authorizes, authorization_step, Reserves, reservation_step,
}
use drive_sanitization_manag.Executor.Search.{Overlap}
use drive_sanitization_manag.Executor.Once.{authorizing, reserving, authorized_once, reserved_once}
use drive_sanitization_manag.Executor.Live.{record_trusted, check_provenance}
use drive_sanitization_manag.Executor.Trusted.{TrustedOutcome, record_trusted-TrustedOutcome}
use drive_sanitization_manag.Executor.Samples.{
  lease_id, authorization_id, identity, scope, handoff, journal, private_directory, provenance,
  authorizing_call, reserving_call, authorized,
}

-- A second authorization of a provenance is refused, and a second reservation of an id.
authorizes_once :
    length (
      granted
        (authorizing platform 1000)
        (authorizing_call ∷ authorizing_call ∷ [])
        private_directory)
    ≡ 1
unfolding authorize new_authorization record_valid plain_text parse_micro ascii_hash decode
    decode_entry decode_entries check_entries open_lock read_locked check_write replace_file
    write_locked sort prefixed_hex strip
authorizes_once = refl

reserves_once :
    length (
      granted
        (reserving platform 1000)
        (authorizing_call ∷ reserving_call ∷ reserving_call ∷ [])
        private_directory)
    ≡ 1
unfolding authorize reserve new_authorization new_reservation record_valid plain_text parse_micro
    ascii_hash decode decode_entry decode_entries check_entries open_lock read_locked check_write
    replace_file write_locked sort prefixed_hex strip
reserves_once = refl

authorization_step_example :
    OpOutcome platform 1000
      (layout platform)
      (Authorizes platform 1000 provenance)
      none
      (authorize platform 1000 provenance (zeros ∷ []) (some 0) no_faults private_directory)
authorization_step_example =
    authorization_step platform 1000 provenance (zeros ∷ []) (some 0) no_faults private_directory
      refl

reservation_step_example :
    OpOutcome platform 1000 (layout platform) (Reserves platform 1000 authorization_id) none (
      reserve platform 1000 authorization_id lease_id identity
        (some 60000000)
        no_faults
        private_directory)
reservation_step_example =
    reservation_step platform 1000 authorization_id lease_id identity (some 60000000) no_faults
      private_directory

authorized_once_example : Clashless (authorizing platform 1000) Overlap (
    granted
      (authorizing platform 1000)
      (authorizing_call ∷ reserving_call ∷ authorizing_call ∷ [])
      private_directory)
authorized_once_example =
    authorized_once platform 1000 lawful (authorizing_call ∷ reserving_call ∷ authorizing_call ∷ [])
      private_directory (refl, (tt, (refl, tt)))

reserved_once_example :
    Clashless
      (reserving platform 1000)
      (λ i j. i ≡ j)
      (granted
        (reserving platform 1000)
        (authorizing_call ∷ reserving_call ∷ reserving_call ∷ [])
        private_directory)
reserved_once_example =
    reserved_once platform 1000 lawful (authorizing_call ∷ reserving_call ∷ reserving_call ∷ [])
      private_directory (refl, (tt, (tt, tt)))

record_trusted-TrustedOutcome_example :
    TrustedOutcome platform 1000 handoff true
      (some scope)
      false
      7
      no_faults
      journal
      private_directory
      []
      (record_trusted platform 1000 handoff true
        (some scope)
        false
        7
        (zeros ∷ [])
        (some 0)
        no_faults
        no_faults
        journal
        private_directory
        []).0
record_trusted-TrustedOutcome_example =
    record_trusted-TrustedOutcome platform 1000 handoff true (some scope) false 7 (zeros ∷ [])
      (some 0) no_faults no_faults journal private_directory [] refl

-- The handoff of the completed gate is authorized for its lease.
trusted :
    (record_trusted platform 1000 handoff true
      (some scope)
      false
      7
      (zeros ∷ [])
      (some 0)
      no_faults
      no_faults
      journal
      private_directory
      []).0.0
    ≡ ok authorized
unfolding record_trusted check_provenance authorize new_authorization record_valid plain_text
    parse_micro ascii_hash decode decode_entry decode_entries check_entries open_lock read_locked
    check_write replace_file write_locked sort prefixed_hex strip entry_valid canonical_hash
    hash_value parse_utc Operations.entry_for_binding JournalFile.open_lock JournalFile.read_entries
    Document.decode Document.decode_entries Document.decode_entry Document.check_entries
trusted = refl

write_locked_atomic_example :
    WriteOutcome platform 1000
      (layout platform)
      (authorized ∷ [])
      private_directory
      (write_locked platform 1000 (layout platform) no_faults (authorized ∷ []) private_directory)
write_locked_atomic_example =
    write_locked_atomic platform 1000 (layout platform) no_faults (authorized ∷ [])
      private_directory
