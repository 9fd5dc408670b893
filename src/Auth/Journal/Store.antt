-- ===== src/Auth/Journal/Store.antt =====
-- The file of the journal: `_validate_parent`, `_open_lock`, `_read_entries_locked` and
-- `_write_entries_locked`. An operation holds the lock from its reading to its writing, so that
-- operations of any processes follow one another. Files are read whole: the loop over `os.read` only
-- adds up their size.
use Prim.Native.Nat.{bit_and}
use drive_sanitization_manag.Prelude.{
  has_duplicates, ℕ, Bool, ◌&&◌, ◌||◌, not, List, [], Option, none, some, all, leb, codes, ◌==ℕ◌,
  Result, ok, err, ◌>>◌, guard, if◌then◌else◌,
}
use drive_sanitization_manag.Value.{Value}
use drive_sanitization_manag.Platform.{Platform}
use drive_sanitization_manag.Sort.{sort}
use drive_sanitization_manag.Files.{
  over_directory, write_all, Disk, Faults, Stat, is_directory, is_symlink, is_private, private_stat,
}
use drive_sanitization_manag.Auth.Types.{DurableExecutionGateJournalEntry}
use drive_sanitization_manag.Auth.Journal.{
  JournalError, parent_unavailable, parent_untrusted, lock_unavailable, lock_untrusted, open_failed,
  file_untrusted, size_exceeded, file_empty, file_malformed, duplicate_bindings,
  refused_invalid_entry, inspection_failed, no_progress, persistence_failed, max_bytes, entry_valid,
}
use drive_sanitization_manag.Auth.Journal.Document.{binding_ids, document, decode}

abbrev pub id_key : DurableExecutionGateJournalEntry → List ℕ
id_key e = codes e.binding_id

module _ (p : Platform) (euid : ℕ) where
  open p use {Bytes, size, dumps, loads}

  -- `_validate_parent`
  abbrev pub parent_trusted : Option Stat → Result JournalError (Unit {0})
  parent_trusted none = err parent_unavailable
  parent_trusted (some s) =
      guard (is_directory s.kind && s.uid ==ℕ euid && bit_and s.mode 0o022 ==ℕ 0) parent_untrusted

  -- The lock file after `os.open` with `O_CREAT` and `O_NOFOLLOW`.
  abbrev pub opened_lock : Option (Stat × ℕ) → Result JournalError (Stat × ℕ)
  opened_lock none = ok (private_stat euid, 0)
  opened_lock (some (s, n)) =
      if is_symlink s.kind || is_directory s.kind then err lock_unavailable else ok (s, n)

  abbrev pub lock_after :
      Result JournalError (Unit {0})
      → Result JournalError (Stat × ℕ)
      → Bool
      → Disk Bytes
      → Result JournalError (Unit {0}) × Disk Bytes
  lock_after (err e) lock fails d = (err e, d)
  lock_after (ok u) (err e) fails d = (err e, d)
  lock_after (ok u) (ok l) fails d =
      if fails
      then (err lock_unavailable, d)
      else (guard (is_private euid l.0) lock_untrusted, record d { lock = some l })

  -- `_open_lock`: the lock file is there from now on, also where it is refused.
  unfoldable pub open_lock : Faults → Disk Bytes → Result JournalError (Unit {0}) × Disk Bytes
  open_lock f d =
      if f.parent_fails
      then (err parent_unavailable, d)
      else lock_after (parent_trusted d.parent) (opened_lock d.lock) f.lock_fails d

  -- `_validate_existing_journal_file`
  abbrev pub file_trusted : Stat → Bytes → Bool
  file_trusted s content = is_private euid s && leb (size content) max_bytes

  abbrev pub loaded : Option Value → Result JournalError (List DurableExecutionGateJournalEntry)
  loaded none = err file_malformed
  loaded (some v) = decode p v

  -- The entries of an opened file.
  abbrev pub read_content :
      Stat → Bytes → Result JournalError (List DurableExecutionGateJournalEntry)
  read_content s content = do
    guard (file_trusted s content) file_untrusted
    guard (leb (size content) max_bytes) size_exceeded
    guard (not (size content ==ℕ 0)) file_empty
    loaded (loads content)

  abbrev pub read_file :
      Bool → Option (Stat × Bytes) → Result JournalError (List DurableExecutionGateJournalEntry)
  read_file fails none = ok []
  read_file fails (some (s, content)) =
      if fails || is_symlink s.kind then err open_failed else read_content s content

  -- `_read_entries_locked`
  unfoldable pub read_entries :
      Faults → Disk Bytes → Result JournalError (List DurableExecutionGateJournalEntry)
  read_entries f d = if f.lookup_fails then ok [] else read_file f.open_fails d.file

  -- The inspection of the file that is to be replaced.
  abbrev pub old_file_trusted : Bool → Option (Stat × Bytes) → Result JournalError (Unit {0})
  old_file_trusted fails none = ok tt
  old_file_trusted fails (some (s, content)) =
      if fails then err inspection_failed else guard (file_trusted s content) file_untrusted

  -- The checks of `_write_entries_locked` before it touches the directory.
  unfoldable pub check_write :
      Faults → List DurableExecutionGateJournalEntry → Disk Bytes → Result JournalError (Unit {0})
  check_write f ordered d = do
    guard (not (has_duplicates (binding_ids ordered))) duplicate_bindings
    guard (all (entry_valid p) ordered) refused_invalid_entry
    guard (leb (size (dumps (document p ordered))) max_bytes) size_exceeded
    if f.relookup_fails then ok tt else old_file_trusted f.inspect_fails d.file

  -- The temporary file, its replacement of the journal, and the calls after it.
  unfoldable pub replace_file :
      Faults → Bytes → Disk Bytes → Result JournalError (Unit {0}) × Disk Bytes
  replace_file f content d =
      if not (write_all (size content) f.written)
      then (err no_progress, d)
      else if f.before_replace || over_directory d.file
      then (err persistence_failed, d)
      else (
        guard (not f.after_replace) persistence_failed,
        record d { file = some (private_stat euid, content) },
      )

  abbrev pub after_checks :
      Result JournalError (Unit {0})
      → Faults
      → Bytes
      → Disk Bytes
      → Result JournalError (Unit {0}) × Disk Bytes
  after_checks (err e) f content d = (err e, d)
  after_checks (ok u) f content d = replace_file f content d

  -- `_write_entries_locked`
  unfoldable pub write_entries :
      Faults
      → List DurableExecutionGateJournalEntry
      → Disk Bytes
      → Result JournalError (Unit {0}) × Disk Bytes
  write_entries f entries d =
      after_checks (check_write f (sort id_key entries) d) f
        (dumps (document p (sort id_key entries))) d
