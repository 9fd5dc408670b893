-- ===== src/Store/File.antt =====
-- The file of a store: `_validate_parent`, `_validate_file`, `_open_lock`, `_read_locked` and
-- `_write_locked`. An operation holds the lock from its reading to its writing. Files are read whole:
-- the loop over `os.read` only adds up their size.
use Prim.Native.Nat.{bit_and}
use drive_sanitization_manag.Prelude.{
  ℕ, Bool, true, false, ◌&&◌, ◌||◌, not, List, [], ◌∷◌, Option, none, some, all, leb, codes, ◌==ℕ◌,
  Result, ok, err, ◌>>◌, guard, if◌then◌else◌, lifted, on_ok,
}
use drive_sanitization_manag.Value.{Value}
use drive_sanitization_manag.Platform.{Platform}
use drive_sanitization_manag.Sort.{sort}
use drive_sanitization_manag.Files.{
  over_directory, Disk, Faults, Stat, is_directory, is_symlink, is_private, private_stat, write_all,
}
use drive_sanitization_manag.Store.{
  Layout, StoreError, parent_unavailable, parent_untrusted, lock_uninspected, lock_unopened,
  lock_untrusted, open_failed, file_untrusted, size_exceeded, file_empty, malformed,
  refused_invalid, refused_duplicate, inspection_failed, no_progress, max_bytes,
}
use drive_sanitization_manag.Store.Document.{all_unique, document, decode}

-- `_validate_file`, of a stat and a size
abbrev pub file_trusted : ℕ → Stat → ℕ → Bool
file_trusted euid s n = is_private euid s && leb n max_bytes

-- `_validate_parent`
abbrev pub parent_trusted : ℕ → Option Stat → Result StoreError (Unit {0})
parent_trusted euid none = err parent_unavailable
parent_trusted euid (some s) =
    guard (is_directory s.kind && s.uid ==ℕ euid && bit_and s.mode 0o077 ==ℕ 0) parent_untrusted

-- `os.open` of the lock with `O_CREAT`, and the check of what it opened.
abbrev pub opened_lock : ℕ → Bool → Stat × ℕ → Result StoreError (Stat × ℕ)
opened_lock euid true l = err lock_unopened
opened_lock euid false (s, n) = do guard (file_trusted euid s n) lock_untrusted; ok (s, n)

-- A lock file that `os.path.lexists` finds is inspected before it is opened.
abbrev pub checked_lock : ℕ → Faults → Option (Stat × ℕ) → Result StoreError (Stat × ℕ)
checked_lock euid f none = opened_lock euid f.lock_fails (private_stat euid, 0)
checked_lock euid f (some (s, n)) =
    if f.lock_lookup_fails
    then opened_lock euid (f.lock_fails || is_symlink s.kind || is_directory s.kind) (s, n)
    else if f.lock_inspect_fails
    then err lock_uninspected
    else (do guard (file_trusted euid s n) lock_untrusted; opened_lock euid f.lock_fails (s, n))

abbrev pub with_lock :
    {B : Type 0} → Result StoreError (Stat × ℕ) → Disk B → Result StoreError (Unit {0}) × Disk B
with_lock (err e) d = (err e, d)
with_lock (ok l) d = (ok tt, record d { lock = some l })

-- `_open_lock`
unfoldable pub open_lock :
    {B : Type 0} → ℕ → Faults → Disk B → Result StoreError (Unit {0}) × Disk B
open_lock euid f d =
    if f.parent_fails
    then (err parent_unavailable, d)
    else with_lock (parent_trusted euid d.parent >> checked_lock euid f d.lock) d

module _ (p : Platform) (euid : ℕ) {E : Type 0} (l : Layout E) where
  open p use {Bytes, size, dumps, loads}

  abbrev pub id_key : E → List ℕ
  id_key e = codes (l.id e)

  abbrev pub loaded : Option Value → Result StoreError (List E)
  loaded none = err malformed
  loaded (some v) = decode p l v

  -- The entries of an opened file.
  abbrev pub read_content : Stat → Bytes → Result StoreError (List E)
  read_content s content = do
    guard (file_trusted euid s (size content)) file_untrusted
    guard (leb (size content) max_bytes) size_exceeded
    guard (not (size content ==ℕ 0)) file_empty
    loaded (loads content)

  abbrev pub read_file : Bool → Option (Stat × Bytes) → Result StoreError (List E)
  read_file fails none = ok []
  read_file fails (some (s, content)) =
      if fails || is_symlink s.kind then err open_failed else read_content s content

  -- `_read_locked`
  unfoldable pub read_locked : Faults → Disk Bytes → Result StoreError (List E)
  read_locked f d = if f.lookup_fails then ok [] else read_file f.open_fails d.file

  -- The inspection of the file that is to be replaced.
  abbrev pub old_file_trusted : Bool → Option (Stat × Bytes) → Result StoreError (Unit {0})
  old_file_trusted fails none = ok tt
  old_file_trusted fails (some (s, content)) =
      if fails
      then err inspection_failed
      else guard (file_trusted euid s (size content)) file_untrusted

  -- The checks of `_write_locked` before it touches the directory.
  unfoldable pub check_write : Faults → List E → Disk Bytes → Result StoreError (Unit {0})
  check_write f ordered d = do
    guard (all l.valid ordered) refused_invalid
    guard (all_unique p l (l.id ∷ l.unique) ordered) refused_duplicate
    guard (leb (size (dumps (document p l ordered))) max_bytes) size_exceeded
    if f.relookup_fails then ok tt else old_file_trusted f.inspect_fails d.file

  -- The temporary file, its replacement of the store, and the calls after it.
  unfoldable pub replace_file :
      Faults → Bytes → Disk Bytes → Result StoreError (Unit {0}) × Disk Bytes
  replace_file f content d =
      if not (write_all (size content) f.written)
      then (err no_progress, d)
      else if f.before_replace || over_directory d.file
      then (err l.os_failure, d)
      else (
        guard (not f.after_replace) l.os_failure,
        record d { file = some (private_stat euid, content) },
      )

  abbrev pub after_checks :
      Result StoreError (Unit {0})
      → Faults
      → Bytes
      → Disk Bytes
      → Result StoreError (Unit {0}) × Disk Bytes
  after_checks (err e) f content d = (err e, d)
  after_checks (ok u) f content d = replace_file f content d

  -- `_write_locked`
  unfoldable pub write_locked :
      Faults → List E → Disk Bytes → Result StoreError (Unit {0}) × Disk Bytes
  write_locked f entries d =
      after_checks (check_write f (sort id_key entries) d) f
        (dumps (document p l (sort id_key entries))) d

  -- `read_locked` behind `open_lock`, and then the body of an operation with its own errors.
  abbrev pub locked :
      {X A : Type 0}
      → (StoreError → X)
      → Faults
      → Disk Bytes
      → (List E → Disk Bytes → Result X A × Disk Bytes)
      → Result X A × Disk Bytes
  locked lift f d body =
      on_ok (lifted lift (open_lock euid f d))
        (λ _ d₁. on_ok (lifted lift (read_locked f d₁, d₁)) body)

  -- The same with a check between the lock and the reading.
  abbrev pub locked_after :
      {X A Y : Type 0}
      → (StoreError → X)
      → Faults
      → Disk Bytes
      → Result X Y
      → (Y → List E → Disk Bytes → Result X A × Disk Bytes)
      → Result X A × Disk Bytes
  locked_after lift f d check body =
      on_ok (lifted lift (open_lock euid f d))
        (λ _ d₁. on_ok (check, d₁) (λ y d₂. on_ok (lifted lift (read_locked f d₂, d₂)) (body y)))

  -- The write, and then the rest of the operation.
  abbrev pub write_and :
      {X A : Type 0}
      → (StoreError → X)
      → Faults
      → List E
      → Disk Bytes
      → (Disk Bytes → Result X A × Disk Bytes)
      → Result X A × Disk Bytes
  write_and lift f es d next = on_ok (lifted lift (write_locked f es d)) (λ _ d'. next d')
