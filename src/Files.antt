-- ===== src/Files.antt =====
-- The part of the file system that a journal sees: its directory, its lock file and its own file,
-- as the system calls report them, and the faults that the system may answer with.
use drive_sanitization_manag.Prelude.{
  zero, suc, [], ◌∷◌, ◌-◌, ℕ, Bool, true, false, ◌&&◌, List, Option, none, some, ◌==ℕ◌, ◌≡◌,
}

pub data Kind : Type 0 where
  regular directory symlink other : Kind

-- `os.lstat` without the size. `mode` is `stat.S_IMODE(st_mode)`.
pub record Stat : Type 0 where
  pub kind : Kind
  pub uid : ℕ
  pub nlink : ℕ
  pub mode : ℕ

pub record Disk (B : Type 0) : Type 0 where
  pub parent : Option Stat
  -- The lock file, with its size.
  pub lock : Option (Stat × ℕ)
  pub file : Option (Stat × B)

-- What the system answers in one operation: `OSError` at the inspection of the parent, at that of the
-- lock, which the journal of the gate does not make, at the opening of the lock or of the file, at the inspection of the old file, at a call up to
-- `os.replace` (mkstemp, fchmod, write, fsync, close, replace), or after it (lstat, the opening and
-- the fsync of the directory); and the number of bytes that each `os.write` takes. `os.path.lexists`
-- swallows `OSError` and answers False, also where the file is there: at the reading
-- (`lookup_fails`), before the inspection of the old file (`relookup_fails`) and before that of the
-- lock (`lock_lookup_fails`).
pub record Faults : Type 0 where
  pub parent_fails : Bool
  pub lock_inspect_fails : Bool
  pub lock_fails : Bool
  pub open_fails : Bool
  pub inspect_fails : Bool
  pub before_replace : Bool
  pub after_replace : Bool
  pub written : List ℕ
  pub lookup_fails : Bool
  pub relookup_fails : Bool
  pub lock_lookup_fails : Bool

-- The reading finds the file where it is there.
abbrev pub Looked : Faults → Type 0
Looked f = f.lookup_fails ≡ false

abbrev pub is_regular : Kind → Bool
is_regular Kind.regular = true
is_regular _ = false

abbrev pub is_directory : Kind → Bool
is_directory Kind.directory = true
is_directory _ = false

abbrev pub is_symlink : Kind → Bool
is_symlink Kind.symlink = true
is_symlink _ = false

-- `os.replace` fails where a directory has the name.
abbrev pub over_directory : {B : Type 0} → Option (Stat × B) → Bool
over_directory none = false
over_directory (some (s, content)) = is_directory s.kind

-- A regular file of the user's own, with one link and mode 0o600.
abbrev pub is_private : ℕ → Stat → Bool
is_private euid s = is_regular s.kind && s.uid ==ℕ euid && s.nlink ==ℕ 1 && s.mode ==ℕ 0o600

-- A file that the process creates with mode 0o600.
abbrev pub private_stat : ℕ → Stat
private_stat euid = record { kind = Kind.regular; uid = euid; nlink = 1; mode = 0o600 }

-- The loop of `os.write`: whether all the bytes are written. A write that takes nothing ends it, and
-- those beyond the list take nothing.
abbrev pub write_all : ℕ → List ℕ → Bool
write_all zero taken = true
write_all (suc n) [] = false
write_all (suc n) (zero ∷ taken) = false
write_all (suc n) (suc k ∷ taken) = write_all (n - k) taken
