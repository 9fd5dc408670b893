-- ===== src/Samples.antt =====
-- Values for the runs of every part: a platform with two instants and a directory.
use Prim.Native.String.{◌++◌}
use drive_sanitization_manag.Prelude.{
  String, refl, ◌==ℕ◌, [], ◌∷◌, none, some, codes, codes_eq, false, if◌then◌else◌,
}
use drive_sanitization_manag.Value.{Value}
use drive_sanitization_manag.Platform.{Platform}
use drive_sanitization_manag.Platform.Laws.{Lawful}
use drive_sanitization_manag.Files.{Kind, Disk, Faults}

abbrev pub zeros : String
zeros = "0000000000000000000000000000000000000000000000000000000000000000"

abbrev pub hash : String
hash = "sha256:" ++ zeros

abbrev pub early : String
early = "2026-01-01T00:00:00Z"

abbrev pub late : String
late = "2026-01-01T00:01:00Z"

-- Two instants a minute apart; files hold the values themselves.
abbrev pub platform : Platform
platform = record {
  Bytes = Value;
  size = λ v. 1;
  dumps = λ v. v;
  loads = λ v. some v;
  digest = λ v. zeros;
  digest_ascii = λ v. zeros;
  from_iso = λ s.
      if codes_eq s (codes early)
      then some 0
      else if codes_eq s (codes late)
      then some 60000000
      else none;
  iso = λ n. if n ==ℕ 0 then early else late;
  iso_micro = λ n. if n ==ℕ 0 then early else late;
}

pub lawful : Lawful platform
lawful = record { loads-dumps = λ v h. refl; dumps_nonempty = λ v. refl; digest_hex = λ v. refl }

abbrev pub no_faults : Faults
no_faults = record {
  parent_fails = false;
  lock_inspect_fails = false;
  lock_fails = false;
  open_fails = false;
  inspect_fails = false;
  before_replace = false;
  after_replace = false;
  written = 1 ∷ [];
  lookup_fails = false;
  relookup_fails = false;
  lock_lookup_fails = false;
}

abbrev pub directory : Disk Value
directory = record {
  parent = some (record { kind = Kind.directory; uid = 1000; nlink = 2; mode = 0o755 });
  lock = none;
  file = none;
}
