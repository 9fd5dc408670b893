-- ===== src/Seam/Tests.antt =====
-- Runs of a seam scope, and its theorems at those.
use drive_sanitization_manag.Prelude.{
  ◌≡◌, refl, true, false, [], ◌∷◌, none, some, length, ◌≤◌, strip, ok, List,
}
use drive_sanitization_manag.Value.{pos, py_eq}
use drive_sanitization_manag.Sort.{sort}
use drive_sanitization_manag.Auth.Text.{prefixed_hex}
use drive_sanitization_manag.History.{granted}
use drive_sanitization_manag.Store.{plain_text, parse_micro}
use drive_sanitization_manag.Store.Document.{
  ascii_hash, decode, decode_entry, decode_entries, check_entries,
}
use drive_sanitization_manag.Store.File.{open_lock, read_locked}
use drive_sanitization_manag.Samples.{platform, no_faults}
use drive_sanitization_manag.Executor.Record
use drive_sanitization_manag.Executor.Samples.{identity, reserved}
use drive_sanitization_manag.Attempt.Record.{record_valid}
use drive_sanitization_manag.Attempt.Operations.{check_capability, final_cycle}
use drive_sanitization_manag.Attempt.Samples.{capability, cycle, attempt, attempted_disk}
use drive_sanitization_manag.Seam.{
  Sight, Claim, Seam, Entry, Use, claim_state, attempt_matches, persisted_exact, new_seam, inspect,
  enter, exit, check_use, descriptor_locked,
}
use drive_sanitization_manag.Seam.Steps.{
  SeamCall, enter_call, descriptor_call, exit_call, consistent, run, Held, descriptor_locked-Held,
  seam_consistent,
}
use drive_sanitization_manag.Seam.Once.{issuing, descriptor_once}

abbrev sight : Sight
sight = record {
  capability = capability;
  lease = 1;
  lease_scope = 2;
  claim_scope = 3;
  authorization_scope = 4;
}

abbrev claim : Claim
claim = record {
  held_reference = 5;
  identity = identity;
  pre_continuity_id = "before";
  post_continuity_id = "after";
  fd = pos 9;
}

abbrev entry : Entry
entry = record {
  before = sight;
  semantics = record {
    absolute_write_exclusion_guaranteed = false;
    ordinary_raw_writers_excluded = false;
    execution_supported = false;
    executor_eligible = false;
    execution_authorized = false;
    internal_integrity_binding_only = true;
    external_authorization_proven = false;
  };
  lock_faults = no_faults;
  lock_fd = 8;
  authorization_before = ok reserved;
  first_read = no_faults;
  claim_before = some claim;
  cycle = cycle;
  observed = some "8:0";
  after = sight;
  authorization_after = ok reserved;
  second_read = no_faults;
  claim_after = some claim;
}

abbrev use_now : Use
use_now = record {
  now = sight;
  cycle = cycle;
  observed = some "8:0";
  authorization = ok reserved;
  read = no_faults;
  claim = some claim;
}

abbrev fresh : Seam
fresh = record {
  attempt_record = attempt;
  used = false;
  entered = false;
  descriptor_issued = false;
  attempt_lock_fd = none;
  frozen = none;
}

abbrev entered : Seam
entered = record fresh {
  used = true;
  entered = true;
  attempt_lock_fd = some 8;
  frozen = some (record { chain = sight; authorization = reserved; claim = claim });
}

abbrev calls : List SeamCall
calls =
    enter_call entry
    ∷ descriptor_call use_now
    ∷ descriptor_call use_now
    ∷ exit_call
    ∷ enter_call entry
    ∷ descriptor_call use_now
    ∷ []

-- The descriptor is given out once, and not at all before the entry.
issued_once : granted (issuing platform 1000) calls (fresh, attempted_disk) ≡ pos 9 ∷ []
unfolding enter exit descriptor_locked check_use inspect claim_state attempt_matches persisted_exact
    check_capability final_cycle record_valid Record.record_valid plain_text parse_micro ascii_hash
    decode decode_entry decode_entries check_entries open_lock read_locked sort prefixed_hex strip
    py_eq
issued_once = refl

descriptor_once_example : length (granted (issuing platform 1000) calls (fresh, attempted_disk)) ≤ 1
descriptor_once_example = descriptor_once platform 1000 calls fresh attempted_disk

made : new_seam platform 1000 attempt ≡ ok fresh
unfolding new_seam record_valid plain_text parse_micro ascii_hash prefixed_hex strip
made = refl

seam_consistent_example : consistent (run platform 1000 calls (fresh, attempted_disk)).0 ≡ true
seam_consistent_example = seam_consistent platform 1000 attempt fresh calls attempted_disk made

given : (descriptor_locked platform 1000 use_now entered attempted_disk).0 ≡ ok (pos 9)
unfolding descriptor_locked check_use claim_state persisted_exact check_capability final_cycle
    record_valid plain_text parse_micro ascii_hash decode decode_entry decode_entries check_entries
    read_locked sort prefixed_hex strip py_eq
given = refl

descriptor_locked-Held_example : Held platform 1000 use_now entered attempted_disk (pos 9)
descriptor_locked-Held_example =
    descriptor_locked-Held platform 1000 use_now entered attempted_disk (pos 9) given
