-- ===== src/Auth/Tests.antt =====
-- Runs of the gate and of its journal, and their theorems at those.
mod Approvals
mod Data
use Prim.Native.String.{◌++◌}
use drive_sanitization_manag.Prelude.{
  has_duplicates, ℕ, String, any, eq_iff, Bool, List, ◌==◌, ◌≡◌, ◌≢◌, refl, subst, ◌==ℕ◌, [], ◌∷◌,
  All, none, some, Result, ok, err, ok_inj, codes, codes_eq, is_space, strip, member, true, false,
  if◌then◌else◌, length,
}
use drive_sanitization_manag.Value.{Value, pos}
use drive_sanitization_manag.Platform.{Platform, parse_utc, canonical_hash}
use drive_sanitization_manag.Platform.Laws.{Lawful}
use drive_sanitization_manag.Sort.{sort}
use drive_sanitization_manag.Files.{Kind, Disk, Faults, private_stat}
use drive_sanitization_manag.Auth.Types.{
  AuthorizationDecision, ApprovalChallenge, HumanApprovalEvidence, ApprovalRevalidationDecision,
  TrustedExecutionBindingDecision, OneShotExecutionGateDecision, DurableExecutionGateJournalEntry,
}
use drive_sanitization_manag.Auth.Binding
use drive_sanitization_manag.Auth.Gate
use drive_sanitization_manag.Auth.Gate.{ApprovalRegistry, gate_for, satisfy}
use drive_sanitization_manag.Auth.Gate.Grant.{Outcome, satisfy-Outcome}
use drive_sanitization_manag.Auth.Gate.Once.{Attempt, grants, Distinct, grants_once}
use drive_sanitization_manag.Auth.Text.{approval_text, exact_text, hash_value}
use drive_sanitization_manag.Auth.Journal.{already_reserved, entry_valid, state_completed}
use drive_sanitization_manag.Auth.Journal.Document.{
  gate_ids, document, decode, decode_entry, decode_entries, check_entries,
}
use drive_sanitization_manag.Auth.Journal.Operations.{
  completed_entry, reserved_entry, reserve, reserve_into, rollback, complete, contains,
}
use drive_sanitization_manag.Auth.Journal.Store.{
  id_key, read_entries, open_lock, check_write, replace_file, write_entries,
}
use drive_sanitization_manag.Auth.Journal.ReadBack.{write_entries-read_entries}
use drive_sanitization_manag.Auth.Journal.Atomic.{stored, WriteOutcome, write_entries_atomic}
use drive_sanitization_manag.Auth.Journal.Steps.{OpOutcome, reserving, reserve_step}
use drive_sanitization_manag.Auth.Journal.Blocked.{Blocked}
use drive_sanitization_manag.Auth.Durable.{Call, satisfy_durable}
use drive_sanitization_manag.Auth.Journal.Kept.{
  JournalCall, reserve_call, rollback_call, complete_call, OnlyCompleted, Keeps, run,
  completed_permanent,
}
use drive_sanitization_manag.Auth.Durable.Concurrent.{
  Fair, here, pending, given, world, reserves, reserve_fails, completes, Reachable, start, next,
  Exclusive,
}
use drive_sanitization_manag.Auth.Durable.Exclusive.{Reachable-Exclusive}
use drive_sanitization_manag.Auth.Durable.Outcome.{Branch, satisfy_durable_branches}
use drive_sanitization_manag.Auth.Durable.Once.{gates, durable_once, durable_replay}
use drive_sanitization_manag.Auth.Tests.Data.{
  binding, challenge, evidence, revalidation, decision, registry, call, late_call, cut_call,
  blind_call, retry,
}
use drive_sanitization_manag.Samples.{
  zeros, hash, early, late, platform, no_faults, directory, lawful,
}

-- The same binding again is refused.
grants_one : length (grants platform (retry ∷ retry ∷ []) []) ≡ 1
unfolding satisfy Binding.integrity_valid Gate.integrity_valid approval_text exact_text hash_value
    parse_utc
grants_one = refl

-- A second call is refused; a late one is rolled back and leaves room for another; one that is cut
-- off leaves its reservation.
gates_once : length (gates platform 1000 (call ∷ call ∷ []) directory) ≡ 1
unfolding satisfy_durable satisfy reserve rollback complete Binding.integrity_valid
    Gate.integrity_valid approval_text exact_text hash_value parse_utc open_lock read_entries
    reserve_into write_entries check_write sort entry_valid canonical_hash replace_file decode
    decode_entries decode_entry check_entries
gates_once = refl

gates_late : length (gates platform 1000 (late_call ∷ call ∷ []) directory) ≡ 1
unfolding satisfy_durable satisfy reserve rollback complete Binding.integrity_valid
    Gate.integrity_valid approval_text exact_text hash_value parse_utc open_lock read_entries
    reserve_into write_entries check_write sort entry_valid canonical_hash replace_file decode
    decode_entries decode_entry check_entries
gates_late = refl

-- A call that does not find the journal replaces it, and is granted the binding again.
gates_blind : length (gates platform 1000 (call ∷ blind_call ∷ []) directory) ≡ 2
unfolding satisfy_durable satisfy reserve rollback complete Binding.integrity_valid
    Gate.integrity_valid approval_text exact_text hash_value parse_utc open_lock read_entries
    reserve_into write_entries check_write sort entry_valid canonical_hash replace_file decode
    decode_entries decode_entry check_entries
gates_blind = refl

gates_cut : length (gates platform 1000 (cut_call ∷ call ∷ []) directory) ≡ 0
unfolding satisfy_durable satisfy reserve rollback complete Binding.integrity_valid
    Gate.integrity_valid approval_text exact_text hash_value parse_utc open_lock read_entries
    reserve_into write_entries check_write sort entry_valid canonical_hash replace_file decode
    decode_entries decode_entry check_entries
gates_cut = refl

satisfy-Outcome_example :
    Outcome platform
      (some binding)
      (some 60000000)
      registry
      (satisfy platform (some binding) "approval-1" (some 0) (some 60000000) registry)
satisfy-Outcome_example =
    satisfy-Outcome platform (some binding) "approval-1" (some 0) (some 60000000) registry

grants_once_example :
    All (λ g. member g.binding_id [] ≡ false) (grants platform (retry ∷ retry ∷ []) [])
    × Distinct (grants platform (retry ∷ retry ∷ []) [])
grants_once_example = grants_once platform (retry ∷ retry ∷ []) []

abbrev entry : DurableExecutionGateJournalEntry
entry = reserved_entry platform 1000 binding 0

-- The directory after a call that was cut off behind its reservation.
abbrev held : Disk Value
held = record directory { file = some (private_stat 1000, document platform (entry ∷ [])) }

write_entries_atomic_example :
    WriteOutcome platform 1000
      (entry ∷ [])
      directory
      (write_entries platform 1000 no_faults (entry ∷ []) directory)
write_entries_atomic_example = write_entries_atomic platform 1000 no_faults (entry ∷ []) directory

reserve_step_example :
    OpOutcome platform 1000 reserving
      ("xeb_" ++ zeros)
      none
      (reserve platform 1000 binding (some 0) no_faults directory)
reserve_step_example = reserve_step platform 1000 binding (some 0) no_faults directory refl

satisfy_durable_branches_example :
    Branch platform 1000 call directory (satisfy_durable platform 1000 call directory)
satisfy_durable_branches_example = satisfy_durable_branches platform 1000 call directory refl

durable_once_example : Distinct (gates platform 1000 (call ∷ cut_call ∷ call ∷ []) directory)
durable_once_example =
    durable_once platform 1000 lawful (call ∷ cut_call ∷ call ∷ []) directory
      (refl, (refl, (refl, tt)))

entry_Blocked : Blocked platform 1000 ("xeb_" ++ zeros) held.file
unfolding decode entry_valid hash_value parse_utc canonical_hash decode_entries decode_entry
    is_space strip check_entries sort
entry_Blocked es h = subst (λ x. contains ("xeb_" ++ zeros) x ≡ true) (ok_inj h) refl

durable_replay_example :
    All (λ g. g.binding_id ≢ ("xeb_" ++ zeros)) (gates platform 1000 (call ∷ call ∷ []) held)
durable_replay_example =
    durable_replay platform 1000 lawful (call ∷ call ∷ []) held ("xeb_" ++ zeros) (refl, (refl, tt))
      entry_Blocked

abbrev gate : OneShotExecutionGateDecision
gate = gate_for platform binding 60000000

abbrev reserved_disk : Disk Value
reserved_disk = record held { lock = some (private_stat 1000, 0) }

abbrev completed_disk : Disk Value
completed_disk = record reserved_disk {
  file =
      some (private_stat 1000, document platform (completed_entry platform 1000 entry gate ∷ []));
}

-- Two calls reserve the same binding, and the first is granted its gate.
two_calls :
    Reachable platform 1000
      (world platform 1000 directory [])
      (world platform 1000 completed_disk (given binding.binding_id gate ∷ []))
unfolding satisfy_durable satisfy reserve rollback complete Binding.integrity_valid
    Gate.integrity_valid approval_text exact_text hash_value parse_utc open_lock read_entries
    reserve_into write_entries check_write sort entry_valid canonical_hash replace_file decode
    decode_entries decode_entry check_entries
two_calls =
    next _ _ _
      (next _ _ _
        (next _ _ _ (start _)
          (reserves binding (some 0) no_faults entry directory reserved_disk [] refl))
        (reserve_fails binding (some 0) no_faults already_reserved reserved_disk reserved_disk
          (pending binding.binding_id ∷ []) refl))
      (completes binding.binding_id gate no_faults (completed_entry platform 1000 entry gate)
        reserved_disk completed_disk (pending binding.binding_id ∷ []) []
        (here (pending binding.binding_id) []) refl)

two_calls-Fair : Fair platform 1000 two_calls
unfolding two_calls
two_calls-Fair = (((tt, refl), refl), tt)

Reachable-Exclusive_example :
    Exclusive platform 1000
      (world platform 1000 completed_disk (given binding.binding_id gate ∷ []))
Reachable-Exclusive_example =
    Reachable-Exclusive platform 1000 lawful directory
      (world platform 1000 completed_disk (given binding.binding_id gate ∷ [])) two_calls
      two_calls-Fair

abbrev is_completed : DurableExecutionGateJournalEntry → Bool
is_completed e = e.state == state_completed

only_completed : OnlyCompleted is_completed
only_completed e h = (eq_iff e.state state_completed).0 h

completed_Keeps : Keeps is_completed only_completed platform 1000 completed_disk.file
unfolding decode entry_valid hash_value parse_utc canonical_hash decode_entries decode_entry
    is_space strip check_entries sort
completed_Keeps es h = subst (λ x. any is_completed x ≡ true) (ok_inj h) refl

abbrev more_calls : List JournalCall
more_calls =
    rollback_call binding.binding_id no_faults
    ∷ reserve_call binding (some 0) no_faults
    ∷ complete_call binding.binding_id gate no_faults
    ∷ []

abbrev after_more : List DurableExecutionGateJournalEntry
after_more = completed_entry platform 1000 entry gate ∷ []

after_more-stored :
    stored platform 1000 (run platform 1000 more_calls completed_disk).file ≡ ok after_more
unfolding satisfy_durable satisfy reserve rollback complete Binding.integrity_valid
    Gate.integrity_valid approval_text exact_text hash_value parse_utc open_lock read_entries
    reserve_into write_entries check_write sort entry_valid canonical_hash replace_file decode
    decode_entries decode_entry check_entries
after_more-stored = refl

completed_permanent_example : any is_completed after_more ≡ true
completed_permanent_example =
    completed_permanent is_completed only_completed platform 1000 lawful more_calls completed_disk
      (tt, (refl, (tt, tt))) completed_Keeps after_more after_more-stored

one_gate : has_duplicates (gate_ids (sort id_key (entry ∷ []))) ≡ false
unfolding sort
one_gate = refl

write_returns : (write_entries platform 1000 no_faults (entry ∷ []) directory).0 ≡ ok tt
unfolding write_entries check_write sort entry_valid hash_value parse_utc canonical_hash is_space
    strip replace_file
write_returns = refl

write_entries-read_entries_example :
    read_entries platform 1000 no_faults
      (write_entries platform 1000 no_faults (entry ∷ []) directory).1
    ≡ ok (sort id_key (entry ∷ []))
write_entries-read_entries_example =
    write_entries-read_entries platform lawful 1000 no_faults no_faults (entry ∷ []) directory
      one_gate write_returns refl refl
