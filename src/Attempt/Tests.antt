-- ===== src/Attempt/Tests.antt =====
-- Runs of the journal of attempts, and its theorems at those.
use Prim.Native.String.{◌++◌}
use drive_sanitization_manag.Prelude.{
  ◌≡◌, refl, [], ◌∷◌, none, true, any, length, strip, ok, ok_inj, ◌==◌, subst, Bool,
}
use drive_sanitization_manag.Value.{py_eq}
use drive_sanitization_manag.Sort.{sort}
use drive_sanitization_manag.Auth.Text.{prefixed_hex}
use drive_sanitization_manag.History.{granted, Clashless}
use drive_sanitization_manag.Store.{plain_text, parse_micro}
use drive_sanitization_manag.Store.Document.{
  ascii_hash, decode, decode_entry, decode_entries, check_entries,
}
use drive_sanitization_manag.Store.File.{
  open_lock, read_locked, check_write, replace_file, write_locked,
}
use drive_sanitization_manag.Store.Keeps.{OpOutcome, Keeps}
use drive_sanitization_manag.Samples.{zeros, platform, lawful, no_faults}
use drive_sanitization_manag.Executor.Record
use drive_sanitization_manag.Executor.Samples.{private_directory, reserved}
use drive_sanitization_manag.Attempt.Record.{ExecutionAttemptRecord, record_valid, layout}
use drive_sanitization_manag.Attempt.Operations.{
  check_capability, final_cycle, new_attempt, record_execution_attempt,
}
use drive_sanitization_manag.Attempt.Steps.{Adds, record_execution_attempt_step}
use drive_sanitization_manag.Attempt.Once.{Overlap, attempting, attempts_stay, attempted_once}
use drive_sanitization_manag.Attempt.Samples.{capability, cycle, call, attempted_disk}

-- A lease is attempted once.
attempts_once : length (granted (attempting platform 1000) (call ∷ call ∷ []) private_directory) ≡ 1
unfolding record_execution_attempt check_capability final_cycle new_attempt record_valid
    Record.record_valid plain_text parse_micro ascii_hash decode decode_entry decode_entries
    check_entries open_lock read_locked check_write replace_file write_locked sort prefixed_hex
    strip py_eq
attempts_once = refl

abbrev is_attempt : ExecutionAttemptRecord → Bool
is_attempt e = e.attempt_id == ("xeattempt_" ++ zeros)

attempt_Keeps : Keeps platform 1000 (layout platform) is_attempt attempted_disk.file
unfolding decode decode_entry decode_entries check_entries record_valid plain_text parse_micro
    ascii_hash sort prefixed_hex strip
attempt_Keeps es h = subst (λ x. any is_attempt x ≡ true) (ok_inj h) refl

attempts_stay_example :
    Keeps platform 1000
      (layout platform)
      is_attempt
      (attempting platform 1000 call attempted_disk).1.file
attempts_stay_example =
    attempts_stay platform 1000 lawful is_attempt call attempted_disk refl attempt_Keeps

record_execution_attempt_step_example :
    OpOutcome platform 1000 (layout platform) (Adds platform 1000 (ok reserved)) none (
      record_execution_attempt platform 1000 capability cycle zeros 0
        (ok reserved)
        (ok reserved)
        no_faults
        no_faults
        private_directory)
record_execution_attempt_step_example =
    record_execution_attempt_step platform 1000 capability cycle zeros 0 (ok reserved) (ok reserved)
      no_faults no_faults private_directory refl

attempted_once_example :
    Clashless
      (attempting platform 1000)
      Overlap
      (granted (attempting platform 1000) (call ∷ call ∷ []) private_directory)
attempted_once_example =
    attempted_once platform 1000 lawful (call ∷ call ∷ []) private_directory (refl, (refl, tt))
