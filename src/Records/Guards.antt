-- ===== src/Records/Guards.antt =====
-- The field checks of drive_sanitization_manager.py, its status tables, and `_transition`.
-- Exceptions are told apart by their class; the texts of their messages are not modelled.
pub mod Steps
use drive_sanitization_manag.Prelude.{
  ℕ, String, Bool, true, false, Option, none, some, List, [], ◌∷◌, Result, ok, err, ◌>>◌, guard,
  codes, has_text, is_space, strip, member, ◌==◌, if◌then◌else◌,
}
use drive_sanitization_manag.Value.{Value, null, bool, int, text, arr, obj, pos}

-- `type_error` and `key_error` are Python's own: an unhashable value tested against a set, and a
-- key that a dict lacks.
pub data RecordError : Type 0 where
  malformed unsupported_version duplicate_identifier invalid_transition : RecordError
  type_error key_error : RecordError

abbrev pub Check : Type 0
Check = Result RecordError (Unit {0})

abbrev pub batch_statuses : List String
batch_statuses =
    "received" ∷ "in_progress" ∷ "complete" ∷ "failed" ∷ "incomplete" ∷ "review_needed" ∷ []

abbrev pub eligibility_statuses : List String
eligibility_statuses = "unknown" ∷ "eligible" ∷ "ineligible" ∷ "review_needed" ∷ []

abbrev pub sanitization_statuses : List String
sanitization_statuses =
    "not_started" ∷ "in_progress" ∷ "succeeded" ∷ "failed" ∷ "incomplete" ∷ "review_needed" ∷ []

abbrev pub verification_results : List String
verification_results = "not_performed" ∷ "passed" ∷ "failed" ∷ "incomplete" ∷ "review_needed" ∷ []

abbrev pub final_statuses : List String
final_statuses = "pending" ∷ "complete" ∷ "failed" ∷ "incomplete" ∷ "review_needed" ∷ []

abbrev pub intake_statuses : List String
intake_statuses = "pending" ∷ "in_progress" ∷ "review_needed" ∷ "complete" ∷ []

-- INTAKE_TRANSITIONS
unfoldable pub intake_transitions : String → Option (List String)
intake_transitions s =
    if s == "pending"
    then some ("in_progress" ∷ "review_needed" ∷ [])
    else if s == "in_progress"
    then some ("review_needed" ∷ "complete" ∷ [])
    else if s == "review_needed"
    then some ("in_progress" ∷ "complete" ∷ [])
    else if s == "complete"
    then some []
    else none

unfoldable pub require_text : Value → Check
unfolding is_space
require_text (text s) = guard (has_text (codes s)) malformed
require_text _ = err malformed

unfoldable pub optional_text : Value → Check
optional_text null = ok tt
optional_text (text s) = ok tt
optional_text _ = err malformed

unfoldable pub optional_bool : Value → Check
optional_bool null = ok tt
optional_bool (bool b) = ok tt
optional_bool _ = err malformed

-- `_status`: a list or a dict is unhashable, so that the test itself raises.
unfoldable pub status : Value → List String → Check
status (text s) allowed = guard (member s allowed) malformed
status (arr xs) allowed = err type_error
status (obj fs) allowed = err type_error
status _ allowed = err malformed

-- `type(value) is int` and not negative.
abbrev pub is_count : Value → Bool
is_count (int (pos n)) = true
is_count _ = false

abbrev pub allowed_step : Option (List String) → String → Result RecordError Value
allowed_step none target = err key_error
allowed_step (some targets) target =
    if member target targets then ok (text target) else err invalid_transition

-- The part of `_transition` behind the check of the target, which is a text there.
abbrev pub transition_to : Value → Value → Result RecordError Value
transition_to (text current) (text target) =
    if target == current
    then ok (text current)
    else allowed_step (intake_transitions current) target
transition_to (arr xs) (text target) = err type_error
transition_to (obj fs) (text target) = err type_error
transition_to _ _ = err key_error

unfoldable pub transition : Value → Value → Result RecordError Value
unfolding status intake_transitions
transition current target = do status target intake_statuses; transition_to current target

module _ (casefold : List ℕ → List ℕ) where
  -- `_identifier`: the stripped and case-folded text, or none.
  unfoldable pub identifier : Value → Option (List ℕ)
  unfolding strip
  identifier (text s) = if has_text (codes s) then some (casefold (strip (codes s))) else none
  identifier _ = none
