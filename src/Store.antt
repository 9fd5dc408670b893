-- ===== src/Store.antt =====
-- A store of records in a private file: what DurableExecutorAuthorizationStore
-- (executor_authorization.py) and DurableExecutionAttemptJournal (execution_attempt_journal.py) have in
-- common. What differs between them is a layout, which each gives.
pub mod Document
pub mod File
pub mod Atomic
pub mod Keeps
use drive_sanitization_manag.Prelude.{
  ℕ, String, Bool, true, false, ◌&&◌, not, List, [], ◌∷◌, Option, none, some, any, Result, ok, err,
  if◌then◌else◌, codes, codes_eq, strip, ◌==ℕ◌, ◌≡◌, ◌||◌,
}
use drive_sanitization_manag.Platform.{Platform}
use drive_sanitization_manag.Value.{Value, Fields}

-- The messages of a store, one constructor for each; those that name an attribute are one.
pub data StoreError : Type 0 where
  parent_unavailable parent_untrusted lock_uninspected lock_unopened lock_untrusted : StoreError
  open_failed file_untrusted size_exceeded file_empty malformed : StoreError
  document_invalid entry_shape_invalid entry_invalid ids_unsorted : StoreError
  values_duplicated hash_invalid refused_invalid refused_duplicate inspection_failed : StoreError
  no_progress persistence_failed raised_os_error : StoreError

-- EXECUTOR_AUTHORIZATION_STORE_MAX_BYTES, EXECUTION_ATTEMPT_STORE_MAX_BYTES
abbrev pub max_bytes : ℕ
max_bytes = 1048576

abbrev pub no_line_break : List ℕ → Bool
no_line_break s = not (any (λ c. c ==ℕ 0 || c ==ℕ 10 || c ==ℕ 13) s)

abbrev pub nonempty : List ℕ → Bool
nonempty [] = false
nonempty (c ∷ s) = true

-- `_exact_text`
unfoldable pub plain_text : String → Bool
plain_text s = nonempty (codes s) && codes_eq (codes s) (strip (codes s)) && no_line_break (codes s)

abbrev pub or_invalid : {A : Type 0} → Option A → Result StoreError A
or_invalid none = err entry_invalid
or_invalid (some a) = ok a

-- `_parse_utc` of executor_authorization.py and execution_attempt_journal.py, none where it returns
-- None.
unfoldable pub parse_micro : Platform → String → Option ℕ
parse_micro p s = if nonempty (codes s) then p.from_iso (codes s) else none

pub record Layout (E : Type 0) : Type 0 where
  pub policy : String
  -- The names of the fields of a record.
  pub field_names : List String
  -- The id that the entries are sorted by, and the other attributes that no two entries share.
  pub id : E → String
  pub unique : List (E → String)
  -- `_record_integrity_valid`
  pub valid : E → Bool
  -- `asdict`, its keys in the order of `sort_keys`, and back; a field of another type is one that the
  -- integrity check refuses.
  pub value : E → Value
  pub of_fields : Fields → Result StoreError E
  -- What an `OSError` from the temporary file on becomes.
  pub os_failure : StoreError
