-- ===== src/Auth/Journal/Steps.antt =====
-- The journal as a state machine: what its operations may do to the entries on the disk.
use drive_sanitization_manag.Prelude.{
  on_ok, ℕ, String, ◌≡◌, refl, sym, subst, ◌∙◌, Bool, true, false, ◌&&◌, Bool-cases, ◌⊎◌, inl, inr,
  List, [], ◌∷◌, ◌++◌, Option, none, some, Result, ok, err, ◌==◌,
}
use drive_sanitization_manag.Platform.{Platform}
use drive_sanitization_manag.Files.{Disk, Faults, Stat, Looked}
use drive_sanitization_manag.Auth.Types.{
  TrustedExecutionBindingDecision, OneShotExecutionGateDecision, DurableExecutionGateJournalEntry,
}
use drive_sanitization_manag.Auth.Binding
use drive_sanitization_manag.Auth.Gate
use drive_sanitization_manag.Auth.Journal.{
  JournalError, already_reserved, rollback_refused, reservation_unavailable, gate_mismatch,
  completion_invalid, gate_invalid, binding_invalid, clock_invalid, entry_valid,
}
use drive_sanitization_manag.Auth.Journal.Store.{
  parent_trusted, opened_lock, lock_after, open_lock, read_file, read_entries,
}
use drive_sanitization_manag.Auth.Journal.Operations.{
  contains, matching, without, replaced, only_reserved, same_hashes, reserved_entry,
  completed_entry, read_locked, write_and, reserve_into, reserve_at, reserve, rollback_match,
  rollback, complete_match, complete,
}
use drive_sanitization_manag.Auth.Journal.Atomic.{stored, Written, write_entries_atomic}

pub data Operation : Type 0 where
  reserving releasing completing : Operation

module _ (p : Platform) (euid : ℕ) where
  open p use {Bytes}

  -- The changes of the entries, each by an operation for a binding id.
  pub data Change
      : Operation
        → String
        → List DurableExecutionGateJournalEntry
        → List DurableExecutionGateJournalEntry
        → Type 0 where
    reserved :
        (e : DurableExecutionGateJournalEntry) (es : List DurableExecutionGateJournalEntry)
        → contains e.binding_id es ≡ false
        → Change reserving e.binding_id es (es ++ e ∷ [])
    released :
        (id : String) (e : DurableExecutionGateJournalEntry)
        (es : List DurableExecutionGateJournalEntry)
        → only_reserved (matching id es) ≡ some e
        → Change releasing id es (without id es)
    completed :
        (id : String) (e : DurableExecutionGateJournalEntry) (g : OneShotExecutionGateDecision)
        (es : List DurableExecutionGateJournalEntry)
        → only_reserved (matching id es) ≡ some e
        → same_hashes e g ≡ true
        → Change completing id es (replaced id (completed_entry p euid e g) es)

  -- The new file holds what a change made of the entries of the old one.
  pub record Changed (o : Operation) (id : String) (old new : Option (Stat × Bytes)) : Type 0 where
    pub before : List DurableExecutionGateJournalEntry
    pub after : List DurableExecutionGateJournalEntry
    pub was_stored : stored p euid old ≡ ok before
    pub change : Change o id before after
    pub written : Written p euid after new

  -- An operation that returns has changed the entries; one that raises has changed them or left the
  -- file as it was.
  abbrev pub OpOutcome :
      {A : Type 0}
      → Operation
      → String
      → Option (Stat × Bytes)
      → Result JournalError A × Disk Bytes
      → Type 0
  OpOutcome {A} o id old s =
      ((a : A) × (s.0 ≡ ok a) × Changed o id old s.1.file)
      ⊎ ((e : JournalError) × (s.0 ≡ err e) × ((s.1.file ≡ old) ⊎ Changed o id old s.1.file))

  lock_after-file :
      (m : Result JournalError (Unit {0})) (l : Result JournalError (Stat × ℕ)) (fails : Bool)
      (d : Disk Bytes)
      → (lock_after p euid m l fails d).1.file ≡ d.file
  lock_after-file (err e) l fails d = refl
  lock_after-file (ok u) (err e) fails d = refl
  lock_after-file (ok u) (ok l) true d = refl
  lock_after-file (ok u) (ok l) false d = refl

  pub open_lock-file : (f : Faults) (d : Disk Bytes) → (open_lock p euid f d).1.file ≡ d.file
  unfolding open_lock
  open_lock-file f d = elim (Bool-cases f.parent_fails) [
    | inl e ↦ rw e refl
    | inr e ↦ rw e (
        lock_after-file (parent_trusted p euid d.parent) (opened_lock p euid d.lock) f.lock_fails d)
  ]

  -- A reading that returns has read what is stored.
  pub read_file-stored :
      (fails : Bool) (file : Option (Stat × Bytes)) (es : List DurableExecutionGateJournalEntry)
      → read_file p euid fails file ≡ ok es
      → stored p euid file ≡ ok es
  read_file-stored fails none es h = h
  read_file-stored true (some c) es h = cc
  read_file-stored false (some c) es h = h

  write_and-OpOutcome :
      {A : Type 0} (a : A) (f : Faults) (before after : List DurableExecutionGateJournalEntry)
      (d : Disk Bytes) (o : Operation) (id : String)
      → stored p euid d.file ≡ ok before
      → Change o id before after
      → OpOutcome o id d.file (write_and p euid a f after d)
  write_and-OpOutcome a f before after d o id h c = elim (write_entries_atomic p euid f after d) [
    | inl (returned, w) ↦ rw returned (
        inl (
          a,
          refl,
          record { before = before; after = after; was_stored = h; change = c; written = w },
        ))
    | inr (e, raised, inl same) ↦ rw raised (inr (e, refl, inl same))
    | inr (e, raised, inr w) ↦ rw raised (
        inr (
          e,
          refl,
          inr (record { before = before; after = after; was_stored = h; change = c; written = w }),
        ))
  ]

  module _ {A : Type 0} (o : Operation) (id : String)
      (body : List DurableExecutionGateJournalEntry
        → Disk Bytes
        → Result JournalError A × Disk Bytes)
      (behaves : (es : List DurableExecutionGateJournalEntry) (d : Disk Bytes)
        → stored p euid d.file ≡ ok es
        → OpOutcome o id d.file (body es d)) where
    read-OpOutcome :
        (m : Result JournalError (List DurableExecutionGateJournalEntry)) (d : Disk Bytes)
        (old : Option (Stat × Bytes))
        → ((es : List DurableExecutionGateJournalEntry) → m ≡ ok es → stored p euid d.file ≡ ok es)
        → d.file ≡ old
        → OpOutcome o id old (on_ok (m, d) body)
    read-OpOutcome (err e) d old h same = inr (e, refl, inl same)
    read-OpOutcome (ok es) d old h same =
        subst (λ file. OpOutcome o id file (body es d)) same (behaves es d (h es refl))

    lock-OpOutcome :
        (s : Result JournalError (Unit {0}) × Disk Bytes) (f : Faults) (old : Option (Stat × Bytes))
        → s.1.file ≡ old
        → (f.lookup_fails ≡ true → (d : Disk Bytes) → OpOutcome o id d.file (body [] d))
        → OpOutcome o id old (on_ok s (λ _ d₁. on_ok (read_locked p euid f d₁) body))
    unfolding read_entries
    lock-OpOutcome (err e, d) f old same missed = inr (e, refl, inl same)
    lock-OpOutcome (ok u, d) f old same missed = elim (Bool-cases f.lookup_fails) [
      | inl blind ↦ rw blind (subst (λ file. OpOutcome o id file (body [] d)) same (missed blind d))
      | inr finds ↦ rw finds (
          read-OpOutcome (read_file p euid f.open_fails d.file) d old
            (read_file-stored f.open_fails d.file) same)
    ]

    -- An operation behind the lock and the reading; `missed` is about a reading that does not find
    -- the file.
    locked-OpOutcome :
        (f : Faults) (d : Disk Bytes)
        → (f.lookup_fails ≡ true → (d₁ : Disk Bytes) → OpOutcome o id d₁.file (body [] d₁))
        → OpOutcome o id d.file
            (on_ok (open_lock p euid f d) (λ _ d₁. on_ok (read_locked p euid f d₁) body))
    locked-OpOutcome f d missed =
        lock-OpOutcome (open_lock p euid f d) f d.file (open_lock-file f d) missed

  reserve_into-OpOutcome :
      (e : DurableExecutionGateJournalEntry) (f : Faults)
      (es : List DurableExecutionGateJournalEntry) (d : Disk Bytes)
      → stored p euid d.file ≡ ok es
      → OpOutcome reserving e.binding_id d.file (reserve_into p euid e f es d)
  unfolding reserve_into
  reserve_into-OpOutcome e f es d h = elim (Bool-cases (contains e.binding_id es)) [
    | inl used ↦ rw used (inr (already_reserved, refl, inl refl))
    | inr fresh ↦
        rw fresh (
          write_and-OpOutcome e f es (es ++ e ∷ []) d reserving e.binding_id h
            (reserved e es fresh))
  ]

  reserve_at-OpOutcome :
      (clock : Option ℕ) (b : TrustedExecutionBindingDecision) (f : Faults) (d : Disk Bytes)
      → Looked f
      → OpOutcome reserving b.binding_id d.file (reserve_at p euid clock b f d)
  reserve_at-OpOutcome none b f d looked = inr (clock_invalid, refl, inl refl)
  reserve_at-OpOutcome (some now) b f d looked =
      locked-OpOutcome reserving b.binding_id _
        (λ es d₂ h. reserve_into-OpOutcome (reserved_entry p euid b now) f es d₂ h) f d
        (λ blind d₁. let clash = sym looked ∙ blind in cc)

  -- Where its reading finds a journal that is there, a reservation that returns has added one entry
  -- for a binding id that no stored entry had; one that raises has left the file as it was, or has
  -- added the entry too.
  pub reserve_step :
      (b : TrustedExecutionBindingDecision) (clock : Option ℕ) (f : Faults) (d : Disk Bytes)
      → Looked f
      → OpOutcome reserving b.binding_id d.file (reserve p euid b clock f d)
  unfolding reserve
  reserve_step b clock f d looked = elim (Bool-cases (Binding.integrity_valid p b)) [
    | inl intact ↦ rw intact (reserve_at-OpOutcome clock b f d looked)
    | inr broken ↦ rw broken (inr (binding_invalid, refl, inl refl))
  ]

  rollback_match-OpOutcome :
      (m : Option DurableExecutionGateJournalEntry) (id : String) (f : Faults)
      (es : List DurableExecutionGateJournalEntry) (d : Disk Bytes)
      → only_reserved (matching id es) ≡ m
      → stored p euid d.file ≡ ok es
      → OpOutcome releasing id d.file (rollback_match p euid m id f es d)
  rollback_match-OpOutcome none id f es d same h = inr (rollback_refused, refl, inl refl)
  rollback_match-OpOutcome (some e) id f es d same h =
      write_and-OpOutcome tt f es (without id es) d releasing id h (released id e es same)

  pub rollback_step :
      (id : String) (f : Faults) (d : Disk Bytes)
      → OpOutcome releasing id d.file (rollback p euid id f d)
  unfolding rollback
  rollback_step id f d =
      locked-OpOutcome releasing id _
        (λ es d₂ h. rollback_match-OpOutcome (only_reserved (matching id es)) id f es d₂ refl h) f d
        (λ blind d₁. inr (rollback_refused, refl, inl refl))

  complete_match-OpOutcome :
      (m : Option DurableExecutionGateJournalEntry) (id : String) (g : OneShotExecutionGateDecision)
      (f : Faults) (es : List DurableExecutionGateJournalEntry) (d : Disk Bytes)
      → only_reserved (matching id es) ≡ m
      → stored p euid d.file ≡ ok es
      → OpOutcome completing id d.file (complete_match p euid m id g f es d)
  complete_match-OpOutcome none id g f es d same h = inr (reservation_unavailable, refl, inl refl)
  complete_match-OpOutcome (some e) id g f es d same h = elim (Bool-cases (same_hashes e g)) [
    | inr differ ↦ rw differ (inr (gate_mismatch, refl, inl refl))
    | inl agree ↦ elim (Bool-cases (entry_valid p (completed_entry p euid e g))) [
      | inr broken ↦ rw (agree, broken) (inr (completion_invalid, refl, inl refl))
      | inl valid ↦
          rw (agree, valid)
            (write_and-OpOutcome (completed_entry p euid e g) f es
              (replaced id (completed_entry p euid e g) es) d completing id h
              (completed id e g es same agree))
    ]
  ]

  pub complete_step :
      (id : String) (g : OneShotExecutionGateDecision) (f : Faults) (d : Disk Bytes)
      → OpOutcome completing id d.file (complete p euid id g f d)
  unfolding complete
  complete_step id g f d = elim (Bool-cases (Gate.integrity_valid p g && g.binding_id == id)) [
    | inr refused ↦ rw refused (inr (gate_invalid, refl, inl refl))
    | inl right ↦ rw right (
        locked-OpOutcome completing id _
          (λ es d₂ h. complete_match-OpOutcome (only_reserved (matching id es)) id g f es d₂ refl h)
          f d (λ blind d₁. inr (reservation_unavailable, refl, inl refl)))
  ]
