-- ===== src/Auth/Journal/Kept.antt =====
-- About completed entries: what the operations of the journal do to them.
use drive_sanitization_manag.Prelude.{
  ℕ, String, ◌≡◌, refl, sym, ap, subst, ◌∙◌, Bool, true, false, Bool-cases, inl, inr, List, [], ◌∷◌,
  Option, some, any, any-append, or_true, or_rest, All-select, All, Result, ok, ◌==◌, eq_iff,
}
use drive_sanitization_manag.Platform.{Platform}
use drive_sanitization_manag.Platform.Laws.{Lawful}
use drive_sanitization_manag.Sort.{any-sort}
use drive_sanitization_manag.Files.{Disk, Faults, Stat, Looked}
use drive_sanitization_manag.Auth.Types.{
  TrustedExecutionBindingDecision, OneShotExecutionGateDecision, DurableExecutionGateJournalEntry,
}
use drive_sanitization_manag.Auth.Journal.{JournalError, state_reserved, state_completed}
use drive_sanitization_manag.Auth.Journal.Store.{id_key}
use drive_sanitization_manag.Auth.Journal.Operations.{
  matching, without, replaced, only_reserved, completed_entry, reserve, rollback, complete,
}
use drive_sanitization_manag.Auth.Journal.Atomic.{stored, stored-Written}
use drive_sanitization_manag.Auth.Journal.Steps.{
  Operation, reserving, releasing, completing, Change, reserved, released, completed, Changed,
  OpOutcome, reserve_step, rollback_step, complete_step,
}
use drive_sanitization_manag.Auth.Journal.Blocked.{chosen}

-- One operation of the journal, with what the system answers.
pub data JournalCall : Type 0 where
  reserve_call : TrustedExecutionBindingDecision → Option ℕ → Faults → JournalCall
  rollback_call : String → Faults → JournalCall
  complete_call : String → OneShotExecutionGateDecision → Faults → JournalCall

-- A test that only completed entries pass.
abbrev pub OnlyCompleted : (DurableExecutionGateJournalEntry → Bool) → Type 0
OnlyCompleted q = (e : DurableExecutionGateJournalEntry) → q e ≡ true → e.state ≡ state_completed

-- The reservations find a journal that is there.
abbrev pub FairCall : JournalCall → Type 0
FairCall (reserve_call b clock f) = Looked f
FairCall (rollback_call id f) = Unit
FairCall (complete_call id g f) = Unit

module _ (p : Platform) (euid : ℕ) where
  open p use {Bytes}

  abbrev pub perform : JournalCall → Disk Bytes → Disk Bytes
  perform (reserve_call b clock f) d = (reserve p euid b clock f d).1
  perform (rollback_call id f) d = (rollback p euid id f d).1
  perform (complete_call id g f) d = (complete p euid id g f d).1

  abbrev pub run : List JournalCall → Disk Bytes → Disk Bytes
  run [] d = d
  run (c ∷ calls) d = run calls (perform c d)

only_reserved_state :
    (es : List DurableExecutionGateJournalEntry) (e : DurableExecutionGateJournalEntry)
    → only_reserved es ≡ some e
    → All (λ x. x.state ≡ state_reserved) es
only_reserved_state [] e h = cc
only_reserved_state (x ∷ []) e h =
    ((eq_iff x.state state_reserved).0 (chosen (x.state == state_reserved) x e h).0, tt)
only_reserved_state (x ∷ y ∷ es) e h = cc

-- The entries of an id that an operation may change are all reserved.
abbrev Open : String → List DurableExecutionGateJournalEntry → Type 0
Open id es = All (λ e. (e.binding_id == id) ≡ true → e.state ≡ state_reserved) es

only_reserved-Open :
    (id : String) (es : List DurableExecutionGateJournalEntry)
    (e : DurableExecutionGateJournalEntry)
    → only_reserved (matching id es) ≡ some e
    → Open id es
only_reserved-Open id es e h =
    All-select (λ x. x.state ≡ state_reserved) (λ x. x.binding_id == id) es
      (only_reserved_state (matching id es) e h)

module _ (q : DurableExecutionGateJournalEntry → Bool) (only : OnlyCompleted q) where
  reserved_fails : (e : DurableExecutionGateJournalEntry) → e.state ≡ state_reserved → q e ≡ false
  reserved_fails e h = elim (Bool-cases (q e)) [
    | inl passes ↦ let clash = ap (λ s. s == state_completed) (sym h ∙ only e passes) in cc
    | inr fails ↦ fails
  ]

  any-without :
      (id : String) (es : List DurableExecutionGateJournalEntry)
      → Open id es
      → any q es ≡ true
      → any q (without id es) ≡ true
  any-without id [] h k = k
  any-without id (e ∷ es) h k = elim (Bool-cases (e.binding_id == id)) [
    | inl same ↦ rw same (any-without id es h.1 (or_rest (reserved_fails e (h.0 same)) k))
    | inr differs ↦ elim (Bool-cases (q e)) [
      | inl passes ↦ rw (differs, passes) refl
      | inr fails ↦ rw (differs, fails) (any-without id es h.1 (or_rest fails k))
    ]
  ]

  any-replaced :
      (id : String) (f : DurableExecutionGateJournalEntry)
      (es : List DurableExecutionGateJournalEntry)
      → Open id es
      → any q es ≡ true
      → any q (replaced id f es) ≡ true
  any-replaced id f [] h k = k
  any-replaced id f (e ∷ es) h k = elim (Bool-cases (e.binding_id == id)) [
    | inl same ↦
        let rest = any-replaced id f es h.1 (or_rest (reserved_fails e (h.0 same)) k) in
        rw (same, rest) (or_true (q f))
    | inr differs ↦ elim (Bool-cases (q e)) [
      | inl passes ↦ rw (differs, passes) refl
      | inr fails ↦ rw (differs, fails) (any-replaced id f es h.1 (or_rest fails k))
    ]
  ]

  module _ (p : Platform) (euid : ℕ) where
    open p use {Bytes}

    any-Change :
        (o : Operation) (id : String) (before after : List DurableExecutionGateJournalEntry)
        → Change p euid o id before after
        → any q before ≡ true
        → any q after ≡ true
    any-Change _ _ _ _ (reserved e es fresh) k = any-append q es (e ∷ []) ∙ (rw k)
    any-Change _ _ _ _ (released id e es found) k =
        any-without id es (only_reserved-Open id es e found) k
    any-Change _ _ _ _ (completed id e g es found agree) k =
        any-replaced id (completed_entry p euid e g) es (only_reserved-Open id es e found) k

    -- Whoever reads the journal, if anyone can, finds an entry that passes the test.
    abbrev pub Keeps : Option (Stat × Bytes) → Type 0
    Keeps file =
        (es : List DurableExecutionGateJournalEntry) → stored p euid file ≡ ok es → any q es ≡ true

    module _ (law : Lawful p) where
      Keeps-Changed :
          (o : Operation) (id : String) (old new : Option (Stat × Bytes))
          → Changed p euid o id old new
          → Keeps old
          → Keeps new
      Keeps-Changed o id old new c k es h =
          ap (any q) (stored-Written p euid law c.after es new c.written h)
          ∙ any-sort id_key q c.after
          ∙ any-Change o id c.before c.after c.change (k c.before c.was_stored)

      Keeps-OpOutcome :
          {A : Type 0} (o : Operation) (id : String) (old : Option (Stat × Bytes))
          (s : Result JournalError A × Disk Bytes)
          → OpOutcome p euid o id old s
          → Keeps old
          → Keeps s.1.file
      Keeps-OpOutcome o id old s (inl (_, _, c)) k = Keeps-Changed o id old s.1.file c k
      Keeps-OpOutcome o id old s (inr (_, _, inl same)) k = subst Keeps (sym same) k
      Keeps-OpOutcome o id old s (inr (_, _, inr c)) k = Keeps-Changed o id old s.1.file c k

      Keeps-perform :
          (c : JournalCall) (d : Disk Bytes)
          → FairCall c
          → Keeps d.file
          → Keeps (perform p euid c d).file
      Keeps-perform (reserve_call b clock f) d fair k =
          Keeps-OpOutcome reserving b.binding_id d.file (reserve p euid b clock f d)
            (reserve_step p euid b clock f d fair) k
      Keeps-perform (rollback_call id f) d fair k =
          Keeps-OpOutcome releasing id d.file (rollback p euid id f d) (rollback_step p euid id f d)
            k
      Keeps-perform (complete_call id g f) d fair k =
          Keeps-OpOutcome completing id d.file (complete p euid id g f d)
            (complete_step p euid id g f d) k

      Keeps-run :
          (calls : List JournalCall) (d : Disk Bytes)
          → All FairCall calls
          → Keeps d.file
          → Keeps (run p euid calls d).file
      Keeps-run [] d fair k = k
      Keeps-run (c ∷ calls) d fair k =
          Keeps-run calls (perform p euid c d) fair.1 (Keeps-perform c d fair.0 k)

      -- Whatever operations follow, and whatever the system answers, but for a reservation that does
      -- not find a journal that is there, a completed entry is neither
      -- taken out nor changed: a test that only completed entries pass, and that some entry of the
      -- journal passes, is passed by some entry of the journal that is read afterwards.
      pub completed_permanent :
          (calls : List JournalCall) (d : Disk Bytes)
          → All FairCall calls
          → Keeps d.file
          → (es : List DurableExecutionGateJournalEntry)
          → stored p euid (run p euid calls d).file ≡ ok es
          → any q es ≡ true
      completed_permanent calls d fair k es h = Keeps-run calls d fair k es h
