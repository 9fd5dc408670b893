-- ===== src/Auth/Durable.antt =====
-- `satisfy_durable_one_shot_execution_gate`: the one-shot gate between a reservation in the journal
-- and its completion. The two bindings are what `build_trusted_execution_binding` returns in this
-- call and in the gate's own (none where it raises).
pub mod Outcome
pub mod Once
pub mod Concurrent
pub mod Exclusive
use drive_sanitization_manag.Prelude.{ℕ, String, Option, none, some, Result, ok, err}
use drive_sanitization_manag.Platform.{Platform}
use drive_sanitization_manag.Files.{Disk, Faults}
use drive_sanitization_manag.Auth.Types.{
  TrustedExecutionBindingDecision, OneShotExecutionGateDecision, DurableExecutionGateJournalEntry,
}
use drive_sanitization_manag.Auth.Gate
use drive_sanitization_manag.Auth.Gate.{ApprovalRegistry, GateError}
use drive_sanitization_manag.Auth.Journal.{JournalError}
use drive_sanitization_manag.Auth.Journal.Operations.{reserve, rollback, complete}

-- Every refusal is a DurableOneShotExecutionGateError; the constructors are its messages.
pub data DurableError : Type 0 where
  binding_unavailable reservation_failed rolled_back rollback_failed : DurableError
  completion_failed : DurableError

-- One call: what it is given, what the clocks show and what the system answers.
pub record Call : Type 0 where
  pub built : Option TrustedExecutionBindingDecision
  pub rebuilt : Option TrustedExecutionBindingDecision
  pub approval_id : String
  pub journal_clock : Option ℕ
  pub first_clock : Option ℕ
  pub locked_clock : Option ℕ
  pub registry : ApprovalRegistry
  pub reserve_faults : Faults
  pub rollback_faults : Faults
  pub complete_faults : Faults

module _ (p : Platform) (euid : ℕ) where
  open p use {Bytes}

  -- The result, the disk and the registry that a call leaves.
  abbrev pub Reply : Type 0
  Reply = Result DurableError OneShotExecutionGateDecision × Disk Bytes × ApprovalRegistry

  abbrev pub after_rollback : ApprovalRegistry → Result JournalError (Unit {0}) × Disk Bytes → Reply
  after_rollback r (ok u, d) = (err rolled_back, d, r)
  after_rollback r (err e, d) = (err rollback_failed, d, r)

  abbrev pub after_complete :
      OneShotExecutionGateDecision
      → ApprovalRegistry
      → Result JournalError DurableExecutionGateJournalEntry × Disk Bytes
      → Reply
  after_complete g r (ok e, d) = (ok g, d, r)
  after_complete g r (err e, d) = (err completion_failed, d, r)

  abbrev pub after_gate :
      Result GateError OneShotExecutionGateDecision × ApprovalRegistry
      → String
      → Call
      → Disk Bytes
      → Reply
  after_gate (err e, r) id c d = after_rollback r (rollback p euid id c.rollback_faults d)
  after_gate (ok g, r) id c d = after_complete g r (complete p euid id g c.complete_faults d)

  abbrev pub satisfied : Call → Result GateError OneShotExecutionGateDecision × ApprovalRegistry
  satisfied c = Gate.satisfy p c.rebuilt c.approval_id c.first_clock c.locked_clock c.registry

  abbrev pub after_reserve :
      Result JournalError DurableExecutionGateJournalEntry × Disk Bytes → String → Call → Reply
  after_reserve (err e, d) id c = (err reservation_failed, d, c.registry)
  after_reserve (ok e, d) id c = after_gate (satisfied c) id c d

  abbrev pub with_binding : Option TrustedExecutionBindingDecision → Call → Disk Bytes → Reply
  with_binding none c d = (err binding_unavailable, d, c.registry)
  with_binding (some b) c d =
      after_reserve (reserve p euid b c.journal_clock c.reserve_faults d) b.binding_id c

  -- `satisfy_durable_one_shot_execution_gate`
  unfoldable pub satisfy_durable : Call → Disk Bytes → Reply
  satisfy_durable c d = with_binding c.built c d
