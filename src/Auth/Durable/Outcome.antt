-- ===== src/Auth/Durable/Outcome.antt =====
-- What a durable call leaves in the journal and in the registry, on each of its branches.
use drive_sanitization_manag.Prelude.{
  ℕ, String, ◌≡◌, refl, sym, subst, Bool, true, false, ◌&&◌, &&_right, inl, inr, ◌⊎◌, Option, none,
  some, Result, ok, err, ok_inj, ◌==◌, eq_iff, if◌then◌else◌,
}
use drive_sanitization_manag.Platform.{Platform}
use drive_sanitization_manag.Files.{Disk, Faults, Looked}
use drive_sanitization_manag.Auth.Types.{
  TrustedExecutionBindingDecision, OneShotExecutionGateDecision, DurableExecutionGateJournalEntry,
}
use drive_sanitization_manag.Auth.Gate
use drive_sanitization_manag.Auth.Gate.{ApprovalRegistry, GateError}
use drive_sanitization_manag.Auth.Gate.Grant.{Granted, Outcome, satisfy-Outcome}
use drive_sanitization_manag.Auth.Journal.{JournalError}
use drive_sanitization_manag.Auth.Journal.Operations.{reserve, rollback, complete}
use drive_sanitization_manag.Auth.Journal.Steps.{
  reserving, releasing, completing, Changed, OpOutcome, reserve_step, rollback_step, complete_step,
}
use drive_sanitization_manag.Auth.Durable.{
  Call, binding_unavailable, reservation_failed, rolled_back, rollback_failed, completion_failed,
  Reply, after_rollback, after_complete, after_gate, satisfied, after_reserve, with_binding,
  satisfy_durable,
}

-- A result behind a test that refuses.
passed :
    {A D : Type 0} (test : Bool) (s : Result JournalError A × D) (e : JournalError) (d : D) (a : A)
    → (if test then s else (err e, d)).0 ≡ ok a
    → test ≡ true
passed true s e d a h = refl
passed false s e d a h = cc

module _ (p : Platform) (euid : ℕ) where
  -- A completion that returns is of a gate for the id that was given.
  pub complete_named :
      (id : String) (g : OneShotExecutionGateDecision) (f : Faults) (d' : Disk p.Bytes)
      (e : DurableExecutionGateJournalEntry)
      → (complete p euid id g f d').0 ≡ ok e
      → g.binding_id ≡ id
  unfolding complete
  complete_named id g f d' e h =
      let test = Gate.integrity_valid p g && g.binding_id == id in
      (eq_iff g.binding_id id).0 (&&_right (Gate.integrity_valid p g) _ (passed test _ _ _ e h))

module _ (p : Platform) (euid : ℕ) (c : Call) (d : Disk p.Bytes) where
  -- The five refusals, and the grant. `b` is the binding of the call, `kept` the file between the
  -- reservation and what follows it.
  pub data Branch : Reply p euid → Type 0 where
    unbuilt : c.built ≡ none → Branch (err binding_unavailable, d, c.registry)
    unreserved :
        (b : TrustedExecutionBindingDecision) (d' : Disk p.Bytes)
        → c.built ≡ some b
        → (d'.file ≡ d.file) ⊎ Changed p euid reserving b.binding_id d.file d'.file
        → Branch (err reservation_failed, d', c.registry)
    restored :
        (b : TrustedExecutionBindingDecision) (kept d' : Disk p.Bytes)
        → c.built ≡ some b
        → Changed p euid reserving b.binding_id d.file kept.file
        → Changed p euid releasing b.binding_id kept.file d'.file
        → Branch (err rolled_back, d', c.registry)
    unrestored :
        (b : TrustedExecutionBindingDecision) (kept d' : Disk p.Bytes)
        → c.built ≡ some b
        → Changed p euid reserving b.binding_id d.file kept.file
        → (d'.file ≡ kept.file) ⊎ Changed p euid releasing b.binding_id kept.file d'.file
        → Branch (err rollback_failed, d', c.registry)
    incomplete :
        (b : TrustedExecutionBindingDecision) (g : OneShotExecutionGateDecision)
        (kept d' : Disk p.Bytes) (r : ApprovalRegistry)
        → c.built ≡ some b
        → Changed p euid reserving b.binding_id d.file kept.file
        → Granted p c.rebuilt c.locked_clock c.registry g r
        → (d'.file ≡ kept.file) ⊎ Changed p euid completing b.binding_id kept.file d'.file
        → Branch (err completion_failed, d', r)
    granted :
        (b : TrustedExecutionBindingDecision) (g : OneShotExecutionGateDecision)
        (kept d' : Disk p.Bytes) (r : ApprovalRegistry)
        → c.built ≡ some b
        → g.binding_id ≡ b.binding_id
        → Changed p euid reserving b.binding_id d.file kept.file
        → Granted p c.rebuilt c.locked_clock c.registry g r
        → Changed p euid completing b.binding_id kept.file d'.file
        → Branch (ok g, d', r)

  module _ (b : TrustedExecutionBindingDecision) (built : c.built ≡ some b) (kept : Disk p.Bytes)
      (change : Changed p euid reserving b.binding_id d.file kept.file) where
    after_rollback-Branch :
        (s : Result JournalError (Unit {0}) × Disk p.Bytes)
        → OpOutcome p euid releasing b.binding_id kept.file s
        → Branch (after_rollback p euid c.registry s)
    after_rollback-Branch (ok u, d') (inl (_, _, back)) = restored b kept d' built change back
    after_rollback-Branch (ok u, d') (inr (e, h, _)) = cc
    after_rollback-Branch (err e, d') (inl (_, h, _)) = cc
    after_rollback-Branch (err e, d') (inr (_, _, back)) = unrestored b kept d' built change back

    after_complete-Branch :
        (g : OneShotExecutionGateDecision) (r : ApprovalRegistry)
        (s : Result JournalError DurableExecutionGateJournalEntry × Disk p.Bytes)
        → Granted p c.rebuilt c.locked_clock c.registry g r
        → ((e : DurableExecutionGateJournalEntry) → s.0 ≡ ok e → g.binding_id ≡ b.binding_id)
        → OpOutcome p euid completing b.binding_id kept.file s
        → Branch (after_complete p euid g r s)
    after_complete-Branch g r (ok e, d') shown named (inl (_, _, done)) =
        granted b g kept d' r built (named e refl) change shown done
    after_complete-Branch g r (ok e, d') shown named (inr (_, h, _)) = cc
    after_complete-Branch g r (err e, d') shown named (inl (_, h, _)) = cc
    after_complete-Branch g r (err e, d') shown named (inr (_, _, done)) =
        incomplete b g kept d' r built change shown done

    after_gate-Branch :
        (s : Result GateError OneShotExecutionGateDecision × ApprovalRegistry)
        → Outcome p c.rebuilt c.locked_clock c.registry s
        → Branch (after_gate p euid s b.binding_id c kept)
    after_gate-Branch (ok g, r) (inl (h, same, shown)) =
        after_complete-Branch g r (complete p euid b.binding_id g c.complete_faults kept)
          (subst (λ x. Granted p c.rebuilt c.locked_clock c.registry x r) (sym (ok_inj same)) shown)
          (λ e k. complete_named p euid b.binding_id g c.complete_faults kept e k)
          (complete_step p euid b.binding_id g c.complete_faults kept)
    after_gate-Branch (ok g, r) (inr (e, h, _)) = cc
    after_gate-Branch (err e, r) (inl (g, h, _)) = cc
    after_gate-Branch (err e, r) (inr (_, _, same)) =
        subst
          (λ x.
            Branch (after_rollback p euid x (rollback p euid b.binding_id c.rollback_faults kept)))
          (sym same)
          (after_rollback-Branch (rollback p euid b.binding_id c.rollback_faults kept)
            (rollback_step p euid b.binding_id c.rollback_faults kept))

  after_reserve-Branch :
      (b : TrustedExecutionBindingDecision)
      (s : Result JournalError DurableExecutionGateJournalEntry × Disk p.Bytes)
      → c.built ≡ some b
      → OpOutcome p euid reserving b.binding_id d.file s
      → Branch (after_reserve p euid s b.binding_id c)
  after_reserve-Branch b (err e, d') built (inr (_, _, file)) = unreserved b d' built file
  after_reserve-Branch b (err e, d') built (inl (_, h, _)) = cc
  after_reserve-Branch b (ok e, d') built (inr (_, h, _)) = cc
  after_reserve-Branch b (ok e, d') built (inl (_, _, change)) =
      after_gate-Branch b built d' change (satisfied p euid c)
        (satisfy-Outcome p c.rebuilt c.approval_id c.first_clock c.locked_clock c.registry)

  with_binding-Branch :
      (m : Option TrustedExecutionBindingDecision)
      → Looked c.reserve_faults
      → c.built ≡ m
      → Branch (with_binding p euid m c d)
  with_binding-Branch none looked h = unbuilt h
  with_binding-Branch (some b) looked h =
      after_reserve-Branch b (reserve p euid b c.journal_clock c.reserve_faults d) h
        (reserve_step p euid b c.journal_clock c.reserve_faults d looked)

  pub satisfy_durable_branches : Looked c.reserve_faults → Branch (satisfy_durable p euid c d)
  unfolding satisfy_durable
  satisfy_durable_branches looked = with_binding-Branch c.built looked refl
