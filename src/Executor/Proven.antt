-- ===== src/Executor/Proven.antt =====
-- About `_handoff_and_journal_provenance`: what its checks show.
use drive_sanitization_manag.Prelude.{
  eq_iff, arith, ℕ, String, ◌≡◌, refl, ap, ◌∙◌, Bool, true, ◌&&◌, &&_left, &&_right, Option, none,
  some, Result, ok, err, >>=-eq-ok, >>-eq-ok, ok_inj, guard, guard-eq-ok,
}
use drive_sanitization_manag.Platform.{Platform}
use drive_sanitization_manag.Files.{Disk, Faults}
use drive_sanitization_manag.Auth.Types.{DurableExecutionGateJournalEntry}
use drive_sanitization_manag.Auth.Journal.{JournalError, entry_valid, state_completed}
use drive_sanitization_manag.Auth.Journal
use drive_sanitization_manag.Value.{int_eq, pos}
use drive_sanitization_manag.Auth.Journal.Operations.{entry_for_binding}
use drive_sanitization_manag.Executor.Operations.{
  handoff_invalid, handoff_incomplete, journal_mismatch,
}
use drive_sanitization_manag.Executor.Live.{
  Handoff, completed_for, is_text, is_completed_handoff, found, check_entry, check_provenance,
}

-- The entry is completed, of the handoff's binding and gate, and with the handoff's hashes.
pub record CompletedFor (h : Handoff) (e : DurableExecutionGateJournalEntry) : Type 0 where
  pub state : e.state ≡ state_completed
  pub binding : e.binding_id ≡ h.binding_id
  pub gate : e.gate_id ≡ some h.gate_id
  pub entry_hash : e.entry_hash ≡ h.journal_entry_hash
  pub request_hash : e.request_hash ≡ h.request_hash
  pub record_snapshot_hash : e.record_snapshot_hash ≡ h.record_snapshot_hash
  pub target_binding_hash : e.target_binding_hash ≡ h.target_binding_hash

is_text-some : (o : Option String) (s : String) → is_text o s ≡ true → o ≡ some s
is_text-some none s h = cc
is_text-some (some t) s h = ap some ((eq_iff t s).0 h)

completed_for-CompletedFor :
    (h : Handoff) (e : DurableExecutionGateJournalEntry)
    → completed_for h e ≡ true
    → CompletedFor h e
completed_for-CompletedFor h e k =
    let same_state = eq_iff e.state state_completed in
    let same_binding = eq_iff e.binding_id h.binding_id in
    let same_entry = eq_iff e.entry_hash h.journal_entry_hash in
    let same_request = eq_iff e.request_hash h.request_hash in
    let same_snapshot = eq_iff e.record_snapshot_hash h.record_snapshot_hash in
    let same_target = eq_iff e.target_binding_hash h.target_binding_hash in
    record {
      state = same_state.0 (ground arith);
      binding = same_binding.0 (ground arith);
      gate = is_text-some e.gate_id h.gate_id (ground arith);
      entry_hash = same_entry.0 (ground arith);
      request_hash = same_request.0 (ground arith);
      record_snapshot_hash = same_snapshot.0 (ground arith);
      target_binding_hash = same_target.0 (ground arith);
    }

module _ (p : Platform) (euid : ℕ) where
  open p use {Bytes}

  -- The handoff is intact and shows a completed gate, and the gate's journal has the valid, completed
  -- entry of that gate, with the handoff's hashes.
  pub record Proven (h : Handoff) (intact : Bool) (f : Faults) (journal : Disk Bytes) : Type 0 where
    pub handoff_intact : intact ≡ true
    pub complete : h.journal_state ≡ state_completed
    pub policy : h.journal_policy_version ≡ Journal.policy_version
    pub schema : int_eq h.journal_schema_version (pos 1) ≡ true
    pub entry : DurableExecutionGateJournalEntry
    pub in_journal : (entry_for_binding p euid h.binding_id f journal).0 ≡ ok (some entry)
    pub entry_intact : entry_valid p entry ≡ true
    pub entry_matches : CompletedFor h entry

  found-eq-ok :
      (s : Result JournalError (Option DurableExecutionGateJournalEntry) × Disk Bytes)
      (o : Option DurableExecutionGateJournalEntry)
      → found s ≡ ok o
      → s.0 ≡ ok o
  found-eq-ok (ok a, d) o h = ap ok (ok_inj h)
  found-eq-ok (err e, d) o h = cc

  check_entry-eq-ok :
      (h : Handoff) (o : Option DurableExecutionGateJournalEntry)
      → check_entry p euid h o ≡ ok tt
      → (e : DurableExecutionGateJournalEntry) × (o ≡ some e)
        × ((entry_valid p e && completed_for h e) ≡ true)
  check_entry-eq-ok h none k = cc
  check_entry-eq-ok h (some e) k = (e, refl, guard-eq-ok _ journal_mismatch k)

  pub check_provenance-eq-ok :
      (h : Handoff) (intact : Bool) (f : Faults) (journal : Disk Bytes)
      → check_provenance p euid h intact f journal ≡ ok tt
      → Proven h intact f journal
  unfolding check_provenance
  check_provenance-eq-ok h intact f journal k =
      let (i, k₁) = >>-eq-ok (guard intact handoff_invalid) _ k in
      let (c, k₂) = >>-eq-ok (guard (is_completed_handoff h) handoff_incomplete) _ k₁ in
      let (o, ho, k₃) = >>=-eq-ok (found (entry_for_binding p euid h.binding_id f journal)) _ k₂ in
      let (checked, _) = >>-eq-ok (check_entry p euid h o) _ k₃ in
      let (e, same, both) = check_entry-eq-ok h o checked in
      let finished = guard-eq-ok (is_completed_handoff h) handoff_incomplete c in
      let same_state = eq_iff h.journal_state state_completed in
      let same_policy = eq_iff h.journal_policy_version Journal.policy_version in
      record {
        handoff_intact = guard-eq-ok _ handoff_invalid i;
        complete = same_state.0 (ground arith);
        policy = same_policy.0 (ground arith);
        schema = ground arith;
        entry = e;
        in_journal = found-eq-ok _ o ho ∙ ap ok same;
        entry_intact = &&_left (entry_valid p e) _ both;
        entry_matches = completed_for-CompletedFor h e (&&_right (entry_valid p e) _ both);
      }
