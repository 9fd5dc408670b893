-- ===== src/Attempt/Once.antt =====
-- About histories of the journal of attempts.
use drive_sanitization_manag.Prelude.{
  ℕ, String, ◌≡◌, refl, sym, ap, subst, ◌∙◌, Bool, true, false, All, List, [], ◌∷◌, Option, none,
  some, any, any-append, any_imp, or_true, Result, ok, err, ok_inj, ◌==◌, eq_refl,
}
use drive_sanitization_manag.Platform.{Platform}
use drive_sanitization_manag.Platform.Laws.{Lawful}
use drive_sanitization_manag.Files.{Disk, Faults, Looked}
use drive_sanitization_manag.History.{granted, Clashless, granted-Clashless}
use drive_sanitization_manag.Store.Keeps.{
  OpOutcome, returned-Changed, Keeps, Keeps-Written, Keeps-OpOutcome,
}
use drive_sanitization_manag.Executor.Record.{ExecutorAuthorizationRecord}
use drive_sanitization_manag.Executor.Operations.{ExecutorError}
use drive_sanitization_manag.Attempt.Record.{ExecutionAttemptRecord, layout}
use drive_sanitization_manag.Attempt.Layout.{layout_laws}
use drive_sanitization_manag.Attempt.Operations.{
  AttemptError, Capability, Cycle, build_record, record_execution_attempt,
}
use drive_sanitization_manag.Attempt.Steps.{
  Attribute, authorization, lease, handoff, gate, binding, of_authorization, of_attempt, has,
  repeats, has-repeats, Adds, adds, record_execution_attempt_step,
}
use drive_sanitization_manag.Tokens.{some_inj}

-- One call, with what the system, the clock and the other stores answer.
pub record AttemptCall : Type 0 where
  pub capability : Capability
  pub cycle : Cycle
  pub token : String
  pub now : ℕ
  pub before : Result ExecutorError ExecutorAuthorizationRecord
  pub after : Result ExecutorError ExecutorAuthorizationRecord
  pub faults : Faults
  pub faults_again : Faults

-- Two authorizations have one of the five in common.
abbrev pub Overlap : ExecutorAuthorizationRecord → ExecutorAuthorizationRecord → Type 0
Overlap v w = (a : Attribute) × (of_authorization a v ≡ of_authorization a w)

abbrev pub attempted :
    {D : Type 0}
    → Result ExecutorError ExecutorAuthorizationRecord
    → Result AttemptError ExecutionAttemptRecord × D
    → Option ExecutorAuthorizationRecord × D
attempted (ok v) (ok r, d) = (some v, d)
attempted (ok v) (err e, d) = (none, d)
attempted (err x) (m, d) = (none, d)

attempted-disk :
    {D : Type 0} (after : Result ExecutorError ExecutorAuthorizationRecord)
    (s : Result AttemptError ExecutionAttemptRecord × D)
    → (attempted after s).1 ≡ s.1
attempted-disk (ok v) (ok r, d) = refl
attempted-disk (ok v) (err e, d) = refl
attempted-disk (err x) (m, d) = refl

attempted-some :
    {D : Type 0} (after : Result ExecutorError ExecutorAuthorizationRecord)
    (s : Result AttemptError ExecutionAttemptRecord × D) (v : ExecutorAuthorizationRecord)
    → (attempted after s).0 ≡ some v
    → (r : ExecutionAttemptRecord) × (s.0 ≡ ok r) × (after ≡ ok v)
attempted-some (ok w) (ok r, d) v h = (r, refl, ap ok (some_inj h))
attempted-some (ok w) (err e, d) v h = cc
attempted-some (err x) (m, d) v h = cc

module _ (p : Platform) (euid : ℕ) where
  open p use {Bytes}

  abbrev record_call :
      AttemptCall → Disk Bytes → Result AttemptError ExecutionAttemptRecord × Disk Bytes
  record_call c d =
      record_execution_attempt p euid c.capability c.cycle c.token c.now c.before c.after c.faults
        c.faults_again d

  -- The authorization that a call has attempted.
  abbrev pub attempting : AttemptCall → Disk Bytes → Option ExecutorAuthorizationRecord × Disk Bytes
  attempting c d = attempted c.after (record_call c d)

  call_step :
      (c : AttemptCall) (d : Disk Bytes)
      → Looked c.faults
      → OpOutcome p euid (layout p) (Adds p euid c.after) d.file (record_call c d)
  call_step c d looked =
      record_execution_attempt_step p euid c.capability c.cycle c.token c.now c.before c.after
        c.faults c.faults_again d looked

  Adds-keep :
      (m : Result ExecutorError ExecutorAuthorizationRecord) (q : ExecutionAttemptRecord → Bool)
      (r : ExecutionAttemptRecord) (before after : List ExecutionAttemptRecord)
      → Adds p euid m r before after
      → any q before ≡ true
      → any q after ≡ true
  Adds-keep m q _ _ _ (adds v id now es same fresh) h =
      any-append q es (build_record p euid v id now ∷ []) ∙ (rw h)

  has_new :
      (a : Attribute) (v : ExecutorAuthorizationRecord) (id : String) (now : ℕ)
      → has a v (build_record p euid v id now) ≡ true
  unfolding has of_attempt of_authorization
  has_new authorization v id now = eq_refl v.authorization_id
  has_new lease v id now = eq_refl v.lease_binding_id
  has_new handoff v id now = eq_refl v.handoff_id
  has_new gate v id now = eq_refl v.gate_id
  has_new binding v id now = eq_refl v.binding_id

  Adds-has :
      (a : Attribute) (v : ExecutorAuthorizationRecord)
      (m : Result ExecutorError ExecutorAuthorizationRecord) (r : ExecutionAttemptRecord)
      (before after : List ExecutionAttemptRecord)
      → m ≡ ok v
      → Adds p euid m r before after
      → any (has a v) after ≡ true
  Adds-has a v m _ _ _ k (adds w id now es same fresh) =
      any-append (has a v) es (build_record p euid w id now ∷ [])
      ∙ (rw
          (subst (λ u. has a v (build_record p euid u id now) ≡ true) (ok_inj (sym k ∙ same))
            (has_new a v id now))
          (or_true (any (has a v) es)))

  Adds-fresh :
      (v : ExecutorAuthorizationRecord) (m : Result ExecutorError ExecutorAuthorizationRecord)
      (r : ExecutionAttemptRecord) (before after : List ExecutionAttemptRecord)
      → m ≡ ok v
      → Adds p euid m r before after
      → any (repeats v) before ≡ false
  Adds-fresh v m _ _ _ k (adds w id now es same fresh) =
      subst (λ u. any (repeats u) es ≡ false) (ok_inj (sym same ∙ k)) fresh

  common_has :
      (a : Attribute) (v w : ExecutorAuthorizationRecord) (e : ExecutionAttemptRecord)
      → of_authorization a v ≡ of_authorization a w
      → has a v e ≡ true
      → has a w e ≡ true
  unfolding has
  common_has a v w e same h = subst (λ t. (of_attempt a e == t) ≡ true) same h

  module _ (law : Lawful p) where
    -- An entry that passes a test stays in the journal, whatever is attempted and whatever the system
    -- answers, but for an attempt that does not find a journal that is there: attempts are never
    -- removed or changed. Stated of what any reader of the file finds.
    pub attempts_stay :
        (q : ExecutionAttemptRecord → Bool) (c : AttemptCall) (d : Disk Bytes)
        → Looked c.faults
        → Keeps p euid (layout p) q d.file
        → Keeps p euid (layout p) q (attempting c d).1.file
    attempts_stay q c d looked k =
        subst (λ (x : Disk Bytes). Keeps p euid (layout p) q x.file)
          (sym (attempted-disk c.after (record_call c d)))
          (Keeps-OpOutcome p law euid (layout p) (layout_laws p) (Adds p euid c.after) q d.file
            (record_call c d) (Adds-keep c.after q) (call_step c d looked) k)

    abbrev Attempted : ExecutorAuthorizationRecord → Disk Bytes → Type 0
    Attempted v d = (a : Attribute) → Keeps p euid (layout p) (has a v) d.file

    Attempted-blocks :
        (c : AttemptCall) (d : Disk Bytes) (v : ExecutorAuthorizationRecord)
        → Looked c.faults
        → (attempting c d).0 ≡ some v
        → Attempted v (attempting c d).1
    Attempted-blocks c d v looked h a =
        let s = record_call c d in
        let (r, ret, same) = attempted-some c.after s v h in
        let u =
          returned-Changed p euid (layout p) (Adds p euid c.after) d.file s r ret
            (call_step c d looked) in
        subst (λ (x : Disk Bytes). Keeps p euid (layout p) (has a v) x.file)
          (sym (attempted-disk c.after s))
          (Keeps-Written p law euid (layout p) (layout_laws p) (has a v) u.after s.1.file u.written
            (Adds-has a v c.after r u.before u.after same u.change))

    Attempted-refuses :
        (c : AttemptCall) (d : Disk Bytes) (v w : ExecutorAuthorizationRecord)
        → Looked c.faults
        → Attempted v d
        → (attempting c d).0 ≡ some w
        → ¬ Overlap v w
    Attempted-refuses c d v w looked g h (a, common) =
        let s = record_call c d in
        let (r, ret, same) = attempted-some c.after s w h in
        let u =
          returned-Changed p euid (layout p) (Adds p euid c.after) d.file s r ret
            (call_step c d looked) in
        let fresh = Adds-fresh w c.after r u.before u.after same u.change in
        let found =
          any_imp (has a v) (repeats w) u.before
            (λ e k. has-repeats a w e (common_has a v w e common k)) (g a u.before u.was_stored) in
        let clash = sym found ∙ fresh in cc

    -- Over any sequence of attempts, with any capabilities, tokens and clocks, whatever the
    -- authorization store and the file system answer, but for an attempt that does not find a journal
    -- that is there, no two of those that return are attempts of
    -- authorizations with an id, a lease, a handoff, a gate or a binding in common.
    pub attempted_once :
        (calls : List AttemptCall) (d : Disk Bytes)
        → All (λ c. Looked c.faults) calls
        → Clashless attempting Overlap (granted attempting calls d)
    attempted_once calls d looked =
        granted-Clashless attempting (λ c. Looked c.faults) Overlap Attempted
          (λ c d' v fair g a. attempts_stay (has a v) c d' fair (g a)) Attempted-blocks
          Attempted-refuses calls d looked
