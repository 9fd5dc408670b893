-- ===== src/Seam/Steps.antt =====
-- About histories of one scope: what holds between its calls, and what it takes to be given the
-- descriptor.
use drive_sanitization_manag.Prelude.{
  ℕ, ◌≡◌, refl, ap, subst, ◌∙◌, Bool, true, false, ◌&&◌, not, List, [], ◌∷◌, Option, none, some,
  ◌==◌, eq_iff, Result, ok, err, >>=-eq-ok, >>-eq-ok, ok_inj, guard, guard-eq-ok, arith,
  if◌then◌else◌,
}
use drive_sanitization_manag.Value.{ℤ}
use drive_sanitization_manag.Platform.{Platform}
use drive_sanitization_manag.Files.{Disk}
use drive_sanitization_manag.Tokens.{is_some}
use drive_sanitization_manag.Store.{StoreError}
use drive_sanitization_manag.Store.File.{open_lock}
use drive_sanitization_manag.Executor.Record.{ExecutorAuthorizationRecord}
use drive_sanitization_manag.Executor.Operations.{ExecutorError}
use drive_sanitization_manag.Attempt.Record.{ExecutionAttemptRecord, record_valid}
use drive_sanitization_manag.Attempt.Operations.{
  AttemptError, check_capability, final_cycle, same_record,
}
use drive_sanitization_manag.Seam.{
  SeamError, inactive, record_invalid, already_issued, chain_changed, descriptor_unavailable,
  descriptor_differs, authorization_changed, attempt_changed, claim_changed, Seam, Frozen, Entry,
  Use, lift_attempt, lift_executor, or_seam_error, same_chain, claim_state, same_claim, exit,
  persisted_exact, new_seam, inspect, after_inspection, after_lock, after_chain, enter, check_use,
  issue, descriptor_locked,
}
use drive_sanitization_manag.Seam.Held.{
  Active, check_capability-Active, SameChain, same_chain-SameChain, Safe, final_cycle-Safe,
  SameClaim, claim_state-SameClaim, SameAuthorization, same_record-SameAuthorization, Persisted,
  persisted_exact-Persisted,
}

pub data SeamCall : Type 0 where
  enter_call : Entry → SeamCall
  descriptor_call : Use → SeamCall
  exit_call : SeamCall

-- The lock is held, and the chain is kept, exactly while the scope is entered; a scope that is entered
-- or has given its descriptor out is used.
abbrev pub consistent : Seam → Bool
consistent s =
    if s.entered
    then s.used && is_some s.attempt_lock_fd && is_some s.frozen
    else not (is_some s.attempt_lock_fd)
      && not (is_some s.frozen)
      && (if s.descriptor_issued then s.used else true)

pub by_test :
    {A : Type 0} (P : A → Type 0) (b : Bool) (x y : A)
    → (b ≡ true → P x)
    → (b ≡ false → P y)
    → P (if b then x else y)
by_test P true x y f g = f refl
by_test P false x y f g = g refl

module _ (p : Platform) (euid : ℕ) where
  open p use {Bytes}

  -- The scope and the journal's directory after a call.
  abbrev pub step : SeamCall → Seam × Disk Bytes → Seam × Disk Bytes
  step (enter_call e) (s, d) = let r = enter p euid e s d in (r.1, r.2)
  step (descriptor_call u) (s, d) = ((descriptor_locked p euid u s d).1, d)
  step exit_call (s, d) = ((exit s).1, d)

  abbrev pub run : List SeamCall → Seam × Disk Bytes → Seam × Disk Bytes
  run [] sd = sd
  run (c ∷ calls) sd = run calls (step c sd)

  inspected :
      (m : Result SeamError Frozen) (fd : ℕ) (s : Seam) (d : Disk Bytes)
      → s.used ≡ true
      → consistent s ≡ true
      → consistent (after_inspection p euid m fd s d).1 ≡ true
  inspected (err x) fd s d u h = h
  inspected (ok frozen) fd s d u h = rw u refl

  locked :
      (m : Result StoreError (Unit {0}) × Disk Bytes) (e : Entry) (s : Seam)
      → s.used ≡ true
      → consistent s ≡ true
      → consistent (after_lock p euid m e s).1 ≡ true
  locked (err x, d) e s u h = h
  locked (ok v, d) e s u h = inspected (inspect p euid e s.attempt_record d) e.lock_fd s d u h

  chained :
      (m : Result SeamError (Unit {0})) (e : Entry) (s : Seam) (d : Disk Bytes)
      → s.used ≡ true
      → consistent s ≡ true
      → consistent (after_chain p euid m e s d).1 ≡ true
  chained (err x) e s d u h = h
  chained (ok v) e s d u h = locked (open_lock euid e.lock_faults d) e s u h

  consistent-enter :
      (e : Entry) (s : Seam) (d : Disk Bytes)
      → consistent s ≡ true
      → consistent (enter p euid e s d).1 ≡ true
  unfolding enter
  consistent-enter e s d h =
      by_test (λ (t : Result SeamError (Unit {0}) × Seam × Disk Bytes). consistent t.1 ≡ true)
        s.used _ _ (λ u. h) (λ u. chained _ e (record s { used = true }) d refl (ground arith))

  issued :
      (m : Result SeamError ℤ) (s : Seam)
      → ((fd : ℤ) → m ≡ ok fd → s.entered ≡ true)
      → consistent s ≡ true
      → consistent (issue p euid m s).1 ≡ true
  issued (err x) s a h = h
  issued (ok fd) s a h = let e = a fd refl in ground arith

  -- The descriptor is given out of a scope that is entered and has not given it out, while the
  -- capability is active, the chain is that of the entry, the safety cycle passes, the target is the
  -- one that is observed, the authorization and the claim are those of the entry, and the attempt is
  -- the one entry of its id in the journal that is stored; it is the descriptor of that claim.
  pub record Held (u : Use) (s : Seam) (d : Disk Bytes) (fd : ℤ) : Type 0 where
    pub entered : s.entered ≡ true
    pub not_issued : s.descriptor_issued ≡ false
    pub frozen : Frozen
    pub kept : s.frozen ≡ some frozen
    pub active : Active u.now.capability
    pub unchanged : SameChain frozen.chain u.now
    pub safe : Safe frozen.chain.capability.identity u.cycle
    pub target : u.observed ≡ some frozen.chain.capability.identity.target_major_minor
    pub authorization : ExecutorAuthorizationRecord
    pub read : u.authorization ≡ ok authorization
    pub authorized : SameAuthorization authorization frozen.authorization
    pub persisted : Persisted p euid s.attempt_record d.file
    pub claimed : SameClaim frozen.chain.capability.identity u.claim frozen.claim
    pub descriptor : frozen.claim.fd ≡ fd

  lift_attempt-ok :
      {A : Type 0} (m : Result AttemptError A) (a : A) → lift_attempt m ≡ ok a → m ≡ ok a
  lift_attempt-ok (ok b) a h = ap ok (ok_inj h)
  lift_attempt-ok (err e) a h = cc

  lift_executor-ok :
      {A : Type 0} (m : Result ExecutorError A) (a : A) → lift_executor m ≡ ok a → m ≡ ok a
  lift_executor-ok (ok b) a h = ap ok (ok_inj h)
  lift_executor-ok (err e) a h = cc

  or_seam_error-ok :
      {A : Type 0} (o : Option A) (e : SeamError) (a : A) → or_seam_error o e ≡ ok a → o ≡ some a
  or_seam_error-ok none e a h = cc
  or_seam_error-ok (some b) e a h = cc

  check_use-Held :
      (u : Use) (s : Seam) (d : Disk Bytes) (fd : ℤ)
      → check_use p euid u s d ≡ ok fd
      → Held u s d fd
  unfolding check_use
  check_use-Held u s d fd h =
      let (g₁, h₁) = >>-eq-ok (guard s.entered inactive) _ h in
      let (g₂, h₂) = >>-eq-ok (guard (not s.descriptor_issued) already_issued) _ h₁ in
      let (g₃, h₃) = >>-eq-ok (lift_attempt (check_capability u.now.capability)) _ h₂ in
      let (fr, g₄, h₄) = >>=-eq-ok (or_seam_error s.frozen chain_changed) _ h₃ in
      let (g₅, h₅) = >>-eq-ok (guard (same_chain fr.chain u.now) chain_changed) _ h₄ in
      let (g₆, h₆) =
        >>-eq-ok (lift_attempt (final_cycle fr.chain.capability.identity u.cycle)) _ h₅ in
      let (seen, g₇, h₇) = >>=-eq-ok (or_seam_error u.observed descriptor_unavailable) _ h₆ in
      let target = fr.chain.capability.identity.target_major_minor in
      let (g₈, h₈) = >>-eq-ok (guard (seen == target) descriptor_differs) _ h₇ in
      let (a, g₉, h₉) = >>=-eq-ok (lift_executor u.authorization) _ h₈ in
      let (g₁₀, h₁₀) =
        >>-eq-ok (guard (same_record a fr.authorization) authorization_changed) _ h₉ in
      let (g₁₁, h₁₁) =
        >>-eq-ok (guard (persisted_exact p euid s.attempt_record u.read d) attempt_changed) _ h₁₀ in
      let (c, g₁₂, h₁₂) = >>=-eq-ok (claim_state fr.chain.capability.identity u.claim) _ h₁₁ in
      let (g₁₃, h₁₃) = >>-eq-ok (guard (same_claim c fr.claim) claim_changed) _ h₁₂ in
      let free = guard-eq-ok (not s.descriptor_issued) already_issued g₂ in
      record {
        entered = guard-eq-ok s.entered inactive g₁;
        not_issued = ground arith;
        frozen = fr;
        kept = or_seam_error-ok s.frozen chain_changed fr g₄;
        active =
            check_capability-Active u.now.capability
              (lift_attempt-ok (check_capability u.now.capability) tt g₃);
        unchanged =
            same_chain-SameChain fr.chain u.now
              (guard-eq-ok (same_chain fr.chain u.now) chain_changed g₅);
        safe =
            final_cycle-Safe fr.chain.capability.identity u.cycle
              (lift_attempt-ok (final_cycle fr.chain.capability.identity u.cycle) tt g₆);
        target =
            or_seam_error-ok u.observed descriptor_unavailable seen g₇
            ∙ ap some ((eq_iff seen target).0 (guard-eq-ok (seen == target) descriptor_differs g₈));
        authorization = a;
        read = lift_executor-ok u.authorization a g₉;
        authorized =
            same_record-SameAuthorization a fr.authorization
              (guard-eq-ok (same_record a fr.authorization) authorization_changed g₁₀);
        persisted =
            persisted_exact-Persisted p euid s.attempt_record u.read d
              (guard-eq-ok (persisted_exact p euid s.attempt_record u.read d) attempt_changed g₁₁);
        claimed =
            claim_state-SameClaim fr.chain.capability.identity u.claim fr.claim c g₁₂
              (guard-eq-ok (same_claim c fr.claim) claim_changed g₁₃);
        descriptor = ok_inj h₁₃;
      }

  consistent-step :
      (c : SeamCall) (s : Seam) (d : Disk Bytes)
      → consistent s ≡ true
      → consistent (step c (s, d)).0 ≡ true
  unfolding descriptor_locked exit
  consistent-step (enter_call e) s d h = consistent-enter e s d h
  consistent-step (descriptor_call u) s d h =
      issued (check_use p euid u s d) s (λ fd k. (check_use-Held u s d fd k).entered) h
  consistent-step exit_call s d h =
      by_test (λ (t : Result SeamError (Unit {0}) × Seam). consistent t.1 ≡ true) s.entered _ _
        (λ e. ground arith) (λ e. h)

  consistent-run :
      (calls : List SeamCall) (s : Seam) (d : Disk Bytes)
      → consistent s ≡ true
      → consistent (run calls (s, d)).0 ≡ true
  consistent-run [] s d h = h
  consistent-run (c ∷ calls) s d h =
      consistent-run calls (step c (s, d)).0 (step c (s, d)).1 (consistent-step c s d h)

  -- Over any sequence of calls of a new scope, whatever the other parts answer, the scope holds the lock
  -- of the journal and the chain exactly while it is entered, and it is used once it is entered or has
  -- given its descriptor out.
  pub seam_consistent :
      (r : ExecutionAttemptRecord) (s : Seam) (calls : List SeamCall) (d : Disk Bytes)
      → new_seam p euid r ≡ ok s
      → consistent (run calls (s, d)).0 ≡ true
  unfolding new_seam
  seam_consistent r s calls d h =
      let (_, k) = >>-eq-ok (guard (record_valid p r) record_invalid) _ h in
      consistent-run calls s d (subst (λ x. consistent x ≡ true) (ok_inj k) refl)

  issue-some :
      (m : Result SeamError ℤ) (s : Seam) (fd : ℤ) → (issue p euid m s).0 ≡ ok fd → m ≡ ok fd
  issue-some (ok x) s fd h = h
  issue-some (err e) s fd h = cc

  -- _descriptor_locked returns only a descriptor that is Held: the scope is entered and has not given it
  -- out, the capability is active, the chain is that of the entry, the safety cycle passes, the target
  -- is the one that is observed, the authorization and the claim are those of the entry, and the
  -- attempt is the one entry of its id in the journal that is stored; what is returned is the claim's
  -- descriptor.
  pub descriptor_locked-Held :
      (u : Use) (s : Seam) (d : Disk Bytes) (fd : ℤ)
      → (descriptor_locked p euid u s d).0 ≡ ok fd
      → Held u s d fd
  unfolding descriptor_locked
  descriptor_locked-Held u s d fd h =
      check_use-Held u s d fd (issue-some (check_use p euid u s d) s fd h)
