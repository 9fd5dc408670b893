-- ===== src/Seam/Once.antt =====
-- About the number of entries and of descriptors in a history of one scope.
use drive_sanitization_manag.Prelude.{
  All, ℕ, ◌≡◌, refl, sym, ◌∙◌, true, List, [], ◌∷◌, Option, none, some, length, ◌≤◌, arith, Result,
  ok, err,
}
use drive_sanitization_manag.Value.{ℤ}
use drive_sanitization_manag.Platform.{Platform}
use drive_sanitization_manag.Files.{Disk}
use drive_sanitization_manag.History.{granted, Clashless, granted-Clashless}
use drive_sanitization_manag.Store.{StoreError}
use drive_sanitization_manag.Store.File.{open_lock}
use drive_sanitization_manag.Seam.{
  SeamError, Seam, Frozen, Entry, inspect, after_inspection, after_lock, after_chain, enter, exit,
  check_use, issue, descriptor_locked,
}
use drive_sanitization_manag.Seam.Steps.{
  SeamCall, enter_call, descriptor_call, exit_call, by_test, descriptor_locked-Held,
}

abbrev pub to_option : {E A : Type 0} → Result E A → Option A
to_option (ok a) = some a
to_option (err e) = none

to_option-some : {E A : Type 0} (m : Result E A) (a : A) → to_option m ≡ some a → m ≡ ok a
to_option-some (ok b) a h = cc
to_option-some (err e) a h = cc

module _ (p : Platform) (euid : ℕ) where
  open p use {Bytes}

  -- The descriptor that a call gives out.
  abbrev pub issuing : SeamCall → Seam × Disk Bytes → Option ℤ × (Seam × Disk Bytes)
  issuing (enter_call e) (s, d) = let r = enter p euid e s d in (none, (r.1, r.2))
  issuing (descriptor_call u) (s, d) =
      let r = descriptor_locked p euid u s d in (to_option r.0, (r.1, d))
  issuing exit_call (s, d) = (none, ((exit s).1, d))

  Issued : ℤ → Seam × Disk Bytes → Type 0
  Issued fd (s, d) = s.descriptor_issued ≡ true

  inspected :
      (m : Result SeamError Frozen) (fd : ℕ) (s : Seam) (d : Disk Bytes)
      → (after_inspection p euid m fd s d).1.descriptor_issued ≡ s.descriptor_issued
  inspected (err x) fd s d = refl
  inspected (ok frozen) fd s d = refl

  locked :
      (m : Result StoreError (Unit {0}) × Disk Bytes) (e : Entry) (s : Seam)
      → (after_lock p euid m e s).1.descriptor_issued ≡ s.descriptor_issued
  locked (err x, d) e s = refl
  locked (ok v, d) e s = inspected (inspect p euid e s.attempt_record d) e.lock_fd s d

  chained :
      (m : Result SeamError (Unit {0})) (e : Entry) (s : Seam) (d : Disk Bytes)
      → (after_chain p euid m e s d).1.descriptor_issued ≡ s.descriptor_issued
  chained (err x) e s d = refl
  chained (ok v) e s d = locked (open_lock euid e.lock_faults d) e s

  issue-keeps :
      (m : Result SeamError ℤ) (s : Seam)
      → s.descriptor_issued ≡ true
      → (issue p euid m s).1.descriptor_issued ≡ true
  issue-keeps (err x) s h = h
  issue-keeps (ok fd) s h = refl

  issue-blocks :
      (m : Result SeamError ℤ) (s : Seam) (fd : ℤ)
      → to_option (issue p euid m s).0 ≡ some fd
      → (issue p euid m s).1.descriptor_issued ≡ true
  issue-blocks (err x) s fd h = cc
  issue-blocks (ok x) s fd h = refl

  Issued-keeps :
      (c : SeamCall) (sd : Seam × Disk Bytes) (fd : ℤ)
      → Unit {0}
      → Issued fd sd
      → Issued fd (issuing c sd).1
  unfolding Issued enter exit descriptor_locked
  Issued-keeps (enter_call e) (s, d) fd fair h =
      by_test
        (λ (t : Result SeamError (Unit {0}) × Seam × Disk Bytes). t.1.descriptor_issued ≡ true)
        s.used _ _ (λ u. h) (λ u. chained _ e (record s { used = true }) d ∙ h)
  Issued-keeps (descriptor_call u) (s, d) fd fair h = issue-keeps (check_use p euid u s d) s h
  Issued-keeps exit_call (s, d) fd fair h =
      by_test (λ (t : Result SeamError (Unit {0}) × Seam). t.1.descriptor_issued ≡ true) s.entered _
        _ (λ e. h) (λ e. h)

  Issued-blocks :
      (c : SeamCall) (sd : Seam × Disk Bytes) (fd : ℤ)
      → Unit {0}
      → (issuing c sd).0 ≡ some fd
      → Issued fd (issuing c sd).1
  unfolding Issued descriptor_locked
  Issued-blocks (enter_call e) (s, d) fd fair h = cc
  Issued-blocks (descriptor_call u) (s, d) fd fair h = issue-blocks (check_use p euid u s d) s fd h
  Issued-blocks exit_call (s, d) fd fair h = cc

  Issued-refuses :
      (c : SeamCall) (sd : Seam × Disk Bytes) (fd other : ℤ)
      → Unit {0}
      → Issued fd sd
      → (issuing c sd).0 ≡ some other
      → ¬ Unit {0}
  unfolding Issued
  Issued-refuses (enter_call e) (s, d) fd other fair h k u = cc
  Issued-refuses (descriptor_call v) (s, d) fd other fair h k u =
      let held =
        descriptor_locked-Held p euid v s d other
          (to_option-some (descriptor_locked p euid v s d).0 other k) in
      let clash = sym h ∙ held.not_issued in cc
  Issued-refuses exit_call (s, d) fd other fair h k u = cc

  All_always : (calls : List SeamCall) → All (λ c. Unit {0}) calls
  All_always [] = tt
  All_always (c ∷ calls) = (tt, All_always calls)

  at_most_one : (fds : List ℤ) → Clashless issuing (λ a b. Unit {0}) fds → length fds ≤ 1
  at_most_one [] h = omega arith
  at_most_one (a ∷ []) h = omega arith
  at_most_one (a ∷ b ∷ fds) h = absurd (h.0.0 tt)

  -- Over any sequence of calls of one scope, whatever the other parts answer, at most one descriptor is
  -- given out.
  pub descriptor_once :
      (calls : List SeamCall) (s : Seam) (d : Disk Bytes)
      → length (granted issuing calls (s, d)) ≤ 1
  descriptor_once calls s d = at_most_one (granted issuing calls (s, d)) (
      granted-Clashless issuing (λ c. Unit {0}) (λ a b. Unit {0}) Issued Issued-keeps Issued-blocks
        Issued-refuses calls (s, d) (All_always calls))
