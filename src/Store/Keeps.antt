-- ===== src/Store/Keeps.antt =====
-- About the operations of a store: what a change of the entries keeps.
use drive_sanitization_manag.Prelude.{
  ℕ, ◌≡◌, refl, sym, ap, subst, ◌∙◌, Bool, true, false, Bool-cases, ◌⊎◌, inl, inr, List, [], Option,
  none, some, any, Result, ok, err, ok_inj, lifted, on_ok, ◌>>◌,
}
use drive_sanitization_manag.Platform.{Platform}
use drive_sanitization_manag.Platform.Laws.{Lawful}
use drive_sanitization_manag.Sort.{any-sort}
use drive_sanitization_manag.Files.{Disk, Faults, Stat, Looked}
use drive_sanitization_manag.Store.{Layout, StoreError}
use drive_sanitization_manag.Store.File.{
  id_key, parent_trusted, checked_lock, with_lock, open_lock, read_file, read_locked, write_locked,
  locked, locked_after, write_and,
}
use drive_sanitization_manag.Store.Atomic.{
  LayoutLaws, stored, Written, WriteOutcome, write_locked_atomic, stored-Written,
}

module _ (p : Platform) (euid : ℕ) {E : Type 0} (l : Layout E) where
  open p use {Bytes}

  -- The new file holds what a change made of the entries of the old one.
  pub record Changed (C : List E → List E → Type 0) (old new : Option (Stat × Bytes)) : Type 0 where
    pub before : List E
    pub after : List E
    pub was_stored : stored p euid l old ≡ ok before
    pub change : C before after
    pub written : Written p euid l after new

  -- The file is as it was, or was changed for some result.
  abbrev pub Effect :
      {A : Type 0}
      → (A → List E → List E → Type 0)
      → Option (Stat × Bytes)
      → Option (Stat × Bytes)
      → Type 0
  Effect {A} C old new = (new ≡ old) ⊎ ((a : A) × Changed (C a) old new)

  -- An operation that returns has made the change of its result; one that raises may have made one.
  abbrev pub OpOutcome :
      {X A : Type 0}
      → (A → List E → List E → Type 0)
      → Option (Stat × Bytes)
      → Result X A × Disk Bytes
      → Type 0
  OpOutcome {X} {A} C old s =
      ((a : A) × (s.0 ≡ ok a) × Changed (C a) old s.1.file)
      ⊎ ((e : X) × (s.0 ≡ err e) × Effect C old s.1.file)

  pub returned-Changed :
      {X A : Type 0} (C : A → List E → List E → Type 0) (old : Option (Stat × Bytes))
      (s : Result X A × Disk Bytes) (a : A)
      → s.0 ≡ ok a
      → OpOutcome C old s
      → Changed (C a) old s.1.file
  returned-Changed C old s a h (inl (b, k, c)) =
      subst (λ x. Changed (C x) old s.1.file) (ok_inj (sym k ∙ h)) c
  returned-Changed C old s a h (inr (e, k, _)) = let clash = sym h ∙ k in cc

  with_lock-file :
      (m : Result StoreError (Stat × ℕ)) (d : Disk Bytes) → (with_lock m d).1.file ≡ d.file
  with_lock-file (err e) d = refl
  with_lock-file (ok l) d = refl

  open_lock-file : (f : Faults) (d : Disk Bytes) → (open_lock euid f d).1.file ≡ d.file
  unfolding open_lock
  open_lock-file f d = elim (Bool-cases f.parent_fails) [
    | inl e ↦ rw e refl
    | inr e ↦ rw e (with_lock-file (parent_trusted euid d.parent >> checked_lock euid f d.lock) d)
  ]

  -- A reading that returns has read what is stored.
  pub read_file-stored :
      (fails : Bool) (file : Option (Stat × Bytes)) (es : List E)
      → read_file p euid l fails file ≡ ok es
      → stored p euid l file ≡ ok es
  read_file-stored fails none es h = h
  read_file-stored true (some c) es h = cc
  read_file-stored false (some c) es h = h

  module _ {X A : Type 0} (lift : StoreError → X) (C : A → List E → List E → Type 0)
      (body : List E → Disk Bytes → Result X A × Disk Bytes)
      (behaves : (es : List E) (d : Disk Bytes)
        → stored p euid l d.file ≡ ok es
        → OpOutcome C d.file (body es d)) where
    read-OpOutcome :
        (m : Result StoreError (List E)) (d : Disk Bytes) (old : Option (Stat × Bytes))
        → ((es : List E) → m ≡ ok es → stored p euid l d.file ≡ ok es)
        → d.file ≡ old
        → OpOutcome C old (on_ok (lifted lift (m, d)) body)
    read-OpOutcome (err e) d old h same = inr (lift e, refl, inl same)
    read-OpOutcome (ok es) d old h same =
        subst (λ file. OpOutcome C file (body es d)) same (behaves es d (h es refl))

    lock-OpOutcome :
        (s : Result StoreError (Unit {0}) × Disk Bytes) (f : Faults) (old : Option (Stat × Bytes))
        → s.1.file ≡ old
        → (f.lookup_fails ≡ true → (d : Disk Bytes) → OpOutcome C d.file (body [] d))
        → OpOutcome C old (
            on_ok
              (lifted lift s)
              (λ _ d₁. on_ok (lifted lift (read_locked p euid l f d₁, d₁)) body))
    unfolding read_locked
    lock-OpOutcome (err e, d) f old same missed = inr (lift e, refl, inl same)
    lock-OpOutcome (ok u, d) f old same missed = elim (Bool-cases f.lookup_fails) [
      | inl blind ↦ rw blind (subst (λ file. OpOutcome C file (body [] d)) same (missed blind d))
      | inr finds ↦ rw finds (
          read-OpOutcome (read_file p euid l f.open_fails d.file) d old
            (read_file-stored f.open_fails d.file) same)
    ]

    -- `missed` is about a reading that does not find the file.
    pub locked-OpOutcome :
        (f : Faults) (d : Disk Bytes)
        → (f.lookup_fails ≡ true → (d₁ : Disk Bytes) → OpOutcome C d₁.file (body [] d₁))
        → OpOutcome C d.file (locked p euid l lift f d body)
    locked-OpOutcome f d missed =
        lock-OpOutcome (open_lock euid f d) f d.file (open_lock-file f d) missed

  refused-OpOutcome :
      {X A Y : Type 0} (lift : StoreError → X) (C : A → List E → List E → Type 0) (e : X)
      (s : Result StoreError (Unit {0}) × Disk Bytes) (old : Option (Stat × Bytes))
      (next : Y → Disk Bytes → Result X A × Disk Bytes)
      → s.1.file ≡ old
      → OpOutcome C old (on_ok (lifted lift s) (λ _ d₁. on_ok (err e, d₁) next))
  refused-OpOutcome lift C e (ok u, d) old next same = inr (e, refl, inl same)
  refused-OpOutcome lift C e (err x, d) old next same = inr (lift x, refl, inl same)

  pub locked_after-OpOutcome :
      {X A Y : Type 0} (lift : StoreError → X) (C : A → List E → List E → Type 0)
      (check : Result X Y) (body : Y → List E → Disk Bytes → Result X A × Disk Bytes) (f : Faults)
      (d : Disk Bytes)
      → Looked f
      → ((y : Y) (es : List E) (d₁ : Disk Bytes)
          → check ≡ ok y
          → stored p euid l d₁.file ≡ ok es
          → OpOutcome C d₁.file (body y es d₁))
      → OpOutcome C d.file (locked_after p euid l lift f d check body)
  locked_after-OpOutcome lift C (err e) body f d looked behaves =
      refused-OpOutcome lift C e (open_lock euid f d) d.file
        (λ y d₂. on_ok (lifted lift (read_locked p euid l f d₂, d₂)) (body y)) (open_lock-file f d)
  locked_after-OpOutcome lift C (ok y) body f d looked behaves =
      locked-OpOutcome lift C (body y) (λ es d₁ h. behaves y es d₁ refl h) f d
        (λ blind d₁. let clash = sym looked ∙ blind in cc)

  changed-OpOutcome :
      {X A : Type 0} (C : A → List E → List E → Type 0) (a₀ : A) (old : Option (Stat × Bytes))
      (s : Result X A × Disk Bytes)
      → ((a : A) → (s.0 ≡ ok a) ⊎ (a ≡ a₀) → Changed (C a) old s.1.file)
      → OpOutcome C old s
  changed-OpOutcome C a₀ old (ok a, d) c = inl (a, refl, c a (inl refl))
  changed-OpOutcome C a₀ old (err e, d) c = inr (e, refl, inr (a₀, c a₀ (inr refl)))

  -- A write for a result, after which the rest of the operation leaves the file alone, and returns
  -- nothing but that result.
  pub write_and-OpOutcome :
      {X A : Type 0} (lift : StoreError → X) (C : A → List E → List E → Type 0) (a₀ : A)
      (f : Faults) (before after : List E) (d : Disk Bytes)
      (next : Disk Bytes → Result X A × Disk Bytes)
      → stored p euid l d.file ≡ ok before
      → C a₀ before after
      → ((d' : Disk Bytes) → (next d').1.file ≡ d'.file)
      → ((d' : Disk Bytes) (a : A) → (next d').0 ≡ ok a → a ≡ a₀)
      → OpOutcome C d.file (write_and p euid l lift f after d next)
  write_and-OpOutcome {A = A} lift C a₀ f before after d next h c keep only =
      wrote (write_locked p euid l f after d) (write_locked_atomic p euid l f after d)
    where
      changed :
          (a : A) (new : Option (Stat × Bytes))
          → a ≡ a₀
          → Written p euid l after new
          → Changed (C a) d.file new
      changed a new same w =
          subst (λ x. Changed (C x) d.file new) (sym same)
            (record { before = before; after = after; was_stored = h; change = c; written = w })

      wrote :
          (s : Result StoreError (Unit {0}) × Disk Bytes)
          → WriteOutcome p euid l after d s
          → OpOutcome C d.file (on_ok (lifted lift s) (λ _ d'. next d'))
      wrote (ok u, d') (inl (_, w)) = changed-OpOutcome C a₀ d.file (next d') (λ a k.
          changed a (next d').1.file (elim k [ inl e ↦ only d' a e | inr e ↦ e ])
            (subst (Written p euid l after) (sym (keep d')) w))
      wrote (ok u, d') (inr (e, k, _)) = cc
      wrote (err e, d') (inl (k, _)) = cc
      wrote (err e, d') (inr (_, _, inl same)) = inr (lift e, refl, inl same)
      wrote (err e, d') (inr (_, _, inr w)) =
          inr (lift e, refl, inr (a₀, changed a₀ d'.file refl w))

  -- Whoever reads the store, if anyone can, finds an entry that passes the test.
  abbrev pub Keeps : (E → Bool) → Option (Stat × Bytes) → Type 0
  Keeps q file = (es : List E) → stored p euid l file ≡ ok es → any q es ≡ true

module _ (p : Platform) (law : Lawful p) (euid : ℕ) {E : Type 0} (l : Layout E)
    (laws : LayoutLaws p l) where
  open p use {Bytes}

  pub Keeps-Written :
      (q : E → Bool) (es : List E) (file : Option (Stat × Bytes))
      → Written p euid l es file
      → any q es ≡ true
      → Keeps p euid l q file
  Keeps-Written q es file w h fs read =
      ap (any q) (stored-Written p law euid l laws es fs file w read)
      ∙ any-sort (id_key p euid l) q es
      ∙ h

  -- A change that keeps a passing entry keeps it on the disk.
  pub Keeps-Changed :
      (C : List E → List E → Type 0) (q : E → Bool) (old new : Option (Stat × Bytes))
      → ((before after : List E) → C before after → any q before ≡ true → any q after ≡ true)
      → Changed p euid l C old new
      → Keeps p euid l q old
      → Keeps p euid l q new
  Keeps-Changed C q old new keep c k =
      Keeps-Written q c.after new c.written
        (keep c.before c.after c.change (k c.before c.was_stored))

  pub Keeps-OpOutcome :
      {X A : Type 0} (C : A → List E → List E → Type 0) (q : E → Bool) (old : Option (Stat × Bytes))
      (s : Result X A × Disk Bytes)
      → ((a : A) (before after : List E)
          → C a before after
          → any q before ≡ true
          → any q after ≡ true)
      → OpOutcome p euid l C old s
      → Keeps p euid l q old
      → Keeps p euid l q s.1.file
  Keeps-OpOutcome C q old s keep (inl (a, _, c)) k = Keeps-Changed (C a) q old s.1.file (keep a) c k
  Keeps-OpOutcome C q old s keep (inr (_, _, inl same)) k = subst (Keeps p euid l q) (sym same) k
  Keeps-OpOutcome C q old s keep (inr (_, _, inr (a, c))) k =
      Keeps-Changed (C a) q old s.1.file (keep a) c k
