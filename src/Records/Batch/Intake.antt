-- ===== src/Records/Batch/Intake.antt =====
-- `BatchRecord.add_drive` and `BatchRecord.transition_intake`: what they change, what a failure
-- leaves, and the invariant of a batch under any sequence of the two.
use drive_sanitization_manag.Prelude.{
  ℕ, ◌≡◌, refl, ap, sym, subst, ◌∙◌, ◌⊎◌, inl, inr, Bool, true, false, Bool-cases, not, ◌&&◌, List,
  [], ◌∷◌, ◌++◌, Result, ok, err, >>=-eq-ok, ok_inj, >>-eq-ok, guard, guard-eq-ok, All, arith,
  if◌then◌else◌,
}
use drive_sanitization_manag.Value.{Value, text, py_eq}
use drive_sanitization_manag.Records.Guards.{
  RecordError, malformed, invalid_transition, Check, intake_statuses, status, transition,
}
use drive_sanitization_manag.Records.Guards.Steps.{
  in_progress, Transition, transition-eq-ok, status-stage_name,
}
use drive_sanitization_manag.Records.Drive.{DriveRecord}
use drive_sanitization_manag.Records.Batch.{
  BatchRecord, check_header, check_intake, validate, pop, settle, extend, add_drive, no_drives,
  unfinished, transition_intake,
}

pop-append : (ds : List DriveRecord) (d : DriveRecord) → pop (ds ++ d ∷ []) ≡ ds
pop-append [] d = refl
pop-append (a ∷ []) d = refl
pop-append (a ∷ e ∷ ds) d = ap (λ l. a ∷ l) (pop-append (e ∷ ds) d)

abbrev pub with_intake : BatchRecord → Value → BatchRecord
with_intake b v = record b { intake_status = v }

check_intake-with_intake :
    (b : BatchRecord) (v : Value)
    → status v intake_statuses ≡ ok tt
    → check_intake b ≡ ok tt
    → check_intake (with_intake b v) ≡ ok tt
unfolding check_intake
check_intake-with_intake b v s h =
    let (_, rest) = >>-eq-ok (status b.intake_status intake_statuses) _ h in rw s rest

-- The two guards of `transition_intake`: `s` is not completion, or the obstacle is not there.
abbrev may_complete : Value → Bool → Bool
may_complete s obstacle = not (py_eq s (text "complete") && obstacle)

may_complete_at :
    (s : Value) (obstacle : Bool)
    → may_complete s obstacle ≡ true
    → s ≡ text "complete"
    → obstacle ≡ false
unfolding py_eq
may_complete_at s obstacle h e =
    let h' : may_complete (text "complete") obstacle ≡ true = rw e at h in ground arith

unfinished-false :
    (ds : List DriveRecord)
    → unfinished ds ≡ false
    → All (λ (d : DriveRecord). py_eq d.intake_status (text "complete") ≡ true) ds
unfinished-false [] h = tt
unfinished-false (d ∷ ds) h = (ground arith, unfinished-false ds (ground arith))

module _ (casefold : List ℕ → List ℕ) where
  -- The intake status of a valid batch may be any other of the table.
  pub validate-with_intake :
      (b : BatchRecord) (v : Value)
      → status v intake_statuses ≡ ok tt
      → validate casefold b ≡ ok tt
      → validate casefold (with_intake b v) ≡ ok tt
  unfolding validate check_header
  validate-with_intake b v s h =
      let (header, h₁) = >>-eq-ok (check_header b) _ h in
      let (intake, h₂) = >>-eq-ok (check_intake b) _ h₁ in
      rw (header, check_intake-with_intake b v s intake) h₂

  -- A valid batch has an intake status of the table.
  intake_status_of :
      (b : BatchRecord)
      → validate casefold b ≡ ok tt
      → status b.intake_status intake_statuses ≡ ok tt
  unfolding validate check_intake
  intake_status_of b h =
      let (_, h₁) = >>-eq-ok (check_header b) _ h in
      let (intake, _) = >>-eq-ok (check_intake b) _ h₁ in
      (>>-eq-ok (status b.intake_status intake_statuses) _ intake).0

  -- The batch after an accepted drive: in progress if its intake was pending.
  abbrev pub added : DriveRecord → BatchRecord → BatchRecord
  added d b =
      if py_eq b.intake_status (text "pending")
      then with_intake (extend d b) (text "in_progress")
      else extend d b

  -- An accepted drive stands at the end of the list, the count is that of the list, and the batch
  -- is valid again.
  pub record Accepted (d : DriveRecord) (b b' : BatchRecord) : Type 0 where
    pub was_open : py_eq b.intake_status (text "complete") ≡ false
    pub same_batch : py_eq d.batch_job_id b.batch_job_id ≡ true
    pub result : b' ≡ added d b
    pub valid : validate casefold b' ≡ ok tt

  validate-added :
      (d : DriveRecord) (b : BatchRecord)
      → validate casefold (extend d b) ≡ ok tt
      → validate casefold (added d b) ≡ ok tt
  validate-added d b h = elim (Bool-cases (py_eq b.intake_status (text "pending"))) [
    | inl e ↦
        rw e
          (validate-with_intake (extend d b) (text "in_progress") (status-stage_name in_progress) h)
    | inr e ↦ rw e h
  ]

  abbrev pub Outcome :
      DriveRecord → BatchRecord → Result RecordError (Unit {0}) × BatchRecord → Type 0
  Outcome d b r =
      ((r.0 ≡ ok tt) × Accepted d b r.1) ⊎ ((e : RecordError) × (r.0 ≡ err e) × (r.1 ≡ b))

  settle-Outcome :
      (d : DriveRecord) (b : BatchRecord) (c : Check)
      → validate casefold (extend d b) ≡ c
      → py_eq b.intake_status (text "complete") ≡ false
      → py_eq d.batch_job_id b.batch_job_id ≡ true
      → Outcome d b (settle c b.total_drive_count (extend d b))
  settle-Outcome d b (ok u) v not_complete same = inl (
    refl,
    record {
      was_open = not_complete;
      same_batch = same;
      result = refl;
      valid = validate-added d b v;
    },
  )
  settle-Outcome d b (err e) v not_complete same =
      inr (e, refl, λ i. record b { drives = pop-append b.drives d i })

  -- `add_drive` either accepts the drive, into a batch that is not complete and has its job id, and
  -- the batch is then valid, with the drive at the end, the count of the list, and its intake in
  -- progress if it was pending; or it raises and leaves the batch exactly as it was.
  pub add_drive_atomic : (d : DriveRecord) (b : BatchRecord) → Outcome d b (add_drive casefold d b)
  unfolding add_drive
  add_drive_atomic d b = elim (Bool-cases (py_eq b.intake_status (text "complete"))) [
    | inl e ↦ rw e (inr (invalid_transition, refl, refl))
    | inr e ↦ elim (Bool-cases (py_eq d.batch_job_id b.batch_job_id)) [
      | inl f ↦ rw (e, f) (settle-Outcome d b (validate casefold (extend d b)) refl e f)
      | inr f ↦ rw (e, f) (inr (malformed, refl, refl))
    ]
  ]

  -- What an accepted transition of the batch shows.
  pub record Moved (b : BatchRecord) (s : Value) (b' : BatchRecord) : Type 0 where
    pub step : Transition b.intake_status s s
    pub some_drives : s ≡ text "complete" → no_drives b.drives ≡ false
    pub all_complete :
        s ≡ text "complete"
        → All (λ (d : DriveRecord). py_eq d.intake_status (text "complete") ≡ true) b.drives
    pub result : b' ≡ with_intake b s
    pub valid : validate casefold b' ≡ ok tt

  -- An accepted transition of a batch goes along a step of the workflow or stays, reaches completion
  -- only with drives that are all complete (and with at least one), and changes the intake status
  -- alone, from a valid batch to a valid batch.
  pub transition_intake_ready :
      (s : Value) (b b' : BatchRecord) → transition_intake casefold s b ≡ ok b' → Moved b s b'
  unfolding transition_intake
  transition_intake_ready s b b' h =
      let (v, h₁) = >>-eq-ok (validate casefold b) _ h in
      let (g₁, h₂) =
        >>-eq-ok (guard (may_complete s (no_drives b.drives)) invalid_transition) _ h₁ in
      let (g₂, h₃) =
        >>-eq-ok (guard (may_complete s (unfinished b.drives)) invalid_transition) _ h₂ in
      let (m, h₄, h₅) = >>=-eq-ok (transition b.intake_status s) _ h₃ in
      let t = transition-eq-ok b.intake_status s m (intake_status_of b v) h₄ in
      let moved : b' ≡ with_intake b s = sym (ok_inj h₅) ∙ ap (with_intake b) t.same in
      record {
        step = record {
          source = t.source;
          goal = t.goal;
          from_status = t.from_status;
          to_status = t.to_status;
          step = t.step;
          same = refl;
        };
        some_drives = may_complete_at s (no_drives b.drives) (guard-eq-ok _ invalid_transition g₁);
        all_complete = λ e.
            unfinished-false b.drives
              (may_complete_at s (unfinished b.drives) (guard-eq-ok _ invalid_transition g₂) e);
        result = moved;
        valid =
            subst (λ x. validate casefold x ≡ ok tt) (sym moved)
              (validate-with_intake b s
                (subst (λ x. status x intake_statuses ≡ ok tt) (sym t.to_status)
                  (status-stage_name t.goal))
                v);
      }
