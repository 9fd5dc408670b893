-- ===== src/Records/Batch/History.antt =====
-- A batch over any sequence of calls of `add_drive` and `transition_intake`, failing ones included.
use drive_sanitization_manag.Prelude.{
  ℕ, ◌≡◌, refl, sym, subst, ap, ◌∙◌, inl, inr, ◌⊎◌, true, false, Bool-cases, List, [], ◌∷◌, Result,
  ok, err, All,
}
use drive_sanitization_manag.Value.{Value, text, py_eq}
use drive_sanitization_manag.Records.Guards.{RecordError}
use drive_sanitization_manag.Records.Guards.Steps.{Stage, Step, stage_name}
use drive_sanitization_manag.Records.Drive.{DriveRecord}
use drive_sanitization_manag.Records.Batch.{
  BatchRecord, no_drives, validate, add_drive, transition_intake,
}
use drive_sanitization_manag.Records.Batch.Intake.{
  with_intake, added, Accepted, add_drive_atomic, Moved, transition_intake_ready,
}

pub data Call : Type 0 where
  add : DriveRecord → Call
  move : Value → Call

abbrev pub kept : BatchRecord → Result RecordError BatchRecord → BatchRecord
kept b (ok b') = b'
kept b (err e) = b

is_complete : (v : Value) → v ≡ text "complete" → py_eq v (text "complete") ≡ true
unfolding py_eq
is_complete v e = rw e

Step-unfinished : {a b : Stage} → Step a b → py_eq (text (stage_name a)) (text "complete") ≡ false
unfolding py_eq
Step-unfinished Step.begin = refl
Step-unfinished Step.flag = refl
Step-unfinished Step.question = refl
Step-unfinished Step.finish = refl
Step-unfinished Step.resume = refl
Step-unfinished Step.accept = refl

-- No step of the workflow leaves completion.
complete_final :
    (a b : Stage)
    → text (stage_name a) ≡ text "complete"
    → (a ≡ b) ⊎ Step a b
    → text (stage_name b) ≡ text "complete"
complete_final a b e (inl same) = subst (λ x. text (stage_name x) ≡ text "complete") same e
complete_final a b e (inr step) = absurd (cc (is_complete _ e, Step-unfinished step))

added_pending :
    (casefold : List ℕ → List ℕ) (d : DriveRecord) (b : BatchRecord)
    → py_eq b.intake_status (text "pending") ≡ true
    → (added casefold d b).intake_status ≡ text "in_progress"
added_pending casefold d b p = rw p

added_other :
    (casefold : List ℕ → List ℕ) (d : DriveRecord) (b : BatchRecord)
    → py_eq b.intake_status (text "pending") ≡ false
    → (added casefold d b).intake_status ≡ b.intake_status
added_other casefold d b p = rw p

-- A batch that took a drive in is not complete.
added_open :
    (casefold : List ℕ → List ℕ) (d : DriveRecord) (b : BatchRecord)
    → py_eq b.intake_status (text "complete") ≡ false
    → (added casefold d b).intake_status ≡ text "complete"
    → ⊥
unfolding py_eq
added_open casefold d b h e = elim (Bool-cases (py_eq b.intake_status (text "pending"))) [
  | inl p ↦ cc (is_complete _ e, ap (λ v. py_eq v (text "complete")) (added_pending casefold d b p))
  | inr p ↦
      cc (is_complete _ e, h, ap (λ v. py_eq v (text "complete")) (added_other casefold d b p))
]

module _ (casefold : List ℕ → List ℕ) where
  -- The batch after a call, whether the call returns or raises.
  abbrev pub perform : Call → BatchRecord → BatchRecord
  perform (add d) b = (add_drive casefold d b).1
  perform (move s) b = kept b (transition_intake casefold s b)

  abbrev pub run : List Call → BatchRecord → BatchRecord
  run [] b = b
  run (c ∷ cs) b = run cs (perform c b)

  -- The batch is valid, and if its intake is complete it has drives and they are all complete.
  pub record IsSound (b : BatchRecord) : Type 0 where
    pub valid : validate casefold b ≡ ok tt
    pub some_drives : b.intake_status ≡ text "complete" → no_drives b.drives ≡ false
    pub all_complete :
        b.intake_status ≡ text "complete"
        → All (λ (d : DriveRecord). py_eq d.intake_status (text "complete") ≡ true) b.drives

  with_intake-IsSound : (b b' : BatchRecord) (v : Value) → Moved casefold b v b' → IsSound b'
  with_intake-IsSound b b' v m =
      let same : validate casefold (with_intake b v) ≡ ok tt =
        subst (λ x. validate casefold x ≡ ok tt) m.result m.valid in
      subst IsSound (sym m.result)
        (record { valid = same; some_drives = m.some_drives; all_complete = m.all_complete })

  kept-IsSound :
      (v : Value) (b : BatchRecord) (r : Result RecordError BatchRecord)
      → transition_intake casefold v b ≡ r
      → IsSound b
      → IsSound (kept b r)
  kept-IsSound v b (ok b') h s =
      with_intake-IsSound b b' v (transition_intake_ready casefold v b b' h)
  kept-IsSound v b (err e) h s = s

  added-IsSound : (d : DriveRecord) (b b' : BatchRecord) → Accepted casefold d b b' → IsSound b'
  added-IsSound d b b' a =
      let shut = λ (e : b'.intake_status ≡ text "complete").
        added_open casefold d b a.was_open (ap (λ x. x.intake_status) (sym a.result) ∙ e) in
      record {
        valid = a.valid;
        some_drives = λ e. absurd (shut e);
        all_complete = λ e. absurd (shut e);
      }

  perform-IsSound : (c : Call) (b : BatchRecord) → IsSound b → IsSound (perform c b)
  perform-IsSound (add d) b s = elim (add_drive_atomic casefold d b) [
    | inl (_, accepted) ↦ added-IsSound d b (add_drive casefold d b).1 accepted
    | inr (_, _, same) ↦ subst IsSound (sym same) s
  ]
  perform-IsSound (move v) b s = kept-IsSound v b (transition_intake casefold v b) refl s

  -- Every call keeps a batch sound.
  pub run-IsSound : (cs : List Call) (b : BatchRecord) → IsSound b → IsSound (run cs b)
  run-IsSound [] b s = s
  run-IsSound (c ∷ cs) b s = run-IsSound cs (perform c b) (perform-IsSound c b s)

  kept_complete :
      (v : Value) (b : BatchRecord) (r : Result RecordError BatchRecord)
      → transition_intake casefold v b ≡ r
      → b.intake_status ≡ text "complete"
      → kept b r ≡ b
  kept_complete v b (ok b') h e =
      let m = transition_intake_ready casefold v b b' h in
      let stays : v ≡ b.intake_status =
        m.step.to_status
        ∙ complete_final m.step.source m.step.goal (sym m.step.from_status ∙ e) m.step.step
        ∙ sym e in
      m.result ∙ (λ i. with_intake b (stays i))
  kept_complete v b (err e') h e = refl

  add_complete :
      (d : DriveRecord) (b : BatchRecord)
      → b.intake_status ≡ text "complete"
      → (add_drive casefold d b).1 ≡ b
  unfolding add_drive
  add_complete d b e = rw (is_complete b.intake_status e)

  perform_complete :
      (c : Call) (b : BatchRecord) → b.intake_status ≡ text "complete" → perform c b ≡ b
  perform_complete (add d) b e = add_complete d b e
  perform_complete (move v) b e = kept_complete v b (transition_intake casefold v b) refl e

  -- A batch whose intake is complete stays exactly as it is, whatever is called.
  pub run_complete :
      (cs : List Call) (b : BatchRecord) → b.intake_status ≡ text "complete" → run cs b ≡ b
  run_complete [] b e = refl
  run_complete (c ∷ cs) b e =
      let same = perform_complete c b e in ap (run cs) same ∙ run_complete cs b e
