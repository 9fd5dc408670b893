-- ===== src/Records/Drive/Intake.antt =====
-- `DriveRecord.transition_intake`: the drive's workflow, and what it leaves alone.
use drive_sanitization_manag.Prelude.{
  String, ◌≡◌, subst, refl, ap, ok, err, >>=-eq-ok, ok_inj, >>-eq-ok, bind-if, ◌==◌, arith,
  if◌then◌else◌, sym, ◌∙◌, inl, inr, Bool-cases,
}
use drive_sanitization_manag.Value.{Value, text, Fields, end, field, set_field}
use drive_sanitization_manag.Records.Guards.{invalid_transition, transition, optional_text}
use drive_sanitization_manag.Records.Guards.Steps.{
  Stage, Transition, transition-eq-ok, stage_name, may_move, transition-stage_name, stage_of_status,
  status-stage_name,
}
use drive_sanitization_manag.Records.Drive.{
  DriveRecord, is_text_field, asdict, check_texts, validate, transition_intake,
}
use drive_sanitization_manag.Records.Drive.Validity.{
  IsValid, IsValid-of_validate, validate_of_IsValid,
}

-- The drive with another intake status.
abbrev pub with_intake : DriveRecord → Value → DriveRecord
with_intake d v = record d { intake_status = v }

check_texts-set_field :
    (k : String) (v : Value) (fs : Fields)
    → optional_text v ≡ ok tt
    → check_texts fs ≡ ok tt
    → check_texts (set_field k v fs) ≡ ok tt
check_texts-set_field k v end o h = rw o (ground arith)
check_texts-set_field k v (field j w fs) o h =
    let (first, rest) =
      >>-eq-ok (if is_text_field j then optional_text w else ok tt) (check_texts fs) h in
    elim (Bool-cases (j == k)) [
      | inl e ↦ rw (e, o, rest) (ground arith)
      | inr e ↦ rw (e, first, check_texts-set_field k v fs o rest)
    ]

-- The intake status of a valid drive may be any other of the table.
pub with_intake-IsValid :
    (d : DriveRecord) (a : Stage) → IsValid d → IsValid (with_intake d (text (stage_name a)))
unfolding optional_text
with_intake-IsValid d a v = record {
  internal_record_id = v.internal_record_id;
  batch_job_id = v.batch_job_id;
  capacity_bytes = v.capacity_bytes;
  mounted = v.mounted;
  system_protected = v.system_protected;
  verification_required = v.verification_required;
  texts = check_texts-set_field "intake_status" (text (stage_name a)) (asdict d) refl v.texts;
  eligibility = v.eligibility;
  sanitization = v.sanitization;
  verification = v.verification;
  final = v.final;
  intake = status-stage_name a;
  measurements = v.measurements;
  hashes = v.hashes;
}

-- From one stage to another, the call moves the intake status exactly as the workflow may.
transition_intake_at :
    (d : DriveRecord) (a b : Stage)
    → validate d ≡ ok tt
    → d.intake_status ≡ text (stage_name a)
    → transition_intake d (text (stage_name b))
      ≡ (if may_move a b then ok (with_intake d (text (stage_name b))) else err invalid_transition)
unfolding transition_intake
transition_intake_at d a b v e =
    simp (v, e, transition-stage_name a b)
      (bind-if (may_move a b) (text (stage_name b)) invalid_transition (λ s. ok (with_intake d s)))

-- A valid drive stands at a stage of the workflow, and a transition to any stage returns the drive
-- with that intake status and every other field as it was, if the workflow may go there, and
-- raises InvalidStatusTransitionError if not.
pub transition_intake_exact :
    (d : DriveRecord) (b : Stage)
    → validate d ≡ ok tt
    → (a : Stage) × (d.intake_status ≡ text (stage_name a))
      × (transition_intake d (text (stage_name b)) ≡ (
          if may_move a b
          then ok (with_intake d (text (stage_name b)))
          else err invalid_transition))
transition_intake_exact d b v =
    let (a, e) = stage_of_status d.intake_status (IsValid-of_validate d v).intake in
    (a, e, transition_intake_at d a b v e)

-- What an accepted transition shows.
pub record Moved (d : DriveRecord) (s : Value) (d' : DriveRecord) : Type 0 where
  pub step : Transition d.intake_status s d'.intake_status
  pub result : d' ≡ with_intake d s
  pub valid : validate d' ≡ ok tt

-- Whatever value is asked for, an accepted transition goes along a step of the workflow (or stays),
-- changes the intake status alone, and leaves a valid drive.
pub transition_intake_sound :
    (d : DriveRecord) (s : Value) (d' : DriveRecord) → transition_intake d s ≡ ok d' → Moved d s d'
unfolding transition_intake
transition_intake_sound d s d' h =
    let (v, h₁) = >>-eq-ok (validate d) _ h in
    let (m, h₂, h₃) = >>=-eq-ok (transition d.intake_status s) _ h₁ in
    let t = transition-eq-ok d.intake_status s m (IsValid-of_validate d v).intake h₂ in
    let moved : d' ≡ with_intake d m = sym (ok_inj h₃) in
    record {
      step = subst (λ x. Transition d.intake_status s x.intake_status) (sym moved) t;
      result = moved ∙ ap (with_intake d) t.same;
      valid =
          subst (λ x. validate x ≡ ok tt) (sym (moved ∙ ap (with_intake d) (t.same ∙ t.to_status)))
            (validate_of_IsValid _ (with_intake-IsValid d t.goal (IsValid-of_validate d v)));
    }
