-- ===== src/Records/Guards/Steps.antt =====
-- The intake workflow as a state machine: the four stages, the steps between them, and `_transition`
-- read as that machine.
use drive_sanitization_manag.Prelude.{
  sym, ◌∙◌, >>-eq-ok, String, ◌≡◌, refl, ap, ◌⊎◌, Bool, true, false, Bool-cases, inl, inr, ok, err,
  arith, if◌then◌else◌, eq_iff, ◌==◌, guard-eq-ok, member,
}
use drive_sanitization_manag.Value.{Value, null, bool, int, text, arr, obj, opaque}
use drive_sanitization_manag.Records.Guards.{
  malformed, invalid_transition, intake_statuses, status, transition, transition_to,
}

pub data Stage : Type 0 where
  pending in_progress review_needed complete : Stage

abbrev pub stage_name : Stage → String
stage_name pending = "pending"
stage_name in_progress = "in_progress"
stage_name review_needed = "review_needed"
stage_name complete = "complete"

-- The steps of the workflow.
pub data Step : Stage → Stage → Type 0 where
  begin : Step pending in_progress
  flag : Step pending review_needed
  question : Step in_progress review_needed
  finish : Step in_progress complete
  resume : Step review_needed in_progress
  accept : Step review_needed complete

-- Whether the workflow may go from one stage to the other, itself included.
abbrev pub may_move : Stage → Stage → Bool
may_move pending pending = true
may_move pending in_progress = true
may_move pending review_needed = true
may_move pending complete = false
may_move in_progress in_progress = true
may_move in_progress review_needed = true
may_move in_progress complete = true
may_move in_progress pending = false
may_move review_needed review_needed = true
may_move review_needed in_progress = true
may_move review_needed complete = true
may_move review_needed pending = false
may_move complete complete = true
may_move complete _ = false

-- `may_move` decides the steps.
pub Step-of_may_move : (a b : Stage) → may_move a b ≡ true → (a ≡ b) ⊎ Step a b
Step-of_may_move pending pending h = inl refl
Step-of_may_move pending in_progress h = inr begin
Step-of_may_move pending review_needed h = inr flag
Step-of_may_move pending complete h = cc
Step-of_may_move in_progress pending h = cc
Step-of_may_move in_progress in_progress h = inl refl
Step-of_may_move in_progress review_needed h = inr question
Step-of_may_move in_progress complete h = inr finish
Step-of_may_move review_needed pending h = cc
Step-of_may_move review_needed in_progress h = inr resume
Step-of_may_move review_needed review_needed h = inl refl
Step-of_may_move review_needed complete h = inr accept
Step-of_may_move complete pending h = cc
Step-of_may_move complete in_progress h = cc
Step-of_may_move complete review_needed h = cc
Step-of_may_move complete complete h = inl refl

pub may_move_of_Step : {a b : Stage} → Step a b → may_move a b ≡ true
may_move_of_Step begin = refl
may_move_of_Step flag = refl
may_move_of_Step question = refl
may_move_of_Step finish = refl
may_move_of_Step resume = refl
may_move_of_Step accept = refl

-- Between named stages `_transition` moves exactly as the workflow may.
pub transition-stage_name :
    (a b : Stage)
    → transition (text (stage_name a)) (text (stage_name b))
      ≡ (if may_move a b then ok (text (stage_name b)) else err invalid_transition)
unfolding transition
transition-stage_name pending pending = refl
transition-stage_name pending in_progress = refl
transition-stage_name pending review_needed = refl
transition-stage_name pending complete = refl
transition-stage_name in_progress pending = refl
transition-stage_name in_progress in_progress = refl
transition-stage_name in_progress review_needed = refl
transition-stage_name in_progress complete = refl
transition-stage_name review_needed pending = refl
transition-stage_name review_needed in_progress = refl
transition-stage_name review_needed review_needed = refl
transition-stage_name review_needed complete = refl
transition-stage_name complete pending = refl
transition-stage_name complete in_progress = refl
transition-stage_name complete review_needed = refl
transition-stage_name complete complete = refl

stage_of_name :
    (s : String) → member s intake_statuses ≡ true → (a : Stage) × (text s ≡ text (stage_name a))
stage_of_name s h = elim (Bool-cases (s == "pending")) [
  | inl e ↦ (pending, ap text ((eq_iff s "pending").0 e))
  | inr not_pending ↦ elim (Bool-cases (s == "in_progress")) [
    | inl e ↦ (in_progress, ap text ((eq_iff s "in_progress").0 e))
    | inr not_in_progress ↦ elim (Bool-cases (s == "review_needed")) [
      | inl e ↦ (review_needed, ap text ((eq_iff s "review_needed").0 e))
      | inr not_review ↦ elim (Bool-cases (s == "complete")) [
        | inl e ↦ (complete, ap text ((eq_iff s "complete").0 e))
        | inr not_complete ↦ absurd (ground arith)
      ]
    ]
  ]
]

-- A status that the intake table holds is the name of a stage.
pub stage_of_status :
    (v : Value) → status v intake_statuses ≡ ok tt → (a : Stage) × (v ≡ text (stage_name a))
unfolding status
stage_of_status (text s) h = stage_of_name s (guard-eq-ok (member s intake_statuses) malformed h)
stage_of_status null h = cc
stage_of_status (bool b) h = cc
stage_of_status (int n) h = cc
stage_of_status (arr xs) h = cc
stage_of_status (obj fs) h = cc
stage_of_status (opaque n) h = cc

pub status-stage_name : (a : Stage) → status (text (stage_name a)) intake_statuses ≡ ok tt
unfolding status
status-stage_name pending = refl
status-stage_name in_progress = refl
status-stage_name review_needed = refl
status-stage_name complete = refl

-- What an accepted transition shows: both values name stages, with a step between them or none.
pub record Transition (current target result : Value) : Type 0 where
  pub source : Stage
  pub goal : Stage
  pub from_status : current ≡ text (stage_name source)
  pub to_status : target ≡ text (stage_name goal)
  pub step : (source ≡ goal) ⊎ Step source goal
  pub same : result ≡ target

Transition-of_if :
    (a b : Stage) (r : Value)
    → (if may_move a b then ok (text (stage_name b)) else err invalid_transition) ≡ ok r
    → Transition (text (stage_name a)) (text (stage_name b)) r
Transition-of_if a b r h = elim (Bool-cases (may_move a b)) [
  | inl m ↦ record {
    source = a;
    goal = b;
    from_status = refl;
    to_status = refl;
    step = Step-of_may_move a b m;
    same = ground (arith, m);
  }
  | inr m ↦ absurd (ground (arith, m))
]

pub transition-eq-ok :
    (current target result : Value)
    → status current intake_statuses ≡ ok tt
    → transition current target ≡ ok result
    → Transition current target result
unfolding transition
transition-eq-ok current target result valid h =
    let (named, _) = >>-eq-ok (status target intake_statuses) (transition_to current target) h in
    let (a, e) = stage_of_status current valid in
    let (b, f) = stage_of_status target named in
    rw (e, f) (Transition-of_if a b result (sym (transition-stage_name a b) ∙ (rw (e, f) at h)))
