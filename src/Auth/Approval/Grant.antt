-- ===== src/Auth/Approval/Grant.antt =====
-- About `record_human_approval`: what an approval shows, and what a refusal leaves.
use drive_sanitization_manag.Prelude.{
  ℕ, &&_right, if◌then◌else◌, ◌+◌, ◌≤◌, String, ◌≡◌, refl, subst, Bool, true, false, not, ◌⊎◌, inl,
  inr, Option, none, some, List, ◌∷◌, Result, ok, err, >>=-eq-ok, >>-eq-ok, ok_inj, guard,
  guard-eq-ok, member, ltb, ◌==◌, arith,
}
use drive_sanitization_manag.Platform.{Platform, parse_utc}
use drive_sanitization_manag.Tokens.{allocate, is_some, allocate-usable}
use drive_sanitization_manag.Auth.Text.{approval_text}
use drive_sanitization_manag.Auth.Types.{ApprovalChallenge, HumanApprovalEvidence}
use drive_sanitization_manag.Auth.Gate.{ApprovalRegistry, max_future_skew}
use drive_sanitization_manag.Auth.Approval.{
  ApprovalError, challenge_id_invalid, challenge_unknown, already_approved, clock_invalid,
  timestamps_invalid, clock_behind, challenge_expired, no_token, or_raise, usable, max_attempts,
  with_approval, challenge_valid, evidence_for, approve, record_human_approval,
}

or_raise-ok :
    {A : Type 0} (o : Option A) (e : ApprovalError) (a : A) → or_raise o e ≡ ok a → o ≡ some a
or_raise-ok none e a h = cc
or_raise-ok (some b) e a h = cc

at_least : (a b : ℕ) → not (ltb a b) ≡ true → b ≤ a
at_least a b h = ground arith

refuted : (b : Bool) → not b ≡ true → b ≡ false
refuted b h = ground arith

is_some-false : {A : Type 0} (o : Option A) → is_some o ≡ false → o ≡ none
is_some-false none h = refl
is_some-false (some a) h = cc

usable-none :
    (r : ApprovalRegistry) (t : String)
    → usable "appr_" (λ s. is_some (r.approvals s)) t ≡ true
    → r.approvals t ≡ none
usable-none r t h = is_some-false (r.approvals t) (refuted _ (&&_right _ _ h))

module _ (p : Platform) where
  -- An approval: of an intact challenge of the registry that was not approved before, at a moment of
  -- the clock no later than its expiry and at most the permitted skew before its creation, with
  -- evidence of the challenge under an id that no approval had.
  pub record Approved (challenge_id : String) (clock : Option ℕ) (r : ApprovalRegistry)
      (v : HumanApprovalEvidence) : Type 0 where
    pub challenge : ApprovalChallenge
    pub created : ℕ
    pub until : ℕ
    pub now : ℕ
    pub registered : r.challenges challenge_id ≡ some challenge
    pub intact : challenge_valid p challenge ≡ true
    pub unapproved : member challenge_id r.approved_challenges ≡ false
    pub clock_read : clock ≡ some now
    pub created_at : parse_utc p challenge.created_at_utc ≡ some created
    pub valid_until : parse_utc p challenge.valid_until_utc ≡ some until
    pub no_rollback : created ≤ now + max_future_skew
    pub in_time : now ≤ until
    pub unused : r.approvals v.approval_id ≡ none
    pub evidence : v ≡ evidence_for p challenge v.approval_id now

  approve-Approved :
      (id : String) (clock : Option ℕ) (tokens : List String) (r : ApprovalRegistry)
      (v : HumanApprovalEvidence)
      → approve p id clock tokens r ≡ ok v
      → Approved id clock r v
  unfolding approve
  approve-Approved id clock tokens r v h =
      let good = usable "appr_" (λ t. is_some (r.approvals t)) in
      let (_, h₁) = >>-eq-ok (guard (approval_text id) challenge_id_invalid) _ h in
      let (c, hc, h₂) = >>=-eq-ok (or_raise (r.challenges id) challenge_unknown) _ h₁ in
      let (whole, h₃) = >>-eq-ok (guard (challenge_valid p c) challenge_unknown) _ h₂ in
      let (new, h₄) =
        >>-eq-ok (guard (not (member id r.approved_challenges)) already_approved) _ h₃ in
      let (n, hn, h₅) = >>=-eq-ok (or_raise clock clock_invalid) _ h₄ in
      let (t, ht, h₆) =
        >>=-eq-ok (or_raise (parse_utc p c.created_at_utc) timestamps_invalid) _ h₅ in
      let (u, hu, h₇) =
        >>=-eq-ok (or_raise (parse_utc p c.valid_until_utc) timestamps_invalid) _ h₆ in
      let (back, h₈) = >>-eq-ok (guard (not (ltb (n + max_future_skew) t)) clock_behind) _ h₇ in
      let (time, h₉) = >>-eq-ok (guard (not (ltb u n)) challenge_expired) _ h₈ in
      let (a, ha, h₁₀) = >>=-eq-ok (or_raise (allocate good max_attempts tokens) no_token) _ h₉ in
      subst (Approved id clock r) (ok_inj h₁₀) (record {
        challenge = c;
        created = t;
        until = u;
        now = n;
        registered = or_raise-ok _ _ c hc;
        intact = guard-eq-ok _ challenge_unknown whole;
        unapproved = refuted _ (guard-eq-ok _ already_approved new);
        clock_read = or_raise-ok clock _ n hn;
        created_at = or_raise-ok _ _ t ht;
        valid_until = or_raise-ok _ _ u hu;
        no_rollback = at_least _ _ (guard-eq-ok _ clock_behind back);
        in_time = at_least _ _ (guard-eq-ok _ challenge_expired time);
        unused =
            usable-none r a
              (allocate-usable good max_attempts tokens a (or_raise-ok _ no_token a ha));
        evidence = refl;
      })

  abbrev pub ApprovalOutcome :
      String
      → Option ℕ
      → ApprovalRegistry
      → Result ApprovalError HumanApprovalEvidence × ApprovalRegistry
      → Type 0
  ApprovalOutcome id clock r s =
      ((v : HumanApprovalEvidence) × (s.0 ≡ ok v)
        × Approved id clock r v
        × (s.1 ≡ record r {
          approvals = λ i. if i == v.approval_id then some v else r.approvals i;
          approved_challenges = id ∷ r.approved_challenges;
        }))
      ⊎ ((e : ApprovalError) × (s.0 ≡ err e) × (s.1 ≡ r))

  with_approval-ApprovalOutcome :
      (id : String) (clock : Option ℕ) (tokens : List String) (r : ApprovalRegistry)
      (m : Result ApprovalError HumanApprovalEvidence)
      → approve p id clock tokens r ≡ m
      → ApprovalOutcome id clock r (with_approval m id r)
  with_approval-ApprovalOutcome id clock tokens r (err e) h = inr (e, refl, refl)
  with_approval-ApprovalOutcome id clock tokens r (ok v) h =
      inl (v, refl, approve-Approved id clock tokens r v h, refl)

  -- record_human_approval either records evidence of an intact, unexpired, unapproved challenge of the
  -- registry, under an id that no approval had, and marks the challenge, with no other change of the
  -- registry, or raises and leaves the registry as it was.
  pub record_human_approval-ApprovalOutcome :
      (id : String) (clock : Option ℕ) (tokens : List String) (r : ApprovalRegistry)
      → ApprovalOutcome id clock r (record_human_approval p id clock tokens r)
  unfolding record_human_approval
  record_human_approval-ApprovalOutcome id clock tokens r =
      with_approval-ApprovalOutcome id clock tokens r (approve p id clock tokens r) refl
