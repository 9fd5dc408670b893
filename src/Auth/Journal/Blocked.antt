-- ===== src/Auth/Journal/Blocked.antt =====
-- A binding id that the journal holds, and the changes that keep it there.
use drive_sanitization_manag.Prelude.{
  ℕ, String, ◌≡◌, ◌≢◌, refl, sym, ap, subst, ◌∙◌, Bool, true, false, ◌||◌, Bool-cases, inl, inr,
  List, [], ◌∷◌, Option, none, some, any-append, All, ok, ◌==◌, arith, eq_iff, eq_refl,
  if◌then◌else◌,
}
use drive_sanitization_manag.Platform.{Platform}
use drive_sanitization_manag.Platform.Laws.{Lawful}
use drive_sanitization_manag.Sort.{any-sort}
use drive_sanitization_manag.Files.{Stat}
use drive_sanitization_manag.Auth.Types.{DurableExecutionGateJournalEntry}
use drive_sanitization_manag.Auth.Journal.{state_reserved}
use drive_sanitization_manag.Auth.Journal.Store.{id_key}
use drive_sanitization_manag.Auth.Journal.Operations.{
  contains, matching, without, replaced, only_reserved, completed_entry,
}
use drive_sanitization_manag.Auth.Journal.Atomic.{stored, Written, stored-Written}
use drive_sanitization_manag.Auth.Journal.Steps.{
  reserving, releasing, completing, Change, reserved, released, completed, Changed,
}

matching_named :
    (id : String) (es : List DurableExecutionGateJournalEntry)
    → All (λ e. (e.binding_id == id) ≡ true) (matching id es)
matching_named id [] = tt
matching_named id (e ∷ es) = elim (Bool-cases (e.binding_id == id)) [
  | inl same ↦ rw same (same, matching_named id es)
  | inr differs ↦ rw differs (matching_named id es)
]

pub chosen :
    (b : Bool) (x e : DurableExecutionGateJournalEntry)
    → (if b then some x else none) ≡ some e
    → (b ≡ true) × (x ≡ e)
chosen true x e h = (refl, cc)
chosen false x e h = cc

only_reserved-All :
    (P : DurableExecutionGateJournalEntry → Type 0) (es : List DurableExecutionGateJournalEntry)
    (e : DurableExecutionGateJournalEntry)
    → All P es
    → only_reserved es ≡ some e
    → P e × (e.state ≡ state_reserved)
only_reserved-All P [] e h k = cc
only_reserved-All P (x ∷ []) e h k =
    let (reserved_state, same) = chosen (x.state == state_reserved) x e k in
    (
      subst P same h.0,
      ap (λ y. y.state) (sym same) ∙ (eq_iff x.state state_reserved).0 reserved_state,
    )
only_reserved-All P (x ∷ y ∷ es) e h k = cc

-- The reservation that an operation finds has the id, and is reserved.
pub only_reserved_named :
    (id : String) (es : List DurableExecutionGateJournalEntry)
    (e : DurableExecutionGateJournalEntry)
    → only_reserved (matching id es) ≡ some e
    → (e.binding_id ≡ id) × (e.state ≡ state_reserved)
only_reserved_named id es e h =
    let (same, state) =
      only_reserved-All (λ x. (x.binding_id == id) ≡ true) (matching id es) e (matching_named id es)
        h in
    ((eq_iff e.binding_id id).0 same, state)

differ : (s t : String) → s ≢ t → (s == t) ≡ false
differ s t n = elim (Bool-cases (s == t)) [
  | inl same ↦ absurd (n ((eq_iff s t).0 same))
  | inr e ↦ e
]

or_right : {a b : Bool} → a ≡ false → (a || b) ≡ true → b ≡ true
or_right {a} {b} h k = ground arith

contains-without :
    (other id : String) (es : List DurableExecutionGateJournalEntry)
    → other ≢ id
    → contains other es ≡ true
    → contains other (without id es) ≡ true
contains-without other id [] n h = h
contains-without other id (e ∷ es) n h = elim (Bool-cases (e.binding_id == id)) [
  | inl same ↦
      let elsewhere =
        differ e.binding_id other (λ q. n (sym q ∙ (eq_iff e.binding_id id).0 same)) in
      rw same (contains-without other id es n (or_right elsewhere h))
  | inr differs ↦ elim (Bool-cases (e.binding_id == other)) [
    | inl here ↦ rw (differs, here) refl
    | inr there ↦ rw (differs, there) (contains-without other id es n (or_right there h))
  ]
]

contains-replaced :
    (other id : String) (f : DurableExecutionGateJournalEntry)
    (es : List DurableExecutionGateJournalEntry)
    → f.binding_id ≡ id
    → contains other (replaced id f es) ≡ contains other es
contains-replaced other id f [] n = refl
contains-replaced other id f (e ∷ es) n = elim (Bool-cases (e.binding_id == id)) [
  | inl same ↦ rw same (
      ap (λ s. s == other || contains other (replaced id f es))
        (n ∙ sym ((eq_iff e.binding_id id).0 same))
      ∙ ap (λ b. e.binding_id == other || b) (contains-replaced other id f es n))
  | inr differs ↦
      rw differs (ap (λ b. e.binding_id == other || b) (contains-replaced other id f es n))
]

module _ (p : Platform) (euid : ℕ) where
  open p use {Bytes}

  -- Whoever reads the journal, if anyone can, finds an entry with this binding id.
  abbrev pub Blocked : String → Option (Stat × Bytes) → Type 0
  Blocked id file =
      (es : List DurableExecutionGateJournalEntry)
      → stored p euid file ≡ ok es
      → contains id es ≡ true

  keep_reserving :
      (other id : String) (before after : List DurableExecutionGateJournalEntry)
      → Change p euid reserving id before after
      → contains other before ≡ true
      → contains other after ≡ true
  keep_reserving other _ _ _ (reserved e es fresh) h =
      any-append (λ x. x.binding_id == other) es (e ∷ []) ∙ (rw h)

  keep_completing :
      (other id : String) (before after : List DurableExecutionGateJournalEntry)
      → Change p euid completing id before after
      → contains other before ≡ true
      → contains other after ≡ true
  keep_completing other _ _ _ (completed id e g es found agree) h =
      contains-replaced other id (completed_entry p euid e g) es
        (only_reserved_named id es e found).0
      ∙ h

  keep_releasing :
      (other id : String) (before after : List DurableExecutionGateJournalEntry)
      → other ≢ id
      → Change p euid releasing id before after
      → contains other before ≡ true
      → contains other after ≡ true
  keep_releasing other _ _ _ n (released id e es found) h = contains-without other id es n h

  -- The id of a reservation is not in the entries before it, and is afterwards.
  fresh_reserving :
      (id : String) (before after : List DurableExecutionGateJournalEntry)
      → Change p euid reserving id before after
      → contains id before ≡ false
  fresh_reserving _ _ _ (reserved e es fresh) = fresh

  contains-reserving :
      (id : String) (before after : List DurableExecutionGateJournalEntry)
      → Change p euid reserving id before after
      → contains id after ≡ true
  contains-reserving _ _ _ (reserved e es fresh) =
      any-append (λ x. x.binding_id == e.binding_id) es (e ∷ [])
      ∙ (rw (fresh, eq_refl e.binding_id))

  Blocked-Written :
      Lawful p
      → (id : String) (es : List DurableExecutionGateJournalEntry) (file : Option (Stat × Bytes))
      → Written p euid es file
      → contains id es ≡ true
      → Blocked id file
  Blocked-Written law id es file w h fs read =
      ap (contains id) (stored-Written p euid law es fs file w read)
      ∙ any-sort id_key (λ x. x.binding_id == id) es
      ∙ h

  -- A reservation is of an id that the journal did not block.
  pub not_Blocked :
      (id : String) (old new : Option (Stat × Bytes))
      → Changed p euid reserving id old new
      → ¬ Blocked id old
  not_Blocked id old new c b =
      let h = fresh_reserving id c.before c.after c.change in let k = b c.before c.was_stored in cc

  module _ (law : Lawful p) where
    pub Blocked-reserved :
        (id : String) (old new : Option (Stat × Bytes))
        → Changed p euid reserving id old new
        → Blocked id new
    Blocked-reserved id old new c =
        Blocked-Written law id c.after new c.written
          (contains-reserving id c.before c.after c.change)

    pub Blocked-reserving :
        (other id : String) (old new : Option (Stat × Bytes))
        → Changed p euid reserving id old new
        → Blocked other old
        → Blocked other new
    Blocked-reserving other id old new c b =
        Blocked-Written law other c.after new c.written
          (keep_reserving other id c.before c.after c.change (b c.before c.was_stored))

    pub Blocked-completing :
        (other id : String) (old new : Option (Stat × Bytes))
        → Changed p euid completing id old new
        → Blocked other old
        → Blocked other new
    Blocked-completing other id old new c b =
        Blocked-Written law other c.after new c.written
          (keep_completing other id c.before c.after c.change (b c.before c.was_stored))

    pub Blocked-releasing :
        (other id : String) (old new : Option (Stat × Bytes))
        → other ≢ id
        → Changed p euid releasing id old new
        → Blocked other old
        → Blocked other new
    Blocked-releasing other id old new n c b =
        Blocked-Written law other c.after new c.written
          (keep_releasing other id c.before c.after n c.change (b c.before c.was_stored))
