-- ===== src/Executor/Search.antt =====
-- About searches in the entries of the store of authorizations, before and after its changes.
use drive_sanitization_manag.Prelude.{
  String, ◌≡◌, refl, sym, ap, subst, ◌∙◌, Bool, true, false, ◌&&◌, Bool-cases, inl, inr, List, [],
  ◌∷◌, some, any, or_true, or_rest, select_none, All, All-select, select_passes, ◌==◌, arith,
}
use drive_sanitization_manag.Tokens.{some_inj}
use drive_sanitization_manag.Executor.Record.{
  ExecutorAuthorizationRecord, state_authorized, state_reserved,
}
use drive_sanitization_manag.Executor.Operations.{Provenance, shares, matching, replaced, only_one}

-- What an authorization may be given for once.
pub data Attribute : Type 0 where
  lease handoff gate binding : Attribute

abbrev pub of_provenance : Attribute → Provenance → String
of_provenance lease v = v.lease_binding_id
of_provenance handoff v = v.handoff_id
of_provenance gate v = v.gate_id
of_provenance binding v = v.binding_id

abbrev pub of_record : Attribute → ExecutorAuthorizationRecord → String
of_record lease e = e.lease_binding_id
of_record handoff e = e.handoff_id
of_record gate e = e.gate_id
of_record binding e = e.binding_id

-- Two provenances have a lease, a handoff, a gate or a binding in common.
abbrev pub Overlap : Provenance → Provenance → Type 0
Overlap v w = (a : Attribute) × (of_provenance a v ≡ of_provenance a w)

abbrev pub has : Attribute → Provenance → ExecutorAuthorizationRecord → Bool
has a v e = of_record a e == of_provenance a v

abbrev pub is_reserved : String → ExecutorAuthorizationRecord → Bool
is_reserved id e = e.authorization_id == id && e.state == state_reserved

pub has-shares :
    (a : Attribute) (v : Provenance) (e : ExecutorAuthorizationRecord)
    → has a v e ≡ true
    → shares v e ≡ true
has-shares lease v e h = ground arith
has-shares handoff v e h = ground arith
has-shares gate v e h = ground arith
has-shares binding v e h = ground arith

-- The records of the id are all the one that was found.
abbrev pub Only : String → ExecutorAuthorizationRecord → List ExecutorAuthorizationRecord → Type 0
Only id e es = All (λ x. (x.authorization_id == id) ≡ true → x ≡ e) es

only_one-All :
    (es : List ExecutorAuthorizationRecord) (e : ExecutorAuthorizationRecord)
    → only_one es ≡ some e
    → All (λ x. x ≡ e) es
only_one-All [] e h = cc
only_one-All (x ∷ []) e h = (some_inj h, tt)
only_one-All (x ∷ y ∷ es) e h = cc

pub only_one-Only :
    (id : String) (es : List ExecutorAuthorizationRecord) (e : ExecutorAuthorizationRecord)
    → only_one (matching id es) ≡ some e
    → Only id e es
only_one-Only id es e h =
    All-select (λ x. x ≡ e) (λ x. x.authorization_id == id) es (only_one-All (matching id es) e h)

pub only_one-any :
    (id : String) (es : List ExecutorAuthorizationRecord) (e : ExecutorAuthorizationRecord)
    → only_one (matching id es) ≡ some e
    → any (λ x. x.authorization_id == id) es ≡ true
only_one-any id es e h = elim (Bool-cases (any (λ x. x.authorization_id == id) es)) [
  | inl found ↦ found
  | inr missing ↦
      let clash = sym h ∙ ap only_one (select_none (λ x. x.authorization_id == id) es missing) in cc
]

only_one_passes :
    (P : ExecutorAuthorizationRecord → Type 0) (es : List ExecutorAuthorizationRecord)
    (e : ExecutorAuthorizationRecord)
    → All P es
    → only_one es ≡ some e
    → P e
only_one_passes P [] e h k = cc
only_one_passes P (x ∷ []) e h k = subst P (some_inj k) h.0
only_one_passes P (x ∷ y ∷ es) e h k = cc

pub only_one_named :
    (id : String) (es : List ExecutorAuthorizationRecord) (e : ExecutorAuthorizationRecord)
    → only_one (matching id es) ≡ some e
    → (e.authorization_id == id) ≡ true
only_one_named id es e h =
    only_one_passes (λ x. (x.authorization_id == id) ≡ true) (matching id es) e
      (select_passes (λ x. x.authorization_id == id) es) h

-- A test that passes the new record if it passes the old one still passes something.
pub any-replaced :
    (q : ExecutorAuthorizationRecord → Bool) (id : String) (e f : ExecutorAuthorizationRecord)
    (es : List ExecutorAuthorizationRecord)
    → Only id e es
    → (q e ≡ true → q f ≡ true)
    → any q es ≡ true
    → any q (replaced id f es) ≡ true
any-replaced q id e f [] o g h = h
any-replaced q id e f (x ∷ es) o g h = elim (Bool-cases (x.authorization_id == id)) [
  | inl same ↦ elim (Bool-cases (q x)) [
    | inl passes ↦ rw (same, g (subst (λ y. q y ≡ true) (o.0 same) passes)) refl
    | inr fails ↦ rw (same, any-replaced q id e f es o.1 g (or_rest fails h)) (or_true (q f))
  ]
  | inr differs ↦ elim (Bool-cases (q x)) [
    | inl passes ↦ rw (differs, passes) refl
    | inr fails ↦ rw (differs, fails) (any-replaced q id e f es o.1 g (or_rest fails h))
  ]
]

-- The new record is there.
pub any-replaced_new :
    (q : ExecutorAuthorizationRecord → Bool) (id : String) (f : ExecutorAuthorizationRecord)
    (es : List ExecutorAuthorizationRecord)
    → any (λ x. x.authorization_id == id) es ≡ true
    → q f ≡ true
    → any q (replaced id f es) ≡ true
any-replaced_new q id f [] h g = cc
any-replaced_new q id f (x ∷ es) h g = elim (Bool-cases (x.authorization_id == id)) [
  | inl same ↦ rw (same, g) refl
  | inr differs ↦ rw (differs, any-replaced_new q id f es (or_rest differs h) g) (or_true (q x))
]

-- No record of the id is reserved while the one found is authorized.
pub none_reserved :
    (id : String) (e : ExecutorAuthorizationRecord) (es : List ExecutorAuthorizationRecord)
    → Only id e es
    → e.state ≡ state_authorized
    → any (is_reserved id) es ≡ false
none_reserved id e [] o s = refl
none_reserved id e (x ∷ es) o s = elim (Bool-cases (x.authorization_id == id)) [
  | inl same ↦
      rw (same, ap (λ y. y.state == state_reserved) (o.0 same), ap (λ t. t == state_reserved) s)
        (none_reserved id e es o.1 s)
  | inr differs ↦ rw differs (none_reserved id e es o.1 s)
]
