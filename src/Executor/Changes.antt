-- ===== src/Executor/Changes.antt =====
-- About the changes of the store of authorizations: what they keep, and what they show.
use drive_sanitization_manag.Prelude.{
  ℕ, String, ◌≡◌, refl, ap, ◌∙◌, Bool, true, false, List, [], ◌∷◌, any, any-append, or_true, ◌==◌,
  eq_refl, arith,
}
use drive_sanitization_manag.Platform.{Platform}
use drive_sanitization_manag.Executor.Record.{
  ExecutorAuthorizationRecord, state_authorized, state_reserved,
}
use drive_sanitization_manag.Executor.Operations.{
  Provenance, shares, authorized_record, reserved_record,
}
use drive_sanitization_manag.Executor.Steps.{Authorizes, authorizes, Reserves, reserves}
use drive_sanitization_manag.Executor.Search.{
  Attribute, lease, handoff, gate, binding, has, is_reserved, only_one-Only, only_one-any,
  only_one_named, any-replaced, any-replaced_new, none_reserved,
}

module _ (p : Platform) (euid : ℕ) where
  open p use {Bytes}

  pub Authorizes-keep :
      (v : Provenance) (q : ExecutorAuthorizationRecord → Bool) (r : ExecutorAuthorizationRecord)
      (before after : List ExecutorAuthorizationRecord)
      → Authorizes p euid v r before after
      → any q before ≡ true
      → any q after ≡ true
  Authorizes-keep v q _ _ _ (authorizes id now es fresh new) h =
      any-append q es (authorized_record p euid v id now ∷ []) ∙ (rw h)

  pub Reserves-keep :
      (id : String) (q : ExecutorAuthorizationRecord → Bool)
      → ((e : ExecutorAuthorizationRecord) (now : ℕ)
          → e.state ≡ state_authorized
          → q e ≡ true
          → q (reserved_record p euid e now) ≡ true)
      → (r : ExecutorAuthorizationRecord) (before after : List ExecutorAuthorizationRecord)
      → Reserves p euid id r before after
      → any q before ≡ true
      → any q after ≡ true
  Reserves-keep id q g _ _ _ (reserves e now es found state) h =
      any-replaced q id e (reserved_record p euid e now) es (only_one-Only id es e found)
        (g e now state) h

  pub has_reserved :
      (a : Attribute) (v : Provenance) (e : ExecutorAuthorizationRecord) (now : ℕ)
      → has a v e ≡ true
      → has a v (reserved_record p euid e now) ≡ true
  has_reserved lease v e now h = h
  has_reserved handoff v e now h = h
  has_reserved gate v e now h = h
  has_reserved binding v e now h = h

  pub reserved_stays :
      (id : String) (e : ExecutorAuthorizationRecord) (now : ℕ)
      → e.state ≡ state_authorized
      → is_reserved id e ≡ true
      → is_reserved id (reserved_record p euid e now) ≡ true
  reserved_stays id e now s h = let clash = ap (λ t. t == state_reserved) s in ground arith

  pub has_new :
      (a : Attribute) (v : Provenance) (id : String) (now : ℕ)
      → has a v (authorized_record p euid v id now) ≡ true
  has_new lease v id now = eq_refl v.lease_binding_id
  has_new handoff v id now = eq_refl v.handoff_id
  has_new gate v id now = eq_refl v.gate_id
  has_new binding v id now = eq_refl v.binding_id

  pub Authorizes-has :
      (a : Attribute) (v : Provenance) (r : ExecutorAuthorizationRecord)
      (before after : List ExecutorAuthorizationRecord)
      → Authorizes p euid v r before after
      → any (has a v) after ≡ true
  Authorizes-has a v _ _ _ (authorizes id now es fresh new) =
      any-append (has a v) es (authorized_record p euid v id now ∷ [])
      ∙ (rw (has_new a v id now) (or_true (any (has a v) es)))

  pub Authorizes-fresh :
      (v : Provenance) (r : ExecutorAuthorizationRecord)
      (before after : List ExecutorAuthorizationRecord)
      → Authorizes p euid v r before after
      → any (shares v) before ≡ false
  Authorizes-fresh v _ _ _ (authorizes id now es fresh new) = fresh

  pub Reserves-reserved :
      (id : String) (r : ExecutorAuthorizationRecord)
      (before after : List ExecutorAuthorizationRecord)
      → Reserves p euid id r before after
      → any (is_reserved id) after ≡ true
  Reserves-reserved id _ _ _ (reserves e now es found state) =
      any-replaced_new (is_reserved id) id (reserved_record p euid e now) es
        (only_one-any id es e found) (rw (only_one_named id es e found) refl)

  pub Reserves-fresh :
      (id : String) (r : ExecutorAuthorizationRecord)
      (before after : List ExecutorAuthorizationRecord)
      → Reserves p euid id r before after
      → any (is_reserved id) before ≡ false
  Reserves-fresh id _ _ _ (reserves e now es found state) =
      none_reserved id e es (only_one-Only id es e found) state
