-- ===== src/Executor/Steps.antt =====
-- About the store of authorizations as a state machine: what `_authorize` and `_reserve` do to the
-- entries on the disk.
use Prim.Native.String.{◌++◌ as join}
use drive_sanitization_manag.Prelude.{
  ℕ, String, ◌≡◌, refl, sym, subst, ◌∙◌, Bool, true, false, ◌&&◌, not, inl, inr, List, [], ◌∷◌,
  ◌++◌, map, Option, none, some, any, Result, ok, err, >>=-eq-ok, >>-eq-ok, ok_inj, guard,
  guard-eq-ok, ◌==◌, eq_iff, arith, &&_right,
}
use drive_sanitization_manag.Platform.{Platform}
use drive_sanitization_manag.Files.{Disk, Faults, Looked}
use drive_sanitization_manag.Store.Atomic.{stored}
use drive_sanitization_manag.Store.Keeps.{OpOutcome, locked-OpOutcome, write_and-OpOutcome}
use drive_sanitization_manag.Tokens.{allocate, allocate-usable}
use drive_sanitization_manag.Executor.Record.{
  ExecutorAuthorizationRecord, state_authorized, record_valid, layout,
}
use drive_sanitization_manag.Executor.Operations.{
  ExecutorError, of_store, already_authorized, no_unique_id, clock_invalid, authorization_invalid,
  unknown_authorization, not_authorized, lease_mismatch, reservation_invalid, Provenance, Identity,
  same_identity, or_raise, shares, matching, replaced, only_one, fresh_id, authorized_record,
  reserved_record, new_authorization, add_record, authorize, new_reservation, replace_record,
  reserve,
}

or_raise-ok :
    {A : Type 0} (o : Option A) (e : ExecutorError) (a : A) → or_raise o e ≡ ok a → o ≡ some a
or_raise-ok none e a h = cc
or_raise-ok (some b) e a h = cc

refuted : (b : Bool) → not b ≡ true → b ≡ false
refuted b h = ground arith

module _ (p : Platform) (euid : ℕ) where
  open p use {Bytes}

  -- A record of the provenance is added, where no entry shares its lease, handoff, gate or binding.
  pub data Authorizes (v : Provenance)
      : ExecutorAuthorizationRecord
        → List ExecutorAuthorizationRecord
        → List ExecutorAuthorizationRecord
        → Type 0 where
    authorizes :
        (id : String) (now : ℕ) (es : List ExecutorAuthorizationRecord)
        → any (shares v) es ≡ false
        → any (λ e. e.authorization_id == id) es ≡ false
        → Authorizes v
            (authorized_record p euid v id now)
            es
            (es ++ authorized_record p euid v id now ∷ [])

  -- The one record of the id, authorized for this lease, is reserved.
  pub data Reserves (id : String)
      : ExecutorAuthorizationRecord
        → List ExecutorAuthorizationRecord
        → List ExecutorAuthorizationRecord
        → Type 0 where
    reserves :
        (e : ExecutorAuthorizationRecord) (now : ℕ) (es : List ExecutorAuthorizationRecord)
        → only_one (matching id es) ≡ some e
        → e.state ≡ state_authorized
        → Reserves id
            (reserved_record p euid e now)
            es
            (replaced id (reserved_record p euid e now) es)

  new_authorization-eq-ok :
      (v : Provenance) (tokens : List String) (clock : Option ℕ)
      (es : List ExecutorAuthorizationRecord) (r : ExecutorAuthorizationRecord)
      → new_authorization p euid v tokens clock es ≡ ok r
      → Authorizes v r es (es ++ r ∷ [])
  unfolding new_authorization
  new_authorization-eq-ok v tokens clock es r h =
      let (fresh, h₁) = >>-eq-ok (guard (not (any (shares v) es)) already_authorized) _ h in
      let (id, hid, h₂) =
        >>=-eq-ok
          (or_raise (allocate (fresh_id es) 8 (map (λ t. join "xeauth_" t) tokens)) no_unique_id) _
          h₁ in
      let (now, _, h₃) = >>=-eq-ok (or_raise clock clock_invalid) _ h₂ in
      let (_, h₄) =
        >>-eq-ok (guard (record_valid p (authorized_record p euid v id now)) authorization_invalid)
          _ h₃ in
      let usable = allocate-usable (fresh_id es) 8 _ id (or_raise-ok _ no_unique_id id hid) in
      subst (λ x. Authorizes v x es (es ++ x ∷ [])) (ok_inj h₄)
        (authorizes id now es (refuted _ (guard-eq-ok _ already_authorized fresh))
          (refuted _ (&&_right _ _ usable)))

  new_reservation-eq-ok :
      (id lease : String) (identity : Identity) (clock : Option ℕ)
      (es : List ExecutorAuthorizationRecord) (r : ExecutorAuthorizationRecord)
      → new_reservation p euid id lease identity clock es ≡ ok r
      → Reserves id r es (replaced id r es)
  unfolding new_reservation
  new_reservation-eq-ok id lease identity clock es r h =
      let (e, he, h₁) =
        >>=-eq-ok (or_raise (only_one (matching id es)) unknown_authorization) _ h in
      let (state, h₂) = >>-eq-ok (guard (e.state == state_authorized) not_authorized) _ h₁ in
      let (_, h₃) =
        >>-eq-ok (guard (e.lease_binding_id == lease && same_identity identity e) lease_mismatch) _
          h₂ in
      let (now, _, h₄) = >>=-eq-ok (or_raise clock clock_invalid) _ h₃ in
      let (_, h₅) =
        >>-eq-ok (guard (record_valid p (reserved_record p euid e now)) reservation_invalid) _ h₄ in
      subst (λ x. Reserves id x es (replaced id x es)) (ok_inj h₅)
        (reserves e now es (or_raise-ok _ unknown_authorization e he)
          ((eq_iff e.state state_authorized).0 (guard-eq-ok _ not_authorized state)))

  add_record-OpOutcome :
      (v : Provenance) (m : Result ExecutorError ExecutorAuthorizationRecord) (f : Faults)
      (es : List ExecutorAuthorizationRecord) (d : Disk Bytes)
      → ((r : ExecutorAuthorizationRecord) → m ≡ ok r → Authorizes v r es (es ++ r ∷ []))
      → stored p euid (layout p) d.file ≡ ok es
      → OpOutcome p euid (layout p) (Authorizes v) d.file (add_record p euid m f es d)
  add_record-OpOutcome v (err e) f es d h k = inr (e, refl, inl refl)
  add_record-OpOutcome v (ok r) f es d h k =
      write_and-OpOutcome p euid (layout p) of_store (Authorizes v) r f es (es ++ r ∷ []) d _ k
        (h r refl) (λ d'. refl) (λ d' a same. ok_inj (sym same))

  -- Where its reading finds a store that is there, an authorization that returns has added the record
  -- that it returns, of the provenance, where no stored entry shared its lease, handoff, gate or binding; one that raises has left the file as it was or made such
  -- a change.
  pub authorization_step :
      (v : Provenance) (tokens : List String) (clock : Option ℕ) (f : Faults) (d : Disk Bytes)
      → Looked f
      → OpOutcome p euid (layout p) (Authorizes v) d.file (authorize p euid v tokens clock f d)
  unfolding authorize
  authorization_step v tokens clock f d looked =
      locked-OpOutcome p euid (layout p) of_store (Authorizes v) _
        (λ es d₁ k.
          add_record-OpOutcome v (new_authorization p euid v tokens clock es) f es d₁
            (λ r h. new_authorization-eq-ok v tokens clock es r h) k)
        f d (λ blind d₁. let clash = sym looked ∙ blind in cc)

  replace_record-OpOutcome :
      (id : String) (m : Result ExecutorError ExecutorAuthorizationRecord) (f : Faults)
      (es : List ExecutorAuthorizationRecord) (d : Disk Bytes)
      → ((r : ExecutorAuthorizationRecord) → m ≡ ok r → Reserves id r es (replaced id r es))
      → stored p euid (layout p) d.file ≡ ok es
      → OpOutcome p euid (layout p) (Reserves id) d.file (replace_record p euid m id f es d)
  replace_record-OpOutcome id (err e) f es d h k = inr (e, refl, inl refl)
  replace_record-OpOutcome id (ok r) f es d h k =
      write_and-OpOutcome p euid (layout p) of_store (Reserves id) r f es (replaced id r es) d _ k
        (h r refl) (λ d'. refl) (λ d' a same. ok_inj (sym same))

  -- A reservation that returns has turned the one stored record of the id, which was authorized and
  -- not reserved, into its reserved form, which it returns, and left the others; one that raises has
  -- left the file as it was or made that same change.
  pub reservation_step :
      (id lease : String) (identity : Identity) (clock : Option ℕ) (f : Faults) (d : Disk Bytes)
      → OpOutcome p euid
          (layout p)
          (Reserves id)
          d.file
          (reserve p euid id lease identity clock f d)
  unfolding reserve new_reservation
  reservation_step id lease identity clock f d =
      locked-OpOutcome p euid (layout p) of_store (Reserves id) _
        (λ es d₁ k.
          replace_record-OpOutcome id (new_reservation p euid id lease identity clock es) f es d₁
            (λ r h. new_reservation-eq-ok id lease identity clock es r h) k)
        f d (λ blind d₁. inr (unknown_authorization, refl, inl refl))
