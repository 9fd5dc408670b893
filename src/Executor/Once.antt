-- ===== src/Executor/Once.antt =====
-- About histories of the store of authorizations.
use drive_sanitization_manag.Prelude.{
  ℕ, String, ◌≡◌, refl, sym, ap, subst, ◌∙◌, Bool, true, All, List, Option, none, some, any,
  any_imp, Result, ok, err, ◌==◌,
}
use drive_sanitization_manag.Platform.{Platform}
use drive_sanitization_manag.Platform.Laws.{Lawful}
use drive_sanitization_manag.Files.{Disk, Faults, Looked}
use drive_sanitization_manag.History.{granted, Clashless, granted-Clashless}
use drive_sanitization_manag.Store.Keeps.{returned-Changed, Keeps, Keeps-Written, Keeps-OpOutcome}
use drive_sanitization_manag.Tokens.{some_inj}
use drive_sanitization_manag.Executor.Record.{ExecutorAuthorizationRecord, state_authorized, layout}
use drive_sanitization_manag.Executor.Layout.{layout_laws}
use drive_sanitization_manag.Executor.Operations.{
  ExecutorError, Provenance, Identity, shares, reserved_record, authorize, reserve,
}
use drive_sanitization_manag.Executor.Steps.{
  Authorizes, Reserves, authorization_step, reservation_step,
}
use drive_sanitization_manag.Executor.Changes.{
  Authorizes-keep, Reserves-keep, has_reserved, reserved_stays, Authorizes-has, Authorizes-fresh,
  Reserves-reserved, Reserves-fresh,
}
use drive_sanitization_manag.Executor.Search.{
  Attribute, of_provenance, of_record, Overlap, has, is_reserved, has-shares,
}

-- One call of the store, with what the clock and the system answer.
pub data StoreCall : Type 0 where
  authorize_call : Provenance → List String → Option ℕ → Faults → StoreCall
  reserve_call : String → String → Identity → Option ℕ → Faults → StoreCall

abbrev pub if_ok : {A B D : Type 0} → B → Result ExecutorError A × D → Option B × D
if_ok b (ok a, d) = (some b, d)
if_ok b (err e, d) = (none, d)

abbrev pub drop_result : {A B D : Type 0} → Result ExecutorError A × D → Option B × D
drop_result (m, d) = (none, d)

if_ok-file : {A B D : Type 0} (b : B) (s : Result ExecutorError A × D) → (if_ok b s).1 ≡ s.1
if_ok-file b (ok a, d) = refl
if_ok-file b (err e, d) = refl

if_ok-some :
    {A B D : Type 0} (b c : B) (s : Result ExecutorError A × D)
    → (if_ok b s).0 ≡ some c
    → (a : A) × (s.0 ≡ ok a) × (b ≡ c)
if_ok-some b c (ok a, d) h = (a, refl, some_inj h)
if_ok-some b c (err e, d) h = cc

-- The authorizations find a store that is there.
abbrev pub FairCall : StoreCall → Type 0
FairCall (authorize_call v tokens clock f) = Looked f
FairCall (reserve_call id leased identity clock f) = Unit

module _ (p : Platform) (euid : ℕ) where
  open p use {Bytes}

  -- The provenance that a call authorizes.
  abbrev pub authorizing : StoreCall → Disk Bytes → Option Provenance × Disk Bytes
  authorizing (authorize_call v tokens clock f) d = if_ok v (authorize p euid v tokens clock f d)
  authorizing (reserve_call id leased identity clock f) d =
      drop_result (reserve p euid id leased identity clock f d)

  -- The id that a call reserves.
  abbrev pub reserving : StoreCall → Disk Bytes → Option String × Disk Bytes
  reserving (authorize_call v tokens clock f) d = drop_result (authorize p euid v tokens clock f d)
  reserving (reserve_call id leased identity clock f) d =
      if_ok id (reserve p euid id leased identity clock f d)

  module _ (law : Lawful p) where
    keep_authorize :
        (q : ExecutorAuthorizationRecord → Bool) (v : Provenance) (tokens : List String)
        (clock : Option ℕ) (f : Faults) (d : Disk Bytes)
        → Looked f
        → Keeps p euid (layout p) q d.file
        → Keeps p euid (layout p) q (authorize p euid v tokens clock f d).1.file
    keep_authorize q v tokens clock f d looked k =
        Keeps-OpOutcome p law euid (layout p) (layout_laws p) (Authorizes p euid v) q d.file
          (authorize p euid v tokens clock f d) (Authorizes-keep p euid v q)
          (authorization_step p euid v tokens clock f d looked) k

    keep_reserve :
        (q : ExecutorAuthorizationRecord → Bool)
        → ((e : ExecutorAuthorizationRecord) (now : ℕ)
            → e.state ≡ state_authorized
            → q e ≡ true
            → q (reserved_record p euid e now) ≡ true)
        → (id leased : String) (identity : Identity) (clock : Option ℕ) (f : Faults)
          (d : Disk Bytes)
        → Keeps p euid (layout p) q d.file
        → Keeps p euid (layout p) q (reserve p euid id leased identity clock f d).1.file
    keep_reserve q g id leased identity clock f d k =
        Keeps-OpOutcome p law euid (layout p) (layout_laws p) (Reserves p euid id) q d.file
          (reserve p euid id leased identity clock f d) (Reserves-keep p euid id q g)
          (reservation_step p euid id leased identity clock f d) k

    Given : Provenance → Disk Bytes → Type 0
    Given v d = (a : Attribute) → Keeps p euid (layout p) (has a v) d.file

    Given-keeps :
        (c : StoreCall) (d : Disk Bytes) (v : Provenance)
        → FairCall c
        → Given v d
        → Given v (authorizing c d).1
    unfolding Given
    Given-keeps (authorize_call w tokens clock f) d v fair g a =
        subst (λ (x : Disk Bytes). Keeps p euid (layout p) (has a v) x.file)
          (sym (if_ok-file w (authorize p euid w tokens clock f d)))
          (keep_authorize (has a v) w tokens clock f d fair (g a))
    Given-keeps (reserve_call id leased identity clock f) d v fair g a =
        keep_reserve (has a v) (λ e now s h. has_reserved p euid a v e now h) id leased identity
          clock f d (g a)

    Given-blocks :
        (c : StoreCall) (d : Disk Bytes) (v : Provenance)
        → FairCall c
        → (authorizing c d).0 ≡ some v
        → Given v (authorizing c d).1
    unfolding Given
    Given-blocks (authorize_call w tokens clock f) d v fair h a =
        let s = authorize p euid w tokens clock f d in
        let (r, returned, same) = if_ok-some w v s h in
        let c =
          returned-Changed p euid (layout p) (Authorizes p euid w) d.file s r returned
            (authorization_step p euid w tokens clock f d fair) in
        subst (λ (x : Disk Bytes). Keeps p euid (layout p) (has a v) x.file) (sym (if_ok-file w s))
          (subst (λ u. Keeps p euid (layout p) (has a u) s.1.file) same
            (Keeps-Written p law euid (layout p) (layout_laws p) (has a w) c.after s.1.file
              c.written (Authorizes-has p euid a w r c.before c.after c.change)))
    Given-blocks (reserve_call id leased identity clock f) d v fair h a = cc

    Given-refuses :
        (c : StoreCall) (d : Disk Bytes) (v w : Provenance)
        → FairCall c
        → Given v d
        → (authorizing c d).0 ≡ some w
        → ¬ Overlap v w
    unfolding Given
    Given-refuses (authorize_call u tokens clock f) d v w fair g h (a, common) =
        let s = authorize p euid u tokens clock f d in
        let (r, returned, same) = if_ok-some u w s h in
        let c =
          returned-Changed p euid (layout p) (Authorizes p euid u) d.file s r returned
            (authorization_step p euid u tokens clock f d fair) in
        let fresh = Authorizes-fresh p euid u r c.before c.after c.change in
        let found =
          any_imp (has a v) (shares u) c.before
            (λ e k. has-shares a u e (
              subst (λ t. (of_record a e == t) ≡ true) (common ∙ ap (of_provenance a) (sym same))
                k))
            (g a c.before c.was_stored) in
        cc
    Given-refuses (reserve_call id leased identity clock f) d v w fair g h o = cc

    -- Over any sequence of calls of the store, with any tokens and clocks, and whatever the file system
    -- answers, but for an authorization that does not find a store that is there, no two of the authorizations that are returned have a lease, a handoff, a gate or a
    -- binding in common.
    pub authorized_once :
        (calls : List StoreCall) (d : Disk Bytes)
        → All FairCall calls
        → Clashless authorizing Overlap (granted authorizing calls d)
    authorized_once calls d fair =
        granted-Clashless authorizing FairCall Overlap Given Given-keeps Given-blocks Given-refuses
          calls d fair

    Taken : String → Disk Bytes → Type 0
    Taken id d = Keeps p euid (layout p) (is_reserved id) d.file

    Taken-keeps :
        (c : StoreCall) (d : Disk Bytes) (id : String)
        → FairCall c
        → Taken id d
        → Taken id (reserving c d).1
    unfolding Taken
    Taken-keeps (authorize_call w tokens clock f) d id fair k =
        keep_authorize (is_reserved id) w tokens clock f d fair k
    Taken-keeps (reserve_call other leased identity clock f) d id fair k =
        subst (λ (x : Disk Bytes). Keeps p euid (layout p) (is_reserved id) x.file)
          (sym (if_ok-file other (reserve p euid other leased identity clock f d)))
          (keep_reserve (is_reserved id) (reserved_stays p euid id) other leased identity clock f d
            k)

    Taken-blocks :
        (c : StoreCall) (d : Disk Bytes) (id : String)
        → FairCall c
        → (reserving c d).0 ≡ some id
        → Taken id (reserving c d).1
    unfolding Taken
    Taken-blocks (authorize_call w tokens clock f) d id fair h = cc
    Taken-blocks (reserve_call other leased identity clock f) d id fair h =
        let s = reserve p euid other leased identity clock f d in
        let (r, returned, same) = if_ok-some other id s h in
        let c =
          returned-Changed p euid (layout p) (Reserves p euid other) d.file s r returned
            (reservation_step p euid other leased identity clock f d) in
        subst (λ (x : Disk Bytes). Keeps p euid (layout p) (is_reserved id) x.file)
          (sym (if_ok-file other s))
          (subst (λ t. Keeps p euid (layout p) (is_reserved t) s.1.file) same
            (Keeps-Written p law euid (layout p) (layout_laws p) (is_reserved other) c.after
              s.1.file c.written (Reserves-reserved p euid other r c.before c.after c.change)))

    Taken-refuses :
        (c : StoreCall) (d : Disk Bytes) (id other : String)
        → FairCall c
        → Taken id d
        → (reserving c d).0 ≡ some other
        → ¬ (id ≡ other)
    unfolding Taken
    Taken-refuses (authorize_call w tokens clock f) d id other fair k h same = cc
    Taken-refuses (reserve_call asked leased identity clock f) d id other fair k h same =
        let s = reserve p euid asked leased identity clock f d in
        let (r, returned, named) = if_ok-some asked other s h in
        let c =
          returned-Changed p euid (layout p) (Reserves p euid asked) d.file s r returned
            (reservation_step p euid asked leased identity clock f d) in
        let fresh = Reserves-fresh p euid asked r c.before c.after c.change in
        let found =
          subst (λ t. any (is_reserved t) c.before ≡ true) (same ∙ sym named)
            (k c.before c.was_stored) in
        let clash = sym found ∙ fresh in cc

    -- Over any sequence of calls of the store, whose authorizations find a store that is there, no
    -- authorization is reserved twice: the ids of the
    -- reservations that are returned are pairwise distinct.
    pub reserved_once :
        (calls : List StoreCall) (d : Disk Bytes)
        → All FairCall calls
        → Clashless reserving (λ i j. i ≡ j) (granted reserving calls d)
    reserved_once calls d fair =
        granted-Clashless reserving FairCall (λ i j. i ≡ j) Taken Taken-keeps Taken-blocks
          Taken-refuses calls d fair
