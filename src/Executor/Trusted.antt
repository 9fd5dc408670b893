-- ===== src/Executor/Trusted.antt =====
-- About `record_trusted_executor_authorization` and `reserve_executor_authorization`: what they ask for.
use drive_sanitization_manag.Prelude.{
  eq_iff, arith, ℕ, String, ◌≡◌, refl, sym, subst, Bool, true, false, ◌&&◌, Bool-cases, ◌⊎◌, inl,
  inr, List, ◌∷◌, Option, none, some, any, Result, ok, err, ◌>>=◌, >>=-eq-ok, >>-eq-ok, ok_inj,
  guard, guard-eq-ok, ◌==◌,
}
use drive_sanitization_manag.Platform.{Platform}
use drive_sanitization_manag.Files.{Disk, Faults, Looked}
use drive_sanitization_manag.Store.Keeps.{Changed, OpOutcome}
use drive_sanitization_manag.Executor.Record.{ExecutorAuthorizationRecord, layout}
use drive_sanitization_manag.Executor.Operations.{
  ExecutorError, handoff_mismatch, live_collision, lease_exit_failed, authorize,
}
use drive_sanitization_manag.Executor.Steps.{Authorizes, authorization_step}
use drive_sanitization_manag.Executor.Live.{
  Handoff, Scope, Live, provenance_of, latched, exit_error, exited_live, check_provenance,
  check_scope, record_within, record_trusted,
}
use drive_sanitization_manag.Executor.Proven.{Proven, check_provenance-eq-ok}

module _ (p : Platform) (euid : ℕ) where
  open p use {Bytes}

  check_scope-eq-ok :
      (h : Handoff) (exit_fails : Bool) (scope : Option Scope) (s : Scope)
      → check_scope p euid h exit_fails scope ≡ ok s
      → (scope ≡ some s)
        × ((s.identity.handoff_id == h.handoff_id
              && s.identity.target_binding_hash == h.target_binding_hash)
            ≡ true)
  check_scope-eq-ok h exit_fails none s k = cc
  check_scope-eq-ok h exit_fails (some t) s k =
      let (g, k₁) =
        >>-eq-ok
          (guard
            (t.identity.handoff_id == h.handoff_id
              && t.identity.target_binding_hash == h.target_binding_hash)
            (exit_error exit_fails handoff_mismatch))
          _ k in
      subst
        (λ x.
          (some t ≡ some x)
          × ((x.identity.handoff_id == h.handoff_id
                && x.identity.target_binding_hash == h.target_binding_hash)
              ≡ true))
        (ok_inj k₁) (refl, guard-eq-ok _ (exit_error exit_fails handoff_mismatch) g)

  -- An authorization: of a handoff whose gate was completed in the journal, for the lease whose scope
  -- shows the handoff's target; the record was added to the store, and its id is live for the lease.
  pub record Trusted (h : Handoff) (intact : Bool) (scope : Option Scope) (lease : ℕ) (f : Faults)
      (journal d : Disk Bytes) (live : Live) (r : ExecutorAuthorizationRecord) (d' : Disk Bytes)
      (live' : Live) : Type 0 where
    pub proven : Proven p euid h intact f journal
    pub within : Scope
    pub lease_scope : scope ≡ some within
    pub same_handoff : within.identity.handoff_id ≡ h.handoff_id
    pub same_target : within.identity.target_binding_hash ≡ h.target_binding_hash
    pub added :
        Changed p euid (layout p) (Authorizes p euid (provenance_of h within) r) d.file d'.file
    pub new_id : any (λ (x : String × ℕ). x.0 == r.authorization_id) live ≡ false
    pub latch : live' ≡ (r.authorization_id, lease) ∷ live

  -- An authorization that is returned, and one that raises: without effect on the live ids, or behind
  -- everything that it does, at the exit of the lease's scope.
  abbrev pub TrustedOutcome :
      Handoff
      → Bool
      → Option Scope
      → Bool
      → ℕ
      → Faults
      → Disk Bytes
      → Disk Bytes
      → Live
      → Result ExecutorError ExecutorAuthorizationRecord × Disk Bytes × Live
      → Type 0
  TrustedOutcome h intact scope exit_fails lease f journal d live s =
      ((r : ExecutorAuthorizationRecord) × (s.0 ≡ ok r)
        × (exit_fails ≡ false)
        × Trusted h intact scope lease f journal d live r s.1 s.2)
      ⊎ ((e : ExecutorError) × (s.0 ≡ err e)
          × ((s.2 ≡ live)
              ⊎ ((r : ExecutorAuthorizationRecord) × (e ≡ lease_exit_failed)
                  × (exit_fails ≡ true)
                  × Trusted h intact scope lease f journal d live r s.1 s.2)))

  latched-TrustedOutcome :
      (h : Handoff) (intact : Bool) (scope : Option Scope) (exit_fails : Bool) (lease : ℕ)
      (f : Faults) (journal d : Disk Bytes) (live : Live) (w : Scope)
      (s : Result ExecutorError ExecutorAuthorizationRecord × Disk Bytes)
      → Proven p euid h intact f journal
      → (scope ≡ some w)
      → ((w.identity.handoff_id == h.handoff_id
            && w.identity.target_binding_hash == h.target_binding_hash)
          ≡ true)
      → OpOutcome p euid (layout p) (Authorizes p euid (provenance_of h w)) d.file s
      → TrustedOutcome h intact scope exit_fails lease f journal d live
          (exited_live exit_fails (latched s lease live))
  latched-TrustedOutcome h intact scope exit_fails lease f journal d live w (err e, d') q same
        target o =
      inr (exit_error exit_fails e, refl, inl refl)
  latched-TrustedOutcome h intact scope exit_fails lease f journal d live w (ok r, d') q same target
        (inr (_, k, _)) =
      cc
  latched-TrustedOutcome h intact scope exit_fails lease f journal d live w (ok r, d') q same target
        (inl (a, k, c)) =
      elim (Bool-cases (any (λ (x : String × ℕ). x.0 == r.authorization_id) live)) [
        | inl taken ↦ rw taken (inr (exit_error exit_fails live_collision, refl, inl refl))
        | inr free ↦
            let named = eq_iff w.identity.handoff_id h.handoff_id in
            let aimed = eq_iff w.identity.target_binding_hash h.target_binding_hash in
            let shown : Trusted h intact scope lease f journal d live r d'
                ((r.authorization_id, lease) ∷ live) =
              record {
                proven = q;
                within = w;
                lease_scope = same;
                same_handoff = named.0 (ground arith);
                same_target = aimed.0 (ground arith);
                added =
                    subst
                      (λ x.
                        Changed p euid (layout p) (Authorizes p euid (provenance_of h w) x) d.file
                          d'.file)
                      (ok_inj (sym k)) c;
                new_id = free;
                latch = refl;
              } in
            elim (Bool-cases exit_fails) [
              | inr leaves ↦ rw (free, leaves) (inl (r, refl, refl, shown))
              | inl fails ↦
                  rw (free, fails) (inr (lease_exit_failed, refl, inr (r, refl, refl, shown)))
            ]
      ]

  record_within-TrustedOutcome :
      (h : Handoff) (intact : Bool) (scope : Option Scope) (exit_fails : Bool) (lease : ℕ)
      (tokens : List String) (clock : Option ℕ) (journal_faults f : Faults) (journal d : Disk Bytes)
      (live : Live) (m : Result ExecutorError Scope)
      → Looked f
      → (check_provenance p euid h intact journal_faults journal >>= λ _.
          check_scope p euid h exit_fails scope)
        ≡ m
      → TrustedOutcome h intact scope exit_fails lease journal_faults journal d live
          (record_within p euid m h exit_fails lease tokens clock f d live)
  record_within-TrustedOutcome h intact scope exit_fails lease tokens clock jf f journal d live
        (err e) looked k =
      inr (e, refl, inl refl)
  record_within-TrustedOutcome h intact scope exit_fails lease tokens clock jf f journal d live
        (ok w) looked k =
      let (u, checked, k₁) = >>=-eq-ok (check_provenance p euid h intact jf journal) _ k in
      let (same, target) = check_scope-eq-ok h exit_fails scope w k₁ in
      latched-TrustedOutcome h intact scope exit_fails lease jf journal d live w
        (authorize p euid (provenance_of h w) tokens clock f d)
        (check_provenance-eq-ok p euid h intact jf journal checked) same target
        (authorization_step p euid (provenance_of h w) tokens clock f d looked)

  -- record_trusted_executor_authorization, where its reading finds a store that is there, returns
  -- only for an intact handoff whose gate's journal has its valid, completed entry with the same
  -- hashes, and for a lease of the handoff's target; it has then added the record that it returns, of
  -- that provenance, and made the id of that record live for that lease. Where it raises, no id
  -- becomes live, unless it is the exit of the lease's scope that raises behind all of this.
  pub record_trusted-TrustedOutcome :
      (h : Handoff) (intact : Bool) (scope : Option Scope) (exit_fails : Bool) (lease : ℕ)
      (tokens : List String) (clock : Option ℕ) (journal_faults f : Faults) (journal d : Disk Bytes)
      (live : Live)
      → Looked f
      → TrustedOutcome h intact scope exit_fails lease journal_faults journal d live
          (record_trusted p euid h intact scope exit_fails lease tokens clock journal_faults f
            journal d live).0
  unfolding record_trusted
  record_trusted-TrustedOutcome h intact scope exit_fails lease tokens clock jf f journal d live
        looked =
      record_within-TrustedOutcome h intact scope exit_fails lease tokens clock jf f journal d live
        _ looked refl
