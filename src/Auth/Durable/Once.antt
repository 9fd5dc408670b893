-- ===== src/Auth/Durable/Once.antt =====
-- About sequences of durable calls on one journal, across processes and restarts.
use drive_sanitization_manag.Prelude.{
  ℕ, String, ◌≢◌, sym, subst, inl, inr, Option, List, [], ◌∷◌, ◌++◌, All, Result, ok, err,
}
use drive_sanitization_manag.Platform.{Platform}
use drive_sanitization_manag.Platform.Laws.{Lawful}
use drive_sanitization_manag.Files.{Looked, Disk, Stat}
use drive_sanitization_manag.Auth.Types.{OneShotExecutionGateDecision}
use drive_sanitization_manag.Auth.Gate.Once.{Distinct}
use drive_sanitization_manag.Auth.Journal.Steps.{reserving, Changed}
use drive_sanitization_manag.Auth.Journal.Blocked.{
  Blocked, not_Blocked, Blocked-reserved, Blocked-reserving, Blocked-completing, Blocked-releasing,
}
use drive_sanitization_manag.Auth.Durable.{DurableError, Call, Reply, satisfy_durable}
use drive_sanitization_manag.Auth.Durable.Outcome.{
  Branch, unbuilt, unreserved, restored, unrestored, incomplete, granted, satisfy_durable_branches,
}

abbrev pub returned :
    Result DurableError OneShotExecutionGateDecision → List OneShotExecutionGateDecision
returned (ok g) = g ∷ []
returned (err e) = []

module _ (p : Platform) (euid : ℕ) where
  open p use {Bytes}

  -- The gates that the calls return, one call after the other on the same disk. Each call has the
  -- registry of its own process.
  abbrev pub gates : List Call → Disk Bytes → List OneShotExecutionGateDecision
  gates [] d = []
  gates (c ∷ rest) d =
      let (result, d', r) = satisfy_durable p euid c d in returned result ++ gates rest d'

  -- A reply keeps what was blocked, and a gate is for an id that was not blocked and now is.
  record Safe (d : Disk Bytes) (s : Reply p euid) : Type 0 where
    keeps : (id : String) → Blocked p euid id d.file → Blocked p euid id s.1.file
    fresh : All (λ g. ¬ Blocked p euid g.binding_id d.file) (returned s.0)
    blocks : All (λ g. Blocked p euid g.binding_id s.1.file) (returned s.0)

  module _ (law : Lawful p) where
    distinct_ids :
        (other id : String) (old new : Option (Stat × Bytes))
        → Changed p euid reserving id old new
        → Blocked p euid other old
        → other ≢ id
    distinct_ids other id old new c b same =
        not_Blocked p euid id old new c (subst (λ s. Blocked p euid s old) same b)

    Branch-Safe : (c : Call) (d : Disk Bytes) (s : Reply p euid) → Branch p euid c d s → Safe d s
    Branch-Safe c d _ (unbuilt h) = record { keeps = λ id b. b; fresh = tt; blocks = tt }
    Branch-Safe c d _ (unreserved b d' h (inl same)) = record {
      keeps = λ id k. subst (Blocked p euid id) (sym same) k;
      fresh = tt;
      blocks = tt;
    }
    Branch-Safe c d _ (unreserved b d' h (inr change)) = record {
      keeps = λ id k. Blocked-reserving p euid law id b.binding_id d.file d'.file change k;
      fresh = tt;
      blocks = tt;
    }
    Branch-Safe c d _ (restored b kept d' h change back) = record {
      keeps = λ id k.
          Blocked-releasing p euid law id b.binding_id kept.file d'.file
            (distinct_ids id b.binding_id d.file kept.file change k) back
            (Blocked-reserving p euid law id b.binding_id d.file kept.file change k);
      fresh = tt;
      blocks = tt;
    }
    Branch-Safe c d _ (unrestored b kept d' h change (inl same)) = record {
      keeps = λ id k.
          subst (Blocked p euid id) (sym same)
            (Blocked-reserving p euid law id b.binding_id d.file kept.file change k);
      fresh = tt;
      blocks = tt;
    }
    Branch-Safe c d _ (unrestored b kept d' h change (inr back)) = record {
      keeps = λ id k.
          Blocked-releasing p euid law id b.binding_id kept.file d'.file
            (distinct_ids id b.binding_id d.file kept.file change k) back
            (Blocked-reserving p euid law id b.binding_id d.file kept.file change k);
      fresh = tt;
      blocks = tt;
    }
    Branch-Safe c d _ (incomplete b g kept d' r h change shown (inl same)) = record {
      keeps = λ id k.
          subst (Blocked p euid id) (sym same)
            (Blocked-reserving p euid law id b.binding_id d.file kept.file change k);
      fresh = tt;
      blocks = tt;
    }
    Branch-Safe c d _ (incomplete b g kept d' r h change shown (inr done)) = record {
      keeps = λ id k.
          Blocked-completing p euid law id b.binding_id kept.file d'.file done
            (Blocked-reserving p euid law id b.binding_id d.file kept.file change k);
      fresh = tt;
      blocks = tt;
    }
    Branch-Safe c d _ (granted b g kept d' r h named change shown done) = record {
      keeps = λ id k.
          Blocked-completing p euid law id b.binding_id kept.file d'.file done
            (Blocked-reserving p euid law id b.binding_id d.file kept.file change k);
      fresh = (
        λ k.
            not_Blocked p euid b.binding_id d.file kept.file change
              (subst (λ s. Blocked p euid s d.file) named k),
        tt,
      );
      blocks = (
        subst (λ s. Blocked p euid s d'.file) (sym named)
            (Blocked-completing p euid law b.binding_id b.binding_id kept.file d'.file done
              (Blocked-reserved p euid law b.binding_id d.file kept.file change)),
        tt,
      );
    }

    call-Safe :
        (c : Call) (d : Disk Bytes) → Looked c.reserve_faults → Safe d (satisfy_durable p euid c d)
    call-Safe c d looked = Branch-Safe c d _ (satisfy_durable_branches p euid c d looked)

    -- One more call before the others.
    never_cons :
        (id : String) (d : Disk Bytes) (s : Reply p euid) (gs : List OneShotExecutionGateDecision)
        → Safe d s
        → Blocked p euid id d.file
        → All (λ g. g.binding_id ≢ id) gs
        → All (λ g. g.binding_id ≢ id) (returned s.0 ++ gs)
    never_cons id d (ok g, d', r) gs safe b rest =
        (λ same. safe.fresh.0 (subst (λ s. Blocked p euid s d.file) (sym same) b), rest)
    never_cons id d (err e, d', r) gs safe b rest = rest

    Distinct-cons :
        (d : Disk Bytes) (s : Reply p euid) (gs : List OneShotExecutionGateDecision)
        → Safe d s
        → ((id : String) → Blocked p euid id s.1.file → All (λ g. g.binding_id ≢ id) gs)
        → Distinct gs
        → Distinct (returned s.0 ++ gs)
    Distinct-cons d (ok g, d', r) gs safe never rest = (never g.binding_id safe.blocks.0, rest)
    Distinct-cons d (err e, d', r) gs safe never rest = rest

    -- An id that the journal blocks is granted by none of the calls that follow, whichever
    -- processes make them: this holds of an id that is reserved, completed, or left behind by a call
    -- that was cut off. The reservations of the calls find a journal that is there.
    pub durable_replay :
        (calls : List Call) (d : Disk Bytes) (id : String)
        → All (λ c. Looked c.reserve_faults) calls
        → Blocked p euid id d.file
        → All (λ g. g.binding_id ≢ id) (gates calls d)
    durable_replay [] d id looked b = tt
    durable_replay (c ∷ rest) d id looked b =
        never_cons id d (satisfy_durable p euid c d) _ (call-Safe c d looked.0) b
          (durable_replay rest _ id looked.1 ((call-Safe c d looked.0).keeps id b))

    -- Over any sequence of durable calls on one journal, with a registry of any contents at each of
    -- them, as after restarts, and whatever the clocks and the file system answer, but for a
    -- reservation that does not find a journal that is there, no two of the gates that are returned have the same binding.
    pub durable_once :
        (calls : List Call) (d : Disk Bytes)
        → All (λ c. Looked c.reserve_faults) calls
        → Distinct (gates calls d)
    durable_once [] d looked = tt
    durable_once (c ∷ rest) d looked =
        Distinct-cons d (satisfy_durable p euid c d) _ (call-Safe c d looked.0)
          (λ id b. durable_replay rest _ id looked.1 b) (durable_once rest _ looked.1)
