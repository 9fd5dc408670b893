-- ===== src/Auth/Durable/Concurrent.antt =====
-- Durable calls of several processes at once. Each holds the lock of the journal for one operation
-- at a time, so that the operations of different calls may come in any order; a process may also
-- stop at any point.
use drive_sanitization_manag.Prelude.{
  ℕ, String, ◌≡◌, ◌≢◌, sym, subst, inl, inr, Option, none, some, List, [], ◌∷◌, All, Result, ok,
  err,
}
use drive_sanitization_manag.Platform.{Platform}
use drive_sanitization_manag.Platform.Laws.{Lawful}
use drive_sanitization_manag.Files.{Looked, Disk, Faults, Stat}
use drive_sanitization_manag.Auth.Types.{
  TrustedExecutionBindingDecision, OneShotExecutionGateDecision, DurableExecutionGateJournalEntry,
}
use drive_sanitization_manag.Auth.Journal.{JournalError}
use drive_sanitization_manag.Auth.Journal.Operations.{reserve, rollback, complete}
use drive_sanitization_manag.Auth.Journal.Steps.{
  Operation, reserving, releasing, completing, Changed, OpOutcome, reserve_step, rollback_step,
  complete_step,
}
use drive_sanitization_manag.Auth.Journal.Blocked.{
  Blocked, Blocked-reserving, Blocked-completing, Blocked-releasing,
}

-- A call behind its reservation: its binding id, and its gate once it is granted.
pub record Claim : Type 0 where
  pub id : String
  pub gate : Option OneShotExecutionGateDecision

-- The claim is one of the first list, and the second has the others.
pub data Out : Claim → List Claim → List Claim → Type 0 where
  here : (c : Claim) (cs : List Claim) → Out c (c ∷ cs) cs
  there : (c x : Claim) (cs rest : List Claim) → Out c cs rest → Out c (x ∷ cs) (x ∷ rest)

abbrev pub Apart : List Claim → Type 0
Apart [] = Unit
Apart (c ∷ cs) = All (λ x. x.id ≢ c.id) cs × Apart cs

-- A gate that was granted is for the binding of its claim.
abbrev pub Names : Claim → Type 0
Names c = (g : OneShotExecutionGateDecision) → c.gate ≡ some g → g.binding_id ≡ c.id

abbrev pub pending : String → Claim
pending id = record { id = id; gate = none }

abbrev pub given : String → OneShotExecutionGateDecision → Claim
given id g = record { id = id; gate = some g }

pub All-Out :
    (P : Claim → Type 0) (c : Claim) (cs rest : List Claim)
    → Out c cs rest
    → All P cs
    → P c × All P rest
All-Out P _ _ _ (here c cs) h = (h.0, h.1)
All-Out P _ _ _ (there c x cs rest o) h =
    let (first, others) = All-Out P c cs rest o h.1 in (first, (h.0, others))

pub Apart-Out :
    (c : Claim) (cs rest : List Claim)
    → Out c cs rest
    → Apart cs
    → All (λ x. x.id ≢ c.id) rest × Apart rest
Apart-Out _ _ _ (here c cs) h = h
Apart-Out _ _ _ (there c x cs rest o) h =
    let (apart, others) = Apart-Out c cs rest o h.1 in
    let (first, away) = All-Out (λ y. y.id ≢ x.id) c cs rest o h.0 in
    ((λ same. first (sym same), apart), (away, others))

module _ (p : Platform) (euid : ℕ) where
  open p use {Bytes}

  -- The disk, and the calls behind their reservations.
  pub record World : Type 0 where
    pub disk : Disk Bytes
    pub claims : List Claim

  abbrev pub world : Disk Bytes → List Claim → World
  world d cs = record { disk = d; claims = cs }

  -- One operation of one of the calls, in the order in which the lock is taken.
  pub data Step : World → World → Type 0 where
    reserves :
        (b : TrustedExecutionBindingDecision) (clock : Option ℕ) (f : Faults)
        (e : DurableExecutionGateJournalEntry) (d d' : Disk Bytes) (cs : List Claim)
        → reserve p euid b clock f d ≡ (ok e, d')
        → Step (world d cs) (world d' (pending b.binding_id ∷ cs))
    reserve_fails :
        (b : TrustedExecutionBindingDecision) (clock : Option ℕ) (f : Faults) (x : JournalError)
        (d d' : Disk Bytes) (cs : List Claim)
        → reserve p euid b clock f d ≡ (err x, d')
        → Step (world d cs) (world d' cs)
    rolls_back :
        (id : String) (f : Faults) (m : Result JournalError (Unit {0})) (d d' : Disk Bytes)
        (cs rest : List Claim)
        → Out (pending id) cs rest
        → rollback p euid id f d ≡ (m, d')
        → Step (world d cs) (world d' rest)
    completes :
        (id : String) (g : OneShotExecutionGateDecision) (f : Faults)
        (e : DurableExecutionGateJournalEntry) (d d' : Disk Bytes) (cs rest : List Claim)
        → Out (pending id) cs rest
        → complete p euid id g f d ≡ (ok e, d')
        → Step (world d cs) (world d' (given id g ∷ rest))
    complete_fails :
        (id : String) (g : OneShotExecutionGateDecision) (f : Faults) (x : JournalError)
        (d d' : Disk Bytes) (cs rest : List Claim)
        → Out (pending id) cs rest
        → complete p euid id g f d ≡ (err x, d')
        → Step (world d cs) (world d' rest)

  pub data Reachable : World → World → Type 0 where
    start : (w : World) → Reachable w w
    next : (u v w : World) → Reachable u v → Step v w → Reachable u w

  -- The reservations find a journal that is there.
  abbrev pub FairStep : {v w : World} → Step v w → Type 0
  FairStep (reserves b clock f e d d' cs h) = Looked f
  FairStep (reserve_fails b clock f x d d' cs h) = Looked f
  FairStep (rolls_back id f m d d' cs rest o h) = Unit
  FairStep (completes id g f e d d' cs rest o h) = Unit
  FairStep (complete_fails id g f x d d' cs rest o h) = Unit

  abbrev pub Fair : {v w : World} → Reachable v w → Type 0
  Fair (start w) = Unit
  Fair (next u v w r s) = Fair r × FairStep s

  -- Every claim is in the journal, no two are for one binding, and a gate is for its claim's.
  pub record Exclusive (w : World) : Type 0 where
    pub blocked : All (λ c. Blocked p euid c.id w.disk.file) w.claims
    pub apart : Apart w.claims
    pub named : All Names w.claims

  -- An operation that keeps an id blocked when it changes the file keeps it in any case.
  outcome_keeps :
      {A : Type 0} (o : Operation) (id other : String) (old : Option (Stat × Bytes))
      (s : Result JournalError A × Disk Bytes)
      → ((new : Option (Stat × Bytes)) → Changed p euid o id old new → Blocked p euid other new)
      → Blocked p euid other old
      → OpOutcome p euid o id old s
      → Blocked p euid other s.1.file
  outcome_keeps o id other old s keep b (inl (_, _, change)) = keep s.1.file change
  outcome_keeps o id other old s keep b (inr (_, _, inl same)) =
      subst (Blocked p euid other) (sym same) b
  outcome_keeps o id other old s keep b (inr (_, _, inr change)) = keep s.1.file change

  pub outcome-Changed :
      {A : Type 0} (o : Operation) (id : String) (old : Option (Stat × Bytes)) (a : A)
      (d : Disk Bytes)
      → OpOutcome p euid o id old (ok a, d)
      → Changed p euid o id old d.file
  outcome-Changed o id old a d (inl (_, _, change)) = change
  outcome-Changed o id old a d (inr (_, h, _)) = cc

  module _ (law : Lawful p) where
    pub reserve_keeps :
        (b : TrustedExecutionBindingDecision) (clock : Option ℕ) (f : Faults) (d d' : Disk Bytes)
        (m : Result JournalError DurableExecutionGateJournalEntry) (other : String)
        → Looked f
        → reserve p euid b clock f d ≡ (m, d')
        → Blocked p euid other d.file
        → Blocked p euid other d'.file
    reserve_keeps b clock f d d' m other looked h k =
        outcome_keeps reserving b.binding_id other d.file (m, d')
          (λ new change. Blocked-reserving p euid law other b.binding_id d.file new change k) k
          (subst (OpOutcome p euid reserving b.binding_id d.file) h
            (reserve_step p euid b clock f d looked))

    pub complete_keeps :
        (id : String) (g : OneShotExecutionGateDecision) (f : Faults) (d d' : Disk Bytes)
        (m : Result JournalError DurableExecutionGateJournalEntry) (other : String)
        → complete p euid id g f d ≡ (m, d')
        → Blocked p euid other d.file
        → Blocked p euid other d'.file
    complete_keeps id g f d d' m other h k =
        outcome_keeps completing id other d.file (m, d')
          (λ new change. Blocked-completing p euid law other id d.file new change k) k
          (subst (OpOutcome p euid completing id d.file) h (complete_step p euid id g f d))

    pub rollback_keeps :
        (id : String) (f : Faults) (d d' : Disk Bytes) (m : Result JournalError (Unit {0}))
        (other : String)
        → rollback p euid id f d ≡ (m, d')
        → other ≢ id
        → Blocked p euid other d.file
        → Blocked p euid other d'.file
    rollback_keeps id f d d' m other h n k =
        outcome_keeps releasing id other d.file (m, d')
          (λ new change. Blocked-releasing p euid law other id d.file new n change k) k
          (subst (OpOutcome p euid releasing id d.file) h (rollback_step p euid id f d))
