-- ===== src/Auth/Durable/Exclusive.antt =====
-- About the claims of the durable calls of several processes.
use drive_sanitization_manag.Prelude.{
  ℕ, String, ◌≡◌, ◌≢◌, ap, subst, Option, some, List, [], ◌∷◌, All, All-map, Result, ok, err,
}
use drive_sanitization_manag.Platform.{Platform}
use drive_sanitization_manag.Platform.Laws.{Lawful}
use drive_sanitization_manag.Files.{Looked, Disk, Faults}
use drive_sanitization_manag.Auth.Types.{
  TrustedExecutionBindingDecision, OneShotExecutionGateDecision, DurableExecutionGateJournalEntry,
}
use drive_sanitization_manag.Auth.Journal.{JournalError}
use drive_sanitization_manag.Auth.Journal.Operations.{reserve, rollback, complete}
use drive_sanitization_manag.Auth.Journal.Steps.{reserving, OpOutcome, reserve_step}
use drive_sanitization_manag.Auth.Journal.Blocked.{Blocked, not_Blocked, Blocked-reserved}
use drive_sanitization_manag.Auth.Durable.Outcome.{complete_named}
use drive_sanitization_manag.Auth.Durable.Concurrent.{
  Claim, Out, Names, pending, given, All-Out, Apart-Out, World, world, Step, reserves,
  reserve_fails, rolls_back, completes, complete_fails, Reachable, start, next, FairStep, Fair,
  Exclusive, outcome-Changed, reserve_keeps, complete_keeps, rollback_keeps,
}

All-both :
    (P Q R : Claim → Type 0) (f : (c : Claim) → P c → Q c → R c) (cs : List Claim)
    → All P cs
    → All Q cs
    → All R cs
All-both P Q R f [] h k = tt
All-both P Q R f (c ∷ cs) h k = (f c h.0 k.0, All-both P Q R f cs h.1 k.1)

some_inj : {A : Type 0} {a b : A} → ◌≡◌ {A = Option A} (some a) (some b) → a ≡ b
some_inj h = cc

module _ (p : Platform) (euid : ℕ) (law : Lawful p) where
  open p use {Bytes}

  Held : Disk Bytes → Claim → Type 0
  Held d c = Blocked p euid c.id d.file

  Exclusive-reserves :
      (b : TrustedExecutionBindingDecision) (clock : Option ℕ) (f : Faults)
      (e : DurableExecutionGateJournalEntry) (d d' : Disk Bytes) (cs : List Claim)
      → Looked f
      → reserve p euid b clock f d ≡ (ok e, d')
      → Exclusive p euid (world p euid d cs)
      → Exclusive p euid (world p euid d' (pending b.binding_id ∷ cs))
  unfolding Held
  Exclusive-reserves b clock f e d d' cs looked h x =
      let change = outcome-Changed p euid reserving b.binding_id d.file e d' (
        subst (OpOutcome p euid reserving b.binding_id d.file) h
          (reserve_step p euid b clock f d looked)) in
      record {
        blocked = (
          Blocked-reserved p euid law b.binding_id d.file d'.file change,
          All-map (Held d) (Held d')
              (λ c k. reserve_keeps p euid law b clock f d d' (ok e) c.id looked h k) cs x.blocked,
        );
        apart = (
          All-map (Held d) (λ c. c.id ≢ b.binding_id)
              (λ c k same.
                not_Blocked p euid b.binding_id d.file d'.file change
                  (subst (λ s. Blocked p euid s d.file) same k))
              cs x.blocked,
          x.apart,
        );
        named = (λ g k. cc, x.named);
      }

  Exclusive-rolls_back :
      (id : String) (f : Faults) (m : Result JournalError (Unit {0})) (d d' : Disk Bytes)
      (cs rest : List Claim)
      → Out (pending id) cs rest
      → rollback p euid id f d ≡ (m, d')
      → Exclusive p euid (world p euid d cs)
      → Exclusive p euid (world p euid d' rest)
  unfolding Held
  Exclusive-rolls_back id f m d d' cs rest o h x =
      let (away, apart) = Apart-Out (pending id) cs rest o x.apart in
      record {
        blocked =
            All-both (λ c. c.id ≢ id) (Held d) (Held d')
              (λ c n k. rollback_keeps p euid law id f d d' m c.id h n k) rest away
              (All-Out (Held d) (pending id) cs rest o x.blocked).1;
        apart = apart;
        named = (All-Out Names (pending id) cs rest o x.named).1;
      }

  -- What a completion leaves of the claims, whatever it returned.
  Exclusive-rest :
      (id : String) (g : OneShotExecutionGateDecision) (f : Faults)
      (m : Result JournalError DurableExecutionGateJournalEntry) (d d' : Disk Bytes)
      (cs rest : List Claim)
      → Out (pending id) cs rest
      → complete p euid id g f d ≡ (m, d')
      → Exclusive p euid (world p euid d cs)
      → Exclusive p euid (world p euid d' rest)
  unfolding Held
  Exclusive-rest id g f m d d' cs rest o h x = record {
    blocked =
        All-map (Held d) (Held d') (λ c k. complete_keeps p euid law id g f d d' m c.id h k) rest
          (All-Out (Held d) (pending id) cs rest o x.blocked).1;
    apart = (Apart-Out (pending id) cs rest o x.apart).1;
    named = (All-Out Names (pending id) cs rest o x.named).1;
  }

  Exclusive-completes :
      (id : String) (g : OneShotExecutionGateDecision) (f : Faults)
      (e : DurableExecutionGateJournalEntry) (d d' : Disk Bytes) (cs rest : List Claim)
      → Out (pending id) cs rest
      → complete p euid id g f d ≡ (ok e, d')
      → Exclusive p euid (world p euid d cs)
      → Exclusive p euid (world p euid d' (given id g ∷ rest))
  unfolding Held
  Exclusive-completes id g f e d d' cs rest o h x =
      let others = Exclusive-rest id g f (ok e) d d' cs rest o h x in
      record {
        blocked = (
          complete_keeps p euid law id g f d d' (ok e) id h
              (All-Out (Held d) (pending id) cs rest o x.blocked).0,
          others.blocked,
        );
        apart = ((Apart-Out (pending id) cs rest o x.apart).0, others.apart);
        named = (
          λ k same.
              subst (λ y. y.binding_id ≡ id) (some_inj same)
                (complete_named p euid id g f d e (ap (λ s. s.0) h)),
          others.named,
        );
      }

  Exclusive-Step :
      (v w : World p euid) (s : Step p euid v w)
      → FairStep p euid s
      → Exclusive p euid v
      → Exclusive p euid w
  Exclusive-Step _ _ (reserves b clock f e d d' cs h) looked x =
      Exclusive-reserves b clock f e d d' cs looked h x
  Exclusive-Step _ _ (reserve_fails b clock f y d d' cs h) looked x = record {
    blocked =
        All-map _ _ (λ c k. reserve_keeps p euid law b clock f d d' (err y) c.id looked h k) cs
          x.blocked;
    apart = x.apart;
    named = x.named;
  }
  Exclusive-Step _ _ (rolls_back id f m d d' cs rest o h) fair x =
      Exclusive-rolls_back id f m d d' cs rest o h x
  Exclusive-Step _ _ (completes id g f e d d' cs rest o h) fair x =
      Exclusive-completes id g f e d d' cs rest o h x
  Exclusive-Step _ _ (complete_fails id g f y d d' cs rest o h) fair x =
      Exclusive-rest id g f (err y) d d' cs rest o h x

  Exclusive-Reachable :
      (v w : World p euid) (r : Reachable p euid v w)
      → Fair p euid r
      → Exclusive p euid v
      → Exclusive p euid w
  Exclusive-Reachable _ _ (start w) fair x = x
  Exclusive-Reachable v _ (next _ u w r s) fair x =
      Exclusive-Step u w s fair.1 (Exclusive-Reachable v u r fair.0 x)

  -- From a state without calls, whatever the order of the operations of the calls that begin, and
  -- where each reservation finds a journal that is there, the binding of a call that holds a reservation or was granted its gate is in the journal, is no
  -- other such call's, and is the one that the gate names.
  pub Reachable-Exclusive :
      (d : Disk Bytes) (w : World p euid) (r : Reachable p euid (world p euid d []) w)
      → Fair p euid r
      → Exclusive p euid w
  Reachable-Exclusive d w r fair =
      Exclusive-Reachable (world p euid d []) w r fair
        (record { blocked = tt; apart = tt; named = tt })
