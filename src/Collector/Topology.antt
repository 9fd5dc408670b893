-- ===== src/Collector/Topology.antt =====
-- About the loop of `_check_special_topology`: it ends, and what it passes.
use drive_sanitization_manag.Prelude.{
  ℕ, zero, suc, String, ◌≡◌, refl, sym, ap, subst, ◌∙◌, ◌≢◌, ◌⊎◌, inl, inr, Bool, true, false, not,
  List, [], ◌∷◌, Option, none, some, All, ◌≤◌, arith, Result, ok, err, >>=-eq-ok, >>-eq-ok, ok_inj,
  guard, guard-eq-ok, codes, if◌then◌else◌,
}
use drive_sanitization_manag.Value.{
  Value, null, bool, int, text, arr, obj, opaque, Fields, Items, list_items, lookup_field,
}
use drive_sanitization_manag.Store.{nonempty}
use drive_sanitization_manag.Discovery.Parse.{get}
use drive_sanitization_manag.Collector.{
  CollectionError, type_invalid, unsupported_topology, or_empty, kind_of, push, is_unsupported,
  inspect, check_pending,
}
use drive_sanitization_manag.Collector.Weight.{
  weight, fields_weight, total, weight_pos, total-push, lookup_weight, or_empty-weight,
}

All-push :
    (P : Value → Type 0) (cs pending : List Value)
    → All P (push cs pending)
    → All P cs × All P pending
All-push P [] pending h = (tt, h)
All-push P (c ∷ cs) pending h = let (a, b) = All-push P cs (c ∷ pending) h in ((b.0, a), b.1)

-- The items of an array.
items_of : Option Value → List Value
items_of (some (arr vs)) = list_items vs
items_of _ = []

-- A child of a value.
pub data In (c : Value) : List Value → Type 0 where
  first : (vs : List Value) → In c (c ∷ vs)
  later : (v : Value) (vs : List Value) → In c vs → In c (v ∷ vs)

All-In : (P : Value → Type 0) (c : Value) (vs : List Value) → All P vs → In c vs → P c
All-In P c _ h (first vs) = h.0
All-In P c _ h (later v vs i) = All-In P c vs h.1 i

if-ok :
    (b : Bool) (s t : String) → (if b then ok s else err type_invalid) ≡ ok t → (s ≡ t) × (b ≡ true)
if-ok true s t h = (ok_inj h, refl)
if-ok false s t h = cc

kind_of-text :
    (v : Value) (kind : String)
    → kind_of v ≡ ok kind
    → (v ≡ text kind) × (nonempty (codes kind) ≡ true)
kind_of-text (text s) kind h =
    let (same, filled) = if-ok (nonempty (codes s)) s kind h in
    (ap text same, subst (λ x. nonempty (codes x) ≡ true) same filled)
kind_of-text (arr vs) kind h = cc
kind_of-text null kind h = cc
kind_of-text (bool b) kind h = cc
kind_of-text (int n) kind h = cc
kind_of-text (obj fs) kind h = cc
kind_of-text (opaque n) kind h = cc

In-All : (P : Value → Type 0) (vs : List Value) → ((c : Value) → In c vs → P c) → All P vs
In-All P [] f = tt
In-All P (v ∷ vs) f = (f v (first vs), In-All P vs (λ c i. f c (later v vs i)))

All-pushed :
    (P : Value → Type 0) (cs pending : List Value)
    → All P cs
    → All P pending
    → All P (push cs pending)
All-pushed P [] pending h k = k
All-pushed P (c ∷ cs) pending h k = All-pushed P cs (c ∷ pending) h.1 (h.0, k)

-- A device that a device reports, at any depth, itself included.
pub data Within (w : Value) : Value → Type 0 where
  itself : Within w w
  below :
      (fs : Fields) (cs : Items) (c : Value)
      → lookup_field "children" fs ≡ some (arr cs)
      → In c (list_items cs)
      → Within w c
      → Within w (obj fs)

-- The children of a device are absent, or are those of an array.
Children : Fields → List Value → Type 0
Children fs cs =
    ((lookup_field "children" fs ≡ none) × (cs ≡ []))
    ⊎ ((vs : Items) × (lookup_field "children" fs ≡ some (arr vs)) × (cs ≡ list_items vs))

or_empty-Children :
    (o : Option Value) (cs : List Value)
    → or_empty o ≡ ok cs
    → ((o ≡ none) × (cs ≡ [])) ⊎ ((vs : Items) × (o ≡ some (arr vs)) × (cs ≡ list_items vs))
or_empty-Children none cs h = inl (refl, sym (ok_inj h))
or_empty-Children (some (arr vs)) cs h = inr (vs, refl, sym (ok_inj h))
or_empty-Children (some null) cs h = cc
or_empty-Children (some (bool b)) cs h = cc
or_empty-Children (some (int n)) cs h = cc
or_empty-Children (some (text s)) cs h = cc
or_empty-Children (some (obj fs)) cs h = cc
or_empty-Children (some (opaque n)) cs h = cc

module _ (lower : List ℕ → List ℕ) where
  -- A device is an object with a type, which is not empty and is supported, and with an array of
  -- children or none.
  abbrev pub Plain : Value → Type 0
  Plain w =
      (fs : Fields) × (kind : String) × (w ≡ obj fs)
      × (get "type" fs ≡ text kind)
      × (nonempty (codes kind) ≡ true)
      × (is_unsupported lower kind ≡ false)
      × ((lookup_field "children" fs ≡ none)
          ⊎ ((cs : Items) × (lookup_field "children" fs ≡ some (arr cs))))

  -- All devices that a device reports are such.
  abbrev pub Supported : Value → Type 0
  Supported v = (w : Value) → Within w v → Plain w

  inspect-fields :
      (fs : Fields) (cs : List Value)
      → inspect lower (obj fs) ≡ ok cs
      → Plain (obj fs) × Children fs cs
  unfolding inspect Children
  inspect-fields fs cs h =
      let (kind, read, h₁) = >>=-eq-ok (kind_of (get "type" fs)) _ h in
      let (u, h₂) = >>-eq-ok (guard (not (is_unsupported lower kind)) unsupported_topology) _ h₁ in
      let plain = guard-eq-ok (not (is_unsupported lower kind)) unsupported_topology u in
      let children = or_empty-Children (lookup_field "children" fs) cs h₂ in
      let (typed, filled) = kind_of-text (get "type" fs) kind read in
      (
        (
          fs,
          kind,
          refl,
          typed,
          filled,
          ground arith,
          elim children [ inl (absent, _) ↦ inl absent | inr (vs, listed, _) ↦ inr (vs, listed) ],
        ),
        children,
      )

  inspect-Plain : (v : Value) (cs : List Value) → inspect lower v ≡ ok cs → Plain v
  unfolding inspect
  inspect-Plain (obj fs) cs h = (inspect-fields fs cs h).0
  inspect-Plain (arr vs) cs h = cc
  inspect-Plain null cs h = cc
  inspect-Plain (bool b) cs h = cc
  inspect-Plain (int n) cs h = cc
  inspect-Plain (text s) cs h = cc
  inspect-Plain (opaque n) cs h = cc

  -- What is plain is not refused.
  Plain-inspect : (v : Value) (e : CollectionError) → Plain v → inspect lower v ≢ err e
  unfolding inspect
  Plain-inspect v e (fs, kind, same, typed, filled, supported, children) h =
      let at_object = ap (inspect lower) (sym same) ∙ h in
      elim children [
        | inl absent ↦
            let accepted : inspect lower (obj fs) ≡ ok [] =
              rw (typed, filled, supported, absent) refl in
            let clash = sym accepted ∙ at_object in cc
        | inr (cs, present) ↦
            let accepted : inspect lower (obj fs) ≡ ok (list_items cs) =
              rw (typed, filled, supported, present) refl in
            let clash = sym accepted ∙ at_object in cc
      ]

  inspect-weight :
      (v : Value) (cs : List Value) → inspect lower v ≡ ok cs → suc (total cs) ≤ weight v
  unfolding inspect
  inspect-weight (obj fs) cs h =
      let (kind, _, h₁) = >>=-eq-ok (kind_of (get "type" fs)) _ h in
      let (_, h₂) = >>-eq-ok (guard (not (is_unsupported lower kind)) unsupported_topology) _ h₁ in
      let less =
        or_empty-weight (lookup_field "children" fs) cs (fields_weight fs)
          (lookup_weight "children" fs) h₂ in
      omega arith
  inspect-weight (arr vs) cs h = cc
  inspect-weight null cs h = cc
  inspect-weight (bool b) cs h = cc
  inspect-weight (int n) cs h = cc
  inspect-weight (text s) cs h = cc
  inspect-weight (opaque n) cs h = cc

  Supported-below :
      (v : Value) (cs : List Value) → inspect lower v ≡ ok cs → All Supported cs → Supported v
  unfolding Children items_of
  Supported-below v cs h all _ itself = inspect-Plain v cs h
  Supported-below _ cs h all w (below fs ds c k i inside) = elim ((inspect-fields fs cs h).1) [
    | inl (absent, _) ↦ let clash = sym absent ∙ k in cc
    | inr (vs, present, same) ↦
        let listed = same ∙ ap items_of (sym present ∙ k) in
        All-In Supported c (list_items ds) (subst (All Supported) listed all) i w inside
  ]

  Supported-children :
      (v : Value) (cs : List Value) → inspect lower v ≡ ok cs → Supported v → All Supported cs
  unfolding inspect Children
  Supported-children (obj fs) cs h s = elim ((inspect-fields fs cs h).1) [
    | inl (_, none_left) ↦ subst (All Supported) (sym none_left) tt
    | inr (vs, present, same) ↦
        subst (All Supported) (sym same)
          (In-All Supported (list_items vs) (λ c i w inside. s w (below fs vs c present i inside)))
  ]
  Supported-children (arr vs) cs h s = cc
  Supported-children null cs h s = cc
  Supported-children (bool b) cs h s = cc
  Supported-children (int n) cs h s = cc
  Supported-children (text x) cs h s = cc
  Supported-children (opaque n) cs h s = cc

  -- What the loop returns with enough fuel.
  Verdict : List Value → Option (Result CollectionError (Unit {0})) → Type 0
  Verdict pending m =
      ((m ≡ some (ok tt)) × All Supported pending)
      ⊎ ((e : CollectionError) × (m ≡ some (err e)) × ¬ All Supported pending)

  turn :
      (n : ℕ) (v : Value) (pending : List Value) (m : Result CollectionError (List Value))
      → inspect lower v ≡ m
      → ((cs : List Value)
          → m ≡ ok cs
          → Verdict (push cs pending) (check_pending lower n (push cs pending)))
      → Verdict
          (v ∷ pending)
          (elim m [ err e ↦ some (err e) | ok cs ↦ check_pending lower n (push cs pending) ])
  unfolding Verdict
  turn n v pending (err e) h f = inr (e, refl, λ all. Plain-inspect v e (all.0 v itself) h)
  turn n v pending (ok cs) h f = elim (f cs refl) [
    | inl (passes, all) ↦
        let (a, b) = All-push Supported cs pending all in
        inl (passes, (Supported-below v cs h a, b))
    | inr (e, raises, refused) ↦ inr (
      e,
      raises,
      λ all. refused (All-pushed Supported cs pending (Supported-children v cs h all.0) all.1),
    )
  ]

  decided :
      (n : ℕ) (pending : List Value)
      → total pending ≤ n
      → Verdict pending (check_pending lower n pending)
  unfolding check_pending Verdict
  decided n [] h = inl (refl, tt)
  decided zero (v ∷ pending) h = absurd (let least = weight_pos v in omega arith)
  decided (suc n) (v ∷ pending) h = turn n v pending (inspect lower v) refl (λ cs k.
      let less = inspect-weight v cs k in
      let all = total-push cs pending in decided n (push cs pending) (omega arith))

  -- The loop of _check_special_topology ends within as many turns as there are values in the array. It
  -- returns exactly if every device of the array, at any depth of "children", is an object with a type
  -- that is not empty and is supported, and with an array of children or none; otherwise it raises.
  pub check_pending-Supported :
      (pending : List Value)
      → ((check_pending lower (total pending) pending ≡ some (ok tt)) × All Supported pending)
        ⊎ ((e : CollectionError) × (check_pending lower (total pending) pending ≡ some (err e))
            × ¬ All Supported pending)
  unfolding Verdict
  check_pending-Supported pending = decided (total pending) pending (omega arith)
