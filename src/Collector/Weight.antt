-- ===== src/Collector/Weight.antt =====
-- The number of values in a JSON value, by which the loop of `_check_special_topology` is bounded.
use drive_sanitization_manag.Prelude.{
  ℕ, suc, String, ◌≡◌, refl, ap, Bool, true, false, List, [], ◌∷◌, Option, none, some, ◌+◌, ◌≤◌,
  arith, ok, ok_inj, ◌==◌, if◌then◌else◌,
}
use drive_sanitization_manag.Value.{
  Value, null, bool, int, text, arr, obj, opaque, Fields, end, field, Items, nil, cons, list_items,
  lookup_field,
}
use drive_sanitization_manag.Tokens.{some_inj}
use drive_sanitization_manag.Collector.{children_of, or_empty, push}

-- The number of values in a value, itself included.
abbrev mutual
  pub weight : Value → ℕ
  weight (arr vs) = suc (items_weight vs)
  weight (obj fs) = suc (fields_weight fs)
  weight _ = 1

  pub items_weight : Items → ℕ
  items_weight nil = 0
  items_weight (cons v vs) = weight v + items_weight vs

  pub fields_weight : Fields → ℕ
  fields_weight end = 0
  fields_weight (field k v fs) = weight v + fields_weight fs

abbrev pub total : List Value → ℕ
total [] = 0
total (v ∷ vs) = weight v + total vs

pub weight_pos : (v : Value) → 1 ≤ weight v
weight_pos (arr vs) = omega arith
weight_pos (obj fs) = omega arith
weight_pos null = omega arith
weight_pos (bool b) = omega arith
weight_pos (int n) = omega arith
weight_pos (text s) = omega arith
weight_pos (opaque n) = omega arith

pub total-push : (cs pending : List Value) → total (push cs pending) ≡ total cs + total pending
total-push [] pending = omega arith
total-push (c ∷ cs) pending = let rest = total-push cs (c ∷ pending) in omega arith

total-list_items : (vs : Items) → total (list_items vs) ≡ items_weight vs
total-list_items nil = refl
total-list_items (cons v vs) = ap (λ n. weight v + n) (total-list_items vs)

found_weight :
    (b : Bool) (w v : Value) (rest : Option Value) (n : ℕ)
    → (rest ≡ some v → weight v ≤ n)
    → (if b then some w else rest) ≡ some v
    → weight v ≤ weight w + n
found_weight true w v rest n f h = let same = ap weight (some_inj h) in omega arith
found_weight false w v rest n f h = let less = f h in omega arith

pub lookup_weight :
    (k : String) (fs : Fields) (v : Value)
    → lookup_field k fs ≡ some v
    → weight v ≤ fields_weight fs
lookup_weight k end v h = cc
lookup_weight k (field j w fs) v h =
    found_weight (j == k) w v (lookup_field k fs) (fields_weight fs) (lookup_weight k fs v) h

children_weight : (v : Value) (cs : List Value) → children_of v ≡ ok cs → total cs ≤ weight v
children_weight (arr vs) cs h =
    let same = ap total (ok_inj h) in let all = total-list_items vs in omega arith
children_weight null cs h = cc
children_weight (bool b) cs h = cc
children_weight (int n) cs h = cc
children_weight (text s) cs h = cc
children_weight (obj fs) cs h = cc
children_weight (opaque n) cs h = cc

pub or_empty-weight :
    (o : Option Value) (cs : List Value) (n : ℕ)
    → ((v : Value) → o ≡ some v → weight v ≤ n)
    → or_empty o ≡ ok cs
    → total cs ≤ n
or_empty-weight none cs n f h = let same = ap total (ok_inj h) in omega arith
or_empty-weight (some v) cs n f h =
    let a = f v refl in let b = children_weight v cs h in omega arith
