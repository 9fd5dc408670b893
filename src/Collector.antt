-- ===== src/Collector.antt =====
-- drive_discovery_adapter.py: the reading of what the fixed commands print, as far as it is JSON: the root
-- and the critical sources of findmnt, and the check of the topology of lsblk. `str.lower` is the
-- parameter `lower`. Each message of DiscoveryCollectionError is one constructor.
pub mod Weight
pub mod Topology
pub mod Sources
mod Tests
use Prim.Native.String.{◌++◌ as join}
use drive_sanitization_manag.Prelude.{
  ℕ, zero, suc, String, Bool, true, false, ◌&&◌, ◌||◌, not, List, [], ◌∷◌, Option, none, some, any,
  member, codes, codes_eq, has_text, ◌==◌, same_texts, Result, ok, err, ◌>>=◌, ◌>>◌, guard,
  if◌then◌else◌,
}
use drive_sanitization_manag.Value.{
  Value, null, text, arr, obj, Fields, Items, nil, cons, list_items, has_key, lookup_field,
}
use drive_sanitization_manag.Platform.{Platform}
use drive_sanitization_manag.Store.{nonempty}
use drive_sanitization_manag.Discovery.Parse.{get}
use drive_sanitization_manag.Discovery.Annotate.{starts_with}

pub data CollectionError : Type 0 where
  malformed not_an_object not_one_filesystem root_invalid source_invalid : CollectionError
  not_an_array not_flat entry_invalid roots_disagree : CollectionError
  device_invalid type_invalid unsupported_topology children_invalid : CollectionError

-- `_json_object`
abbrev pub json_object : Option Value → Result CollectionError Fields
json_object none = err malformed
json_object (some (obj fs)) = ok fs
json_object (some v) = err not_an_object

abbrev pub one_entry : Value → Result CollectionError Value
one_entry (arr (cons v nil)) = ok v
one_entry _ = err not_one_filesystem

abbrev pub root_entry : Value → Result CollectionError Fields
root_entry (obj fs) = elim (get "target" fs) [
  | text t ↦ if t == "/" then ok fs else err root_invalid
  | _ ↦ err root_invalid
]
root_entry _ = err root_invalid

abbrev pub root_source : Value → Result CollectionError String
root_source (text s) = if has_text (codes s) then ok s else err source_invalid
root_source _ = err source_invalid

abbrev pub array : Value → CollectionError → Result CollectionError Items
array (arr vs) e = ok vs
array _ e = err e

abbrev pub families : List String
families = "/boot" ∷ "/usr" ∷ "/var" ∷ "/etc" ∷ "/bin" ∷ "/sbin" ∷ "/lib" ∷ "/lib64" ∷ []

abbrev pub in_family : String → Bool
in_family target =
    any (λ f. target == f || starts_with (codes (join f "/")) (codes target)) families

abbrev pub is_optional_text : Value → Bool
is_optional_text null = true
is_optional_text (text s) = true
is_optional_text _ = false

abbrev pub pair_of : Value → Value → Result CollectionError (String × String)
pair_of (text t) (text s) =
    if has_text (codes t) && has_text (codes s) then ok (t, s) else err entry_invalid
pair_of _ _ = err entry_invalid

-- The target and the source of an entry of findmnt --real.
unfoldable pub real_entry : Value → Result CollectionError (String × String)
real_entry (obj fs) = do
  guard (not (has_key "children" fs)) not_flat
  pair ← pair_of (get "target" fs) (get "source" fs)
  guard (is_optional_text (get "fstype" fs)) entry_invalid
  ok pair
real_entry _ = err not_flat

unfoldable pub real_entries : Items → Result CollectionError (List (String × String))
real_entries nil = ok []
real_entries (cons v vs) = do pair ← real_entry v; rest ← real_entries vs; ok (pair ∷ rest)

abbrev pub roots_of : List (String × String) → List String
roots_of [] = []
roots_of ((t, s) ∷ pairs) = let rest = roots_of pairs in if t == "/" then s ∷ rest else rest

abbrev pub critical_of : List (String × String) → List String
critical_of [] = []
critical_of ((t, s) ∷ pairs) =
    let rest = critical_of pairs in if in_family t then s ∷ rest else rest

-- The children of a device of a kind that is supported.
abbrev pub children_of : Value → Result CollectionError (List Value)
children_of (arr vs) = ok (list_items vs)
children_of _ = err children_invalid

abbrev pub or_empty : Option Value → Result CollectionError (List Value)
or_empty none = ok []
or_empty (some v) = children_of v

abbrev pub kind_of : Value → Result CollectionError String
kind_of (text s) = if nonempty (codes s) then ok s else err type_invalid
kind_of _ = err type_invalid

-- `pending.extend(children)`, the end of the Python list first.
abbrev pub push : List Value → List Value → List Value
push [] pending = pending
push (c ∷ cs) pending = push cs (c ∷ pending)

module _ (lower : List ℕ → List ℕ) where
  abbrev pub is_unsupported : String → Bool
  is_unsupported kind =
      any (λ k. codes_eq (lower (codes kind)) (codes k)) ("crypt" ∷ "lvm" ∷ "dm" ∷ [])
      || any (λ k. starts_with (codes k) (lower (codes kind))) ("md" ∷ "raid" ∷ [])

  -- One turn of the loop of `_check_special_topology`: the children that it adds.
  unfoldable pub inspect : Value → Result CollectionError (List Value)
  inspect (obj fs) = do
    kind ← kind_of (get "type" fs)
    guard (not (is_unsupported kind)) unsupported_topology
    or_empty (lookup_field "children" fs)
  inspect _ = err device_invalid

  -- The loop, none where the fuel is used up.
  unfoldable pub check_pending : ℕ → List Value → Option (Result CollectionError (Unit {0}))
  check_pending n [] = some (ok tt)
  check_pending zero (v ∷ pending) = none
  check_pending (suc n) (v ∷ pending) = elim (inspect v) [
    | err e ↦ some (err e)
    | ok children ↦ check_pending n (push children pending)
  ]

module _ (p : Platform) where
  -- `_parse_root_source`
  unfoldable pub parse_root_source : p.Bytes → Result CollectionError String
  parse_root_source captured = do
    fs ← json_object (p.loads captured)
    v ← one_entry (get "filesystems" fs)
    entry ← root_entry v
    root_source (get "source" entry)

  -- `_parse_real_sources`
  unfoldable pub parse_real_sources : p.Bytes → String → Result CollectionError (List String)
  parse_real_sources captured root = do
    fs ← json_object (p.loads captured)
    vs ← array (get "filesystems" fs) not_an_array
    pairs ← real_entries vs
    guard (same_texts (roots_of pairs) (root ∷ [])) roots_disagree
    ok (critical_of pairs)
