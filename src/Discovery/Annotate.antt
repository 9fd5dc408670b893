-- ===== src/Discovery/Annotate.antt =====
-- `parse_lsblk_json`: the physical drives of a document, with what protects each of them. `str.casefold`
-- is the parameter `casefold`. A frozenset of texts is the list of its elements, each once.
use Prim.Native.String.{◌++◌ as join}
use drive_sanitization_manag.Prelude.{
  ℕ, String, Bool, true, false, ◌&&◌, not, List, [], ◌∷◌, ◌++◌, map, Option, none, some, any, all,
  length, select, ltb, codes, codes_eq, has_text, strip, member, ◌==◌, ◌==ℕ◌, Result, ok, err,
  ◌>>=◌, ◌>>◌, guard, if◌then◌else◌,
}
use drive_sanitization_manag.Value.{Value, text, arr, obj, Items}
use drive_sanitization_manag.Platform.{Platform}
use drive_sanitization_manag.Sort.{sort}
use drive_sanitization_manag.Store.{nonempty}
use drive_sanitization_manag.Discovery.{
  DiscoveryError, malformed, not_an_object, no_device_array, sources_not_iterable, sources_invalid,
  alias_ambiguous, source_ambiguous, source_unmatched, Attributes, BlockDevice, attributes, tree,
  list_devices,
}
use drive_sanitization_manag.Discovery.Parse.{get, parse_devices}

pub data Kind : Type 0 where
  wwn serial : Kind

-- The texts of the two tuples of reasons, one constructor for each form.
pub data Reason : Type 0 where
  matches_source : String → Reason
  missing_identity zero_size : Reason
  duplicate_identity : Kind × List ℕ → Reason

pub record PhysicalDrive : Type 0 where
  pub device : BlockDevice
  pub mounted : Bool
  pub observed_mountpoints : List String
  pub protected : Bool
  pub protection_reasons : List Reason
  pub review_required : Bool
  pub review_reasons : List Reason
  pub ambiguous : Bool
  pub system_protected : Bool

-- The elements, each once.
abbrev pub distinct : {A : Type 0} → (A → A → Bool) → List A → List A
distinct same [] = []
distinct same (x ∷ xs) = x ∷ select (λ y. not (same x y)) (distinct same xs)

abbrev pub filled : {A : Type 0} → List A → Bool
filled [] = false
filled (x ∷ xs) = true

abbrev pub starts_with : List ℕ → List ℕ → Bool
starts_with [] s = true
starts_with (c ∷ prefix) [] = false
starts_with (c ∷ prefix) (d ∷ s) = c ==ℕ d && starts_with prefix s

abbrev pub named : Option String → List String
named none = []
named (some s) =
    if nonempty (codes s)
    then (if starts_with (codes "/dev/") (codes s) then s ∷ [] else s ∷ join "/dev/" s ∷ [])
    else []

-- `_identifiers`
abbrev pub identifiers : Attributes → List String
identifiers a = named a.path ++ named a.name ++ named a.kname

abbrev pub all_identifiers : List BlockDevice → List String
all_identifiers [] = []
all_identifiers (d ∷ ds) = identifiers (attributes d) ++ all_identifiers ds

-- An entry of `aliases_by_tree`.
unfoldable pub aliases : BlockDevice → List String
aliases d = all_identifiers (tree d)

-- The number of disks that an alias leads to.
abbrev pub owners : String → List BlockDevice → ℕ
owners s disks = length (select (λ d. member s (aliases d)) disks)

abbrev pub has_ambiguous_alias : List BlockDevice → Bool
has_ambiguous_alias disks = any (λ d. any (λ s. ltb 1 (owners s disks)) (aliases d)) disks

abbrev pub present : List (Option String) → List String
present [] = []
present (none ∷ ms) = present ms
present (some m ∷ ms) = m ∷ present ms

abbrev pub own_mountpoints : Option (List (Option String)) → List String
own_mountpoints none = []
own_mountpoints (some ms) = present ms

abbrev pub all_mountpoints : List BlockDevice → List String
all_mountpoints [] = []
all_mountpoints (d ∷ ds) = own_mountpoints (attributes d).mountpoints ++ all_mountpoints ds

-- `_usable_strong_identity`
abbrev pub usable : Option String → Bool
usable none = false
usable (some s) = has_text (codes s)

abbrev pub is_zero : Option ℕ → Bool
is_zero none = false
is_zero (some n) = n ==ℕ 0

abbrev pub review : Attributes → List Reason
review a =
    (if usable a.serial then [] else if usable a.wwn then [] else missing_identity ∷ [])
    ++ (if is_zero a.size then zero_size ∷ [] else [])

abbrev pub matches : List String → BlockDevice → List String
matches sources d =
    sort codes (select (λ s. member s (aliases d)) (distinct (λ s t. s == t) sources))

-- The drive of a disk, before the search for duplicates.
abbrev pub drive_of : List String → BlockDevice → PhysicalDrive
drive_of sources d = record {
  device = d;
  mounted = filled (all_mountpoints (tree d));
  observed_mountpoints = all_mountpoints (tree d);
  protected = filled (map matches_source (matches sources d));
  protection_reasons = map matches_source (matches sources d);
  review_required = filled (review (attributes d));
  review_reasons = review (attributes d);
  ambiguous = false;
  system_protected = filled (map matches_source (matches sources d));
}

abbrev pub same_kind : Kind → Kind → Bool
same_kind wwn wwn = true
same_kind serial serial = true
same_kind _ _ = false

-- A key of `duplicates`, and the order of such keys: "WWN" is before "serial".
abbrev pub same_key : Kind × List ℕ → Kind × List ℕ → Bool
same_key (k, v) (l, w) = same_kind k l && codes_eq v w

abbrev pub kind_code : Kind → ℕ
kind_code wwn = 0
kind_code serial = 1

abbrev pub sort_key : Kind × List ℕ → List ℕ
sort_key (k, v) = kind_code k ∷ v

module _ (casefold : List ℕ → List ℕ) where
  abbrev pub identity_of : Kind → Option String → List (Kind × List ℕ)
  identity_of k none = []
  identity_of k (some s) = if has_text (codes s) then (k, casefold (strip (codes s))) ∷ [] else []

  abbrev pub identities : BlockDevice → List (Kind × List ℕ)
  identities d = identity_of serial (attributes d).serial ++ identity_of wwn (attributes d).wwn

  -- The keys under which `duplicates` lists an index, as often as it does.
  abbrev pub occurrences : List BlockDevice → List (Kind × List ℕ)
  occurrences [] = []
  occurrences (d ∷ ds) = identities d ++ occurrences ds

  abbrev pub count : Kind × List ℕ → List (Kind × List ℕ) → ℕ
  count i keys = length (select (same_key i) keys)

  -- The keys with more than one index, sorted.
  unfoldable pub repeated : List BlockDevice → List (Kind × List ℕ)
  repeated disks =
      select (λ i. ltb 1 (count i (occurrences disks)))
        (sort sort_key (distinct same_key (occurrences disks)))

  -- `reasons_by_index`
  abbrev pub extra_reasons : List BlockDevice → BlockDevice → List Reason
  extra_reasons disks d =
      map duplicate_identity (select (λ i. any (same_key i) (identities d)) (repeated disks))

  abbrev pub with_reasons : List Reason → PhysicalDrive → PhysicalDrive
  with_reasons [] drive = drive
  with_reasons (r ∷ rs) drive = record drive {
    protected = true;
    protection_reasons = drive.protection_reasons ++ r ∷ rs;
    review_required = true;
    review_reasons = drive.review_reasons ++ r ∷ rs;
    ambiguous = true;
  }

  unfoldable pub annotated : List String → List BlockDevice → BlockDevice → PhysicalDrive
  annotated sources disks d = with_reasons (extra_reasons disks d) (drive_of sources d)

  -- The part of `parse_lsblk_json` behind the parsing.
  unfoldable pub drives_of :
      List String → List BlockDevice → Result DiscoveryError (List PhysicalDrive)
  drives_of sources disks = do
    guard (not (has_ambiguous_alias disks)) alias_ambiguous
    guard (not (any (λ s. ltb 1 (owners s disks)) sources)) source_ambiguous
    guard (all (λ s. any (λ d. member s (aliases d)) disks) sources) source_unmatched
    ok (map (annotated sources disks) disks)

  abbrev pub disks_of : List BlockDevice → List BlockDevice
  disks_of parsed = select (λ d. (attributes d).device_type == "disk") parsed

  abbrev pub device_array : Value → Result DiscoveryError Items
  device_array (obj fs) = elim (get "blockdevices" fs) [ arr vs ↦ ok vs | _ ↦ err no_device_array ]
  device_array _ = err not_an_object

  abbrev pub or_malformed : Option Value → Result DiscoveryError Value
  or_malformed none = err malformed
  or_malformed (some v) = ok v

  abbrev pub source_texts : List Value → Result DiscoveryError (List String)
  source_texts [] = ok []
  source_texts (text s ∷ vs) = do
    guard (has_text (codes s)) sources_invalid
    rest ← source_texts vs
    ok (s ∷ rest)
  source_texts (v ∷ vs) = err sources_invalid

  -- What `tuple(protected_sources)` gives, none where it raises.
  abbrev pub checked_sources : Option (List Value) → Result DiscoveryError (List String)
  checked_sources none = err sources_not_iterable
  checked_sources (some vs) = source_texts vs

  -- `parse_lsblk_json`
  unfoldable pub parse_lsblk_json :
      (p : Platform) → p.Bytes → Option (List Value) → Result DiscoveryError (List PhysicalDrive)
  parse_lsblk_json p captured protected_sources = do
    document ← or_malformed (p.loads captured)
    devices ← device_array document
    sources ← checked_sources protected_sources
    parsed ← parse_devices devices
    drives_of sources (disks_of (list_devices parsed))
