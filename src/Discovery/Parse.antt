-- ===== src/Discovery/Parse.antt =====
-- `_parse_device` and the functions that read its fields.
use drive_sanitization_manag.Prelude.{
  ℕ, String, Bool, true, false, ◌&&◌, not, List, [], ◌∷◌, Option, none, some, all, leb, codes,
  has_text, ◌==◌, ◌==ℕ◌, Result, ok, err, ◌>>=◌, if◌then◌else◌,
}
use drive_sanitization_manag.Value.{
  Value, null, bool, int, text, arr, obj, Items, nil, cons, Fields, end, field, pos, has_key,
  lookup_field,
}
use drive_sanitization_manag.Discovery.{
  DiscoveryError, device_invalid, type_invalid, children_invalid, text_invalid, major_minor_invalid,
  bool_invalid, size_invalid, mountpoints_invalid, Attributes, BlockDevice, Devices, device,
  no_devices, more,
}

-- `item.get(key)`
abbrev pub get : String → Fields → Value
get key fs = elim (lookup_field key fs) [ some v ↦ v | none ↦ null ]

-- `_optional_string`
abbrev pub optional_string : Value → Result DiscoveryError (Option String)
optional_string null = ok none
optional_string (text s) = ok (some s)
optional_string _ = err text_invalid

-- `split(":")`, its first part and the others.
abbrev pub first_part : List ℕ → List ℕ
first_part [] = []
first_part (c ∷ s) = let rest = first_part s in if c ==ℕ 58 then [] else c ∷ rest

abbrev pub other_parts : List ℕ → List (List ℕ)
other_parts [] = []
other_parts (c ∷ s) = let rest = other_parts s in if c ==ℕ 58 then first_part s ∷ rest else rest

abbrev pub is_digit : ℕ → Bool
is_digit c = leb 48 c && leb c 57

-- Decimal digits, at least one, and no zero in front of others.
abbrev pub is_component : List ℕ → Bool
is_component [] = false
is_component (c ∷ []) = is_digit c
is_component (c ∷ d ∷ s) = all is_digit (c ∷ d ∷ s) && not (c ==ℕ 48)

abbrev pub two_components : List ℕ → List (List ℕ) → Bool
two_components major (minor ∷ []) = is_component major && is_component minor
two_components major _ = false

-- `_major_minor`
unfoldable pub major_minor_of : Value → Result DiscoveryError (Option String)
major_minor_of null = ok none
major_minor_of (text s) =
    if two_components (first_part (codes s)) (other_parts (codes s))
    then ok (some s)
    else err major_minor_invalid
major_minor_of _ = err major_minor_invalid

-- `_optional_bool`
abbrev pub optional_bool : Value → Result DiscoveryError (Option Bool)
optional_bool null = ok none
optional_bool (bool b) = ok (some b)
optional_bool (int (pos n)) =
    if n ==ℕ 0 then ok (some false) else if n ==ℕ 1 then ok (some true) else err bool_invalid
optional_bool _ = err bool_invalid

-- `_size`
abbrev pub size_of : Value → Result DiscoveryError (Option ℕ)
size_of null = ok none
size_of (int (pos n)) = ok (some n)
size_of _ = err size_invalid

abbrev pub optional_strings : Items → Result DiscoveryError (List (Option String))
optional_strings nil = ok []
optional_strings (cons v vs) = do s ← optional_string v; rest ← optional_strings vs; ok (s ∷ rest)

abbrev pub mountpoint_array : Value → Result DiscoveryError (Option (List (Option String)))
mountpoint_array null = ok none
mountpoint_array (arr vs) = do values ← optional_strings vs; ok (some values)
mountpoint_array _ = err mountpoints_invalid

abbrev pub one_mountpoint : Option String → Option (List (Option String))
one_mountpoint none = none
one_mountpoint (some s) = some (some s ∷ [])

-- `_mountpoints`
unfoldable pub mountpoints_of : Fields → Result DiscoveryError (Option (List (Option String)))
mountpoints_of fs =
    if has_key "mountpoints" fs
    then mountpoint_array (get "mountpoints" fs)
    else if has_key "mountpoint" fs
    then (do s ← optional_string (get "mountpoint" fs); ok (one_mountpoint s))
    else ok none

abbrev pub type_of : Value → Result DiscoveryError String
type_of (text s) = if has_text (codes s) then ok s else err type_invalid
type_of _ = err type_invalid

-- The fields of `BlockDevice(...)`, in the order of the call.
unfoldable pub attributes_of : String → Fields → Result DiscoveryError Attributes
attributes_of device_type fs = do
  name ← optional_string (get "name" fs)
  kname ← optional_string (get "kname" fs)
  path ← optional_string (get "path" fs)
  major_minor ← major_minor_of (get "maj:min" fs)
  size ← size_of (get "size" fs)
  model ← optional_string (get "model" fs)
  serial ← optional_string (get "serial" fs)
  transport ← optional_string (get "tran" fs)
  rotational ← optional_bool (get "rota" fs)
  removable ← optional_bool (get "rm" fs)
  read_only ← optional_bool (get "ro" fs)
  wwn ← optional_string (get "wwn" fs)
  parent_name ← optional_string (get "pkname" fs)
  filesystem_type ← optional_string (get "fstype" fs)
  mountpoints ← mountpoints_of fs
  ok (record {
    name = name;
    kname = kname;
    path = path;
    device_type = device_type;
    major_minor = major_minor;
    size = size;
    model = model;
    serial = serial;
    transport = transport;
    rotational = rotational;
    removable = removable;
    read_only = read_only;
    wwn = wwn;
    parent_name = parent_name;
    filesystem_type = filesystem_type;
    mountpoints = mountpoints;
  })

-- `_parse_device`. The children are those of the first field of that name, as `get` finds it; they are
-- read before the other fields.
unfoldable mutual
  pub parse_device : Value → Result DiscoveryError BlockDevice
  parse_device (obj fs) = do
    device_type ← type_of (get "type" fs)
    children ← parse_children_field fs
    own ← attributes_of device_type fs
    ok (device own children)
  parse_device _ = err device_invalid

  pub parse_children_field : Fields → Result DiscoveryError Devices
  parse_children_field end = ok no_devices
  parse_children_field (field k v fs) =
      let here = parse_children v in
      let later = parse_children_field fs in if k == "children" then here else later

  pub parse_children : Value → Result DiscoveryError Devices
  parse_children null = ok no_devices
  parse_children (arr vs) = parse_devices vs
  parse_children _ = err children_invalid

  pub parse_devices : Items → Result DiscoveryError Devices
  parse_devices nil = ok no_devices
  parse_devices (cons v vs) = do d ← parse_device v; ds ← parse_devices vs; ok (more d ds)
