-- ===== src/Discovery/RoundTrip.antt =====
-- About `_parse_device`: every device that lsblk can report is read back from the JSON that reports it.
use drive_sanitization_manag.Prelude.{
  ℕ, String, ◌≡◌, refl, Bool, true, ◌&&◌, List, [], ◌∷◌, Option, none, some, codes, has_text, ok,
  arith,
}
use drive_sanitization_manag.Value.{
  Value, null, bool, int, text, arr, obj, Items, nil, cons, Fields, end, field, pos,
}
use drive_sanitization_manag.Discovery.{Attributes, BlockDevice, Devices, device, no_devices, more}
use drive_sanitization_manag.Discovery.Parse.{
  first_part, other_parts, two_components, major_minor_of, optional_string, optional_strings,
  optional_bool, size_of, mountpoint_array, mountpoints_of, attributes_of, parse_device,
  parse_children_field, parse_children, parse_devices,
}

abbrev pub string_value : Option String → Value
string_value none = null
string_value (some s) = text s

abbrev pub bool_value : Option Bool → Value
bool_value none = null
bool_value (some b) = bool b

abbrev pub size_value : Option ℕ → Value
size_value none = null
size_value (some n) = int (pos n)

abbrev pub string_items : List (Option String) → Items
string_items [] = nil
string_items (s ∷ ss) = cons (string_value s) (string_items ss)

abbrev pub mountpoints_value : Option (List (Option String)) → Value
mountpoints_value none = null
mountpoints_value (some ss) = arr (string_items ss)

-- The object of a device, in the order of lsblk's columns; the children are its last field.
abbrev pub device_fields : Attributes → Items → Fields
device_fields a children = field "name" (string_value a.name) (
    field "kname" (string_value a.kname) (
      field "path" (string_value a.path) (
        field "maj:min" (string_value a.major_minor) (
          field "type" (text a.device_type) (
            field "size" (size_value a.size) (
              field "model" (string_value a.model) (
                field "serial" (string_value a.serial) (
                  field "tran" (string_value a.transport) (
                    field "rota" (bool_value a.rotational) (
                      field "rm" (bool_value a.removable) (
                        field "ro" (bool_value a.read_only) (
                          field "wwn" (string_value a.wwn) (
                            field "pkname" (string_value a.parent_name) (
                              field "fstype" (string_value a.filesystem_type) (
                                field "mountpoints" (mountpoints_value a.mountpoints)
                                  (field "children" (arr children) end))))))))))))))))

abbrev mutual
  pub device_value : BlockDevice → Value
  device_value (device a children) = obj (device_fields a (device_items children))

  pub device_items : Devices → Items
  device_items no_devices = nil
  device_items (more d ds) = cons (device_value d) (device_items ds)

abbrev pub canonical_numbers : Option String → Bool
canonical_numbers none = true
canonical_numbers (some s) = two_components (first_part (codes s)) (other_parts (codes s))

-- The device and all below it have a type, and canonical numbers where they have any.
abbrev mutual
  pub reportable : BlockDevice → Bool
  reportable (device a children) =
      has_text (codes a.device_type) && canonical_numbers a.major_minor && all_reportable children

  pub all_reportable : Devices → Bool
  all_reportable no_devices = true
  all_reportable (more d ds) = reportable d && all_reportable ds

string_back : (o : Option String) → optional_string (string_value o) ≡ ok o
string_back none = refl
string_back (some s) = refl

bool_back : (o : Option Bool) → optional_bool (bool_value o) ≡ ok o
bool_back none = refl
bool_back (some b) = refl

size_back : (o : Option ℕ) → size_of (size_value o) ≡ ok o
size_back none = refl
size_back (some n) = refl

numbers_back :
    (o : Option String) → canonical_numbers o ≡ true → major_minor_of (string_value o) ≡ ok o
unfolding major_minor_of
numbers_back none h = refl
numbers_back (some s) h = rw h refl

strings_back : (ss : List (Option String)) → optional_strings (string_items ss) ≡ ok ss
strings_back [] = refl
strings_back (s ∷ ss) = rw (string_back s) (rw (strings_back ss) refl)

mountpoints_back :
    (o : Option (List (Option String))) → mountpoint_array (mountpoints_value o) ≡ ok o
mountpoints_back none = refl
mountpoints_back (some ss) = rw (strings_back ss) refl

attributes_back :
    (a : Attributes) (children : Items)
    → canonical_numbers a.major_minor ≡ true
    → attributes_of a.device_type (device_fields a children) ≡ ok a
unfolding attributes_of mountpoints_of
attributes_back a children h =
    rw
      (
        string_back a.name,
        string_back a.kname,
        string_back a.path,
        numbers_back a.major_minor h,
        size_back a.size,
        string_back a.model,
        string_back a.serial,
        string_back a.transport,
        bool_back a.rotational,
        bool_back a.removable,
        bool_back a.read_only,
        string_back a.wwn,
        string_back a.parent_name,
        string_back a.filesystem_type,
        mountpoints_back a.mountpoints,
      )
      refl

typed :
    (a : Attributes) (children : Devices)
    → reportable (device a children) ≡ true
    → has_text (codes a.device_type) ≡ true
typed a children h = ground arith

numbered :
    (a : Attributes) (children : Devices)
    → reportable (device a children) ≡ true
    → canonical_numbers a.major_minor ≡ true
numbered a children h = ground arith

below :
    (a : Attributes) (children : Devices)
    → reportable (device a children) ≡ true
    → all_reportable children ≡ true
below a children h = ground arith

mutual
  unfolding parse_device parse_children_field parse_children parse_devices

  device_back : (d : BlockDevice) → reportable d ≡ true → parse_device (device_value d) ≡ ok d
  device_back (device a children) h =
      rw
        (
          typed a children h,
          devices_back children (below a children h),
          attributes_back a (device_items children) (numbered a children h),
        )
        refl

  devices_back : (ds : Devices) → all_reportable ds ≡ true → parse_devices (device_items ds) ≡ ok ds
  devices_back no_devices h = refl
  devices_back (more d ds) h =
      rw (device_back d (ground arith), devices_back ds (ground arith)) refl

-- _parse_device gives back every device from the JSON object that reports it, with its children, if
-- all of them have a type and canonical device numbers where they have any.
pub parse_device-device_value :
    (d : BlockDevice) → reportable d ≡ true → parse_device (device_value d) ≡ ok d
parse_device-device_value d h = device_back d h
