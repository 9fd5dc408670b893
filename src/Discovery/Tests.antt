-- ===== src/Discovery/Tests.antt =====
-- Runs of `parse_lsblk_json`, and its theorems at those.
use drive_sanitization_manag.Prelude.{
  ℕ, String, ◌≡◌, refl, Bool, true, false, ◌&&◌, ◌||◌, List, [], ◌∷◌, map, Option, none, some, any,
  All, leb, ◌+◌, member, is_space, strip, Result, ok, err, if◌then◌else◌,
}
use drive_sanitization_manag.Value.{Items, list_items, Value, obj, arr, cons, nil, field, end, text}
use drive_sanitization_manag.Sort.{sort}
use drive_sanitization_manag.Samples.{platform}
use drive_sanitization_manag.Discovery.{
  DiscoveryError, Attributes, BlockDevice, device, no_devices, more, source_unmatched,
  alias_ambiguous,
}
use drive_sanitization_manag.Discovery.Parse.{
  major_minor_of, mountpoints_of, attributes_of, parse_device,
}
use drive_sanitization_manag.Discovery.Annotate.{
  PhysicalDrive, aliases, has_ambiguous_alias, repeated, annotated, drives_of, parse_lsblk_json,
}
use drive_sanitization_manag.Discovery.Duplicates.{is_shared, protected_exact}
use drive_sanitization_manag.Discovery.Shared.{share_identity, shared_protected}
use drive_sanitization_manag.Discovery.Sources.{
  all_matched, drives_exact, Listing, Accepted, Discovered, parse_lsblk_json-Discovered,
}
use drive_sanitization_manag.Discovery.RoundTrip.{device_value, parse_device-device_value}

-- The small letters of ASCII.
abbrev lower : List ℕ → List ℕ
lower s = map (λ c. if leb 65 c && leb c 90 then c + 32 else c) s

abbrev plain : Attributes
plain = record {
  name = some "sda";
  kname = none;
  path = some "/dev/sda";
  device_type = "disk";
  major_minor = some "8:0";
  size = some 1000;
  model = none;
  serial = some " SN1";
  transport = none;
  rotational = some true;
  removable = none;
  read_only = some false;
  wwn = none;
  parent_name = none;
  filesystem_type = none;
  mountpoints = some (none ∷ []);
}

abbrev partition : BlockDevice
partition =
    device
      record plain {
        name = some "sda1";
        path = none;
        device_type = "part";
        major_minor = some "8:1";
        serial = none;
        mountpoints = some (some "/" ∷ []);
      }
      no_devices

abbrev first : BlockDevice
first = device plain (more partition no_devices)

abbrev second : BlockDevice
second =
    device
      record plain {
        name = some "sdb";
        path = some "/dev/sdb";
        major_minor = some "8:16";
        serial = some "sn1";
      }
      no_devices

abbrev other : BlockDevice
other =
    device
      record plain {
        name = some "sdc";
        path = some "/dev/sdc";
        major_minor = some "8:32";
        serial = some "SN2";
      }
      no_devices

abbrev captured : Value
captured = obj (
    field "blockdevices"
      (arr (cons (device_value first) (cons (device_value second) (cons (device_value other) nil))))
      end)

abbrev sources : Option (List Value)
sources = some (text "/dev/sda1" ∷ [])

abbrev flags : Result DiscoveryError (List PhysicalDrive) → List (Bool × Bool)
flags (ok drives) = map (λ (r : PhysicalDrive). (r.protected, r.ambiguous)) drives
flags (err e) = []

-- The first two drives have one serial number; the system is on the first.
flagged :
    flags (parse_lsblk_json lower platform captured sources)
    ≡ (true, true) ∷ (true, true) ∷ (false, false) ∷ []
unfolding parse_lsblk_json drives_of annotated repeated aliases sort parse_device attributes_of
    mountpoints_of major_minor_of strip is_space
flagged = refl

unmatched :
    parse_lsblk_json lower platform captured (some (text "/dev/sdz" ∷ [])) ≡ err source_unmatched
unfolding parse_lsblk_json drives_of annotated repeated aliases sort parse_device attributes_of
    mountpoints_of major_minor_of strip is_space
unmatched = refl

-- One disk twice.
ambiguous : drives_of lower [] (first ∷ first ∷ []) ≡ err alias_ambiguous
unfolding drives_of aliases
ambiguous = refl

protected_exact_example :
    ((annotated lower [] (first ∷ second ∷ []) first).ambiguous
      ≡ is_shared lower (first ∷ second ∷ []) first)
    × ((annotated lower [] (first ∷ second ∷ []) first).protected
        ≡ (any (λ s. member s (aliases first)) [] || is_shared lower (first ∷ second ∷ []) first))
protected_exact_example = protected_exact lower [] (first ∷ second ∷ []) first

shared : share_identity lower first second ≡ true
unfolding strip is_space
shared = refl

shared_protected_example :
    All
      (λ x.
        ((annotated lower [] (first ∷ other ∷ second ∷ []) x).ambiguous ≡ true)
        × ((annotated lower [] (first ∷ other ∷ second ∷ []) x).protected ≡ true))
      (first ∷ second ∷ [])
shared_protected_example = shared_protected lower [] [] (other ∷ []) [] first second shared

drives_exact_example : drives_of lower ("/dev/sda1" ∷ []) (first ∷ other ∷ []) ≡ (
    if has_ambiguous_alias (first ∷ other ∷ [])
    then err alias_ambiguous
    else if all_matched ("/dev/sda1" ∷ []) (first ∷ other ∷ [])
    then ok (map (annotated lower ("/dev/sda1" ∷ []) (first ∷ other ∷ [])) (first ∷ other ∷ []))
    else err source_unmatched)
drives_exact_example = drives_exact lower ("/dev/sda1" ∷ []) (first ∷ other ∷ [])

abbrev reported : List PhysicalDrive
reported =
    map (annotated lower ("/dev/sda1" ∷ []) (first ∷ second ∷ other ∷ []))
      (first ∷ second ∷ other ∷ [])

parsed : parse_lsblk_json lower platform captured sources ≡ ok reported
unfolding parse_lsblk_json drives_of annotated repeated aliases sort parse_device attributes_of
    mountpoints_of major_minor_of strip is_space
parsed = refl

parse_lsblk_json-Discovered_example :
    (items : Items) × (devices : List BlockDevice) × (texts : List String) × Listing lower
      (platform.loads captured)
      items
    × (map parse_device (list_items items) ≡ map ok devices)
    × Accepted lower sources texts
    × Discovered lower texts devices reported
parse_lsblk_json-Discovered_example =
    parse_lsblk_json-Discovered lower platform captured sources reported parsed

parse_device-device_value_example : parse_device (device_value first) ≡ ok first
unfolding is_space
parse_device-device_value_example = parse_device-device_value first refl
