-- ===== src/Collector/Tests.antt =====
-- Runs of the readings of the fixed commands, and their theorems at those.
use drive_sanitization_manag.Prelude.{
  ◌⊎◌, length, select, is_space, String, ◌≡◌, refl, [], ◌∷◌, All, some, ok, err,
}
use drive_sanitization_manag.Value.{
  Fields, list_items, Value, text, arr, obj, cons, nil, field, end, Items,
}
use drive_sanitization_manag.Samples.{platform}
use drive_sanitization_manag.Discovery.Parse.{get}
use drive_sanitization_manag.Collector.{
  CollectionError, unsupported_topology, real_entry, real_entries, check_pending, inspect,
  parse_real_sources, parse_root_source,
}
use drive_sanitization_manag.Collector.Weight.{total}
use drive_sanitization_manag.Collector.Topology.{Supported, check_pending-Supported}
use drive_sanitization_manag.Collector.Sources.{EntryCovered, is_root, parse_real_sources-Covered}

abbrev mount : String → String → Value
mount target source =
    obj (
      field "target" (text target)
        (field "source" (text source) (field "fstype" (text "ext4") end)))

abbrev mounts : Value
mounts = obj (
    field "filesystems"
      (arr (
        cons (mount "/" "/dev/sda1")
          (cons (mount "/var/log" "/dev/sdb1") (cons (mount "/data" "/dev/sdc1") nil))))
      end)

critical : parse_real_sources platform mounts "/dev/sda1" ≡ ok ("/dev/sdb1" ∷ [])
unfolding parse_real_sources real_entries real_entry is_space
critical = refl

root :
    parse_root_source platform
      (obj (field "filesystems" (arr (cons (mount "/" "/dev/sda1") nil)) end))
    ≡ ok "/dev/sda1"
unfolding parse_root_source is_space
root = refl

parse_real_sources-Covered_example :
    (fs : Fields) × (vs : Items) × (platform.loads mounts ≡ some (obj fs))
    × (get "filesystems" fs ≡ arr vs)
    × All (EntryCovered "/dev/sda1" ("/dev/sdb1" ∷ [])) (list_items vs)
    × (length (select is_root (list_items vs)) ≡ 1)
parse_real_sources-Covered_example =
    parse_real_sources-Covered platform mounts "/dev/sda1" ("/dev/sdb1" ∷ []) critical

abbrev mapped : Value
mapped = obj (field "type" (text "crypt") end)

abbrev disk : Value
disk = obj (
    field "type" (text "disk")
      (field "children" (arr (cons (obj (field "type" (text "part") end)) nil)) end))

encrypted :
    check_pending
      (λ s. s)
      9
      (disk ∷ obj (field "type" (text "disk") (field "children" (arr (cons mapped nil)) end)) ∷ [])
    ≡ some (err unsupported_topology)
unfolding check_pending inspect
encrypted = refl

check_pending-Supported_example :
    ((check_pending (λ s. s) (total (disk ∷ [])) (disk ∷ []) ≡ some (ok tt))
      × All (Supported (λ s. s)) (disk ∷ []))
    ⊎ ((e : CollectionError) × (check_pending (λ s. s) (total (disk ∷ [])) (disk ∷ [])
          ≡ some (err e))
        × ¬ All (Supported (λ s. s)) (disk ∷ []))
check_pending-Supported_example = check_pending-Supported (λ s. s) (disk ∷ [])
