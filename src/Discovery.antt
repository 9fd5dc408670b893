-- ===== src/Discovery.antt =====
-- drive_discovery.py: block devices as `lsblk --json --bytes` reports them, and the physical drives that
-- are made of them. Each message of DiscoveryError is one constructor; the location and the names that a
-- message carries are left out.
pub mod Parse
pub mod Annotate
pub mod Keys
pub mod Duplicates
pub mod Shared
pub mod Sources
pub mod RoundTrip
mod Tests
use drive_sanitization_manag.Prelude.{ℕ, String, Bool, List, [], ◌∷◌, ◌++◌, Option}

pub data DiscoveryError : Type 0 where
  malformed not_an_object no_device_array device_invalid type_invalid : DiscoveryError
  children_invalid text_invalid major_minor_invalid bool_invalid size_invalid : DiscoveryError
  mountpoints_invalid sources_not_iterable sources_invalid : DiscoveryError
  alias_ambiguous source_ambiguous source_unmatched : DiscoveryError

-- The fields of BlockDevice but for its children. A parsed device has a type.
pub record Attributes : Type 0 where
  pub name : Option String
  pub kname : Option String
  pub path : Option String
  pub device_type : String
  pub major_minor : Option String
  pub size : Option ℕ
  pub model : Option String
  pub serial : Option String
  pub transport : Option String
  pub rotational : Option Bool
  pub removable : Option Bool
  pub read_only : Option Bool
  pub wwn : Option String
  pub parent_name : Option String
  pub filesystem_type : Option String
  pub mountpoints : Option (List (Option String))

mutual
  pub data BlockDevice : Type 0 where
    device : Attributes → Devices → BlockDevice

  pub data Devices : Type 0 where
    no_devices : Devices
    more : BlockDevice → Devices → Devices

abbrev pub attributes : BlockDevice → Attributes
attributes (device a children) = a

abbrev pub list_devices : Devices → List BlockDevice
list_devices no_devices = []
list_devices (more d ds) = d ∷ list_devices ds

-- `(device,) + device.descendants()`
abbrev mutual
  pub tree : BlockDevice → List BlockDevice
  tree (device a children) = device a children ∷ descendants children

  -- `BlockDevice.descendants`
  pub descendants : Devices → List BlockDevice
  descendants no_devices = []
  descendants (more d ds) = tree d ++ descendants ds
