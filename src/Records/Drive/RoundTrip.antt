-- ===== src/Records/Drive/RoundTrip.antt =====
-- About `DriveRecord.from_dict` on a record's own dict.
use drive_sanitization_manag.Prelude.{◌≡◌, ok}
use drive_sanitization_manag.Value.{obj}
use drive_sanitization_manag.Records.Drive.{DriveRecord, asdict, validate}
use drive_sanitization_manag.Records.Drive.Json.{from_dict}

pub from_dict-asdict : (d : DriveRecord) → validate d ≡ ok tt → from_dict (obj (asdict d)) ≡ ok d
unfolding from_dict
from_dict-asdict d v = rw v
