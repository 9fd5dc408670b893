-- ===== src/Platform.antt =====
-- What the authorization code takes from outside the repository: JSON text, SHA-256, and ISO-8601
-- timestamps. Instants are microseconds from Python's earliest datetime.
pub mod Laws
use Prim.Native.String.{◌++◌}
use drive_sanitization_manag.Prelude.{
  ℕ, String, List, Option, none, codes, strip, has_text, if◌then◌else◌,
}
use drive_sanitization_manag.Value.{Value}

pub record Platform : Type 1 where
  -- The bytes of a file, and their number.
  pub Bytes : Type 0
  pub size : Bytes → ℕ
  -- `json.dumps(document, sort_keys=True, ...).encode("utf-8")` with the closing newline.
  pub dumps : Value → Bytes
  -- `json.loads(raw.decode("utf-8"))`, none where either raises.
  pub loads : Bytes → Option Value
  -- The SHA-256 of the canonical JSON text, in hexadecimal.
  pub digest : Value → String
  -- The same of the JSON text that escapes what is not ASCII.
  pub digest_ascii : Value → String
  -- `datetime.fromisoformat` of a text whose `Z` is read as `+00:00`, in UTC; none where it raises
  -- or the text names no time zone.
  pub from_iso : List ℕ → Option ℕ
  -- `isoformat()` in UTC, `+00:00` written `Z`.
  pub iso : ℕ → String
  -- The same with `timespec="microseconds"`.
  pub iso_micro : ℕ → String

module _ (p : Platform) where
  -- `_canonical_hash`
  unfoldable pub canonical_hash : Value → String
  canonical_hash v = "sha256:" ++ p.digest v

  -- `_parse_utc`, none where it raises.
  unfoldable pub parse_utc : String → Option ℕ
  parse_utc s = if has_text (codes s) then p.from_iso (strip (codes s)) else none
