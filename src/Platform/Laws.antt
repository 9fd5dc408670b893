-- ===== src/Platform/Laws.antt =====
-- What the code relies on of JSON, SHA-256 and ISO-8601 text, as they are documented.
use drive_sanitization_manag.Prelude.{
  String, ◌≡◌, Bool, true, false, ◌&&◌, some, codes, codes_le, ◌==ℕ◌, ◌==◌, not,
}
use drive_sanitization_manag.Value.{
  Value, null, bool, int, text, arr, obj, opaque, Items, nil, cons, Fields, end, field,
}
use drive_sanitization_manag.Platform.{Platform}
use drive_sanitization_manag.Auth.Text.{is_hex64}

-- The keys of a dict in the order of `sort_keys`, each once.
abbrev pub key_below : String → Fields → Bool
key_below k end = true
key_below k (field j v fs) = codes_le (codes k) (codes j) && not (j == k)

-- A value that JSON text holds exactly, its keys in order.
unfoldable mutual
  pub is_canonical : Value → Bool
  is_canonical null = true
  is_canonical (bool b) = true
  is_canonical (int n) = true
  is_canonical (text s) = true
  is_canonical (arr vs) = items_canonical vs
  is_canonical (obj fs) = fields_canonical fs
  is_canonical (opaque n) = false

  pub items_canonical : Items → Bool
  items_canonical nil = true
  items_canonical (cons v vs) = is_canonical v && items_canonical vs

  pub fields_canonical : Fields → Bool
  fields_canonical end = true
  fields_canonical (field k v fs) = key_below k fs && is_canonical v && fields_canonical fs

pub record Lawful (p : Platform) : Type 0 where
  -- What was written with `sort_keys` is read back.
  pub loads-dumps : (v : Value) → is_canonical v ≡ true → p.loads (p.dumps v) ≡ some v
  -- A document has bytes.
  pub dumps_nonempty : (v : Value) → (p.size (p.dumps v) ==ℕ 0) ≡ false
  -- A SHA-256 digest has 64 lower-case hexadecimal digits.
  pub digest_hex : (v : Value) → is_hex64 (codes (p.digest v)) ≡ true
