-- ===== src/Auth/Text.antt =====
-- The text checks of sanitization_authorization.py.
use drive_sanitization_manag.Prelude.{
  ℕ, String, Bool, true, false, ◌&&◌, ◌||◌, not, Option, none, some, List, [], ◌∷◌, codes, strip,
  codes_eq, any, all, length, ltb, leb, ◌==ℕ◌, has_text, if◌then◌else◌,
}

-- `character in "0123456789abcdef"`
abbrev pub is_hex_digit : ℕ → Bool
is_hex_digit c = (leb b'0' c && leb c b'9') || (leb b'a' c && leb c b'f')

abbrev pub is_hex64 : List ℕ → Bool
is_hex64 s = length s ==ℕ 64 && all is_hex_digit s

-- What follows the prefix, none if the text does not begin with it.
abbrev pub drop_prefix : List ℕ → List ℕ → Option (List ℕ)
drop_prefix [] s = some s
drop_prefix (c ∷ p) [] = none
drop_prefix (c ∷ p) (d ∷ s) = if c ==ℕ d then drop_prefix p s else none

abbrev pub hex_suffix : Option (List ℕ) → Bool
hex_suffix none = false
hex_suffix (some rest) = is_hex64 rest

-- `_durable_prefixed_hex_id`
unfoldable pub prefixed_hex : String → String → Bool
prefixed_hex prefix s = hex_suffix (drop_prefix (codes prefix) (codes s))

-- `_synthetic_plan_hash_value`
unfoldable pub hash_value : String → Bool
unfolding prefixed_hex
hash_value s = prefixed_hex "sha256:" s

-- `_contains_forbidden_control`
abbrev pub has_control : List ℕ → Bool
has_control s = any (λ c. ltb c 32 || c ==ℕ 127) s

abbrev pub no_characters : List ℕ → Bool
no_characters [] = true
no_characters (c ∷ s) = false

-- `_synthetic_plan_exact_text`
unfoldable pub exact_text : String → Bool
unfolding strip
exact_text s =
    not (no_characters (codes s))
    && codes_eq (codes s) (strip (codes s))
    && not (has_control (codes s))

-- `_approval_text`
unfoldable pub approval_text : String → Bool
unfolding strip
approval_text s =
    has_text (codes s) && codes_eq (codes s) (strip (codes s)) && not (has_control (codes s))
