-- ===== src/Prelude/Text.antt =====
-- Python's `str`, as the native text where it is only compared, and as its code points where the
-- code walks its characters.
use Prim.Native.Nat.{ℕ}
use Prim.Native.Char.{code}
use Prim.Native.String.{String}
use mathlib.Core.Path.{◌≡◌, refl}
use mathlib.Core.Logic.{◌↔◌}
use mathlib.Core.Bool.{Bool, true, false, ◌&&◌, ◌||◌, not}
use mathlib.Core.List.{List, [], ◌∷◌, reverse}
use native.Mathlib.Omega.{arith}
use text.Mathlib.Text.{◌==◌}
use drive_sanitization_manag.Prelude.Tests.{ltb, leb, ◌==ℕ◌, if◌then◌else◌}
use drive_sanitization_manag.Prelude.Lists.{any}

abbrev pub codes : String → List ℕ
codes String.[] = []
codes (String.◌∷◌ c s) = code c ∷ codes s

-- The characters that `str.isspace` accepts, which `str.strip` removes.
unfoldable pub is_space : ℕ → Bool
is_space c =
    (leb 9 c && leb c 13)
    || (leb 28 c && leb c 32)
    || c ==ℕ 133
    || c ==ℕ 160
    || c ==ℕ 5760
    || (leb 8192 c && leb c 8202)
    || c ==ℕ 8232
    || c ==ℕ 8233
    || c ==ℕ 8239
    || c ==ℕ 8287
    || c ==ℕ 12288

abbrev pub lstrip : List ℕ → List ℕ
lstrip [] = []
lstrip (c ∷ s) = let rest = lstrip s in if is_space c then rest else c ∷ s

unfoldable pub strip : List ℕ → List ℕ
unfolding is_space
strip s = reverse (lstrip (reverse (lstrip s)))

-- `bool(value.strip())`: some character is no space.
abbrev pub has_text : List ℕ → Bool
has_text s = any (λ c. not (is_space c)) s

abbrev pub codes_eq : List ℕ → List ℕ → Bool
codes_eq [] [] = true
codes_eq [] (d ∷ t) = false
codes_eq (c ∷ s) [] = false
codes_eq (c ∷ s) (d ∷ t) = c ==ℕ d && codes_eq s t

-- Python's order of texts, by code points.
abbrev pub codes_le : List ℕ → List ℕ → Bool
codes_le [] t = true
codes_le (c ∷ s) [] = false
codes_le (c ∷ s) (d ∷ t) = ltb c d || (c ==ℕ d && codes_le s t)

pub codes_eq_iff : (s t : List ℕ) → (codes_eq s t ≡ true) ↔ (s ≡ t)
codes_eq_iff [] [] = ground arith
codes_eq_iff [] (d ∷ t) = ground arith
codes_eq_iff (c ∷ s) [] = ground arith
codes_eq_iff (c ∷ s) (d ∷ t) = ground (arith, codes_eq_iff s t)

pub codes_le_total : (s t : List ℕ) → codes_le s t ≡ false → codes_le t s ≡ true
codes_le_total [] t h = ground arith
codes_le_total (c ∷ s) [] h = refl
codes_le_total (c ∷ s) (d ∷ t) h = ground (arith, codes_le_total s t)

-- `value in {...}` over texts.
abbrev pub member : String → List String → Bool
member s ts = any (λ t. s == t) ts

-- `len(ids) != len(set(ids))`
abbrev pub has_duplicates : List String → Bool
has_duplicates [] = false
has_duplicates (s ∷ ss) = member s ss || has_duplicates ss

abbrev pub same_texts : List String → List String → Bool
same_texts [] [] = true
same_texts (s ∷ ss) (t ∷ ts) = s == t && same_texts ss ts
same_texts [] (t ∷ ts) = false
same_texts (s ∷ ss) [] = false
