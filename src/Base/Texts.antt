-- ===== src/Base/Texts.antt =====
-- What the language does with texts: identifiers are compared whole, and tested for being blank.
use Prim.Native.Nat.{ℕ}
use Prim.Native.Char.{code}
use Prim.Native.String.{String}
use mathlib.Core.Bool.{Bool, true, ◌&&◌, ◌||◌}
use mathlib.Core.Path.{◌≡◌}
use mathlib.Core.List.{List, [], ◌∷◌, reverse}
use native.Mathlib.Omega.{arith}
use text.Mathlib.Text.{◌==◌ as str_eq}
use text.Mathlib.TextEquality.{eq_iff}
use inkpi.Base.Tests.{leb, ◌==◌, if◌then◌else◌}

-- The code points that `trim` removes: white space and line terminators.
unfoldable pub is_space : ℕ → Bool
is_space c =
    (leb 9 c && leb c 13)
    || c == 32
    || c == 160
    || c == 0x1680
    || (leb 0x2000 c && leb c 0x200a)
    || c == 0x2028
    || c == 0x2029
    || c == 0x202f
    || c == 0x205f
    || c == 0x3000
    || c == 0xfeff

-- `!s.trim()`
unfoldable pub is_blank : String → Bool
unfolding is_space
is_blank String.[] = true
is_blank (String.◌∷◌ c s) = is_space (code c) && is_blank s

pub str_eq→eq : (s t : String) → str_eq s t ≡ true → s ≡ t
str_eq→eq s t h = ground (arith, eq_iff s t)

pub eq→str_eq : (s t : String) → s ≡ t → str_eq s t ≡ true
eq→str_eq s t h = ground (arith, eq_iff s t)

-- `trim` on code units: white space and line terminators are one unit each.
unfoldable pub trim_start : List ℕ → List ℕ
trim_start [] = []
trim_start (unit ∷ text) = if is_space unit then trim_start text else unit ∷ text

unfoldable pub trim : List ℕ → List ℕ
trim text = reverse (trim_start (reverse (trim_start text)))
