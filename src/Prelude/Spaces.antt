-- ===== src/Prelude/Spaces.antt =====
-- `strings.TrimSpace` of Go on native texts.
use Prim.Native.Nat.{ℕ}
use Prim.Native.Char.{Char, code}
use Prim.Native.String.{String, [], ◌∷◌}
use mathlib.Core.Bool.{Bool, ◌||◌, ◌&&◌}
use osm_device_adapter.Prelude.Tests.{if◌then◌else◌, leb, ◌==◌}

-- `unicode.IsSpace`
abbrev pub is_space : ℕ → Bool
is_space c =
    leb 9 c && leb c 13
    || c == 32
    || c == 0x85
    || c == 0xa0
    || c == 0x1680
    || leb 0x2000 c && leb c 0x200a
    || c == 0x2028
    || c == 0x2029
    || c == 0x202f
    || c == 0x205f
    || c == 0x3000

abbrev pub trim_left : String → String
trim_left [] = []
trim_left (c ∷ s) = let rest = trim_left s in if is_space (code c) then rest else c ∷ s

abbrev unless_blank : Char → String → String
unless_blank c [] = if is_space (code c) then [] else c ∷ []
unless_blank c (d ∷ s) = c ∷ d ∷ s

abbrev pub trim_right : String → String
trim_right [] = []
trim_right (c ∷ s) = unless_blank c (trim_right s)

unfoldable pub trim_space : String → String
trim_space s = trim_right (trim_left s)
