-- ===== src/Base/Strings.antt =====
-- Texts as lists of code points: what the program uses of Go's `strings` and `unicode` packages.
use Prim.Native.Nat.{ℕ, ◌+◌}
use Prim.Native.Char.{code}
use Prim.Native.String.{String}
use mathlib.Core.Bool.{Bool, true, false, ◌&&◌, ◌||◌}
use mathlib.Core.List.{List, [], ◌∷◌, reverse}
use cyp_agent.Base.Tests.{ltb, leb, ◌==◌, if◌then◌else◌}

abbrev pub Text : Type 0
Text = List ℕ

abbrev pub codes : String → Text
codes String.[] = []
codes (String.◌∷◌ c s) = code c ∷ codes s

-- Whole texts compared.
abbrev pub text_eq : Text → Text → Bool
text_eq [] [] = true
text_eq [] (_ ∷ _) = false
text_eq (_ ∷ _) [] = false
text_eq (a ∷ s) (b ∷ t) = a == b && text_eq s t

-- `unicode.IsSpace`.
abbrev pub is_space : ℕ → Bool
is_space c =
    (leb 9 c && leb c 13)
    || c == 32
    || c == 0x85
    || c == 0xa0
    || c == 0x1680
    || (leb 0x2000 c && leb c 0x200a)
    || c == 0x2028
    || c == 0x2029
    || c == 0x202f
    || c == 0x205f
    || c == 0x3000

-- `strings.TrimLeftFunc(s, unicode.IsSpace)`.
unfoldable pub trim_left : Text → Text
trim_left [] = []
trim_left (c ∷ s) = let rest = trim_left s in if is_space c then rest else c ∷ s

-- `strings.TrimSpace`.
unfoldable pub trim_space : Text → Text
unfolding trim_left
trim_space s = reverse (trim_left (reverse (trim_left s)))

-- The bytes of the UTF-8 form of a code point, and `len` of a text.
abbrev pub rune_len : ℕ → ℕ
rune_len c = if ltb c 0x80 then 1 else if ltb c 0x800 then 2 else if ltb c 0x10000 then 3 else 4

abbrev pub byte_len : Text → ℕ
byte_len [] = 0
byte_len (c ∷ s) = rune_len c + byte_len s

abbrev pub is_digit : ℕ → Bool
is_digit c = leb b'0' c && leb c b'9'

-- `<` on texts: UTF-8 keeps the order of the code points.
abbrev pub text_lt : Text → Text → Bool
text_lt _ [] = false
text_lt [] (_ ∷ _) = true
text_lt (a ∷ s) (b ∷ t) = ltb a b || (a == b && text_lt s t)
