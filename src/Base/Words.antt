-- ===== src/Base/Words.antt =====
-- `TrimSpace`, `Split` at a byte and `TrimSuffix` of the package strings.
use Prim.Native.Nat.{ℕ, zero, suc, ◌-◌}
use mathlib.Core.Bool.{Bool, true, false, ◌||◌, ◌&&◌}
use mathlib.Core.List.{List, [], ◌∷◌, ◌++◌, reverse}
use yyckv.Base.Tests.{ltb, leb, ◌==◌, if◌then◌else◌}
use yyckv.Base.Lists.{length, drop}
use yyckv.Base.Strings.{Text, same_text}
pub mod Split

-- The encodings of white space in one, two and three bytes.
abbrev is_space1 : ℕ → Bool
is_space1 a = a == 32 || (leb 9 a && leb a 13)

abbrev is_space2 : ℕ → ℕ → Bool
is_space2 a b = a == 0xC2 && (b == 0x85 || b == 0xA0)

abbrev is_space3 : ℕ → ℕ → ℕ → Bool
is_space3 a b c =
    (a == 0xE1 && (b == 0x9A && c == 0x80))
    || (a == 0xE2
        && (b == 0x80 && ((leb 0x80 c && leb c 0x8A) || (c == 0xA8 || (c == 0xA9 || c == 0xAF)))))
    || (a == 0xE2 && (b == 0x81 && c == 0x9F))
    || (a == 0xE3 && (b == 0x80 && c == 0x80))

-- How many bytes of white space are in front; `backwards` reads a text whose bytes are reversed.
abbrev pub space_width : Bool → Text → ℕ
space_width backwards (a ∷ b ∷ c ∷ s) =
    if is_space1 a
    then 1
    else if (if backwards then is_space2 b a else is_space2 a b)
    then 2
    else if (if backwards then is_space3 c b a else is_space3 a b c)
    then 3
    else 0
space_width backwards (a ∷ b ∷ []) =
    if is_space1 a then 1 else if (if backwards then is_space2 b a else is_space2 a b) then 2 else 0
space_width backwards (a ∷ []) = if is_space1 a then 1 else 0
space_width backwards [] = 0

-- `skip` bytes are left of the white space that is read.
unfoldable pub trim_front : Bool → ℕ → Text → Text
trim_front backwards skip [] = []
trim_front backwards (suc skip) (c ∷ s) = trim_front backwards skip s
trim_front backwards zero (c ∷ s) =
    let width = space_width backwards (c ∷ s) in
    let rest = trim_front backwards (width - 1) s in if width == 0 then c ∷ s else rest

unfoldable pub trim_space : Text → Text
unfolding trim_front
trim_space t = reverse (trim_front true 0 (reverse (trim_front false 0 t)))

-- The first part, and the others.
unfoldable pub split : ℕ → Text → Text × List Text
split sep [] = ([], [])
split sep (c ∷ s) =
    let rest = split sep s in if c == sep then ([], rest.0 ∷ rest.1) else (c ∷ rest.0, rest.1)

-- A text without a suffix of one byte.
unfoldable pub trim_suffix : Text → ℕ → Text
trim_suffix [] c = []
trim_suffix (b ∷ []) c = if b == c then [] else b ∷ []
trim_suffix (b ∷ s) c = b ∷ trim_suffix s c

abbrev pub join_more : ℕ → List Text → Text
join_more sep [] = []
join_more sep (w ∷ ws) = sep ∷ (w ++ join_more sep ws)

-- `Join` with a separator of one byte.
abbrev pub join : ℕ → List Text → Text
join sep [] = []
join sep (w ∷ ws) = w ++ join_more sep ws
