-- ===== src/Common/Text.antt =====
-- The parts of Go's `strings` and `regexp` that the program uses, over native texts.
-- `len` of the library counts the bytes of the UTF-8, as Go's does.
pub mod Count
use Prim.Native.Nat.{ℕ, ◌-◌}
use Prim.Native.Char.{Char, code}
use Prim.Native.String.{String, char_at, compare}
use mathlib.Core.Bool.{Bool, true, ◌&&◌, ◌||◌}
use text.Mathlib.Text.{◌==◌, starts_with, is_lt}
use toolhub.Common.Tests.{ltb, leb, eqb, if◌then◌else◌}

-- unicode.IsSpace
abbrev is_space : Char → Bool
is_space c =
    let n = code c in
    (leb 9 n && leb n 13)
    || eqb n 32
    || eqb n 0x85
    || eqb n 0xA0
    || eqb n 0x1680
    || (leb 0x2000 n && leb n 0x200A)
    || eqb n 0x2028
    || eqb n 0x2029
    || eqb n 0x202F
    || eqb n 0x205F
    || eqb n 0x3000

unfoldable pub trim_left : String → String
trim_left String.[] = String.[]
trim_left (String.◌∷◌ c s) = let rest = trim_left s in if is_space c then rest else String.◌∷◌ c s

unfoldable pub trim_right : String → String
trim_right String.[] = String.[]
trim_right (String.◌∷◌ c s) =
    let rest = trim_right s in if is_space c && rest == "" then String.[] else String.◌∷◌ c rest

-- strings.TrimSpace
unfoldable pub trim_space : String → String
unfolding trim_left trim_right
trim_space s = trim_right (trim_left s)

-- The lower case of a character. Above ASCII it is Unicode's case table, which is a parameter.
lower_char : (Char → Char) → Char → Char
lower_char unicode_lower c =
    let n = code c in
    if leb 65 n && leb n 90
    then char_at "abcdefghijklmnopqrstuvwxyz" (n - 65)
    else if ltb n 128
    then c
    else unicode_lower c

-- strings.ToLower
unfoldable pub to_lower : (Char → Char) → String → String
unfolding lower_char
to_lower u String.[] = String.[]
to_lower u (String.◌∷◌ c s) = String.◌∷◌ (lower_char u c) (to_lower u s)

-- The upper case of a character, as lower_char.
upper_char : (Char → Char) → Char → Char
upper_char unicode_upper c =
    let n = code c in
    if leb b'a' n && leb n b'z'
    then char_at "ABCDEFGHIJKLMNOPQRSTUVWXYZ" (n - b'a')
    else if ltb n 128
    then c
    else unicode_upper c

-- strings.ToUpper
unfoldable pub to_upper : (Char → Char) → String → String
unfolding upper_char
to_upper u String.[] = String.[]
to_upper u (String.◌∷◌ c s) = String.◌∷◌ (upper_char u c) (to_upper u s)

-- strings.Contains
unfoldable pub contains : String → String → Bool
contains String.[] p = starts_with String.[] p
contains (String.◌∷◌ c s) p = starts_with (String.◌∷◌ c s) p || contains s p

-- Every character has the property: the body of a character class under `*`.
unfoldable pub all_chars : (ℕ → Bool) → String → Bool
all_chars p String.[] = true
all_chars p (String.◌∷◌ c s) = p (code c) && all_chars p s

-- Go's `<` on strings: by bytes, which for UTF-8 is by code points.
abbrev pub text_lt : String → String → Bool
text_lt s t = is_lt (compare s t)
