-- ===== src/Skills/Slug.antt =====
-- internal/skills/package.go: slugify.
use toolhub.Common.{
  ℕ, Char, code, String, Bool, true, false, not, ◌&&◌, ◌||◌, ◌==◌, leb, eqb, if◌then◌else◌,
}
pub mod Shape
use toolhub.Common.Text.{trim_space, to_lower}

-- [a-z0-9]
abbrev pub is_slug_char : ℕ → Bool
is_slug_char n = (leb b'a' n && leb n b'z') || (leb b'0' n && leb n b'9')

abbrev hyphen : Char
hyphen = Prim.Native.Char.char 45 tt

-- ReplaceAllString of [^a-z0-9]+ by "-"; the flag says that a run of others has begun.
unfoldable pub dash_runs : Bool → String → String
dash_runs in_run String.[] = String.[]
dash_runs in_run (String.◌∷◌ c s) =
    let rest = dash_runs (not (is_slug_char (code c))) s in
    if is_slug_char (code c)
    then String.◌∷◌ c rest
    else if in_run
    then rest
    else String.◌∷◌ hyphen rest

-- strings.Trim(value, "-")
unfoldable pub trim_left_dash : String → String
trim_left_dash String.[] = String.[]
trim_left_dash (String.◌∷◌ c s) =
    let rest = trim_left_dash s in if eqb (code c) b'-' then rest else String.◌∷◌ c s

unfoldable pub trim_right_dash : String → String
trim_right_dash String.[] = String.[]
trim_right_dash (String.◌∷◌ c s) =
    let rest = trim_right_dash s in
    if eqb (code c) b'-' && rest == "" then String.[] else String.◌∷◌ c rest

-- slugify
unfoldable pub slugify : (Char → Char) → String → String
slugify unicode_lower name =
    let value =
      trim_right_dash
        (trim_left_dash (dash_runs false (to_lower unicode_lower (trim_space name)))) in
    if value == "" then "skill" else value
