-- ===== src/Common/Path.antt =====
-- Go's package `path`: slash-separated paths.
use Prim.Native.Char.{Char, code}
use Prim.Native.String.{String, ◌++◌}
use mathlib.Core.Bool.{Bool, true, false, ◌||◌}
use mathlib.Core.List.{List, [], ◌∷◌, reverse}
use text.Mathlib.Text.{◌==◌, starts_with}
use toolhub.Common.Tests.{eqb, if◌then◌else◌}

unfoldable pub push_char : Char → List String → List String
push_char c [] = String.◌∷◌ c String.[] ∷ []
push_char c (x ∷ xs) = String.◌∷◌ c x ∷ xs

-- The segments between the slashes.
unfoldable pub split_path : String → List String
split_path String.[] = "" ∷ []
split_path (String.◌∷◌ c s) =
    let rest = split_path s in if eqb (code c) b'/' then "" ∷ rest else push_char c rest

-- `..` takes a segment back. Above the root it is dropped, above a relative start it is kept.
drop_segment : Bool → List String → List String
drop_segment true [] = []
drop_segment false [] = ".." ∷ []
drop_segment rooted (x ∷ acc) = if x == ".." then ".." ∷ x ∷ acc else acc

-- The segments that are kept, last first.
clean_segments : Bool → List String → List String → List String
unfolding drop_segment
clean_segments rooted acc [] = acc
clean_segments rooted acc (x ∷ xs) =
    clean_segments rooted
      (if x == "" || x == "." then acc else if x == ".." then drop_segment rooted acc else x ∷ acc)
      xs

join_segments : List String → String
join_segments [] = ""
join_segments (x ∷ []) = x
join_segments (x ∷ y ∷ xs) = x ++ ("/" ++ join_segments (y ∷ xs))

-- path.IsAbs
abbrev pub is_abs : String → Bool
is_abs p = starts_with p "/"

-- path.Clean
unfoldable pub clean : String → String
unfolding split_path push_char clean_segments join_segments
clean p =
    let joined = join_segments (reverse (clean_segments (is_abs p) [] (split_path p))) in
    if is_abs p then "/" ++ joined else if joined == "" then "." else joined
