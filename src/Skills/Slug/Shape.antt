-- ===== src/Skills/Slug/Shape.antt =====
-- The shape of what slugify gives.
use Prim.Native.String.{count}
use toolhub.Common.{
  ◌≤◌, Char, code, String, Bool, true, false, not, ◌&&◌, ◌||◌, ◌≡◌, ◌⊎◌, refl, if-elim, ◌==◌,
  eq_iff, leb, eqb, arith, inl, inr,
}
use toolhub.Common.Text.{trim_space, to_lower, all_chars}
use toolhub.Common.Text.Count.{count-cons, count-if_le, count-trim_space, count-to_lower}
use toolhub.Skills.Slug.{hyphen, is_slug_char, dash_runs, trim_left_dash, trim_right_dash, slugify}
use toolhub.Protocol.Target.{slug_pattern}

-- [a-z0-9-], and no other character.
abbrev Slugs : String → Type 0
Slugs s = all_chars (λ n. is_slug_char n || eqb n b'-') s ≡ true

cons-Slugs :
    (c : Char) (s : String)
    → (is_slug_char (code c) || eqb (code c) b'-') ≡ true
    → Slugs s
    → Slugs (String.◌∷◌ c s)
unfolding all_chars
cons-Slugs c s h k = ground arith

head-Slugs :
    (c : Char) (s : String)
    → Slugs (String.◌∷◌ c s)
    → (is_slug_char (code c) || eqb (code c) b'-') ≡ true
unfolding all_chars
head-Slugs c s h = ground arith

tail-Slugs : (c : Char) (s : String) → Slugs (String.◌∷◌ c s) → Slugs s
unfolding all_chars
tail-Slugs c s h = ground arith

-- In a run or not, a run of other characters is a dash at most.
count-dash_runs : (b : Bool) (s : String) → count (dash_runs b s) ≤ count s
unfolding dash_runs
count-dash_runs b String.[] = omega arith
count-dash_runs b (String.◌∷◌ c s) =
    let rest = dash_runs (not (is_slug_char (code c))) s in
    let shorter = count-dash_runs (not (is_slug_char (code c))) s in
    let longer : count rest ≤ count (String.◌∷◌ c s) = omega (arith, shorter, count-cons c s) in
    count-if_le (is_slug_char (code c)) (String.◌∷◌ c rest) _
      (omega (arith, shorter, count-cons c s, count-cons c rest))
      (count-if_le b rest (String.◌∷◌ hyphen rest) longer
        (omega (arith, shorter, count-cons c s, count-cons hyphen rest)))

dash_runs-Slugs : (b : Bool) (s : String) → Slugs (dash_runs b s)
unfolding dash_runs all_chars
dash_runs-Slugs b String.[] = refl
dash_runs-Slugs b (String.◌∷◌ c s) =
    let rest = dash_runs (not (is_slug_char (code c))) s in
    let shaped = dash_runs-Slugs (not (is_slug_char (code c))) s in
    if-elim Slugs (is_slug_char (code c)) (λ e. cons-Slugs c rest (ground (arith, e)) shaped)
      λ e. if-elim Slugs b (λ _. shaped) λ _. cons-Slugs hyphen rest refl shaped

count-trim_left_dash : (s : String) → count (trim_left_dash s) ≤ count s
unfolding trim_left_dash
count-trim_left_dash String.[] = omega arith
count-trim_left_dash (String.◌∷◌ c s) =
    count-if_le (eqb (code c) b'-') (trim_left_dash s) (String.◌∷◌ c s)
      (omega (arith, count-trim_left_dash s, count-cons c s)) (omega arith)

count-trim_right_dash : (s : String) → count (trim_right_dash s) ≤ count s
unfolding trim_right_dash
count-trim_right_dash String.[] = omega arith
count-trim_right_dash (String.◌∷◌ c s) =
    count-if_le (eqb (code c) b'-' && trim_right_dash s == "") String.[]
      (String.◌∷◌ c (trim_right_dash s)) (omega arith)
      (omega (arith, count-trim_right_dash s, count-cons c s, count-cons c (trim_right_dash s)))

trim_left_dash-Slugs : (s : String) → Slugs s → Slugs (trim_left_dash s)
unfolding trim_left_dash
trim_left_dash-Slugs String.[] h = h
trim_left_dash-Slugs (String.◌∷◌ c s) h =
    if-elim Slugs (eqb (code c) b'-') (λ _. trim_left_dash-Slugs s (tail-Slugs c s h)) λ _. h

trim_right_dash-Slugs : (s : String) → Slugs s → Slugs (trim_right_dash s)
unfolding trim_right_dash all_chars
trim_right_dash-Slugs String.[] h = h
trim_right_dash-Slugs (String.◌∷◌ c s) h =
    if-elim Slugs (eqb (code c) b'-' && trim_right_dash s == "") (λ _. refl)
      λ _.
        cons-Slugs c (trim_right_dash s) (ground (arith, h))
          (trim_right_dash-Slugs s (tail-Slugs c s h))

-- No dash at the front.
abbrev Fronts : String → Type 0
Fronts String.[] = Unit
Fronts (String.◌∷◌ c s) = eqb (code c) b'-' ≡ false

trim_left_dash-Fronts : (s : String) → Fronts (trim_left_dash s)
unfolding trim_left_dash
trim_left_dash-Fronts String.[] = tt
trim_left_dash-Fronts (String.◌∷◌ c s) =
    if-elim Fronts (eqb (code c) b'-') (λ _. trim_left_dash-Fronts s) λ e. e

-- The tail of a slug may hold two characters more.
all_chars-Slugs :
    (s : String)
    → Slugs s
    → all_chars
        (λ n.
          (leb b'a' n && leb n b'z')
          || (leb b'0' n && leb n b'9')
          || eqb n b'.'
          || eqb n b'_'
          || eqb n b'-')
        s
      ≡ true
unfolding all_chars
all_chars-Slugs String.[] h = refl
all_chars-Slugs (String.◌∷◌ c s) h = ground (arith, h, all_chars-Slugs s (tail-Slugs c s h))

slug_pattern-cons :
    (c : Char) (s t : String)
    → Slugs (String.◌∷◌ c t)
    → eqb (code c) b'-' ≡ false
    → Slugs s
    → count s ≤ 127
    → slug_pattern (String.◌∷◌ c s) ≡ true
unfolding slug_pattern
slug_pattern-cons c s t h front shaped short =
    ground (arith, head-Slugs c t h, front, all_chars-Slugs s shaped, short)

-- A text of slug characters that does not begin with a dash is a slug or empty.
slug_pattern-trim_right_dash :
    (s : String)
    → Slugs s
    → Fronts s
    → count s ≤ 128
    → (trim_right_dash s ≡ "") ⊎ (slug_pattern (trim_right_dash s) ≡ true)
unfolding trim_right_dash
slug_pattern-trim_right_dash String.[] h front short = inl refl
slug_pattern-trim_right_dash (String.◌∷◌ c s) h front short =
    if-elim (λ t. (t ≡ "") ⊎ (slug_pattern t ≡ true)) (eqb (code c) b'-' && trim_right_dash s == "")
      (λ _. inl refl)
      λ _. inr (
        slug_pattern-cons c (trim_right_dash s) s h front
          (trim_right_dash-Slugs s (tail-Slugs c s h))
          (omega (arith, short, count-trim_right_dash s, count-cons c s)))

slug_pattern-skill : slug_pattern "skill" ≡ true
unfolding slug_pattern all_chars
slug_pattern-skill = refl

-- A slug is a slug of the bridge protocol, if the name has 128 characters at most.
pub slug_pattern-slugify :
    (u : Char → Char) (name : String) → count name ≤ 128 → slug_pattern (slugify u name) ≡ true
unfolding slugify
slug_pattern-slugify u name short =
    let dashed = dash_runs false (to_lower u (trim_space name)) in
    let value = trim_left_dash dashed in
    if-elim (λ t. slug_pattern t ≡ true) (trim_right_dash value == "") (λ _. slug_pattern-skill)
      λ e.
        elim (slug_pattern-trim_right_dash value
          (trim_left_dash-Slugs dashed (dash_runs-Slugs false (to_lower u (trim_space name))))
          (trim_left_dash-Fronts dashed)
          (omega (
            arith,
            short,
            count-trim_left_dash dashed,
            count-dash_runs false (to_lower u (trim_space name)),
            count-to_lower u (trim_space name),
            count-trim_space name,
          ))) [
            | inl empty ↦ absurd (ground (arith, e, empty, eq_iff (trim_right_dash value) ""))
            | inr good ↦ good
          ]
