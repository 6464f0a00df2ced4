-- ===== src/Common/Text/Count.antt =====
-- How many characters the functions on texts leave.
use Prim.Native.Nat.{ℕ, suc, ◌≤◌}
use Prim.Native.Char.{Char}
use Prim.Native.String.{String, len, count}
use mathlib.Core.Path.{◌≡◌, refl}
use mathlib.Core.Bool.{Bool, true, false, ◌&&◌}
use native.Mathlib.Omega.{arith}
use text.Mathlib.Text.{◌==◌}
use text.Mathlib.TextPositions.{len_utf8-pos}
use toolhub.Common.Tests.{if◌then◌else◌}
use toolhub.Common.Text.{is_space, lower_char, trim_left, trim_right, trim_space, to_lower}

abbrev pub count-cons : (c : Char) (s : String) → count (String.◌∷◌ c s) ≡ suc (count s)
count-cons = Prim.Native.String.count.cons

-- A character takes a byte at least.
pub count-len : (s : String) → count s ≤ len s
count-len String.[] = omega arith
count-len (String.◌∷◌ c s) =
    let (k, e) = len_utf8-pos c in
    omega (arith, count-len s, e, count-cons c s, Prim.Native.String.len.cons c s)

-- What a test picks has at most as many characters as both.
pub count-if_le :
    (b : Bool) (s t : String) {n : ℕ} → count s ≤ n → count t ≤ n → count (if b then s else t) ≤ n
count-if_le true s t h k = h
count-if_le false s t h k = k

count-trim_left : (s : String) → count (trim_left s) ≤ count s
unfolding trim_left
count-trim_left String.[] = omega arith
count-trim_left (String.◌∷◌ c s) =
    count-if_le (is_space c) (trim_left s) (String.◌∷◌ c s)
      (omega (arith, count-trim_left s, count-cons c s)) (omega arith)

count-trim_right : (s : String) → count (trim_right s) ≤ count s
unfolding trim_right
count-trim_right String.[] = omega arith
count-trim_right (String.◌∷◌ c s) =
    count-if_le (is_space c && trim_right s == "") String.[] (String.◌∷◌ c (trim_right s))
      (omega arith) (omega (arith, count-trim_right s, count-cons c s, count-cons c (trim_right s)))

pub count-trim_space : (s : String) → count (trim_space s) ≤ count s
unfolding trim_space
count-trim_space s = omega (arith, count-trim_left s, count-trim_right (trim_left s))

pub count-to_lower : (u : Char → Char) (s : String) → count (to_lower u s) ≡ count s
unfolding to_lower
count-to_lower u String.[] = refl
count-to_lower u (String.◌∷◌ c s) =
    omega (arith, count-to_lower u s, count-cons c s, count-cons (lower_char u c) (to_lower u s))
