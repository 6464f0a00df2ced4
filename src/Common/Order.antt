-- ===== src/Common/Order.antt =====
-- The order of texts, which is Go's `<` on strings.
use Prim.Native.Char.{Char, code}
use Prim.Native.Nat.{Ordering, compare as compare_ℕ}
use Prim.Native.String.compare
use Prim.Native.String.{String, compare, then}
use toolhub.Common.Tests.{ltb, eqb}
use toolhub.Common.Text.{text_lt}
use mathlib.Core.Path.{◌≡◌, refl, ap, ◌∙◌}
use mathlib.Core.Bool.{true, false, ◌&&◌, ◌||◌}
use text.Mathlib.Text.{is_lt}
use native.Mathlib.Omega.{arith}

then-lt :
    (o r : Ordering)
    → is_lt (then o r) ≡ (
        (elim o [ Ordering.lt ↦ true | _ ↦ false ])
        || ((elim o [ Ordering.eq ↦ true | _ ↦ false ]) && is_lt r))
then-lt Ordering.lt r = refl
then-lt Ordering.eq r = refl
then-lt Ordering.gt r = refl

text_lt-cons :
    (c d : Char) (s t : String)
    → text_lt (String.◌∷◌ c s) (String.◌∷◌ d t)
      ≡ (ltb (code c) (code d) || (eqb (code c) (code d) && text_lt s t))
text_lt-cons c d s t =
    ap is_lt (compare.cons-cons c d s t) ∙ then-lt (compare_ℕ (code c) (code d)) (compare s t)

text_lt-nil : (s : String) → text_lt s String.[] ≡ false
text_lt-nil String.[] = refl
text_lt-nil (String.◌∷◌ c s) = ap is_lt (compare.cons-nil c s)

nil-text_lt : (c : Char) (s : String) → text_lt String.[] (String.◌∷◌ c s) ≡ true
nil-text_lt c s = ap is_lt (compare.nil-cons c s)

pub text_lt_irrefl : (s : String) → text_lt s s ≡ false
text_lt_irrefl String.[] = refl
text_lt_irrefl (String.◌∷◌ c s) = ground (arith, text_lt-cons c c s s, text_lt_irrefl s)

pub text_lt_asymm : (s t : String) → text_lt s t ≡ true → text_lt t s ≡ false
text_lt_asymm s String.[] h = absurd (ground (arith, h, text_lt-nil s))
text_lt_asymm String.[] (String.◌∷◌ d t) h = text_lt-nil (String.◌∷◌ d t)
text_lt_asymm (String.◌∷◌ c s) (String.◌∷◌ d t) h =
    ground (arith, h, text_lt-cons c d s t, text_lt-cons d c t s, text_lt_asymm s t)

-- What is not below a text that is not below another is not below that one.
pub text_lt_trans_false :
    (s t u : String) → text_lt t s ≡ false → text_lt u t ≡ false → text_lt u s ≡ false
text_lt_trans_false String.[] t u h k = text_lt-nil u
text_lt_trans_false (String.◌∷◌ c s) String.[] u h k = absurd (ground (arith, h, nil-text_lt c s))
text_lt_trans_false (String.◌∷◌ c s) (String.◌∷◌ d t) String.[] h k =
    absurd (ground (arith, k, nil-text_lt d t))
text_lt_trans_false (String.◌∷◌ c s) (String.◌∷◌ d t) (String.◌∷◌ e u) h k = ground (
  arith,
  h,
  k,
  text_lt-cons d c t s,
  text_lt-cons e d u t,
  text_lt-cons e c u s,
  text_lt_trans_false s t u,
)
