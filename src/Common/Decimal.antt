-- ===== src/Common/Decimal.antt =====
-- strconv.FormatInt in base 10: the digits of a number, the last of them first.
use Prim.Native.Nat.{ℕ, zero, suc, ◌/◌, ◌%◌}
use Prim.Native.Char.{Char}
use Prim.Native.String.{String, char_at}
use mathlib.Core.Bool.{true, false}
use toolhub.Common.Tests.{ltb}

abbrev pub digit : ℕ → Char
digit d = char_at "0123456789" d

-- The fuel bounds the number of digits.
unfoldable pub digits : ℕ → ℕ → String → String
digits zero n out = out
digits (suc fuel) n out = elim (ltb n 10) [
  | true ↦ String.◌∷◌ (digit n) out
  | false ↦ digits fuel (n / 10) (String.◌∷◌ (digit (n % 10)) out)
]

unfoldable pub decimal : ℕ → String
decimal n = digits (suc n) n String.[]
