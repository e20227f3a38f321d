-- ===== src/Base/Ascii.antt =====
-- Case folding of ASCII texts, and decimal numbers.
use Prim.Native.Nat.{ℕ, zero, suc, ◌+◌, ◌/◌, ◌%◌}
use Prim.Native.String
use Prim.Native.String.{String}
use mathlib.Core.Bool.{◌&&◌}
use mathlib.Core.List.{List, [], ◌∷◌, map}
use api_gateway_go.Base.Tests.{ltb, leb, if◌then◌else◌}
use api_gateway_go.Base.Lists.{Bytes}

unfoldable pub lower : ℕ → ℕ
lower c = if leb b'A' c && leb c b'Z' then c + 32 else c

-- `strings.ToLower`
unfoldable pub to_lower : Bytes → Bytes
unfolding lower
to_lower s = map lower s

abbrev nth_text : List String → ℕ → String
nth_text [] n = ""
nth_text (s ∷ ss) zero = s
nth_text (s ∷ ss) (suc n) = nth_text ss n

abbrev digit : ℕ → String
digit d = nth_text ("0" ∷ "1" ∷ "2" ∷ "3" ∷ "4" ∷ "5" ∷ "6" ∷ "7" ∷ "8" ∷ "9" ∷ []) d

-- The digits of a number below 10 ^ `width`.
unfoldable pub digits : ℕ → ℕ → String
digits zero n = ""
digits (suc width) n =
    let longer = String.◌++◌ (digits width (n / 10)) (digit (n % 10)) in
    if ltb n 10 then digit n else longer

-- `strconv.Itoa` of a natural number of 64 bits.
unfoldable pub itoa : ℕ → String
unfolding digits
itoa n = digits 20 n
