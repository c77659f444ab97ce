-- ===== src/Common/Text.antt =====
-- A Go string in two forms: the native `String` where whole texts are compared, and its code points
-- where the program walks its bytes (the two agree on ASCII text, which is all that is walked).
use Prim.Native.Nat.{ℕ, zero, suc, ◌+◌, ◌-◌, ◌*◌}
use Prim.Native.Char.{code}
use Prim.Native.String.{String}
use mathlib.Core.Bool.{Bool, ◌&&◌}
use mathlib.Core.List.{List, [], ◌∷◌}
use mathlib.Core.Option.{Option, none, some}
use declarion_sdk_go.Common.Tests.{leb, nat_eq, if◌then◌else◌}
use declarion_sdk_go.Common.Int.{ℤ, pos, negsuc}

abbrev pub Bytes : Type 0
Bytes = List ℕ

abbrev pub codes : String → Bytes
codes String.[] = []
codes (String.◌∷◌ c s) = code c ∷ codes s

abbrev pub is_digit : ℕ → Bool
is_digit c = leb b'0' c && leb c b'9'

-- the value of a run of decimal digits behind `acc`
pub digits_value : ℕ → Bytes → Option ℕ
digits_value acc [] = some acc
digits_value acc (c ∷ cs) =
    let rest = digits_value (acc * 10 + (c - b'0')) cs in if is_digit c then rest else none

-- one digit at least
pub decimal : Bytes → Option ℕ
decimal [] = none
decimal (c ∷ cs) = digits_value 0 (c ∷ cs)

-- the number -n, and none below the least `int64`
abbrev negated : ℕ → Option ℤ
negated zero = some (pos 0)
negated (suc n) = if leb n 9223372036854775807 then some (negsuc n) else none

abbrev not_negated : ℕ → Option ℤ
not_negated n = if leb n 9223372036854775807 then some (pos n) else none

-- `strconv.ParseInt(s, 10, 64)`: `none` is its error
unfoldable pub parse_int64 : Bytes → Option ℤ
unfolding digits_value decimal
parse_int64 [] = none
parse_int64 (c ∷ cs) =
    if nat_eq c b'-'
    then elim (decimal cs) [ none ↦ none | some n ↦ negated n ]
    else if nat_eq c b'+'
    then elim (decimal cs) [ none ↦ none | some n ↦ not_negated n ]
    else elim (decimal (c ∷ cs)) [ none ↦ none | some n ↦ not_negated n ]
