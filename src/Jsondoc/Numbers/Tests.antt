-- ===== src/Jsondoc/Numbers/Tests.antt =====
-- A map that contains itself, a nested number, and the edges of the safe range.
use declarion_sdk_go.Common.{ℕ, ◌≡◌, ◌⊎◌, refl, [], ◌∷◌, Bool, true, nat_Eq, arith, zero, suc}
use declarion_sdk_go.Common.Int.{pos, negsuc}
use declarion_sdk_go.Common.Text.{Bytes, codes}
use declarion_sdk_go.Common.Sorting.{contains}
use declarion_sdk_go.Jsondoc.Numbers.{
  scalar, interface_of, container, no_values, more_values, Scalar, signed, json_number, Heap,
  accepted, rejected, whole, ParsedFloat, parsed, valid_scalar, valid_json_number, valid_parsed,
  valid_float, is_zero_json_number, validate_value, validate_each, validate_inside,
  validate_numbers,
}
use declarion_sdk_go.Jsondoc.Numbers.Ends.{Holds, Fault, validate_numbers_ends}
use declarion_sdk_go.Jsondoc.Numbers.Walk.{visits_in, all_visits_in}

abbrev any_json : Bytes → Bool
any_json _ = true

abbrev as_zero : Bytes → ParsedFloat
as_zero _ = parsed (whole (pos 0))

-- the map at place 0 holds itself behind an interface, that at another place holds a number
abbrev looped : Heap
looped zero = more_values (interface_of (container 5 0)) no_values
looped (suc _) = more_values (scalar (signed (pos 7))) no_values

looped_visits : (place : ℕ) → all_visits_in (5 ∷ []) (looped place) ≡ true
unfolding visits_in all_visits_in contains
looped_visits zero = refl
looped_visits (suc place) = refl

looped_in : visits_in (5 ∷ []) (container 5 0) ≡ true
unfolding visits_in contains
looped_in = refl

validate_numbers_ends_example :
    ((validate_numbers any_json as_zero 1 looped (container 5 0) ≡ accepted)
      × ((s : Scalar) → Holds looped (container 5 0) s → valid_scalar any_json as_zero s ≡ true))
    ⊎ ((validate_numbers any_json as_zero 1 looped (container 5 0) ≡ rejected)
        × Fault any_json as_zero looped [] (container 5 0))
validate_numbers_ends_example =
    validate_numbers_ends any_json as_zero looped (5 ∷ []) (container 5 0) 1 looped_visits looped_in
      (omega arith)

a_cycle : validate_numbers any_json as_zero 1 looped (container 5 0) ≡ rejected
unfolding validate_numbers validate_inside validate_value validate_each contains
a_cycle = refl

no_cycle : validate_numbers any_json as_zero 1 looped (container 5 1) ≡ accepted
unfolding validate_numbers validate_inside validate_value validate_each contains valid_scalar
no_cycle = refl

-- the edges, and a number that becomes zero as a binary64
edges :
    (valid_scalar any_json as_zero (signed (pos 9007199254740991)) ≡ true)
    × (valid_scalar any_json as_zero (signed (negsuc 9007199254740990)) ≡ true)
    × (valid_scalar any_json as_zero (json_number (codes "0.00")) ≡ true)
unfolding valid_scalar valid_json_number valid_parsed valid_float is_zero_json_number
edges = (refl, refl, refl)
