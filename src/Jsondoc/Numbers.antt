-- ===== src/Jsondoc/Numbers.antt =====
-- jsondoc/numbers.go: whether every number of a Go value keeps its identity as a binary64.
--
-- A value is what reflection shows of it. A pointer, a map or a slice is its `containerVisit` (its
-- type and its address, one number here) and a place of the heap that lists the values in it, so a
-- value may contain itself, and two slices may share an address. A struct, a text or a Boolean is
-- `opaque`: the code does not look into it. Every error of the file wraps `ErrInvalidJSON`. A finite
-- binary64 is a whole number or is not; json.Valid and strconv.ParseFloat are parameters.
pub mod Walk
pub mod Ends
mod Tests
use declarion_sdk_go.Common.{
  ℕ, zero, suc, Option, none, some, List, [], ◌∷◌, Bool, true, false, not, ◌&&◌, ◌||◌, leb, ltb,
  nat_eq, nat_Eq, if◌then◌else◌,
}
use declarion_sdk_go.Common.Int.{ℤ, pos, negsuc, ltb_ℤ, eq_ℤ}
use declarion_sdk_go.Common.Text.{Bytes, is_digit}
use declarion_sdk_go.Common.Sorting.{contains}

pub data Float64 : Type 0 where
  not_finite fractional : Float64
  whole : ℤ → Float64

pub data Scalar : Type 0 where
  json_number : Bytes → Scalar
  signed : ℤ → Scalar
  unsigned : ℕ → Scalar
  floating : Float64 → Scalar
  complex_number : Scalar

mutual
  pub data GoValue : Type 0 where
    -- no value, a nil, or a kind that the code does not look into
    opaque : GoValue
    scalar : Scalar → GoValue
    interface_of : GoValue → GoValue
    array_of : GoValues → GoValue
    container : (visit place : ℕ) → GoValue

  pub data GoValues : Type 0 where
    no_values : GoValues
    more_values : GoValue → GoValues → GoValues

abbrev pub Heap : Type 0
Heap = ℕ → GoValues

-- `maxSafeJSONInteger`
abbrev pub max_safe_json_integer : ℕ
max_safe_json_integer = 9007199254740991

abbrev pub out_of_range : ℤ → Bool
out_of_range n = ltb_ℤ n (negsuc 9007199254740990) || ltb_ℤ (pos max_safe_json_integer) n

-- `validateFloat`: whether the value passes
unfoldable pub valid_float : Float64 → Bool
valid_float not_finite = false
valid_float fractional = true
valid_float (whole n) = not (out_of_range n)

-- the loop of `isZeroJSONNumber`
unfoldable pub is_zero_json_number : Bytes → Bool
is_zero_json_number [] = true
is_zero_json_number (c ∷ raw) =
    let rest = is_zero_json_number raw in
    if nat_eq c b'e' || nat_eq c b'E'
    then true
    else if leb b'1' c && leb c b'9'
    then false
    else rest

-- What strconv.ParseFloat gives: a value, also beside `ErrRange`, or another error.
pub data ParsedFloat : Type 0 where
  parsed : Float64 → ParsedFloat
  no_number : ParsedFloat

-- `validateJSONNumber` behind the test of the first byte
unfoldable pub valid_parsed : Bytes → ParsedFloat → Bool
valid_parsed raw no_number = false
valid_parsed raw (parsed not_finite) = false
valid_parsed raw (parsed fractional) = true
valid_parsed raw (parsed (whole n)) =
    if eq_ℤ n (pos 0) && not (is_zero_json_number raw) then false else valid_float (whole n)

-- `nil`, an error, or the fuel being used up
pub data Verdict : Type 0 where
  accepted rejected unfinished : Verdict

abbrev pub next_value : Verdict → Verdict → Verdict
next_value accepted rest = rest
next_value rejected rest = rejected
next_value unfinished rest = unfinished

module _ (valid_json : Bytes → Bool) (parse_float : Bytes → ParsedFloat) where
  unfoldable pub valid_json_number : Bytes → Bool
  valid_json_number [] = false
  valid_json_number (c ∷ raw) =
      if not (nat_eq c b'-') && not (is_digit c) || not (valid_json (c ∷ raw))
      then false
      else valid_parsed (c ∷ raw) (parse_float (c ∷ raw))

  -- the cases of one number
  unfoldable pub valid_scalar : Scalar → Bool
  valid_scalar (json_number raw) = valid_json_number raw
  valid_scalar (signed n) = not (out_of_range n)
  valid_scalar (unsigned n) = leb n max_safe_json_integer
  valid_scalar (floating x) = valid_float x
  valid_scalar complex_number = false

  -- The body of `validateNumbers`, with the visits on the way to the value; `deeper` is its call on
  -- the values in a container.
  unfoldable mutual
    pub validate_value :
        (deeper : (visiting : List ℕ) → GoValues → Verdict)
        → Heap
        → (visiting : List ℕ) → GoValue
        → Verdict
    validate_value deeper heap visiting opaque = accepted
    validate_value deeper heap visiting (scalar s) = if valid_scalar s then accepted else rejected
    validate_value deeper heap visiting (interface_of v) = validate_value deeper heap visiting v
    validate_value deeper heap visiting (array_of vs) = validate_each deeper heap visiting vs
    validate_value deeper heap visiting (container visit place) =
        if contains visiting visit then rejected else deeper (visit ∷ visiting) (heap place)

    pub validate_each :
        (deeper : (visiting : List ℕ) → GoValues → Verdict)
        → Heap
        → (visiting : List ℕ) → GoValues
        → Verdict
    validate_each deeper heap visiting no_values = accepted
    validate_each deeper heap visiting (more_values v vs) =
        next_value (validate_value deeper heap visiting v) (validate_each deeper heap visiting vs)

  -- The loops over the values in a container; each container on the way takes one of the fuel.
  unfoldable pub validate_inside : (fuel : ℕ) → Heap → (visiting : List ℕ) → GoValues → Verdict
  validate_inside zero heap visiting vs = unfinished
  validate_inside (suc fuel) heap visiting vs =
      validate_each (validate_inside fuel heap) heap visiting vs

  -- `ValidateNumbers`
  unfoldable pub validate_numbers : (fuel : ℕ) → Heap → GoValue → Verdict
  validate_numbers fuel heap v = validate_value (validate_inside fuel heap) heap [] v
