-- ===== src/Jsondoc/Budget.antt =====
-- jsondoc/budget.go: the structural estimate of a JSON document's decoded size. The tokens are what
-- the standard decoder hands out, in any order; the sizes are those of a 64-bit platform.
pub mod Estimate
pub mod Exact
pub mod Limit
pub mod Passed
mod Tests
use declarion_sdk_go.Common.{
  ℕ, ◌+◌, ◌-◌, ◌*◌, List, [], ◌∷◌, Bool, true, false, not, ◌||◌, ltb, length, if◌then◌else◌,
}
use declarion_sdk_go.Common.Int.{ℤ, pos, pos_part, leb_ℤ}
use declarion_sdk_go.Common.Text.{Bytes}
use declarion_sdk_go.Common.Result.{Result, ok, err, ◌>>=◌}

pub data BudgetError : Type 0 where
  over_limit invalid_json : BudgetError

abbrev pub interface_size : ℕ
interface_size = 16

abbrev pub map_size : ℕ
map_size = 8

abbrev pub slice_size : ℕ
slice_size = 24

abbrev pub string_size : ℕ
string_size = 16

abbrev pub bool_size : ℕ
bool_size = 1

abbrev pub float_size : ℕ
float_size = 8

abbrev pub word_size : ℕ
word_size = 8

pub data Scalar : Type 0 where
  string : Bytes → Scalar
  number : Scalar
  boolean : Bool → Scalar
  null : Scalar

pub data Token : Type 0 where
  open_object close_object open_array close_array : Token
  scalar : Scalar → Token

-- How the tokens end: `io.EOF`, or another error of the decoder.
pub data End : Type 0 where
  eof broken : End

-- `frame`: an object knows whether a key comes next
pub data Frame : Type 0 where
  object : (expect_key : Bool) → Frame
  array : Frame

-- The locals of `measureDecodedMemory`, the top of the stack first.
pub record State : Type 0 where
  pub stack : List Frame
  pub used : ℕ
  pub root_started : Bool
  pub root_complete : Bool

abbrev pub start : State
start = record { stack = []; used = 0; root_started = false; root_complete = false }

-- `charge`
unfoldable pub charge : ℕ → ℕ → State → Result BudgetError State
charge limit size s =
    if ltb limit size || ltb (limit - size) s.used
    then err over_limit
    else ok (record s { used = s.used + size })

-- `consumeValue`
abbrev pub consumed : List Frame → List Frame
consumed [] = []
consumed (object _ ∷ fs) = object true ∷ fs
consumed (array ∷ fs) = array ∷ fs

abbrev pub consume_value : State → State
consume_value s = record s { stack = consumed s.stack }

abbrev pub push : Frame → State → State
push f s = record s { stack = f ∷ s.stack }

-- `case '{', '['`, by the stack
enter : ℕ → List Frame → State → Result BudgetError State
enter limit [] s =
    if s.root_started then err invalid_json else ok (record s { root_started = true })
enter limit (_ ∷ _) s = do s' ← charge limit interface_size s; ok (consume_value s')

unfoldable pub open_container : ℕ → ℕ → Frame → State → Result BudgetError State
unfolding enter
open_container limit header frame s = do
  entered ← enter limit s.stack s
  charged ← charge limit header entered
  ok (push frame charged)

-- the stack without its top, and the root complete if nothing is left
unfoldable pub popped : List Frame → State → State
popped [] s = record s { stack = []; root_complete = true }
popped (f ∷ fs) s = record s { stack = f ∷ fs }

-- `case '}', ']'`
unfoldable pub close_container : (is_object : Bool) → List Frame → State → Result BudgetError State
unfolding popped
close_container is_object [] s = err invalid_json
close_container true (array ∷ fs) s = err invalid_json
close_container false (object _ ∷ fs) s = err invalid_json
close_container true (object expect_key ∷ fs) s =
    if not expect_key then err invalid_json else ok (popped fs s)
close_container false (array ∷ fs) s = ok (popped fs s)

-- a token where an object expects a key
unfoldable pub take_key : ℕ → Scalar → List Frame → State → Result BudgetError State
take_key limit (string key) fs s = do
  charged ← charge limit (string_size + interface_size + word_size + length key) s
  ok (record charged { stack = object false ∷ fs })
take_key limit number fs s = err invalid_json
take_key limit (boolean b) fs s = err invalid_json
take_key limit null fs s = err invalid_json

abbrev pub scalar_size : Scalar → ℕ
scalar_size (string value) = interface_size + (string_size + length value)
scalar_size number = interface_size + float_size
scalar_size (boolean b) = interface_size + bool_size
scalar_size null = interface_size

-- what comes before the charge of a scalar's own size
place : ℕ → List Frame → State → Result BudgetError State
place limit [] s =
    if s.root_started
    then err invalid_json
    else ok (record s { root_started = true; root_complete = true })
place limit (array ∷ fs) s = do
  charged ← charge limit (interface_size * 2) s
  ok (consume_value charged)
place limit (object _ ∷ fs) s = ok (consume_value s)

unfoldable pub take_value : ℕ → Scalar → State → Result BudgetError State
unfolding place
take_value limit v s = do placed ← place limit s.stack s; charge limit (scalar_size v) placed

unfoldable pub take_scalar : ℕ → Scalar → List Frame → State → Result BudgetError State
take_scalar limit v (object true ∷ fs) s = take_key limit v fs s
take_scalar limit v (object false ∷ fs) s = take_value limit v s
take_scalar limit v (array ∷ fs) s = take_value limit v s
take_scalar limit v [] s = take_value limit v s

-- the body of the loop
unfoldable pub step : ℕ → Token → State → Result BudgetError State
step limit open_object s = open_container limit map_size (object true) s
step limit open_array s = open_container limit slice_size array s
step limit close_object s = close_container true s.stack s
step limit close_array s = close_container false s.stack s
step limit (scalar v) s = take_scalar limit v s.stack s

-- behind the loop
unfoldable pub finish : End → List Frame → State → Result BudgetError ℕ
finish broken fs s = err invalid_json
finish eof (_ ∷ _) s = err invalid_json
finish eof [] s = if not s.root_started || not s.root_complete then err invalid_json else ok s.used

unfoldable pub run : ℕ → List Token → End → State → Result BudgetError ℕ
run limit [] e s = finish e s.stack s
run limit (t ∷ ts) e s = do s' ← step limit t s; run limit ts e s'

-- `measureDecodedMemory`
abbrev pub measure_within : ℕ → List Token → End → Result BudgetError ℕ
measure_within limit ts e = run limit ts e start

-- `MeasureDecodedMemory`
unfoldable pub measure : List Token → End → Result BudgetError ℕ
measure ts e = measure_within 9223372036854775807 ts e

-- `ValidateDecodedBudget`, for an input of `size` bytes that the decoder reads as these tokens: only
-- the error of the measure is kept
unfoldable pub validate_budget : (size : ℕ) → List Token → End → ℤ → Result BudgetError Unit
validate_budget size ts e budget =
    if leb_ℤ budget (pos 0)
    then err over_limit
    else if ltb (pos_part budget) size
    then err over_limit
    else elim (measure_within (pos_part budget) ts e) [ err failure ↦ err failure | ok _ ↦ ok tt ]
