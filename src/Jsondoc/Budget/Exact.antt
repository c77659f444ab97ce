-- ===== src/Jsondoc/Budget/Exact.antt =====
-- The loop of the estimate over the tokens of a document.
use declarion_sdk_go.Common.{
  ℕ, ◌+◌, ◌*◌, ◌≤◌, List, [], ◌∷◌, true, false, leb, length, if◌then◌else◌, ◌≡◌, refl, ap, ◌∙◌,
  arith,
}
use declarion_sdk_go.Common.Text.{Bytes}
use declarion_sdk_go.Common.Result.{Result, ok, err, ◌>>=◌}
use declarion_sdk_go.Jsondoc.Budget.{
  BudgetError, over_limit, Scalar, string, Token, End, Frame, object, array, State, start, charge,
  consumed, open_container, popped, close_container, take_key, take_value, take_scalar, step,
  measure_within, finish, run, interface_size, map_size, slice_size, string_size, word_size,
  scalar_size,
}
use declarion_sdk_go.Jsondoc.Budget.Estimate.{
  Value, leaf, listing, members, Items, no_items, item, Fields, no_fields, field, emit, emit_items,
  emit_fields, cost, item_cost, member_cost, items_cost, fields_cost,
}

-- a continuation that is reached only within the limit
abbrev within : (limit total : ℕ) → Result BudgetError ℕ → Result BudgetError ℕ
within limit total k = if leb total limit then k else err over_limit

abbrev after : ℕ → State → State
after n s = record s { used = s.used + n }

within-within :
    (limit m n : ℕ) (k : Result BudgetError ℕ)
    → m ≤ n
    → within limit m (within limit n k) ≡ within limit n k
within-within limit m n k le = ground arith

charge-within :
    (limit size : ℕ) (s : State)
    → charge limit size s
      ≡ (if leb (s.used + size) limit then ok (after size s) else err over_limit)
unfolding charge
charge-within limit size s = ground arith

-- `s` in the midst of a container
abbrev inside : Frame → List Frame → ℕ → State
inside f fs used = record {
  stack = f ∷ fs;
  used = used;
  root_started = true;
  root_complete = false;
}

leaf-item :
    (limit : ℕ) (v : Scalar) (fs : List Frame) (used : ℕ) (ts : List Token) (e : End)
    → run limit (Token.scalar v ∷ ts) e (inside array fs used)
      ≡ within limit
          (used + (interface_size * 2 + scalar_size v))
          (run limit ts e (inside array fs (used + (interface_size * 2 + scalar_size v))))
unfolding run step take_scalar take_value charge
leaf-item limit v fs used ts e = ground arith

leaf-member :
    (limit : ℕ) (v : Scalar) (fs : List Frame) (used : ℕ) (ts : List Token) (e : End)
    → run limit (Token.scalar v ∷ ts) e (inside (object false) fs used)
      ≡ within limit
          (used + scalar_size v)
          (run limit ts e (inside (object true) fs (used + scalar_size v)))
unfolding run step take_scalar take_value charge
leaf-member limit v fs used ts e = ground arith

abbrev key_cost : Bytes → ℕ
key_cost name = string_size + interface_size + word_size + length name

key_token :
    (limit : ℕ) (name : Bytes) (fs : List Frame) (used : ℕ) (ts : List Token) (e : End)
    → run limit (Token.scalar (string name) ∷ ts) e (inside (object true) fs used)
      ≡ within limit
          (used + key_cost name)
          (run limit ts e (inside (object false) fs (used + key_cost name)))
unfolding run step take_scalar take_key charge
key_token limit name fs used ts e = ground arith

-- the frame of a container, and the frame after a value of a frame
abbrev header_of : Frame → ℕ
header_of (object b) = map_size
header_of array = slice_size

open_token :
    (limit : ℕ) (opened f : Frame) (fs : List Frame) (used : ℕ) (ts : List Token) (e : End)
    → (open_container limit (header_of opened) opened (inside f fs used) >>= λ s. run limit ts e s)
      ≡ within limit (used + (interface_size + header_of opened)) (
          run limit ts e (record (inside opened [] (used + (interface_size + header_of opened))) {
            stack = opened ∷ consumed (f ∷ fs);
          }))
unfolding open_container charge
open_token limit (object b) (object c) fs used ts e = ground arith
open_token limit (object b) array fs used ts e = ground arith
open_token limit array (object c) fs used ts e = ground arith
open_token limit array array fs used ts e = ground arith

open_array_token :
    (limit : ℕ) (f : Frame) (fs : List Frame) (used : ℕ) (ts : List Token) (e : End)
    → run limit (Token.open_array ∷ ts) e (inside f fs used)
      ≡ within limit (used + (interface_size + slice_size)) (
          run limit ts e (record (inside array [] (used + (interface_size + slice_size))) {
            stack = array ∷ consumed (f ∷ fs);
          }))
unfolding run step
open_array_token limit f fs used ts e = open_token limit array f fs used ts e

open_object_token :
    (limit : ℕ) (f : Frame) (fs : List Frame) (used : ℕ) (ts : List Token) (e : End)
    → run limit (Token.open_object ∷ ts) e (inside f fs used)
      ≡ within limit (used + (interface_size + map_size)) (
          run limit ts e (record (inside array [] (used + (interface_size + map_size))) {
            stack = object true ∷ consumed (f ∷ fs);
          }))
unfolding run step
open_object_token limit f fs used ts e = open_token limit (object true) f fs used ts e

-- what is left when a container closes
abbrev closed : List Frame → ℕ → State
closed fs used = record {
  stack = fs;
  used = used;
  root_started = true;
  root_complete = elim fs [ [] ↦ true | _ ∷ _ ↦ false ];
}

close_array_token :
    (limit : ℕ) (fs : List Frame) (used : ℕ) (ts : List Token) (e : End)
    → run limit (Token.close_array ∷ ts) e (inside array fs used) ≡ run limit ts e (closed fs used)
unfolding run step close_container popped
close_array_token limit [] used ts e = refl
close_array_token limit (f ∷ fs) used ts e = refl

close_object_token :
    (limit : ℕ) (fs : List Frame) (used : ℕ) (ts : List Token) (e : End)
    → run limit (Token.close_object ∷ ts) e (inside (object true) fs used)
      ≡ run limit ts e (closed fs used)
unfolding run step close_container popped
close_object_token limit [] used ts e = refl
close_object_token limit (f ∷ fs) used ts e = refl

-- Going on in a state, if the limit allows what is used in it.
abbrev go_on : ℕ → List Token → End → State → Result BudgetError ℕ
go_on limit ts e s = within limit s.used (run limit ts e s)

go_on-run :
    (limit m n : ℕ) (k : Result BudgetError ℕ) {r : Result BudgetError ℕ}
    → r ≡ within limit n k
    → m ≤ n
    → within limit m r ≡ within limit n k
go_on-run limit m n k h le = ap (within limit m) h ∙ within-within limit m n k le

go_on_at :
    (limit : ℕ) (ts : List Token) (e : End) (f : Frame) (fs : List Frame) {m n : ℕ}
    → m ≡ n
    → go_on limit ts e (inside f fs m) ≡ go_on limit ts e (inside f fs n)
go_on_at limit ts e f fs p = ap (λ u. go_on limit ts e (inside f fs u)) p

go_on_closed :
    (limit : ℕ) (ts : List Token) (e : End) (fs : List Frame) {m n : ℕ}
    → m ≡ n
    → go_on limit ts e (closed fs m) ≡ go_on limit ts e (closed fs n)
go_on_closed limit ts e fs p = ap (λ u. go_on limit ts e (closed fs u)) p

mutual
  unfolding emit item_cost member_cost items_cost fields_cost

  item-run :
      (limit : ℕ) (v : Value) (fs : List Frame) (used : ℕ) (ts : List Token) (e : End)
      → run limit (emit v ts) e (inside array fs used)
        ≡ go_on limit ts e (inside array fs (used + item_cost v))
  item-run limit (leaf v) fs used ts e = leaf-item limit v fs used ts e
  item-run limit (listing vs) fs used ts e =
      open_array_token limit array fs used (emit_items vs ts) e
      ∙ items-run limit vs (array ∷ fs) (used + (interface_size + slice_size)) ts e
      ∙ go_on_at limit ts e array fs (omega arith)
  item-run limit (members ms) fs used ts e =
      open_object_token limit array fs used (emit_fields ms ts) e
      ∙ fields-run limit ms (array ∷ fs) (used + (interface_size + map_size)) ts e
      ∙ go_on_at limit ts e array fs (omega arith)

  member-run :
      (limit : ℕ) (v : Value) (fs : List Frame) (used : ℕ) (ts : List Token) (e : End)
      → run limit (emit v ts) e (inside (object false) fs used)
        ≡ go_on limit ts e (inside (object true) fs (used + member_cost v))
  member-run limit (leaf v) fs used ts e = leaf-member limit v fs used ts e
  member-run limit (listing vs) fs used ts e =
      open_array_token limit (object false) fs used (emit_items vs ts) e
      ∙ items-run limit vs (object true ∷ fs) (used + (interface_size + slice_size)) ts e
      ∙ go_on_at limit ts e (object true) fs (omega arith)
  member-run limit (members ms) fs used ts e =
      open_object_token limit (object false) fs used (emit_fields ms ts) e
      ∙ fields-run limit ms (object true ∷ fs) (used + (interface_size + map_size)) ts e
      ∙ go_on_at limit ts e (object true) fs (omega arith)

  items-run :
      (limit : ℕ) (vs : Items) (fs : List Frame) (used : ℕ) (ts : List Token) (e : End)
      → go_on limit (emit_items vs ts) e (inside array fs used)
        ≡ go_on limit ts e (closed fs (used + items_cost vs))
  items-run limit no_items fs used ts e =
      ap (within limit used) (close_array_token limit fs used ts e)
      ∙ go_on_closed limit ts e fs (omega arith)
  items-run limit (item v vs) fs used ts e =
      go_on-run limit used (used + item_cost v) _ (item-run limit v fs used (emit_items vs ts) e)
        (omega arith)
      ∙ items-run limit vs fs (used + item_cost v) ts e
      ∙ go_on_closed limit ts e fs (omega arith)

  fields-run :
      (limit : ℕ) (ms : Fields) (fs : List Frame) (used : ℕ) (ts : List Token) (e : End)
      → go_on limit (emit_fields ms ts) e (inside (object true) fs used)
        ≡ go_on limit ts e (closed fs (used + fields_cost ms))
  fields-run limit no_fields fs used ts e =
      ap (within limit used) (close_object_token limit fs used ts e)
      ∙ go_on_closed limit ts e fs (omega arith)
  fields-run limit (field name v ms) fs used ts e =
      go_on-run limit used (used + key_cost name) _
        (key_token limit name fs used (emit v (emit_fields ms ts)) e) (omega arith)
      ∙ go_on-run limit (used + key_cost name) (used + key_cost name + member_cost v) _
          (member-run limit v fs (used + key_cost name) (emit_fields ms ts) e) (omega arith)
      ∙ fields-run limit ms fs (used + key_cost name + member_cost v) ts e
      ∙ go_on_closed limit ts e fs (omega arith)

-- a container at the root, up to its first token inside
root_array :
    (limit : ℕ) (ts : List Token) (e : End)
    → run limit (Token.open_array ∷ ts) e start ≡ go_on limit ts e (inside array [] slice_size)
unfolding run step open_container charge
root_array limit ts e = ground arith

root_object :
    (limit : ℕ) (ts : List Token) (e : End)
    → run limit (Token.open_object ∷ ts) e start
      ≡ go_on limit ts e (inside (object true) [] map_size)
unfolding run step open_container charge
root_object limit ts e = ground arith

root_scalar :
    (limit : ℕ) (v : Scalar)
    → run limit (Token.scalar v ∷ []) End.eof start
      ≡ (if leb (scalar_size v) limit then ok (scalar_size v) else err over_limit)
unfolding run step take_scalar take_value charge finish
root_scalar limit v = ground arith

-- The estimate of the tokens of one document is what `cost` says of its structure, and it fails
-- as over the limit exactly where that is above the limit.
pub measure_within-emit :
    (limit : ℕ) (v : Value)
    → measure_within limit (emit v []) End.eof
      ≡ (if leb (cost v) limit then ok (cost v) else err over_limit)
unfolding emit cost run finish
measure_within-emit limit (leaf v) = root_scalar limit v
measure_within-emit limit (listing vs) =
    root_array limit (emit_items vs []) End.eof ∙ items-run limit vs [] slice_size [] End.eof
measure_within-emit limit (members ms) =
    root_object limit (emit_fields ms []) End.eof ∙ fields-run limit ms [] map_size [] End.eof
