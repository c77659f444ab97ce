-- ===== src/Jsondoc/Budget/Limit.antt =====
-- The estimate never passes its limit, whatever the tokens are.
use declarion_sdk_go.Common.{ℕ, ◌≤◌, ◌≡◌, List, [], ◌∷◌, arith, Bool, true, false}
use declarion_sdk_go.Common.Result.{ok, Result-cases}
use declarion_sdk_go.Common.{inl, inr}
use declarion_sdk_go.Jsondoc.Budget.{
  State, Token, End, Frame, Scalar, charge, open_container, popped, close_container, take_key,
  take_value, take_scalar, step, run, finish, measure_within, start, open_object, close_object,
  open_array, close_array, scalar,
}

abbrev IsWithin : ℕ → State → Type 0
IsWithin limit s = s.used ≤ limit

open_container-IsWithin :
    (limit header : ℕ) (f : Frame) (s t : State)
    → IsWithin limit s
    → open_container limit header f s ≡ ok t
    → IsWithin limit t
unfolding open_container charge
open_container-IsWithin limit header f s t w h = ground arith

close_container-IsWithin :
    (limit : ℕ) (is_object : Bool) (fs : List Frame) (s t : State)
    → IsWithin limit s
    → close_container is_object fs s ≡ ok t
    → IsWithin limit t
unfolding close_container popped
close_container-IsWithin limit is_object fs s t w h = ground arith

take_scalar-IsWithin :
    (limit : ℕ) (v : Scalar) (fs : List Frame) (s t : State)
    → IsWithin limit s
    → take_scalar limit v fs s ≡ ok t
    → IsWithin limit t
unfolding take_scalar take_key take_value charge
take_scalar-IsWithin limit v fs s t w h = ground arith

step-IsWithin :
    (limit : ℕ) (token : Token) (s t : State)
    → IsWithin limit s
    → step limit token s ≡ ok t
    → IsWithin limit t
unfolding step
step-IsWithin limit open_object s t w h = open_container-IsWithin limit _ _ s t w h
step-IsWithin limit open_array s t w h = open_container-IsWithin limit _ _ s t w h
step-IsWithin limit close_object s t w h = close_container-IsWithin limit true s.stack s t w h
step-IsWithin limit close_array s t w h = close_container-IsWithin limit false s.stack s t w h
step-IsWithin limit (scalar v) s t w h = take_scalar-IsWithin limit v s.stack s t w h

run-le :
    (limit : ℕ) (ts : List Token) (e : End) (s : State) {n : ℕ}
    → IsWithin limit s
    → run limit ts e s ≡ ok n
    → n ≤ limit
unfolding run finish
run-le limit [] e s w h = ground arith
run-le limit (t ∷ ts) e s w h = elim (Result-cases (step limit t s)) [
  | inl (s', p) ↦ run-le limit ts e s' (step-IsWithin limit t s s' w p) (ground (arith, p))
  | inr (x, p) ↦ absurd (ground (arith, p))
]

-- An estimate that succeeds is within the limit, for every sequence of tokens, also one that the
-- decoder breaks off or that is no document.
pub measure_within-le :
    (limit : ℕ) (ts : List Token) (e : End) {n : ℕ} → measure_within limit ts e ≡ ok n → n ≤ limit
measure_within-le limit ts e h = run-le limit ts e start (omega arith) h
