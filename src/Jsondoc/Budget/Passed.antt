-- ===== src/Jsondoc/Budget/Passed.antt =====
-- The limit only decides whether an estimate is given, never what it is: what `ValidateDecodedBudget`
-- passes is what `MeasureDecodedMemory` says.
use declarion_sdk_go.Common.{ℕ, ◌≤◌, ◌≡◌, ◌↔◌, List, [], ◌∷◌, arith, Bool, true, false}
use declarion_sdk_go.Common.Int.{ℤ, pos, negsuc, pos_part, ◌<ℤ◌, ◌≤ℤ◌, max_int64}
use declarion_sdk_go.Common.Result.{ok, Result-cases}
use declarion_sdk_go.Common.{inl, inr}
use declarion_sdk_go.Jsondoc.Budget.{
  State, Token, End, Frame, Scalar, charge, open_container, popped, close_container, take_key,
  take_value, take_scalar, step, run, finish, measure_within, measure, validate_budget, start,
  open_object, close_object, open_array, close_array, scalar,
}
use declarion_sdk_go.Jsondoc.Budget.Limit.{measure_within-le}

-- A step under one limit that another limit, below it or not, lets through as well.
record Shifts (a b : ℕ) (token : Token) (s t : State) : Type 0 where
  grows : s.used ≤ t.used
  same : t.used ≤ a → step a token s ≡ ok t

module _ (a b : ℕ) where
  open_container_grows :
      (header : ℕ) (f : Frame) (s t : State) → open_container b header f s ≡ ok t → s.used ≤ t.used
  unfolding open_container charge
  open_container_grows header f s t h = ground arith

  open_container_same :
      (header : ℕ) (f : Frame) (s t : State)
      → open_container b header f s ≡ ok t
      → t.used ≤ a
      → open_container a header f s ≡ ok t
  unfolding open_container charge
  open_container_same header f s t h le = ground arith

  close_container_grows :
      (is_object : Bool) (fs : List Frame) (s t : State)
      → close_container is_object fs s ≡ ok t
      → s.used ≤ t.used
  unfolding close_container popped
  close_container_grows is_object fs s t h = ground arith

  take_scalar_grows :
      (v : Scalar) (fs : List Frame) (s t : State) → take_scalar b v fs s ≡ ok t → s.used ≤ t.used
  unfolding take_scalar take_key take_value charge
  take_scalar_grows v fs s t h = ground arith

  take_scalar_same :
      (v : Scalar) (fs : List Frame) (s t : State)
      → take_scalar b v fs s ≡ ok t
      → t.used ≤ a
      → take_scalar a v fs s ≡ ok t
  unfolding take_scalar take_key take_value charge
  take_scalar_same v fs s t h le = ground arith

  step-Shifts : (token : Token) (s t : State) → step b token s ≡ ok t → Shifts a b token s t
  unfolding step
  step-Shifts open_object s t h = record {
    grows = open_container_grows _ _ s t h;
    same = open_container_same _ _ s t h;
  }
  step-Shifts open_array s t h = record {
    grows = open_container_grows _ _ s t h;
    same = open_container_same _ _ s t h;
  }
  step-Shifts close_object s t h = record {
    grows = close_container_grows true s.stack s t h;
    same = λ _. h;
  }
  step-Shifts close_array s t h = record {
    grows = close_container_grows false s.stack s t h;
    same = λ _. h;
  }
  step-Shifts (scalar v) s t h = record {
    grows = take_scalar_grows v s.stack s t h;
    same = take_scalar_same v s.stack s t h;
  }

  run_grows : (ts : List Token) (e : End) (s : State) {n : ℕ} → run b ts e s ≡ ok n → s.used ≤ n
  unfolding run finish
  run_grows [] e s h = ground arith
  run_grows (t ∷ ts) e s {n} h = elim (Result-cases (step b t s)) [
    | inl (s', p) ↦
        let rest : run b ts e s' ≡ ok n = ground (arith, p, h) in
        omega (arith, (step-Shifts t s s' p).grows, run_grows ts e s' rest)
    | inr (x, p) ↦ absurd (ground (arith, p))
  ]

  -- a run under `b` is one under `a` where its result is not above `a`
  run_same :
      (ts : List Token) (e : End) (s : State) {n : ℕ}
      → run b ts e s ≡ ok n
      → n ≤ a
      → run a ts e s ≡ ok n
  unfolding run
  run_same [] e s h le = h
  run_same (t ∷ ts) e s {n} h le = elim (Result-cases (step b t s)) [
    | inl (s', p) ↦
        let rest : run b ts e s' ≡ ok n = ground (arith, p, h) in
        let within : s'.used ≤ a = omega (arith, run_grows ts e s' rest, le) in
        rw ((step-Shifts t s s' p).same within) (run_same ts e s' rest le)
    | inr (x, p) ↦ absurd (ground (arith, p))
  ]

-- What passes a limit is what has an estimate, whatever the limit, that is not above it.
measure_within_iff :
    (limit : ℕ) (ts : List Token) (e : End) (n : ℕ)
    → limit ≤ 9223372036854775807
    → (measure_within limit ts e ≡ ok n) ↔ ((measure ts e ≡ ok n) × (n ≤ limit))
unfolding measure
measure_within_iff limit ts e n small = (
  λ h.
      let le = measure_within-le limit ts e h in
      (run_same 9223372036854775807 limit ts e start h (omega (arith, le, small)), le),
  λ k. run_same limit 9223372036854775807 ts e start k.0 k.1,
)

pos_part_int64 : (budget : ℤ) → budget ≤ℤ max_int64 → pos_part budget ≤ 9223372036854775807
pos_part_int64 (pos n) h = omega arith
pos_part_int64 (negsuc n) h = omega arith

-- For every sequence of tokens and every end, also where they are no document: an input of `size`
-- bytes passes a budget of an `int64` exactly when the budget is positive, the bytes are not above
-- it, and `MeasureDecodedMemory` gives an estimate that is not above it.
pub validate_budget_iff :
    (size : ℕ) (ts : List Token) (e : End) (budget : ℤ)
    → budget ≤ℤ max_int64
    → (validate_budget size ts e budget ≡ ok tt) ↔ (
        (pos 0 <ℤ budget)
        × (size ≤ pos_part budget)
        × ((n : ℕ) × (measure ts e ≡ ok n) × (n ≤ pos_part budget)))
unfolding validate_budget
validate_budget_iff size ts e budget small = (
  λ h. elim (Result-cases (measure_within (pos_part budget) ts e)) [
    | inl (n, p) ↦
        let within =
          (measure_within_iff (pos_part budget) ts e n (pos_part_int64 budget small)).0 p in
        (ground (arith, h), ground (arith, h), (n, within.0, within.1))
    | inr (x, p) ↦ absurd (ground (arith, h, p))
  ],
  λ k.
      let passed =
        (measure_within_iff (pos_part budget) ts e k.2.0 (pos_part_int64 budget small)).1
          (k.2.1, k.2.2) in
      ground (arith, k.0, k.1, passed),
)
