-- ===== src/Jsondoc/Numbers/Ends.antt =====
-- The walk over a value ends on every finite heap, cycles included, and what it accepts has only
-- numbers that are safe.
use declarion_sdk_go.Common.{
  ℕ, zero, suc, ◌≤◌, ◌≡◌, ◌⊎◌, inl, inr, refl, List, [], ◌∷◌, Bool, true, false, nat_Eq, arith,
  Bool-cases, length,
}
use declarion_sdk_go.Common.Text.{Bytes}
use declarion_sdk_go.Common.Sorting.{contains}
use declarion_sdk_go.Jsondoc.Numbers.{
  GoValue, opaque, scalar, interface_of, array_of, container, GoValues, no_values, more_values,
  Scalar, Heap, Verdict, accepted, rejected, unfinished, next_value, ParsedFloat, valid_scalar,
  validate_value, validate_each, validate_inside, validate_numbers,
}
use declarion_sdk_go.Jsondoc.Numbers.Walk.{
  visits_in, all_visits_in, left_over_all, is_verdict, value_ends, inside-Ends,
}

-- The numbers that stand in a value, however deep.
mutual
  pub data Holds (heap : Heap) : GoValue → Scalar → Type 0 where
    itself : {s : Scalar} → Holds heap (scalar s) s
    in_interface : {v : GoValue} {s : Scalar} → Holds heap v s → Holds heap (interface_of v) s
    in_array : {vs : GoValues} {s : Scalar} → HoldsOne heap vs s → Holds heap (array_of vs) s
    in_container :
        {visit place : ℕ} {s : Scalar}
        → HoldsOne heap (heap place) s
        → Holds heap (container visit place) s

  pub data HoldsOne (heap : Heap) : GoValues → Scalar → Type 0 where
    in_first :
        {v : GoValue} {vs : GoValues} {s : Scalar}
        → Holds heap v s
        → HoldsOne heap (more_values v vs) s
    in_rest :
        {v : GoValue} {vs : GoValues} {s : Scalar}
        → HoldsOne heap vs s
        → HoldsOne heap (more_values v vs) s

-- Why a value is refused, behind the visits on the way to it.
mutual
  pub data Fault (valid_json : Bytes → Bool) (parse_float : Bytes → ParsedFloat) (heap : Heap)
      : List ℕ → GoValue → Type 0 where
    bad_number :
        {visiting : List ℕ} {s : Scalar}
        → valid_scalar valid_json parse_float s ≡ false
        → Fault valid_json parse_float heap visiting (scalar s)
    returns :
        {visiting : List ℕ} {visit place : ℕ}
        → contains visiting visit ≡ true
        → Fault valid_json parse_float heap visiting (container visit place)
    via_interface :
        {visiting : List ℕ} {v : GoValue}
        → Fault valid_json parse_float heap visiting v
        → Fault valid_json parse_float heap visiting (interface_of v)
    via_array :
        {visiting : List ℕ} {vs : GoValues}
        → FaultOne valid_json parse_float heap visiting vs
        → Fault valid_json parse_float heap visiting (array_of vs)
    via_container :
        {visiting : List ℕ} {visit place : ℕ}
        → FaultOne valid_json parse_float heap (visit ∷ visiting) (heap place)
        → Fault valid_json parse_float heap visiting (container visit place)

  pub data FaultOne (valid_json : Bytes → Bool) (parse_float : Bytes → ParsedFloat) (heap : Heap)
      : List ℕ → GoValues → Type 0 where
    via_first :
        {visiting : List ℕ} {v : GoValue} {vs : GoValues}
        → Fault valid_json parse_float heap visiting v
        → FaultOne valid_json parse_float heap visiting (more_values v vs)
    via_rest :
        {visiting : List ℕ} {v : GoValue} {vs : GoValues}
        → FaultOne valid_json parse_float heap visiting vs
        → FaultOne valid_json parse_float heap visiting (more_values v vs)

module _ (valid_json : Bytes → Bool) (parse_float : Bytes → ParsedFloat) (heap : Heap) where
  abbrev walk : ℕ → (visiting : List ℕ) → GoValue → Verdict
  walk fuel visiting v =
      validate_value valid_json parse_float (validate_inside valid_json parse_float fuel heap) heap
        visiting v

  abbrev walk_each : ℕ → (visiting : List ℕ) → GoValues → Verdict
  walk_each fuel visiting vs =
      validate_each valid_json parse_float (validate_inside valid_json parse_float fuel heap) heap
        visiting vs

  both_accepted : (a b : Verdict) → next_value a b ≡ accepted → (a ≡ accepted) × (b ≡ accepted)
  both_accepted accepted b h = (refl, h)
  both_accepted rejected b h = absurd (cc)
  both_accepted unfinished b h = absurd (cc)

  mutual
    unfolding validate_value validate_each validate_inside

    value_sound :
        {v : GoValue} {s : Scalar} (fuel : ℕ) (visiting : List ℕ)
        → Holds heap v s
        → walk fuel visiting v ≡ accepted
        → valid_scalar valid_json parse_float s ≡ true
    value_sound fuel visiting (itself {s}) h = ground arith
    value_sound fuel visiting (in_interface {v} {s} held) h = value_sound fuel visiting held h
    value_sound fuel visiting (in_array {vs} {s} held) h = each_sound fuel visiting held h
    value_sound zero visiting (in_container {visit} {place} {s} held) h =
        absurd (ground (arith, Bool-cases (contains visiting visit)))
    value_sound (suc fuel) visiting (in_container {visit} {place} {s} held) h =
        each_sound fuel (visit ∷ visiting) held
          (ground (arith, Bool-cases (contains visiting visit)))

    each_sound :
        {vs : GoValues} {s : Scalar} (fuel : ℕ) (visiting : List ℕ)
        → HoldsOne heap vs s
        → walk_each fuel visiting vs ≡ accepted
        → valid_scalar valid_json parse_float s ≡ true
    each_sound fuel visiting (in_first {v} {vs} {s} held) h =
        value_sound fuel visiting held
          (both_accepted (walk fuel visiting v) (walk_each fuel visiting vs) h).0
    each_sound fuel visiting (in_rest {v} {vs} {s} held) h =
        each_sound fuel visiting held
          (both_accepted (walk fuel visiting v) (walk_each fuel visiting vs) h).1

  one_rejected : (a b : Verdict) → next_value a b ≡ rejected → (a ≡ rejected) ⊎ (b ≡ rejected)
  one_rejected accepted b h = inr h
  one_rejected rejected b h = inl refl
  one_rejected unfinished b h = absurd (cc)

  abbrev Faults : ((visiting : List ℕ) → GoValues → Verdict) → Type 0
  Faults deeper =
      (visiting : List ℕ) (vs : GoValues)
      → deeper visiting vs ≡ rejected
      → FaultOne valid_json parse_float heap visiting vs

  module _ (deeper : (visiting : List ℕ) → GoValues → Verdict) (faults : Faults deeper) where
    container_faults :
        (visiting : List ℕ) (visit place : ℕ)
        → validate_value valid_json parse_float deeper heap visiting (container visit place)
          ≡ rejected
        → Fault valid_json parse_float heap visiting (container visit place)
    unfolding validate_value
    container_faults visiting visit place h = elim (Bool-cases (contains visiting visit)) [
      | inl again ↦ returns again
      | inr first ↦ via_container (faults (visit ∷ visiting) (heap place) (rw first at h))
    ]

    scalar_faults :
        (visiting : List ℕ) (s : Scalar)
        → validate_value valid_json parse_float deeper heap visiting (scalar s) ≡ rejected
        → Fault valid_json parse_float heap visiting (scalar s)
    unfolding validate_value
    scalar_faults visiting s h = bad_number (ground arith)

    mutual
      unfolding validate_value validate_each

      value_faults :
          (visiting : List ℕ) (v : GoValue)
          → validate_value valid_json parse_float deeper heap visiting v ≡ rejected
          → Fault valid_json parse_float heap visiting v
      value_faults visiting opaque h = absurd (cc)
      value_faults visiting (scalar s) h = scalar_faults visiting s h
      value_faults visiting (interface_of v) h = via_interface (value_faults visiting v h)
      value_faults visiting (array_of vs) h = via_array (each_faults visiting vs h)
      value_faults visiting (container visit place) h = container_faults visiting visit place h

      each_faults :
          (visiting : List ℕ) (vs : GoValues)
          → validate_each valid_json parse_float deeper heap visiting vs ≡ rejected
          → FaultOne valid_json parse_float heap visiting vs
      each_faults visiting no_values h = absurd (cc)
      each_faults visiting (more_values v vs) h =
          elim (one_rejected (validate_value valid_json parse_float deeper heap visiting v)
            (validate_each valid_json parse_float deeper heap visiting vs) h) [
              | inl e ↦ via_first (value_faults visiting v e)
              | inr e ↦ via_rest (each_faults visiting vs e)
            ]

  inside-Faults : (fuel : ℕ) → Faults (validate_inside valid_json parse_float fuel heap)
  unfolding validate_inside
  inside-Faults zero visiting vs h = absurd (cc)
  inside-Faults (suc fuel) visiting vs h =
      each_faults (validate_inside valid_json parse_float fuel heap) (inside-Faults fuel) visiting
        vs h

  verdict-cases : (r : Verdict) → is_verdict r ≡ true → (r ≡ accepted) ⊎ (r ≡ rejected)
  verdict-cases accepted h = inl refl
  verdict-cases rejected h = inr refl
  verdict-cases unfinished h = absurd (cc)

  -- On a heap with finitely many containers, whether they contain themselves or not, the walk over a
  -- value ends within as many steps inwards as there are containers. Where it accepts the value,
  -- every number that stands in it, however deep, passes by itself; otherwise it refuses it, and
  -- some number in it does not pass, or some container stands again in itself.
  pub validate_numbers_ends :
      (visits : List ℕ) (v : GoValue) (fuel : ℕ)
      → ((place : ℕ) → all_visits_in visits (heap place) ≡ true)
      → visits_in visits v ≡ true
      → length visits ≤ fuel
      → let verdict = validate_numbers valid_json parse_float fuel heap v in
        ((verdict ≡ accepted)
          × ((s : Scalar) → Holds heap v s → valid_scalar valid_json parse_float s ≡ true))
        ⊎ ((verdict ≡ rejected) × Fault valid_json parse_float heap [] v)
  unfolding validate_numbers
  validate_numbers_ends visits v fuel closed there enough =
      let ended =
        value_ends valid_json parse_float heap visits closed
          (validate_inside valid_json parse_float fuel heap) fuel
          (inside-Ends valid_json parse_float heap visits closed fuel) [] v there
          (omega (arith, left_over_all visits, enough)) in
      elim (verdict-cases (walk fuel [] v) ended) [
        | inr refused ↦ inr (
          refused,
          value_faults (validate_inside valid_json parse_float fuel heap) (inside-Faults fuel) [] v
              refused,
        )
        | inl passed ↦ inl (passed, λ s held. value_sound fuel [] held passed)
      ]
