-- ===== src/Jsondoc/Numbers/Walk.antt =====
-- The walk over a value goes no deeper than there are containers: each visit is one less to come.
use declarion_sdk_go.Common.{
  ℕ, zero, suc, ◌≤◌, ◌<◌, ◌≡◌, inl, inr, refl, List, [], ◌∷◌, Bool, true, false, ◌&&◌, nat_Eq,
  ==_iff, if◌then◌else◌, arith, Bool-cases, length,
}
use declarion_sdk_go.Common.Text.{Bytes}
use declarion_sdk_go.Common.Sorting.{contains}
use declarion_sdk_go.Jsondoc.Numbers.{
  GoValue, opaque, scalar, interface_of, array_of, container, GoValues, no_values, more_values,
  Heap, Verdict, accepted, rejected, unfinished, ParsedFloat, valid_scalar, validate_value,
  validate_each, validate_inside,
}

-- Every container that stands in a value is one of a list of visits.
unfoldable mutual
  pub visits_in : List ℕ → GoValue → Bool
  visits_in visits opaque = true
  visits_in visits (scalar s) = true
  visits_in visits (interface_of v) = visits_in visits v
  visits_in visits (array_of vs) = all_visits_in visits vs
  visits_in visits (container visit place) = contains visits visit

  pub all_visits_in : List ℕ → GoValues → Bool
  all_visits_in visits no_values = true
  all_visits_in visits (more_values v vs) = visits_in visits v && all_visits_in visits vs

-- the visits that are not yet on the way
unfoldable pub left_over : (visits visiting : List ℕ) → ℕ
left_over [] visiting = 0
left_over (v ∷ visits) visiting =
    let rest = left_over visits visiting in if contains visiting v then rest else suc rest

left_over-le :
    (visits visiting : List ℕ) (visit : ℕ)
    → left_over visits (visit ∷ visiting) ≤ left_over visits visiting
unfolding left_over contains
left_over-le [] visiting visit = omega arith
left_over-le (v ∷ visits) visiting visit = ground (arith, left_over-le visits visiting visit)

-- A visit that is not on the way is one less to come.
left_over-lt :
    (visits visiting : List ℕ) (visit : ℕ)
    → contains visits visit ≡ true
    → contains visiting visit ≡ false
    → left_over visits (visit ∷ visiting) < left_over visits visiting
unfolding left_over contains
left_over-lt [] visiting visit h k = absurd (cc)
left_over-lt (v ∷ visits) visiting visit h k = ground (
  arith,
  ==_iff v visit,
  ==_iff visit v,
  left_over-le visits visiting visit,
  left_over-lt visits visiting visit,
)

abbrev pub is_verdict : Verdict → Bool
is_verdict accepted = true
is_verdict rejected = true
is_verdict unfinished = false

module _ (valid_json : Bytes → Bool) (parse_float : Bytes → ParsedFloat) (heap : Heap)
    (visits : List ℕ) (closed : (place : ℕ) → all_visits_in visits (heap place) ≡ true) where
  -- the calls on containers end where there is fuel for the visits to come
  abbrev pub Ends : ((visiting : List ℕ) → GoValues → Verdict) → ℕ → Type 0
  Ends deeper fuel =
      (visiting : List ℕ) (vs : GoValues)
      → all_visits_in visits vs ≡ true
      → left_over visits visiting < fuel
      → is_verdict (deeper visiting vs) ≡ true

  module _ (deeper : (visiting : List ℕ) → GoValues → Verdict) (fuel : ℕ)
      (ends : Ends deeper fuel) where
    container_ends :
        (visiting : List ℕ) (visit place : ℕ)
        → contains visits visit ≡ true
        → left_over visits visiting ≤ fuel
        → is_verdict
            (validate_value valid_json parse_float deeper heap visiting (container visit place))
          ≡ true
    unfolding validate_value
    container_ends visiting visit place there enough = elim (Bool-cases (contains visiting visit)) [
      | inl again ↦ rw again refl
      | inr first ↦ rw first (
          ends (visit ∷ visiting) (heap place) (closed place)
            (omega (arith, left_over-lt visits visiting visit there first, enough)))
    ]

    mutual
      unfolding validate_value validate_each visits_in all_visits_in

      pub value_ends :
          (visiting : List ℕ) (v : GoValue)
          → visits_in visits v ≡ true
          → left_over visits visiting ≤ fuel
          → is_verdict (validate_value valid_json parse_float deeper heap visiting v) ≡ true
      value_ends visiting opaque there enough = refl
      value_ends visiting (scalar s) there enough =
          ground (arith, Bool-cases (valid_scalar valid_json parse_float s))
      value_ends visiting (interface_of v) there enough = value_ends visiting v there enough
      value_ends visiting (array_of vs) there enough = each_ends visiting vs there enough
      value_ends visiting (container visit place) there enough =
          container_ends visiting visit place there enough

      pub each_ends :
          (visiting : List ℕ) (vs : GoValues)
          → all_visits_in visits vs ≡ true
          → left_over visits visiting ≤ fuel
          → is_verdict (validate_each valid_json parse_float deeper heap visiting vs) ≡ true
      each_ends visiting no_values there enough = refl
      each_ends visiting (more_values v vs) there enough = ground (
        arith,
        value_ends visiting v (ground arith) enough,
        each_ends visiting vs (ground arith) enough,
      )

  pub inside-Ends : (fuel : ℕ) → Ends (validate_inside valid_json parse_float fuel heap) fuel
  unfolding validate_inside
  inside-Ends zero visiting vs there enough = absurd (omega (arith, enough))
  inside-Ends (suc fuel) visiting vs there enough =
      each_ends (validate_inside valid_json parse_float fuel heap) fuel (inside-Ends fuel) visiting
        vs there (omega (arith, enough))

pub left_over_all : (visits : List ℕ) → left_over visits [] ≤ length visits
unfolding left_over contains
left_over_all [] = omega arith
left_over_all (v ∷ visits) = ground (arith, left_over_all visits)
