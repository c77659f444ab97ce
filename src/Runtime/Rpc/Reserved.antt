-- ===== src/Runtime/Rpc/Reserved.antt =====
-- `extractReservedParams` of runtime/serve.go: the parameters that the platform adds to a call. The
-- parameters of a call are what the JSON decoder makes of them.
use declarion_sdk_go.Common.{
  Option, none, some, List, [], ◌∷◌, String, string_Eq, Bool, true, false, not, ◌==◌, nat_eq,
  if◌then◌else◌, ◌≡◌, refl, ◌∙◌, arith, Option-cases, inl, inr, Bool-cases, ==_iff,
}
use declarion_sdk_go.Common.Assoc.{Assoc, lookup, retain, IsMap, lookup-retain, retain-IsMap}
use declarion_sdk_go.Common.Result.{Result, ok, err, ◌>>=◌}
use Prim.Native.Char.{code}

-- No bytes, a JSON object, or anything else; `J` is a raw JSON value.
pub data Params (J : Type 0) : Type 0 where
  absent : Params J
  object : Assoc String J → Params J
  other : J → Params J

pub record ReservedParams : Type 0 where
  pub entity_code : String
  pub object_ids : List String
  pub locale : String

-- `strings.HasPrefix(k, "_")`
unfoldable pub is_reserved : String → Bool
is_reserved String.[] = false
is_reserved (String.◌∷◌ c s) = nat_eq (code c) b'_'

-- the first key with the prefix: Go's order of a map is any order
unfoldable pub first_reserved : {J : Type 0} → Assoc String J → Option String
first_reserved [] = none
first_reserved ((k, v) ∷ bag) = if is_reserved k then some k else first_reserved bag

abbrev pub delete : {J : Type 0} → String → Assoc String J → Assoc String J
delete key bag = retain (λ k v. not (k == key)) bag

module _ {J : Type 0} (as_string : J → Option String) (as_strings : J → Option (List String)) where
  -- `unmarshalReserved`: the value if the key is there, and the error's key if it does not decode
  unfoldable pub unmarshal_reserved :
      {T : Type 0} → (J → Option T) → (zero : T) → (key : String) → Assoc String J → Result String T
  unmarshal_reserved decode zero key bag = elim (lookup key bag) [
    | none ↦ ok zero
    | some v ↦ elim (decode v) [ none ↦ err key | some t ↦ ok t ]
  ]

  -- The error is the key of the `action.invalid_params` that the code answers with.
  unfoldable pub extract_reserved_params : Params J → Result String (ReservedParams × Params J)
  extract_reserved_params absent =
      ok (record { entity_code = ""; object_ids = []; locale = "" }, absent)
  extract_reserved_params (other raw) =
      ok (record { entity_code = ""; object_ids = []; locale = "" }, other raw)
  extract_reserved_params (object bag) =
      let bag1 = delete "_entity_code" bag in
      let bag2 = delete "_object_ids" bag1 in
      let bag3 = delete "_locale" bag2 in
      (do
        e ← unmarshal_reserved as_string "" "_entity_code" bag
        ids ← unmarshal_reserved as_strings [] "_object_ids" bag1
        l ← unmarshal_reserved as_string "" "_locale" bag2
        elim (first_reserved bag3) [
          | some k ↦ err k
          | none ↦ ok (record { entity_code = e; object_ids = ids; locale = l }, object bag3)
        ])

first_reserved-lookup :
    {J : Type 0} (bag : Assoc String J) (k : String)
    → first_reserved bag ≡ none
    → is_reserved k ≡ true
    → lookup k bag ≡ none
unfolding first_reserved lookup
first_reserved-lookup [] k h r = refl
first_reserved-lookup ((j, v) ∷ bag) k h r = elim (Bool-cases (is_reserved j)) [
  | inl e ↦ absurd (ground (arith, h, e))
  | inr e ↦ elim (Bool-cases (j == k)) [
    | inl same ↦ absurd (cc (e, r, (==_iff j k).0 same))
    | inr differs ↦
        ground (arith, e, differs, h, first_reserved-lookup bag k (ground (arith, e, h)) r)
  ]
]

lookup-delete :
    {J : Type 0} (key k : String) (bag : Assoc String J)
    → IsMap bag
    → lookup k (delete key bag) ≡ (if k == key then none else lookup k bag)
lookup-delete key k bag u = ground (arith, lookup-retain (λ j v. not (j == key)) k bag u)

differs : (k key : String) → is_reserved k ≡ false → is_reserved key ≡ true → (k == key) ≡ false
differs k key e r = elim (Bool-cases (k == key)) [
  | inl same ↦ absurd (cc (e, r, (==_iff k key).0 same))
  | inr apart ↦ apart
]

module _ {J : Type 0} (as_string : J → Option String) (as_strings : J → Option (List String)) where
  abbrev cleaned : Assoc String J → Assoc String J
  cleaned bag = delete "_locale" (delete "_object_ids" (delete "_entity_code" bag))

  extract-cleaned :
      (bag : Assoc String J) (reserved : ReservedParams) (params : Params J)
      → extract_reserved_params as_string as_strings (object bag) ≡ ok (reserved, params)
      → (first_reserved (cleaned bag) ≡ none) × (params ≡ object (cleaned bag))
  unfolding extract_reserved_params
  extract-cleaned bag reserved params h = elim (Option-cases (first_reserved (cleaned bag))) [
    | inr (k, e) ↦ absurd (ground (arith, h, e))
    | inl e ↦ (e, ground (arith, h, e))
  ]

  lookup-cleaned :
      (bag : Assoc String J) (k : String)
      → IsMap bag
      → first_reserved (cleaned bag) ≡ none
      → lookup k (cleaned bag) ≡ (if is_reserved k then none else lookup k bag)
  lookup-cleaned bag k u n =
      let bag1 = delete "_entity_code" bag in
      let u1 : IsMap bag1 = retain-IsMap _ bag u in
      let bag2 = delete "_object_ids" bag1 in
      let u2 : IsMap bag2 = retain-IsMap _ bag1 u1 in
      elim (Bool-cases (is_reserved k)) [
        | inl e ↦ first_reserved-lookup (cleaned bag) k n e ∙ rw e refl
        | inr e ↦
            let entity = differs k "_entity_code" e (unfold is_reserved in refl) in
            let ids = differs k "_object_ids" e (unfold is_reserved in refl) in
            let locale = differs k "_locale" e (unfold is_reserved in refl) in
            ground (
              arith,
              locale,
              ids,
              entity,
              e,
              lookup-delete "_locale" k bag2 u2,
              lookup-delete "_object_ids" k bag1 u1,
              lookup-delete "_entity_code" k bag u,
            )
      ]

  -- Where the parameters of a call are an object with each name once, what the handler gets has
  -- every parameter without the reserved prefix as it was sent, and none with it.
  pub lookup-extract :
      (bag : Assoc String J) (reserved : ReservedParams) (params : Params J)
      → IsMap bag
      → extract_reserved_params as_string as_strings (object bag) ≡ ok (reserved, params)
      → (out : Assoc String J) × (params ≡ object out)
        × ((k : String) → lookup k out ≡ (if is_reserved k then none else lookup k bag))
  lookup-extract bag reserved params u h =
      let (none_left, same) = extract-cleaned bag reserved params h in
      (cleaned bag, same, λ k. lookup-cleaned bag k u none_left)
