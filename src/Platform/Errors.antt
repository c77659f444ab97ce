-- ===== src/Platform/Errors.antt =====
-- platform/errors.go: what a response that is no success becomes. The parser of media types and the
-- JSON decoder are parameters.
mod Trust
mod Tests
use Prim.Native.Char.{code}
use declarion_sdk_go.Common.{
  ℕ, Option, none, some, List, [], ◌∷◌, String, string_Eq, Bool, true, false, not, ◌&&◌, ◌||◌, ◌==◌,
  leb, ltb, nat_eq, length, if◌then◌else◌,
}
use declarion_sdk_go.Common.Int.{ℤ, pos, eq_ℤ, leb_ℤ, min_int64, max_int64}
use declarion_sdk_go.Common.Text.{Bytes, codes}
use declarion_sdk_go.Common.Assoc.{Assoc, lookup}
use declarion_sdk_go.Errs.{
  Json, text, integer, boolean, other, Link, Core, Error, TypeDef, Catalogue, title_for, raise,
  because, code_of, from, type_unknown, as_error,
}
use declarion_sdk_go.Errs.Render.{fits, too_large, take_string}
use declarion_sdk_go.Errs.Wire.{Members, unmarshal}

abbrev pub transport_failed : String
transport_failed = "transport.request_failed"

abbrev pub unreadable_response : String
unreadable_response = "transport.unreadable_response"

abbrev declared : Bool → String → TypeDef
declared retryable title = record {
  status = pos 502;
  retryable = retryable;
  title = ("en", title) ∷ [];
  deny = false;
}

-- `transportTypes`
abbrev pub transport_types : Catalogue
transport_types =
    (transport_failed, declared true "The platform could not be reached.")
    ∷ (
      unreadable_response,
      declared true "Something other than the platform answered this request.",
    )
    ∷ (
      "transport.stream_unreadable",
      declared false "The stream did not follow the contract this client reads.",
    )
    ∷ (
      "transport.stream_event_too_large",
      declared false "One event was larger than this client accepts.",
    )
    ∷ ("transport.stream_interrupted", declared true "The stream ended before it finished.")
    ∷ []

-- `transportErr`, under the process catalogue
unfoldable pub transport_err :
    {V : Type 0}
    → Catalogue
    → (code : String) → (args : Assoc String (Json V)) → (cause : List (Link V)) → Error V
transport_err catalogue code args cause =
    let e = raise catalogue code args in
    elim (lookup code transport_types) [
      | none ↦ because e cause
      | some def ↦
          because
            (record e {
              core = record (e.core) {
                retryable = def.retryable;
                status = def.status;
                title = if e.core.title == "" then title_for def ("en" ∷ []) else e.core.title;
              };
            })
            cause
    ]

abbrev is_lower : ℕ → Bool
is_lower c = leb b'a' c && leb c b'z'

abbrev is_digit : ℕ → Bool
is_digit c = leb b'0' c && leb c b'9'

-- `codePattern` of errs/errs.go: behind the dot, and in front of it
unfoldable pub valid_name : Bytes → Bool
valid_name [] = true
valid_name (c ∷ cs) =
    let rest = valid_name cs in if is_lower c || is_digit c || nat_eq c b'_' then rest else false

abbrev starts_name : Bytes → Bool
starts_name [] = false
starts_name (c ∷ cs) = is_lower c && valid_name cs

unfoldable pub valid_family : Bytes → Bool
unfolding valid_name
valid_family [] = false
valid_family (c ∷ cs) =
    let rest = valid_family cs in
    let name = starts_name cs in
    if nat_eq c b'.'
    then name
    else if is_lower c || is_digit c || nat_eq c b'-'
    then rest
    else false

-- `errs.ValidCode`
unfoldable pub valid_code : String → Bool
valid_code s = elim (codes s) [ [] ↦ false | c ∷ cs ↦ is_lower c && valid_family cs ]

-- `isProblemResponse`
unfoldable pub is_problem_response : (media_type : String → Option String) → String → Bool
is_problem_response media_type content_type = elim (media_type content_type) [
  | none ↦ false
  | some media ↦ media == "application/problem+json"
]

module _ {V : Type 0} (catalogue : Catalogue) (size : Core V → Option ℕ)
    (media_type : String → Option String) (decode_members : String → Option (Members V))
    (trim_space : String → String) where
  -- the platform's own object, if the response is one
  unfoldable pub platform_error : (status : ℤ) → (body content_type : String) → Option (Core V)
  platform_error status body content_type =
      if not (is_problem_response media_type content_type)
      then none
      else elim (decode_members body) [
        | none ↦ none
        | some members ↦
            let e = unmarshal members in
            if valid_code (code_of e.type) && not (e.type == type_unknown)
            then some (if eq_ℤ e.status (pos 0) then record e { status = status } else e)
            else none
      ]

  abbrev bounded_body : String → String
  bounded_body body =
      let trimmed = trim_space body in
      if ltb 2048 (length (codes trimmed)) then take_string 2048 trimmed else trimmed

  -- `errorFromResponse`
  unfoldable pub error_from_response : (status : ℤ) → (body path content_type : String) → Error V
  error_from_response status body path content_type =
      elim (platform_error status body content_type) [
        | some e ↦
            let whole : Error V = record { core = e; cause = [] } in
            if fits size whole (pos 0) then whole else too_large whole
        | none ↦
            transport_err catalogue unreadable_response
              (("peer_status", integer status)
                ∷ ("body", text (bounded_body body))
                ∷ ("path", text path)
                ∷ [])
              []
      ]

-- What `float_int` is of a member's other value: `int(n)` where it is a float64, `none` where it is
-- not.
module _ {V : Type 0} (float_int : V → Option ℤ) where
  -- `ExtInt` of errs/errs.go
  unfoldable pub ext_int : Core V → String → Option ℤ
  ext_int e key = elim (lookup key e.fields) [
    | some (integer n) ↦ if leb_ℤ min_int64 n && leb_ℤ n max_int64 then some n else none
    | some (other v) ↦ float_int v
    | _ ↦ none
  ]

  -- `StatusOf`
  unfoldable pub status_of : List (Link V) → Option ℤ
  status_of err = elim (from err) [
    | none ↦ none
    | some e ↦ elim (ext_int e.core "peer_status") [
      | some n ↦ some n
      | none ↦ if not (eq_ℤ e.core.status (pos 0)) then some e.core.status else none
    ]
  ]

  -- `IsNotFound`
  unfoldable pub is_not_found : List (Link V) → Bool
  is_not_found err =
      let by_code : Bool = elim (from err) [
        | none ↦ false
        | some e ↦
            code_of e.core.type == "entity.not_found"
            || code_of e.core.type == "action.not_found"
            || code_of e.core.type == "platform.route_not_found"
      ] in
      if by_code
      then true
      else elim (status_of err) [ none ↦ false | some status ↦ eq_ℤ status (pos 404) ]
