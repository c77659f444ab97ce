-- ===== src/Execution/Inherited.antt =====
-- `InheritedSelection` of execution/elevation.go: the selection that a bearer says it carries. The
-- base64url and JSON codecs are parameters.
use Prim.Native.Char.{Char, code}
use declarion_sdk_go.Common.{
  Option, none, some, List, [], ◌∷◌, String, string_Eq, not, ◌==◌, nat_eq, if◌then◌else◌,
}
use declarion_sdk_go.Common.Result.{Result, ok, err, ◌>>=◌, or_fail}
use declarion_sdk_go.Execution.{Elevation, normalize, no_elevation}

-- the piece in front of the others
abbrev push_front : Char → List String → List String
push_front c [] = String.◌∷◌ c "" ∷ []
push_front c (s ∷ ss) = String.◌∷◌ c s ∷ ss

-- `strings.Split(s, ".")`
unfoldable pub split_dots : String → List String
split_dots String.[] = "" ∷ []
split_dots (String.◌∷◌ c s) =
    let rest = split_dots s in if nat_eq (code c) b'.' then "" ∷ rest else push_front c rest

pub data MetadataError : Type 0 where
  bad_encoding bad_claims bad_elevation : MetadataError

pub record Codecs : Type 0 where
  -- `base64.RawURLEncoding.DecodeString`
  pub decode_segment : String → Option String
  -- the members `scope` and `elevation` of the claims; an absent raw member is the empty text
  pub decode_claims : String → Option (String × String)
  pub decode_elevation : String → Option Elevation

unfoldable pub selection_of_claims : Codecs → String × String → Result MetadataError Elevation
selection_of_claims c (scope, raw) =
    if not (scope == "handler")
    then ok no_elevation
    else if raw == ""
    then ok no_elevation
    else elim (c.decode_elevation raw) [ none ↦ err bad_elevation | some e ↦ ok (normalize e) ]

unfoldable pub inherited_selection : Codecs → String → Result MetadataError Elevation
inherited_selection c token = elim (split_dots token) [
  | _ ∷ payload ∷ _ ∷ [] ↦ do
    b ← or_fail (c.decode_segment payload) bad_encoding
    claims ← or_fail (c.decode_claims b) bad_claims
    selection_of_claims c claims
  | _ ↦ ok no_elevation
]
