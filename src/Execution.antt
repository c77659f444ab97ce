-- ===== src/Execution.antt =====
-- execution/elevation.go: the selection of authority that a handler carries. The base64url and JSON
-- codecs of `Encode` and `Decode` are not modelled.
pub mod Selection
pub mod Inherited
mod Tests
use declarion_sdk_go.Common.{
  Option, none, some, List, [], ◌∷◌, ◌++◌, String, string_Eq, Bool, true, false, not, ◌&&◌, ◌||◌,
  if◌then◌else◌,
}
use declarion_sdk_go.Common.Sorting.{contains, sorted_set}

pub record Elevation : Type 0 where
  pub system : Bool
  pub grants : List String

-- `Normalize`: `slices.Sort`, then `slices.Compact`, on a copy
unfoldable pub normalize : Elevation → Elevation
normalize e = record e { grants = sorted_set e.grants }

-- `Elevation.Empty`
unfoldable pub is_empty : Elevation → Bool
is_empty e = not e.system && elim e.grants [ [] ↦ true | _ ∷ _ ↦ false ]

-- `Elevation.WithGrants`
unfoldable pub with_grants : Elevation → List String → Elevation
with_grants e grants = normalize (record e { grants = e.grants ++ grants })

-- the loop of `Contains`
unfoldable pub contains_all : List String → List String → Bool
contains_all grants [] = true
contains_all grants (g ∷ gs) = if not (contains grants g) then false else contains_all grants gs

-- `e.Contains(parent)`
unfoldable pub covers : Elevation → Elevation → Bool
covers e parent =
    if parent.system && not e.system then false else contains_all e.grants parent.grants

abbrev pub no_elevation : Elevation
no_elevation = record { system = false; grants = [] }
