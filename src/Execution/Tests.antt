-- ===== src/Execution/Tests.antt =====
-- Selections on concrete inputs.
use declarion_sdk_go.Common.{[], ◌∷◌, true, false, ◌≡◌, refl, some, ◌↔◌}
use declarion_sdk_go.Common.Order.{str_leb}
use declarion_sdk_go.Common.Sorting.{sorted_set, sort, compact, contains}
use declarion_sdk_go.Common.Result.{ok}
use declarion_sdk_go.Execution.{Elevation, normalize, with_grants, covers, contains_all}
use declarion_sdk_go.Execution.Inherited.{
  Codecs, inherited_selection, selection_of_claims, split_dots,
}
use declarion_sdk_go.Execution.Selection.{normalize_unique, covers_iff, Includes, with_grants_least}

abbrev wide : Elevation
wide = record { system = true; grants = "b" ∷ "a" ∷ "b" ∷ [] }

abbrev same : Elevation
same = record { system = true; grants = "a" ∷ "b" ∷ [] }

normalized :
    (normalize wide ≡ same)
    × (with_grants same ("a" ∷ "0" ∷ []) ≡ record { system = true; grants = "0" ∷ "a" ∷ "b" ∷ [] })
unfolding normalize with_grants sorted_set sort compact str_leb
normalized = (refl, refl)

abbrev codecs : Codecs
codecs = record {
  decode_segment = λ s. some s;
  decode_claims = λ s. some (s, "raw");
  decode_elevation = λ s. some wide;
}

inherited :
    (inherited_selection codecs "x.handler.y" ≡ ok same)
    × (inherited_selection codecs "x.user.y" ≡ ok (record { system = false; grants = [] }))
unfolding inherited_selection selection_of_claims split_dots normalize sorted_set sort compact
    str_leb
inherited = (refl, refl)

normalize_unique_example : normalize wide ≡ normalize same
unfolding covers contains_all contains
normalize_unique_example = normalize_unique wide same refl refl

covers_iff_example :
    (covers wide same ≡ true)
    ↔ ((same.system ≡ true → wide.system ≡ true) × Includes wide.grants same.grants)
covers_iff_example = covers_iff wide same

with_grants_least_example :
    (with_grants (with_grants same ("c" ∷ [])) ("a" ∷ []) ≡ with_grants same ("c" ∷ "a" ∷ []))
    × (with_grants (with_grants same ("c" ∷ [])) ("a" ∷ [])
        ≡ with_grants (with_grants same ("a" ∷ [])) ("c" ∷ []))
    × (covers (with_grants same ("c" ∷ [])) same ≡ true)
    × ((f : Elevation)
        → covers f same ≡ true
        → Includes f.grants ("c" ∷ [])
        → covers f (with_grants same ("c" ∷ [])) ≡ true)
with_grants_least_example = with_grants_least same ("c" ∷ []) ("a" ∷ [])
