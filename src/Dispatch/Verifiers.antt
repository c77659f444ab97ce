-- ===== src/Dispatch/Verifiers.antt =====
-- runtime/register_verifier.go: the registry of the verifiers, which is disjoint from that of the
-- handlers. A verifier is of any type `F`, a nil function is `none`; a `panic` is an error.
use declarion_sdk_go.Common.{
  ℕ, ◌≡◌, refl, ◌∙◌, Option, none, some, List, [], ◌∷◌, map, String, string_Eq, true, false, ◌==◌,
  ==_iff, if◌then◌else◌, length, arith,
}
use declarion_sdk_go.Common.Assoc.{Assoc, lookup, insert, lookup-insert}
use declarion_sdk_go.Common.Result.{Result, ok, err}
use declarion_sdk_go.Common.Sorting.{contains, sort, contains-sort}
use declarion_sdk_go.Dispatch.{Declaration}

pub data VerifierPanic : Type 0 where
  empty_verifier_code nil_verifier duplicate_verifier : VerifierPanic

module _ {F : Type 0} where
  -- `RegisterVerifier`
  unfoldable pub register_verifier :
      (code : String) → Option F → Assoc String F → Result VerifierPanic (Assoc String F)
  register_verifier code fn verifiers = if code == "" then err empty_verifier_code else elim fn [
    | none ↦ err nil_verifier
    | some verify ↦ elim (lookup code verifiers) [
      | some _ ↦ err duplicate_verifier
      | none ↦ ok (insert code verify verifiers)
    ]
  ]

  -- the codes of the map, in the order of its iteration
  unfoldable pub verifier_codes : Assoc String F → List String
  verifier_codes [] = []
  verifier_codes ((code, _) ∷ verifiers) = code ∷ verifier_codes verifiers

  -- `registeredVerifierDeclarations`: a verifier has no parameters
  unfoldable pub verifier_declarations : (S : Type 0) → Assoc String F → List (Declaration S)
  verifier_declarations S verifiers =
      map (λ code. record { code = code; params = [] }) (sort (verifier_codes verifiers))

  -- `registeredVerifierCount`
  unfoldable pub verifier_count : Assoc String F → ℕ
  verifier_count verifiers = length verifiers

  -- A code that is registered is found by its lookup and leaves every other lookup as it was.
  pub lookup-register_verifier :
      (code read : String) (fn : Option F) (verifiers after : Assoc String F)
      → register_verifier code fn verifiers ≡ ok after
      → lookup read after ≡ (if code == read then fn else lookup read verifiers)
  unfolding register_verifier
  lookup-register_verifier code read none verifiers after h = absurd (ground arith)
  lookup-register_verifier code read (some verify) verifiers after h =
      ground (arith, lookup-insert code read verify verifiers)

  contains-verifier_codes :
      (verifiers : Assoc String F) (code : String)
      → contains (verifier_codes verifiers) code
        ≡ elim (lookup code verifiers) [ none ↦ false | some _ ↦ true ]
  unfolding contains verifier_codes lookup
  contains-verifier_codes [] code = refl
  contains-verifier_codes ((key, v) ∷ verifiers) code =
      ground (arith, ==_iff key code, contains-verifier_codes verifiers code)

  -- The declared codes are those that a lookup finds.
  pub contains-declared :
      (verifiers : Assoc String F) (code : String)
      → contains (sort (verifier_codes verifiers)) code
        ≡ elim (lookup code verifiers) [ none ↦ false | some _ ↦ true ]
  contains-declared verifiers code =
      contains-sort (verifier_codes verifiers) code ∙ contains-verifier_codes verifiers code
