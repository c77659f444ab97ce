-- ===== src/Dispatch.antt =====
-- dispatch/registry.go: the registry of the handlers that a sidecar serves, and of runtime/ the
-- operations on the process's registries (register.go, register_verifier.go).
--
-- A handler's parameters and its result are of any types `P` and `R`: the JSON codec of each is a
-- parameter, and so is the reflected schema, a list of any type `S`. A `panic` is an error of
-- `register_handler`; a nil registry is `none`.
pub mod History
pub mod Verifiers
pub mod Params
mod Tests
use declarion_sdk_go.Common.{
  ℕ, Option, none, some, List, [], ◌∷◌, ◌++◌, String, string_Eq, Bool, true, false, ◌==◌,
  if◌then◌else◌, length,
}
use declarion_sdk_go.Common.Text.{Bytes}
use declarion_sdk_go.Common.Assoc.{Assoc, lookup, insert}
use declarion_sdk_go.Common.Result.{Result, ok, err, ◌>>=◌, ◌>>◌, fail_if, or_fail}
use declarion_sdk_go.Errs.{Link, plain, Catalogue, raise, because, as_error}

-- `ErrNotFound`, or the error of a handler's call
pub data ExecuteError (V : Type 0) : Type 0 where
  not_found : ExecuteError V
  failed : List (Link V) → ExecuteError V

-- `handler`
pub record Handler (C S V : Type 0) : Type 0 where
  pub code : String
  pub params : List S
  pub exec : C → Bytes → Result (ExecuteError V) Bytes

-- `Declaration`
pub record Declaration (S : Type 0) : Type 0 where
  pub code : String
  pub params : List S

pub record Registry (C S V : Type 0) : Type 0 where
  pub handlers : Assoc String (Handler C S V)
  pub order : List String

pub data Panic : Type 0 where
  nil_registry empty_code duplicate_handler : Panic

-- What encoding/json does with the two types of a handler.
pub record Codec (P R V : Type 0) : Type 0 where
  pub zero_params : P
  pub unmarshal_params : Bytes → Result (List (Link V)) P
  pub marshal_result : R → Result (List (Link V)) Bytes

module _ {V : Type 0} where
  abbrev failing : {A : Type 0} → Result (List (Link V)) A → Result (ExecuteError V) A
  failing (ok a) = ok a
  failing (err e) = err (failed e)

  abbrev decode_params :
      {P R : Type 0} → Catalogue → Codec P R V → Bytes → Result (ExecuteError V) P
  decode_params catalogue codec [] = ok codec.zero_params
  decode_params catalogue codec (b ∷ raw) = elim (codec.unmarshal_params (b ∷ raw)) [
    | ok p ↦ ok p
    | err e ↦ err (failed (as_error (because (raise catalogue "action.invalid_params" []) e)))
  ]

  -- the `exec` of a handler that runs `fn`
  unfoldable pub exec_of :
      {C P R : Type 0}
      → Catalogue
      → Codec P R V
      → (fn : C → P → Result (List (Link V)) R) → C
      → Bytes
      → Result (ExecuteError V) Bytes
  exec_of catalogue codec fn ctx raw = do
    p ← decode_params catalogue codec raw
    result ← failing (fn ctx p)
    elim (codec.marshal_result result) [
      | ok encoded ↦ ok encoded
      | err e ↦ err (failed (plain "marshal handler result" ∷ e))
    ]

module _ {C S V : Type 0} where
  -- `NewRegistry`
  unfoldable pub new_registry : Registry C S V
  new_registry = record { handlers = []; order = [] }

  -- `RegisterHandler` behind the reflection that makes the schema and the `exec` of `h`
  unfoldable pub register_handler :
      Option (Registry C S V) → Handler C S V → Result Panic (Registry C S V)
  register_handler none h = err nil_registry
  register_handler (some reg) h =
      if h.code == "" then err empty_code else elim (lookup h.code reg.handlers) [
        | some _ ↦ err duplicate_handler
        | none ↦
            ok (record {
              handlers = insert h.code h reg.handlers;
              order = reg.order ++ (h.code ∷ []);
            })
      ]

  -- `Execute`
  unfoldable pub execute :
      Option (Registry C S V) → (code : String) → C → Bytes → Result (ExecuteError V) Bytes
  execute none code ctx params = err not_found
  execute (some reg) code ctx params = elim (lookup code reg.handlers) [
    | none ↦ err not_found
    | some h ↦ h.exec ctx params
  ]

  -- `Has`
  unfoldable pub has : Option (Registry C S V) → (code : String) → Bool
  has none code = false
  has (some reg) code = elim (lookup code reg.handlers) [ none ↦ false | some _ ↦ true ]

  -- one step of the loop of `Declarations`; a missing entry is Go's zero handler
  unfoldable pub declaration_of : Assoc String (Handler C S V) → (code : String) → Declaration S
  declaration_of handlers code = record {
    code = code;
    params = elim (lookup code handlers) [ none ↦ [] | some h ↦ h.params ];
  }

  unfoldable pub declare_all : Assoc String (Handler C S V) → List String → List (Declaration S)
  declare_all handlers [] = []
  declare_all handlers (code ∷ order) = declaration_of handlers code ∷ declare_all handlers order

  -- `Declarations`
  unfoldable pub declarations : Option (Registry C S V) → List (Declaration S)
  declarations none = []
  declarations (some reg) = declare_all reg.handlers reg.order

  -- `Len`
  unfoldable pub registry_len : Option (Registry C S V) → ℕ
  registry_len none = 0
  registry_len (some reg) = length reg.handlers
