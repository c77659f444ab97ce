-- ===== src/Runtime/Helpers.antt =====
-- runtime/params.go and runtime/verifier_ctx.go: what a handler reads of the platform's parameters,
-- and what a verifier reads of its request. `convert` is `platform.Convert`; the chain of the error
-- that it wraps is a parameter of the lookup's answer.
mod Tests
use declarion_sdk_go.Common.{
  Option, none, some, List, [], ◌∷◌, String, string_Eq, Bool, true, false, ◌||◌, ◌==◌,
  if◌then◌else◌,
}
use declarion_sdk_go.Common.Text.{Bytes}
use declarion_sdk_go.Common.Assoc.{Assoc, lookup}
use declarion_sdk_go.Common.Result.{Result, ok, err, ◌>>=◌, ◌>>◌, fail_if}
use declarion_sdk_go.Errs.{Json, text, Link, Error, Catalogue, raise, because}
use declarion_sdk_go.Execution.Inherited.{Codecs}
use declarion_sdk_go.Platform.Client.{Client, new}

-- the results of `ParamsClient.Lookup`: its error, or the value and whether it was found
pub data LookedUp (V P : Type 0) : Type 0 where
  lookup_failed : List (Link V) → LookedUp V P
  looked_up : (value : P) → (found : Bool) → LookedUp V P

module _ {V P T : Type 0} (catalogue : Catalogue) (convert : P → Result (List (Link V)) T) where
  -- `paramResolveError`
  unfoldable pub param_resolve_error : (code : String) → List (Link V) → Error V
  param_resolve_error code e =
      because (raise catalogue "param.resolve_failed" (("param", text code) ∷ [])) e

  abbrev resolved : (code : String) → Result (List (Link V)) T → Result (Error V) T
  resolved code (ok v) = ok v
  resolved code (err e) = err (param_resolve_error code e)

  -- `GetRequiredParam`
  unfoldable pub get_required_param : (code : String) → LookedUp V P → Result (Error V) T
  get_required_param code (lookup_failed e) = err (param_resolve_error code e)
  get_required_param code (looked_up value found) =
      if found
      then resolved code (convert value)
      else err (raise catalogue "param.not_configured" (("param", text code) ∷ []))

-- What a verifier holds of its request, and what backs `PlatformFor`.
pub record VerifierCtx : Type 0 where
  pub query : Assoc String (List String)
  pub headers : Assoc String (List String)
  pub raw_body : Bytes
  pub platform : Option Client
  pub run_as : String
  pub platform_url : String

-- `firstValue`
unfoldable pub first_value : Assoc String (List String) → String → String
first_value m key = elim (lookup key m) [
  | none ↦ ""
  | some values ↦ elim values [ [] ↦ "" | value ∷ _ ↦ value ]
]

-- `VerifierCtx.Header`, with `strings.ToLower`
unfoldable pub verifier_header : (to_lower : String → String) → VerifierCtx → String → String
verifier_header to_lower c name = first_value c.headers (to_lower name)

-- `VerifierCtx.QueryValue`
unfoldable pub query_value : VerifierCtx → String → String
query_value c name = first_value c.query name

-- `VerifierCtx.PlatformFor`
unfoldable pub platform_for : Codecs → VerifierCtx → (tenant_id : String) → Option Client
platform_for codecs c tenant_id =
    if c.run_as == "" || tenant_id == ""
    then c.platform
    else some (
        new codecs (record {
          base_url = c.platform_url;
          token = c.run_as;
          target_tenant_id = tenant_id;
          target_tenant_code = "";
        }))

-- `VerifierCtx.DecodeJSON`; `none` is either error
unfoldable pub decode_json : {T : Type 0} → (unmarshal : Bytes → Option T) → VerifierCtx → Option T
decode_json unmarshal c = elim c.raw_body [ [] ↦ none | b ∷ body ↦ unmarshal (b ∷ body) ]
