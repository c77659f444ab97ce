-- ===== src/Runtime/Rpc.antt =====
-- runtime/serve.go, runtime/jsonrpc.go, runtime/authenticator.go and runtime/verifier_error.go: one
-- JSON-RPC request, from its body to the answer. Logging and tracing are left aside, and so are the
-- causes that only they read. The JSON decoders, the registered functions and the JSON Web Token
-- library are parameters.
pub mod Reserved
pub mod Pipeline
use Prim.Native.Char.{code}
use declarion_sdk_go.Common.{
  ℕ, zero, suc, ◌+◌, leb, nat_eq, Option, none, some, List, [], ◌∷◌, String, string_Eq, Bool, true,
  false, not, ◌&&◌, ◌||◌, ◌==◌, if◌then◌else◌,
}
use declarion_sdk_go.Common.Int.{ℤ, pos, negsuc, leb_ℤ, mul_int64}
use declarion_sdk_go.Common.Text.{Bytes, codes, parse_int64}
use declarion_sdk_go.Common.Result.{Result, ok, err, ◌>>=◌, ◌>>◌, fail_if, or_fail}
use declarion_sdk_go.Errs.{
  Json, text, integer, Link, Core, Error, Catalogue, raise, code_of, from, as_error, because,
}
use declarion_sdk_go.Errs.Render.{bounded}
use declarion_sdk_go.Runtime.Token.{
  Claims, VerifierClaims, HandlerJwt, VerifierJwt, Registered, parse_handler_token,
  parse_verifier_token, token_audience, verifier_token_audience,
}
use declarion_sdk_go.Runtime.Rpc.Reserved.{Params, ReservedParams, extract_reserved_params}

abbrev pub parse_error : ℤ
parse_error = negsuc 32699

abbrev pub invalid_request : ℤ
invalid_request = negsuc 32599

abbrev pub method_not_found : ℤ
method_not_found = negsuc 32600

abbrev pub invalid_params : ℤ
invalid_params = negsuc 32601

abbrev pub internal_error : ℤ
internal_error = negsuc 32602

abbrev pub server_error : ℤ
server_error = negsuc 31999

-- `JSONRPCCodeFor`, by the code of the error
unfoldable pub rpc_code_for : String → ℤ
rpc_code_for code =
    if code == "action.invalid_params"
      || code == "platform.invalid_body_shape"
      || code == "platform.bad_request"
    then invalid_params
    else if code == "handler.not_registered" || code == "action.not_found"
    then method_not_found
    else if code == "platform.invalid_body"
        || code == "platform.read_body_failed"
        || code == "platform.body_too_large"
    then parse_error
    else server_error

-- `Request`
pub record Request (J : Type 0) : Type 0 where
  pub jsonrpc : String
  pub id : String
  pub method : String
  pub params : Params J

-- what `io.ReadAll` of the bounded body gives, and what the JSON decoder makes of it
pub data Received (J : Type 0) : Type 0 where
  too_large unread malformed : Received J
  decoded : Request J → Received J

-- the headers that the pipeline reads, the timeout trimmed of white space
pub record Headers : Type 0 where
  pub protocol_version : String
  pub authorization : String
  pub timeout : String
  pub run_as_token : String

-- A failure before it is written: the number and the error.
pub record Failure (V : Type 0) : Type 0 where
  pub rpc_code : ℤ
  pub error : Error V

-- `Response`
pub data Response (V R : Type 0) : Type 0 where
  result : (id : String) → R → Response V R
  failed : (id : String) → (rpc_code : ℤ) → (message : String) → Option (Error V) → Response V R

-- `NewErrorResponse`
unfoldable pub new_error_response :
    {V R : Type 0} → (size : Core V → Option ℕ) → (id : String) → ℤ → Error V → Response V R
new_error_response size id rpc_code e =
    let bounded_error = bounded size (some e) (pos 0) in
    failed id rpc_code (elim bounded_error [ none ↦ "" | some b ↦ code_of b.core.type ])
      bounded_error

-- `strings.EqualFold` of one ASCII letter with a lower-case one
abbrev folds : ℕ → ℕ → Bool
folds lower c = nat_eq c lower || nat_eq (c + 32) lower

unfoldable pub after_fold : Bytes → String → Option String
after_fold [] s = some s
after_fold (l ∷ ls) String.[] = none
after_fold (l ∷ ls) (String.◌∷◌ c s) = if folds l (code c) then after_fold ls s else none

-- `extractBearer`
unfoldable pub extract_bearer : String → String
extract_bearer auth = elim (after_fold (codes "bearer") auth) [
  | none ↦ ""
  | some rest ↦ elim rest [
    | String.[] ↦ ""
    | String.◌∷◌ c token ↦ if nat_eq (code c) b' ' then token else ""
  ]
]

-- `withHandlerTimeout`: no deadline, so many nanoseconds, or a refusal, from the trimmed header
unfoldable pub with_handler_timeout : (header : String) → Option (Option ℤ)
with_handler_timeout header =
    if header == "" then some none else elim (parse_int64 (codes header)) [
      | none ↦ none
      | some ms ↦ if leb_ℤ ms (pos 0) then none else some (some (mul_int64 ms 1000000))
    ]
