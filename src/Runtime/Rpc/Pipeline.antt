-- ===== src/Runtime/Rpc/Pipeline.antt =====
-- `handleRPC` and `handleVerifierDispatch` of runtime/serve.go: the checks of a request in their
-- order, up to the call of a registered function, and the answer. A `Host` is the server's
-- configuration, its registered functions, and the libraries that it calls.
pub mod Gates
mod Tests
use declarion_sdk_go.Common.{
  ℕ, Option, none, some, List, [], ◌∷◌, String, string_Eq, Bool, true, false, not, ◌&&◌, ◌||◌, ◌==◌,
  if◌then◌else◌,
}
use declarion_sdk_go.Common.Int.{ℤ, pos}
use declarion_sdk_go.Common.Text.{Bytes}
use declarion_sdk_go.Common.Result.{Result, ok, err, ◌>>=◌, ◌>>◌, fail_if, or_fail}
use declarion_sdk_go.Errs.{
  Json, text, integer, Link, Core, Error, Catalogue, raise, code_of, from, because,
}
use declarion_sdk_go.Execution.{no_elevation}
use declarion_sdk_go.Execution.Inherited.{Codecs}
use declarion_sdk_go.Platform.Client.{Client, new}
use declarion_sdk_go.Runtime.Token.{
  CallerContext, Claims, zero_claims, VerifierClaims, HandlerJwt, VerifierJwt, Registered,
  parse_handler_token, parse_verifier_token, token_audience, verifier_token_audience,
}
use declarion_sdk_go.Runtime.Context.{HandlerCtx, project_authority}
use declarion_sdk_go.Runtime.Rpc.Reserved.{Params, ReservedParams, extract_reserved_params}
use declarion_sdk_go.Runtime.Rpc.{
  parse_error, invalid_request, method_not_found, invalid_params, internal_error, server_error,
  rpc_code_for, Request, Received, too_large, unread, malformed, decoded, Headers, Failure,
  Response, result, new_error_response, extract_bearer, with_handler_timeout,
}

-- What a handler comes to; a panic is an error. `is_not_found` is `errors.Is(err, kern.ErrNotFound)`.
pub data HandlerOutcome (V R : Type 0) : Type 0 where
  done : R → HandlerOutcome V R
  raised : List (Link V) → (is_not_found : Bool) → HandlerOutcome V R

-- What a verifier comes to: a decline of a class of `VerifierOutcome`, or another error.
pub data VerifierOutcome : Type 0 where
  rejected bad_request unavailable : VerifierOutcome

pub data Verified (V R : Type 0) : Type 0 where
  accepted : R → Verified V R
  declined : VerifierOutcome → Verified V R
  faulted : List (Link V) → Verified V R

-- `AuthenticatedRequest`
pub record AuthenticatedRequest (A : Type 0) : Type 0 where
  pub claims : Claims A
  pub platform_token : String

-- a handler's call
pub record Call (A J : Type 0) : Type 0 where
  pub ctx : HandlerCtx A
  pub params : Params J
  pub deadline : Option ℤ

-- a verifier's call: its envelope, the raw body, and the client of the run-as user
pub record VerifierCall (X : Type 0) : Type 0 where
  pub envelope : X
  pub raw_body : Bytes
  pub platform : Option Client

pub record Host (V A J R X : Type 0) : Type 0 where
  pub jwt_secret : String
  pub require_token : Bool
  pub platform_url : String
  pub authenticator : Option (String → Option (AuthenticatedRequest A))
  pub handlers : String → Call A J → HandlerOutcome V R
  pub verifiers : String → Option (VerifierCall X → Verified V R)
  pub catalogue : Catalogue
  pub nil_attributes : A
  pub jwt : HandlerJwt A
  pub verifier_jwt : VerifierJwt
  pub peek : String → Option Registered
  pub codecs : Codecs
  pub as_string : J → Option String
  pub as_strings : J → Option (List String)
  pub decode_envelope : Params J → Option X
  pub decode_raw_body : X → Option Bytes
  pub size : Core V → Option ℕ

-- What is to be done with a request.
pub data Plan (V A J X : Type 0) : Type 0 where
  refuse : (id : String) → Failure V → Plan V A J X
  run_handler : Request J → Call A J → Plan V A J X
  run_verifier : Request J → VerifierCall X → Plan V A J X

module _ {V A J R X : Type 0} (host : Host V A J R X) where
  abbrev fail : ℤ → (code : String) → List (String × Json V) → Failure V
  fail rpc_code code args = record { rpc_code = rpc_code; error = raise host.catalogue code args }

  -- `authenticateRequest`; its error is only logged
  unfoldable pub authenticate_request :
      (now : ℤ) → Headers → (method : String) → Option (AuthenticatedRequest A)
  authenticate_request now h method =
      let token = extract_bearer h.authorization in
      elim host.authenticator [
        | some authenticate ↦ authenticate method
        | none ↦
            if host.require_token && token == ""
            then none
            else if token == ""
            then some (record { claims = zero_claims host.nil_attributes; platform_token = "" })
            else elim (parse_handler_token host.jwt now token host.jwt_secret) [
              | err _ ↦ none
              | ok claims ↦
                  if not (claims.method == "") && not (claims.method == method)
                  then none
                  else some (record { claims = claims; platform_token = token })
            ]
      ]

  -- the handler's context before `projectAuthority`
  abbrev pub handler_ctx : AuthenticatedRequest A → ReservedParams → HandlerCtx A
  handler_ctx v reserved = record {
    claims = some v.claims;
    kind = v.claims.kind;
    is_system = false;
    invoke_depth = pos 0;
    caller_context = v.claims.caller_context;
    platform = new host.codecs (record {
      base_url = host.platform_url;
      token = v.platform_token;
      target_tenant_id = "";
      target_tenant_code = "";
    });
    tenant_id = v.claims.tenant_id;
    tenant_code = v.claims.tenant_code;
    user_id = v.claims.user_id;
    agent_id = v.claims.agent_id;
    real_user_id = v.claims.real_user_id;
    roles = v.claims.roles;
    audit_op = v.claims.audit_op_id;
    action = v.claims.action;
    permissions = v.claims.permissions;
    is_superadmin = v.claims.is_superadmin;
    is_tenant_owner = v.claims.is_tenant_owner;
    is_global_user = v.claims.is_global_user;
    attributes = v.claims.attributes;
    role_attributes = v.claims.role_attributes;
    entity_code = reserved.entity_code;
    object_ids = reserved.object_ids;
    locale = reserved.locale;
  }

  -- `handleRPC` behind the routing by token family
  unfoldable pub prepare_handler : (now : ℤ) → Headers → Request J → Result (Failure V) (Call A J)
  prepare_handler now h req = do
    v ← or_fail (authenticate_request now h req.method) (fail server_error "auth.invalid_token" [])
    deadline ← or_fail (with_handler_timeout h.timeout) (
        fail server_error "handler.protocol_mismatch" (
          ("expected", text "X-Declarion-Timeout-Ms: a positive whole number of milliseconds")
          ∷ ("got", text h.timeout)
          ∷ []))
    elim (extract_reserved_params host.as_string host.as_strings req.params) [
      | err key ↦ err (fail invalid_params "action.invalid_params" (("param", text key) ∷ []))
      | ok (reserved, params) ↦ ok (record {
        ctx = project_authority (handler_ctx v reserved);
        params = params;
        deadline = deadline;
      })
    ]

  -- the platform client of a verifier: of the run-as credential only
  abbrev pub run_as_client : Headers → Option Client
  run_as_client h =
      if h.run_as_token == ""
      then none
      else some (
          new host.codecs (record {
            base_url = host.platform_url;
            token = h.run_as_token;
            target_tenant_id = "";
            target_tenant_code = "";
          }))

  -- `handleVerifierDispatch` up to the call
  unfoldable pub prepare_verifier :
      (now : ℤ) → Headers → Request J → (token : String) → Result (Failure V) (VerifierCall X)
  prepare_verifier now h req token = do
    fail_if (host.jwt_secret == "") (fail server_error "auth.unauthorized" [])
    claims ← elim (parse_verifier_token host.verifier_jwt now token host.jwt_secret) [
      | err _ ↦ err (fail server_error "auth.invalid_token" [])
      | ok claims ↦ ok claims
    ]
    fail_if (not (claims.method == req.method)) (fail server_error "auth.invalid_token" [])
    _ ←
        or_fail (host.verifiers req.method)
          (fail method_not_found "handler.not_registered" (("method", text req.method) ∷ []))
    env ← or_fail (host.decode_envelope req.params) (fail invalid_params "action.invalid_params" [])
    raw_body ←
        or_fail (host.decode_raw_body env)
          (fail invalid_params "action.invalid_params" (("param", text "raw_body_base64") ∷ []))
    ok (record { envelope = env; raw_body = raw_body; platform = run_as_client h })

  -- the routing by the audience of the bearer
  unfoldable pub is_verifier_call : (token : String) → Bool
  is_verifier_call token = if token == "" then false else elim (token_audience host.peek token) [
    | none ↦ false
    | some aud ↦ aud == verifier_token_audience
  ]

  -- what `handleRPC` does with a request up to the call of a function
  unfoldable pub plan_request : (now : ℤ) → Headers → Request J → Plan V A J X
  plan_request now h req =
      let token = extract_bearer h.authorization in
      if not (h.protocol_version == "") && not (h.protocol_version == "1")
      then refuse req.id (
          fail server_error "handler.protocol_mismatch"
            (("expected", text "1") ∷ ("got", text h.protocol_version) ∷ []))
      else if not (req.jsonrpc == "2.0")
      then refuse req.id (fail invalid_request "platform.invalid_body_shape" [])
      else if is_verifier_call token
      then elim (prepare_verifier now h req token) [
        | err e ↦ refuse req.id e
        | ok call ↦ run_verifier req call
      ]
      else elim (prepare_handler now h req) [
        | err e ↦ refuse req.id e
        | ok call ↦ run_handler req call
      ]

  unfoldable pub plan : (now : ℤ) → Headers → Received J → Plan V A J X
  plan now h too_large =
      refuse ""
        (fail parse_error "platform.body_too_large" (("threshold", integer (pos 104857600)) ∷ []))
  plan now h unread = refuse "" (fail parse_error "platform.read_body_failed" [])
  plan now h malformed = refuse "" (fail parse_error "platform.invalid_body" [])
  plan now h (decoded req) = plan_request now h req

  -- `err != error(e)`: the error is not itself the typed one
  abbrev is_wrapped : List (Link V) → Bool
  is_wrapped (Link.typed c ∷ _) = false
  is_wrapped _ = true

  -- `writeHandlerError`
  unfoldable pub write_handler_error :
      (id method : String) → List (Link V) → (is_not_found : Bool) → Response V R
  write_handler_error id method e is_not_found = elim (from e) [
    | some typed ↦
        new_error_response host.size id (rpc_code_for (code_of typed.core.type))
          (if is_wrapped e then because typed e else typed)
    | none ↦
        if is_not_found
        then new_error_response host.size id method_not_found
            (raise host.catalogue "handler.not_registered" (("method", text method) ∷ []))
        else new_error_response host.size id internal_error
            (because (raise host.catalogue "platform.internal_error" []) e)
  ]

  -- `VerifierError.wire`
  unfoldable pub wire : VerifierOutcome → Failure V
  wire rejected = fail server_error "verifier.rejected" []
  wire bad_request = fail invalid_params "verifier.invalid_request" []
  wire unavailable = fail internal_error "verifier.unavailable" []

  -- `writeVerifierError`, and the answer to a verifier that accepts
  unfoldable pub write_verified : (id : String) → Verified V R → Response V R
  write_verified id (accepted r) = result id r
  write_verified id (declined o) = new_error_response host.size id (wire o).rpc_code (wire o).error
  write_verified id (faulted e) =
      new_error_response host.size id internal_error
        (because (raise host.catalogue "verifier.unavailable" []) e)

  -- running what was planned
  unfoldable pub answer : Plan V A J X → Response V R
  answer (refuse id e) = new_error_response host.size id e.rpc_code e.error
  answer (run_handler req call) = elim (host.handlers req.method call) [
    | done r ↦ result req.id r
    | raised e is_not_found ↦ write_handler_error req.id req.method e is_not_found
  ]
  answer (run_verifier req call) = elim (host.verifiers req.method) [
    | none ↦
        new_error_response host.size req.id method_not_found
          (raise host.catalogue "handler.not_registered" (("method", text req.method) ∷ []))
    | some verify ↦ write_verified req.id (verify call)
  ]

  -- `handleRPC`
  unfoldable pub handle_rpc : (now : ℤ) → Headers → Received J → Response V R
  handle_rpc now h received = answer (plan now h received)
