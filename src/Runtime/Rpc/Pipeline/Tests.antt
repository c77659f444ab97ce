-- ===== src/Runtime/Rpc/Pipeline/Tests.antt =====
-- A server with one handler and one verifier, and the theorems at its requests.
use declarion_sdk_go.Common.{
  none, some, List, [], ◌∷◌, String, string_Eq, true, if◌then◌else◌, ◌≡◌, ◌≢◌, ◌⊎◌, refl,
}
use declarion_sdk_go.Common.Int.{pos, ◌+ℤ◌, add_int64}
use declarion_sdk_go.Common.Result.{ok}
use declarion_sdk_go.Common.Sorting.{contains, sorted_set, sort, compact}
use declarion_sdk_go.Common.Order.{str_leb}
use declarion_sdk_go.Execution.{normalize}
use declarion_sdk_go.Common.Assoc.{Assoc, lookup, retain}
use declarion_sdk_go.Runtime.Token.{
  Claims, VerifierClaims, Registered, parse_handler_token, check_claims, parse_verifier_token,
  token_audience, numeric_date, expiry,
}
use declarion_sdk_go.Runtime.Token.Checks.{IsWellFormed}
use declarion_sdk_go.Runtime.Token.Known.{claims, jwt, verifier_claims, verifier_jwt}
use declarion_sdk_go.Runtime.Rpc.{
  Request, decoded, Headers, extract_bearer, after_fold, with_handler_timeout,
}
use declarion_sdk_go.Runtime.Rpc.Reserved.{
  Params, object, absent, ReservedParams, extract_reserved_params, unmarshal_reserved,
  first_reserved, is_reserved, lookup-extract,
}
use declarion_sdk_go.Runtime.Rpc.Pipeline.{
  Host, Call, VerifierCall, done, accepted, run_handler, run_verifier, plan, plan_request,
  prepare_handler, prepare_verifier, authenticate_request, is_verifier_call, run_as_client,
  handler_ctx,
}
use declarion_sdk_go.Runtime.Context.{project_authority}
use declarion_sdk_go.Runtime.Rpc.Pipeline.Gates.{
  NotFirst, IsRunAs, plan-run_handler, plan-run_verifier,
}

-- raw JSON values are texts
abbrev bag : Assoc String String
bag = ("name", "Ann") ∷ ("_locale", "de") ∷ []

abbrev cleaned : Params String
cleaned = object (("name", "Ann") ∷ [])

abbrev reserved : ReservedParams
reserved = record { entity_code = ""; object_ids = []; locale = "de" }

extracts : extract_reserved_params some (λ _. none) (object bag) ≡ ok (reserved, cleaned)
unfolding extract_reserved_params unmarshal_reserved first_reserved is_reserved lookup retain
extracts = refl

lookup-extract_example :
    (out : Assoc String String) × (cleaned ≡ object out)
    × ((k : String) → lookup k out ≡ (if is_reserved k then none else lookup k bag))
unfolding lookup
lookup-extract_example =
    lookup-extract some (λ _. none) bag reserved cleaned (refl, (refl, tt)) extracts

abbrev host_of : Registered → Host (Unit {0}) (Unit {0}) String String (Unit {0})
host_of bearer = record {
  jwt_secret = "key";
  require_token = true;
  platform_url = "https://platform.example";
  authenticator = none;
  handlers = λ method call. done "loaded";
  verifiers = λ method. some (λ call. accepted "u1");
  catalogue = [];
  nil_attributes = tt;
  jwt = jwt;
  verifier_jwt = verifier_jwt;
  peek = λ token. some bearer;
  codecs = record {
    decode_segment = λ s. none;
    decode_claims = λ s. none;
    decode_elevation = λ s. none;
  };
  as_string = some;
  as_strings = λ v. none;
  decode_envelope = λ params. some tt;
  decode_raw_body = λ envelope. some [];
  size = λ core. some 100;
}

abbrev headers : Headers
headers = record {
  protocol_version = "1";
  authorization = "Bearer signed";
  timeout = "";
  run_as_token = "";
}

abbrev handler_host : Host (Unit {0}) (Unit {0}) String String (Unit {0})
handler_host = host_of claims.registered

abbrev handler_request : Request String
handler_request = record { jsonrpc = "2.0"; id = "1"; method = "lead.load"; params = object bag }

abbrev call : Call (Unit {0}) String
call = record {
  ctx =
      project_authority
        (handler_ctx handler_host (record { claims = claims; platform_token = "signed" }) reserved);
  params = cleaned;
  deadline = none;
}

handler_planned :
    plan handler_host (pos 1000) headers (decoded handler_request)
    ≡ run_handler handler_request call
unfolding plan plan_request prepare_handler authenticate_request is_verifier_call extract_bearer
    after_fold with_handler_timeout parse_handler_token check_claims token_audience
    extract_reserved_params unmarshal_reserved first_reserved is_reserved lookup retain contains
    numeric_date expiry project_authority normalize sorted_set sort compact str_leb ◌+ℤ◌ add_int64
handler_planned = refl

plan-run_handler_example :
    (c : Claims (Unit {0})) × (jwt.parse_checked "key" "handler_dispatch" "declarion"
        (pos 1000)
        "signed"
      ≡ some c)
    × IsWellFormed c
    × ((c.method ≡ "") ⊎ (c.method ≡ "lead.load"))
    × (contains c.registered.audience "handler_dispatch" ≡ true)
    × (call.ctx.claims ≡ some c)
    × ((handler_host.peek "signed" ≡ none)
        ⊎ ((r : Registered) × (handler_host.peek "signed" ≡ some r)
            × NotFirst "verifier_dispatch" r.audience))
unfolding extract_bearer after_fold
plan-run_handler_example =
    plan-run_handler handler_host (pos 1000) headers handler_request call refl refl
      (λ e. absurd (cc (e))) handler_planned

abbrev verifier_host : Host (Unit {0}) (Unit {0}) String String (Unit {0})
verifier_host = host_of verifier_claims.registered

abbrev verifier_request : Request String
verifier_request = record {
  jsonrpc = "2.0";
  id = "2";
  method = verifier_claims.method;
  params = absent;
}

abbrev run_as_headers : Headers
run_as_headers = record headers { run_as_token = "run-as" }

abbrev verifier_call : VerifierCall (Unit {0})
verifier_call = record {
  envelope = tt;
  raw_body = [];
  platform = run_as_client verifier_host run_as_headers;
}

verifier_planned :
    plan verifier_host (pos 50) run_as_headers (decoded verifier_request)
    ≡ run_verifier verifier_request verifier_call
unfolding plan plan_request prepare_verifier is_verifier_call extract_bearer after_fold
    parse_verifier_token token_audience contains
verifier_planned = refl

plan-run_verifier_example :
    (c : VerifierClaims) × (verifier_jwt.parse_checked "key" "verifier_dispatch" "declarion"
        (pos 50)
        "signed"
      ≡ some c)
    × (verifier_host.jwt_secret ≢ "")
    × (c.method ≡ verifier_claims.method)
    × IsRunAs "run-as" verifier_call.platform
    × ((r : Registered) × (more : List String) × (verifier_host.peek "signed" ≡ some r)
        × (r.audience ≡ "verifier_dispatch" ∷ more))
unfolding extract_bearer after_fold
plan-run_verifier_example =
    plan-run_verifier verifier_host (pos 50) run_as_headers verifier_request verifier_call
      verifier_planned
