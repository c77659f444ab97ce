-- ===== src/Runtime/Server/Tests.antt =====
-- A server that starts with a secret and requires no token, and a call without one; servers that do
-- not start.
use declarion_sdk_go.Common.{
  none, some, [], ◌∷◌, String, string_Eq, true, false, if◌then◌else◌, ◌==◌, ◌≡◌, refl, Option,
}
use declarion_sdk_go.Common.Int.{ℤ, pos}
use declarion_sdk_go.Common.Result.{err}
use declarion_sdk_go.Common.Assoc.{Assoc, lookup}
use declarion_sdk_go.Dispatch.Verifiers.{verifier_count}
use declarion_sdk_go.Runtime.Token.{zero_claims}
use declarion_sdk_go.Runtime.Token.Known.{jwt, verifier_jwt}
use declarion_sdk_go.Runtime.Rpc.{Request, Headers}
use declarion_sdk_go.Runtime.Rpc.Reserved.{object}
use declarion_sdk_go.Runtime.Rpc.Pipeline.{
  Host, Call, VerifierCall, Verified, done, handler_ctx, accepted,
}
use declarion_sdk_go.Runtime.Context.{project_authority}
use declarion_sdk_go.Runtime.Server.{
  Environment, ServerConfig, secret_required_for_tokens, unverified_not_allowed,
  secret_required_for_verifiers, timeout_not_positive, with_defaults, new_transport,
  connect_platform, check_startup, new_handler,
}

abbrev environment : Environment
environment name = if name == "DECLARION_JWT_SECRET" then "key" else ""

abbrev bare : Environment
bare name = ""

abbrev duration : String → Option ℤ
duration text = some (pos 30000000000)

abbrev config : ServerConfig (Unit {0})
config = record {
  addr = "";
  platform_url = "https://platform.example";
  platform_idle_conn_timeout = pos 0;
  jwt_secret = "";
  require_token = false;
  authenticator = none;
  shutdown_timeout = pos 0;
}

abbrev no_verifiers : Assoc String (VerifierCall (Unit {0}) → Verified (Unit {0}) String)
no_verifiers = []

abbrev one_verifier : Assoc String (VerifierCall (Unit {0}) → Verified (Unit {0}) String)
one_verifier = ("auth", λ call. accepted "u1") ∷ []

abbrev host_with : (secret url : String) → Host (Unit {0}) (Unit {0}) String String (Unit {0})
host_with secret url = record {
  jwt_secret = secret;
  require_token = false;
  platform_url = url;
  authenticator = none;
  handlers = λ method call. done "loaded";
  verifiers = λ method. lookup method no_verifiers;
  catalogue = [];
  nil_attributes = tt;
  jwt = jwt;
  verifier_jwt = verifier_jwt;
  peek = λ token. none;
  codecs = record {
    decode_segment = λ s. none;
    decode_claims = λ s. none;
    decode_elevation = λ s. none;
  };
  as_string = some;
  as_strings = λ v. none;
  decode_envelope = λ params. some tt;
  decode_raw_body = λ envelope. some [];
  size = λ core. some 100;
}

abbrev host : Host (Unit {0}) (Unit {0}) String String (Unit {0})
host = host_with "key" "https://platform.example"

abbrev headers : Headers
headers = record { protocol_version = "1"; authorization = ""; timeout = ""; run_as_token = "" }

abbrev request : Request String
request = record { jsonrpc = "2.0"; id = "1"; method = "lead.load"; params = object [] }

abbrev call : Call (Unit {0}) String
call = record {
  ctx = project_authority (
      handler_ctx host (record { claims = zero_claims tt; platform_token = "" })
        (record { entity_code = ""; object_ids = []; locale = "" }));
  params = object [];
  deadline = none;
}

-- no secret: where a token is required, where the test-only variable is not set, and where there
-- are verifiers
refusals :
    (new_handler duration bare no_verifiers
        (host_with "" "")
        (record config { require_token = true })
      ≡ err secret_required_for_tokens)
    × (new_handler duration bare no_verifiers (host_with "" "") config ≡ err unverified_not_allowed)
    × (new_handler duration bare one_verifier
          (host_with "" "")
          (record config { authenticator = some (λ method. none) })
        ≡ err secret_required_for_verifiers)
unfolding new_handler check_startup with_defaults connect_platform new_transport verifier_count
refusals = (refl, refl, refl)

-- a timeout that is not positive is refused, never replaced
no_pool :
    new_handler (λ text. some (pos 0)) environment no_verifiers (host_with "" "") config
    ≡ err timeout_not_positive
unfolding new_handler check_startup with_defaults connect_platform new_transport verifier_count
no_pool = refl
