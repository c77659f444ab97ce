-- ===== src/Runtime/Server.antt =====
-- How a server starts: `Config.withDefaults`, `connectPlatform` and `NewHandler` of runtime/serve.go,
-- and `NewTransport` of platform/transport.go. The environment is `os.Getenv`, which gives the empty
-- text for what is not set; `time.ParseDuration` is a parameter. A duration is in nanoseconds.
pub mod Started
mod Tests
use declarion_sdk_go.Common.{
  ℕ, Option, none, some, List, [], ◌∷◌, String, string_Eq, Bool, true, false, not, ◌&&◌, ◌||◌, ◌==◌,
  ltb, if◌then◌else◌,
}
use declarion_sdk_go.Common.Int.{ℤ, pos, leb_ℤ, eq_ℤ}
use declarion_sdk_go.Common.Assoc.{Assoc, lookup}
use declarion_sdk_go.Common.Result.{Result, ok, err, ◌>>=◌, ◌>>◌, fail_if, or_fail}
use declarion_sdk_go.Dispatch.Verifiers.{verifier_count}
use declarion_sdk_go.Runtime.Rpc.Pipeline.{Host, AuthenticatedRequest, VerifierCall, Verified}

abbrev pub Environment : Type 0
Environment = String → String

-- `Config` of a server
pub record ServerConfig (A : Type 0) : Type 0 where
  pub addr : String
  pub platform_url : String
  pub platform_idle_conn_timeout : ℤ
  pub jwt_secret : String
  pub require_token : Bool
  pub authenticator : Option (String → Option (AuthenticatedRequest A))
  pub shutdown_timeout : ℤ

pub data StartError : Type 0 where
  secret_required_for_tokens unverified_not_allowed secret_required_for_verifiers : StartError
  not_a_duration timeout_not_positive : StartError

abbrev if_empty : String → String → String
if_empty s default = if s == "" then default else s

-- `NewTransport`: the idle timeout of the pool
unfoldable pub new_transport : (idle_conn_timeout : ℤ) → Result StartError ℤ
new_transport idle_conn_timeout = do
  fail_if (leb_ℤ idle_conn_timeout (pos 0)) timeout_not_positive
  ok idle_conn_timeout

module _ {A : Type 0} where
  -- `withDefaults`, without the logger
  unfoldable pub with_defaults : Environment → ServerConfig A → ServerConfig A
  with_defaults env c = record c {
    addr = if_empty c.addr (if_empty (env "DECLARION_SIDECAR_ADDR") ":8080");
    platform_url = if_empty c.platform_url (env "DECLARION_PLATFORM_URL");
    jwt_secret = if_empty c.jwt_secret (env "DECLARION_JWT_SECRET");
    shutdown_timeout =
        if eq_ℤ c.shutdown_timeout (pos 0) then pos 10000000000 else c.shutdown_timeout;
  }

  -- `connectPlatform`
  unfoldable pub connect_platform :
      (parse_duration : String → Option ℤ)
      → Environment
      → ServerConfig A
      → Result StartError (ServerConfig A)
  connect_platform parse_duration env c = do
    declared ←
        if eq_ℤ c.platform_idle_conn_timeout (pos 0)
        then or_fail (parse_duration (if_empty (env "DECLARION_PLATFORM_IDLE_CONN_TIMEOUT") "30s"))
            not_a_duration
        else ok c.platform_idle_conn_timeout
    idle ← new_transport declared
    ok (record c { platform_idle_conn_timeout = idle })

  -- the startup gates of `NewHandler`
  unfoldable pub check_startup :
      Environment → (verifiers : ℕ) → ServerConfig A → Result StartError Unit
  check_startup env verifiers c =
      let bare = elim c.authenticator as (λ _. Bool) [
        | none ↦ c.jwt_secret == ""
        | some _ ↦ false
      ] in
      do
        fail_if (bare && c.require_token) secret_required_for_tokens
        fail_if (bare && not (env "DECLARION_SIDECAR_ALLOW_UNVERIFIED" == "1"))
            unverified_not_allowed
        fail_if (ltb 0 verifiers && c.jwt_secret == "") secret_required_for_verifiers
        ok tt

  module _ {V J R X : Type 0} where
    -- `NewHandler`: `libraries` holds what a server is given beside its configuration, `verifiers`
    -- is the process's registry.
    unfoldable pub new_handler :
        (parse_duration : String → Option ℤ)
        → Environment
        → (verifiers : Assoc String (VerifierCall X → Verified V R)) → (libraries : Host V A J R X)
        → ServerConfig A
        → Result StartError (Host V A J R X)
    new_handler parse_duration env verifiers libraries config = do
      _ ← check_startup env (verifier_count verifiers) (with_defaults env config)
      c ← connect_platform parse_duration env (with_defaults env config)
      ok (record libraries {
        jwt_secret = c.jwt_secret;
        require_token = c.require_token;
        platform_url = c.platform_url;
        authenticator = c.authenticator;
        verifiers = λ method. lookup method verifiers;
      })
