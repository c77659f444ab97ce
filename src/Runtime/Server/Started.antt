-- ===== src/Runtime/Server/Started.antt =====
-- What holds of every request to a server that started.
use declarion_sdk_go.Common.{Option, none, [], String, string_Eq, false, ◌≡◌}
use declarion_sdk_go.Common.Int.{ℤ}
use declarion_sdk_go.Common.Assoc.{Assoc, lookup}
use declarion_sdk_go.Common.Result.{Result, ok}
use declarion_sdk_go.Runtime.Token.{Claims}
use declarion_sdk_go.Runtime.Rpc.Pipeline.{Host, VerifierCall, Verified}
use declarion_sdk_go.Runtime.Server.{Environment, ServerConfig}

abbrev the_ok : {B : Type 0} → (E : Type 0) → B → Result E B
the_ok E a = ok a

-- Claims that name no user, agent, tenant, action, scope or session, grant nothing, and have nil
-- attributes.
pub record IsNoOne {A : Type 0} (nil_attributes : A) (c : Claims A) : Type 0 where
  pub no_user : (c.user_id ≡ "") × (c.real_user_id ≡ "") × (c.agent_id ≡ "")
  pub no_tenant : (c.tenant_id ≡ "") × (c.tenant_code ≡ "")
  pub no_authority :
      (c.roles ≡ [])
      × (c.permissions ≡ [])
      × (c.elevation.system ≡ false)
      × (c.elevation.grants ≡ [])
  pub no_rank : (c.is_superadmin ≡ false) × (c.is_tenant_owner ≡ false) × (c.is_global_user ≡ false)
  pub no_attributes : (c.attributes ≡ nil_attributes) × (c.role_attributes ≡ nil_attributes)
  pub no_token :
      (c.scope ≡ "")
      × (c.action ≡ "")
      × (c.method ≡ "")
      × (c.registered.subject ≡ "")
      × (c.registered.audience ≡ [])
  pub no_flags : (c.anonymous ≡ false) × (c.run_as ≡ false) × (c.invoke_depth ≡ none)

module _ {V A J R X : Type 0} (parse_duration : String → Option ℤ) (env : Environment)
    (verifiers : Assoc String (VerifierCall X → Verified V R)) (libraries : Host V A J R X)
    (config : ServerConfig A) where
  abbrev started : ServerConfig A → Host V A J R X
  started c = record libraries {
    jwt_secret = c.jwt_secret;
    require_token = c.require_token;
    platform_url = c.platform_url;
    authenticator = c.authenticator;
    verifiers = λ method. lookup method verifiers;
  }
