-- ===== src/Runtime/Context/Tests.antt =====
-- Deriving from a context on concrete claims.
use declarion_sdk_go.Common.{
  none, some, [], ◌∷◌, String, string_Eq, ◌==◌, true, false, ◌||◌, ◌&&◌, ◌≡◌, refl,
}
use declarion_sdk_go.Common.Int.{pos}
use declarion_sdk_go.Common.Order.{str_leb}
use declarion_sdk_go.Common.Sorting.{contains, sorted_set, sort, compact}
use declarion_sdk_go.Common.Result.{ok}
use declarion_sdk_go.Execution.{no_elevation, normalize}
use declarion_sdk_go.Platform.Client.{Client, with_system_role}
use declarion_sdk_go.Runtime.Token.{CallerContext, Claims}
use declarion_sdk_go.Runtime.Context.{
  HandlerCtx, project_authority, ctx_with_grants, ctx_with_system_role, projected_permissions,
  client_elevation,
}
use declarion_sdk_go.Runtime.Context.Authority.{
  SameActor, projected, ctx_with_grants_lem, ctx_with_system_role_lem,
}

abbrev caller : CallerContext
caller = record {
  impersonation_session_id = "";
  agent_session_id = "";
  agent_conversation_id = "";
  session_id = "s";
  auth_method = "password";
  api_key_id = "";
}

abbrev claims : Claims (Unit {0})
claims = record {
  kind = "";
  run_as = false;
  elevation = no_elevation;
  invoke_depth = some (pos 1);
  caller_context = caller;
  registered = record {
    issuer = "declarion";
    subject = "u1";
    audience = "handler_dispatch" ∷ [];
    issued_at = pos 1;
    expires_at = pos 100;
    id = "x";
  };
  user_id = "u1";
  tenant_id = "t1";
  tenant_code = "acme";
  agent_id = "";
  real_user_id = "";
  roles = [];
  permissions = "lead.read" ∷ [];
  is_superadmin = false;
  is_tenant_owner = false;
  is_global_user = false;
  attributes = tt;
  role_attributes = tt;
  action = "lead.load";
  audit_op_id = "op";
  scope = "handler";
  method = "lead.load";
  anonymous = false;
}

abbrev client : Client
client = record {
  elevation = no_elevation;
  selection_err = none;
  selected = false;
  base_url = "http://p";
  token = "t";
  tenant_id = "";
  tenant_code = "";
}

abbrev ctx : HandlerCtx (Unit {0})
ctx = record {
  claims = none;
  kind = "";
  is_system = false;
  invoke_depth = pos 0;
  caller_context = caller;
  platform = client;
  tenant_id = "";
  tenant_code = "";
  user_id = "";
  agent_id = "";
  real_user_id = "";
  roles = [];
  audit_op = "op";
  action = "lead.load";
  permissions = [];
  is_superadmin = false;
  is_tenant_owner = false;
  is_global_user = false;
  attributes = tt;
  role_attributes = tt;
  entity_code = "";
  object_ids = [];
  locale = "";
}

system_permissions :
    (ctx_with_system_role (projected claims ctx)).permissions ≡ "*" ∷ "lead.read" ∷ []
unfolding ctx_with_system_role project_authority projected_permissions client_elevation
    with_system_role normalize sorted_set sort compact str_leb
system_permissions = refl

ctx_with_grants_lem_example :
    (d : HandlerCtx (Unit {0})) × (ctx_with_grants (projected claims ctx) ("a" ∷ []) ≡ ok d)
    × SameActor (projected claims ctx) d
    × (d.platform.selected ≡ true)
    × (d.is_system ≡ false)
    × ((g : String)
        → contains d.permissions g ≡ (
            contains claims.permissions g
            || contains client.elevation.grants g
            || contains ("a" ∷ []) g
            || false && "*" == g))
ctx_with_grants_lem_example = ctx_with_grants_lem claims ctx ("a" ∷ []) refl

ctx_with_system_role_lem_example :
    let d = ctx_with_system_role (projected claims ctx) in
    SameActor (projected claims ctx) d
    × (d.platform.selected ≡ true)
    × (d.is_system ≡ true)
    × ((g : String)
        → contains d.permissions g
          ≡ (contains claims.permissions g || contains client.elevation.grants g || "*" == g))
ctx_with_system_role_lem_example = ctx_with_system_role_lem claims ctx
