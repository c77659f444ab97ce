-- ===== src/Runtime/Context.antt =====
-- runtime/ctx.go and runtime/elevation.go: the authority that a handler sees, and the contexts that
-- it derives. Cloned slices and maps are values.
pub mod Authority
mod Tests
use declarion_sdk_go.Common.{
  Option, none, some, List, [], ◌∷◌, ◌++◌, String, Bool, true, false, if◌then◌else◌,
}
use declarion_sdk_go.Common.Int.{ℤ, pos}
use declarion_sdk_go.Common.Result.{Result, ok, err}
use declarion_sdk_go.Execution.{Elevation, normalize}
use declarion_sdk_go.Execution.Inherited.{MetadataError}
use declarion_sdk_go.Platform.Client.{Client, with_system_role, client_with_grants}
use declarion_sdk_go.Runtime.Token.{CallerContext, Claims}

-- `HandlerCtx`, without the Go context, the logger and the raw body
pub record HandlerCtx (A : Type 0) : Type 0 where
  pub claims : Option (Claims A)
  pub kind : String
  pub is_system : Bool
  pub invoke_depth : ℤ
  pub caller_context : CallerContext
  pub platform : Client
  pub tenant_id : String
  pub tenant_code : String
  pub user_id : String
  pub agent_id : String
  pub real_user_id : String
  pub roles : List String
  pub audit_op : String
  pub action : String
  pub permissions : List String
  pub is_superadmin : Bool
  pub is_tenant_owner : Bool
  pub is_global_user : Bool
  pub attributes : A
  pub role_attributes : A
  pub entity_code : String
  pub object_ids : List String
  pub locale : String

-- `Client.Elevation`
unfoldable pub client_elevation : Client → Elevation
client_elevation c = normalize c.elevation

-- the permissions at the end of `projectAuthority`
unfoldable pub projected_permissions : List String → Elevation → List String
projected_permissions permissions e =
    let granted = permissions ++ e.grants in
    let all = if e.system then granted ++ ("*" ∷ []) else granted in
    (normalize (record { system = false; grants = all })).grants

module _ {A : Type 0} where
  abbrev pub project_claims : Claims A → HandlerCtx A → HandlerCtx A
  project_claims p c = record c {
    user_id = p.user_id;
    real_user_id = p.real_user_id;
    agent_id = p.agent_id;
    tenant_id = p.tenant_id;
    tenant_code = p.tenant_code;
    kind = p.kind;
    roles = p.roles;
    is_superadmin = p.is_superadmin;
    is_tenant_owner = p.is_tenant_owner;
    is_global_user = p.is_global_user;
    caller_context = p.caller_context;
    attributes = p.attributes;
    role_attributes = p.role_attributes;
    invoke_depth = elim p.invoke_depth [ none ↦ c.invoke_depth | some d ↦ d ];
    is_system = (client_elevation c.platform).system;
    permissions = projected_permissions p.permissions (client_elevation c.platform);
  }

  -- `projectAuthority`
  unfoldable pub project_authority : HandlerCtx A → HandlerCtx A
  project_authority c = elim c.claims [ none ↦ c | some p ↦ project_claims p c ]

  -- `HandlerCtx.WithSystemRole`
  unfoldable pub ctx_with_system_role : HandlerCtx A → HandlerCtx A
  ctx_with_system_role c = project_authority (record c { platform = with_system_role c.platform })

  -- `HandlerCtx.WithGrants`
  unfoldable pub ctx_with_grants : HandlerCtx A → List String → Result MetadataError (HandlerCtx A)
  ctx_with_grants c grants = elim (client_with_grants c.platform grants) [
    | err e ↦ err e
    | ok client ↦ ok (project_authority (record c { platform = client }))
  ]
