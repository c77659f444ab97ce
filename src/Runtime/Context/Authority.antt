-- ===== src/Runtime/Context/Authority.antt =====
-- What deriving a context changes: the effective grants, and nothing else.
use declarion_sdk_go.Common.{
  none, some, List, [], ◌∷◌, ◌++◌, String, string_Eq, Bool, true, false, ◌&&◌, ◌||◌, ◌==◌,
  if◌then◌else◌, ◌≡◌, refl, ◌∙◌, arith,
}
use declarion_sdk_go.Common.Result.{ok}
use declarion_sdk_go.Common.Sorting.{contains, contains-append}
use declarion_sdk_go.Execution.{Elevation, normalize, with_grants}
use declarion_sdk_go.Execution.Selection.{contains-normalize, contains-with_grants}
use declarion_sdk_go.Platform.Client.{Client, with_system_role, client_with_grants}
use declarion_sdk_go.Runtime.Token.{Claims}
use declarion_sdk_go.Runtime.Context.{
  HandlerCtx, client_elevation, projected_permissions, project_claims, project_authority,
  ctx_with_system_role, ctx_with_grants,
}

contains-star :
    (b : Bool) (xs : List String) (g : String)
    → contains (if b then xs ++ ("*" ∷ []) else xs) g ≡ (contains xs g || b && "*" == g)
unfolding contains
contains-star true xs g = contains-append xs ("*" ∷ []) g ∙ ground arith
contains-star false xs g = ground arith

contains-projected :
    (permissions : List String) (e : Elevation) (g : String)
    → contains (projected_permissions permissions e) g
      ≡ (contains permissions g || contains e.grants g || e.system && "*" == g)
unfolding projected_permissions
contains-projected permissions e g =
    contains-normalize
      (record {
        system = false;
        grants =
            if e.system then (permissions ++ e.grants) ++ ("*" ∷ []) else permissions ++ e.grants;
      })
      g
    ∙ contains-star e.system (permissions ++ e.grants) g
    ∙ ground (arith, contains-append permissions e.grants g)

module _ {A : Type 0} where
  -- Who is acting, where, under which roles and flags: what no selection of authority may change.
  pub record SameActor (c d : HandlerCtx A) : Type 0 where
    pub claims : d.claims ≡ c.claims
    pub user : d.user_id ≡ c.user_id
    pub real_user : d.real_user_id ≡ c.real_user_id
    pub agent : d.agent_id ≡ c.agent_id
    pub tenant : d.tenant_id ≡ c.tenant_id
    pub tenant_code : d.tenant_code ≡ c.tenant_code
    pub roles : d.roles ≡ c.roles
    pub superadmin : d.is_superadmin ≡ c.is_superadmin
    pub tenant_owner : d.is_tenant_owner ≡ c.is_tenant_owner
    pub global_user : d.is_global_user ≡ c.is_global_user
    pub depth : d.invoke_depth ≡ c.invoke_depth
    pub action : d.action ≡ c.action
    pub audit : d.audit_op ≡ c.audit_op
    pub token : d.platform.token ≡ c.platform.token
    pub target : d.platform.tenant_id ≡ c.platform.tenant_id

  -- the context as the serve path builds it
  abbrev pub projected : Claims A → HandlerCtx A → HandlerCtx A
  projected p c = project_authority (record c { claims = some p })

  same_actor :
      (p : Claims A) (c : HandlerCtx A) (client : Client)
      → client.token ≡ c.platform.token
      → client.tenant_id ≡ c.platform.tenant_id
      → SameActor (projected p c) (project_claims p (record (projected p c) { platform = client }))
  unfolding project_authority
  same_actor p c client t i = record {
    claims = refl;
    user = refl;
    real_user = refl;
    agent = refl;
    tenant = refl;
    tenant_code = refl;
    roles = refl;
    superadmin = refl;
    tenant_owner = refl;
    global_user = refl;
    depth = ground arith;
    action = refl;
    audit = refl;
    token = t;
    target = i;
  }

  -- Granting to a context under claims `p` keeps the actor, fails only where the bearer's own
  -- selection could not be read, and gives exactly the token's permissions, the grants selected
  -- before and now, and "*" if System is selected; the request that follows carries the selection.
  pub ctx_with_grants_lem :
      (p : Claims A) (c : HandlerCtx A) (grants : List String)
      → c.platform.selection_err ≡ none
      → (d : HandlerCtx A) × (ctx_with_grants (projected p c) grants ≡ ok d)
        × SameActor (projected p c) d
        × (d.platform.selected ≡ true)
        × (d.is_system ≡ c.platform.elevation.system)
        × ((g : String)
            → contains d.permissions g ≡ (
                contains p.permissions g
                || contains c.platform.elevation.grants g
                || contains grants g
                || c.platform.elevation.system && "*" == g))
  unfolding ctx_with_grants project_authority client_with_grants client_elevation normalize
      with_grants
  ctx_with_grants_lem p c grants readable =
      let client : Client = record (c.platform) {
        elevation = with_grants c.platform.elevation grants;
        selected = true;
      } in
      let d = project_claims p (record (projected p c) { platform = client }) in
      (
        d,
        ground (arith, readable),
        same_actor p c client refl refl,
        refl,
        refl,
        λ g.
            contains-projected p.permissions (client_elevation client) g
            ∙ ground (
              arith,
              contains-normalize client.elevation g,
              contains-with_grants c.platform.elevation grants g,
            ),
      )

  -- System adds "*" and keeps the actor, and it cannot fail.
  pub ctx_with_system_role_lem :
      (p : Claims A) (c : HandlerCtx A)
      → let d = ctx_with_system_role (projected p c) in
        SameActor (projected p c) d
        × (d.platform.selected ≡ true)
        × (d.is_system ≡ true)
        × ((g : String)
            → contains d.permissions g
              ≡ (contains p.permissions g || contains c.platform.elevation.grants g || "*" == g))
  unfolding ctx_with_system_role project_authority with_system_role normalize client_elevation
  ctx_with_system_role_lem p c =
      let client = with_system_role c.platform in
      (
        same_actor p c client refl refl,
        refl,
        refl,
        λ g.
            contains-projected p.permissions (client_elevation client) g
            ∙ ground (
              arith,
              contains-normalize client.elevation g,
              contains-normalize c.platform.elevation g,
            ),
      )
