-- ===== src/Platform/Client.antt =====
-- platform/client.go, platform/elevation.go and platform/forwarded.go: the client, the clients that
-- are derived from it, and the headers of a request. The transport is left aside; the codec of the
-- elevation header is a parameter.

pub mod Headers
mod Tests
use declarion_sdk_go.Common.{
  ℕ, Option, none, some, List, [], ◌∷◌, ◌++◌, String, string_Eq, Bool, true, false, not, ◌&&◌, ◌||◌,
  ◌==◌, nat_eq, if◌then◌else◌,
}
use declarion_sdk_go.Common.Assoc.{Assoc, lookup, insert}
use declarion_sdk_go.Common.Result.{Result, ok, err, ◌>>=◌, ◌>>◌, fail_if, or_fail}
use declarion_sdk_go.Execution.{Elevation, normalize, no_elevation, with_grants}
use declarion_sdk_go.Execution.Inherited.{MetadataError, Codecs, inherited_selection}
use declarion_sdk_go.Errs.{str_append}
use Prim.Native.Char.{code}

pub record Config : Type 0 where
  pub base_url : String
  pub token : String
  pub target_tenant_id : String
  pub target_tenant_code : String

pub record Client : Type 0 where
  pub elevation : Elevation
  pub selection_err : Option MetadataError
  pub selected : Bool
  pub base_url : String
  pub token : String
  pub tenant_id : String
  pub tenant_code : String

-- `strings.TrimRight(s, "/")`
unfoldable pub trim_right_slashes : String → String
trim_right_slashes String.[] = ""
trim_right_slashes (String.◌∷◌ c s) =
    let rest = trim_right_slashes s in
    if nat_eq (code c) b'/' && rest == "" then "" else String.◌∷◌ c rest

-- `New`
unfoldable pub new : Codecs → Config → Client
new codecs cfg =
    let inherited = inherited_selection codecs cfg.token in
    record {
      elevation = elim inherited [ ok e ↦ e | err _ ↦ no_elevation ];
      selection_err = elim inherited [ ok _ ↦ none | err e ↦ some e ];
      selected = false;
      base_url = trim_right_slashes cfg.base_url;
      token = cfg.token;
      tenant_id = cfg.target_tenant_id;
      tenant_code = cfg.target_tenant_code;
    }

-- `Client.WithSystemRole`
unfoldable pub with_system_role : Client → Client
with_system_role c = record c {
  elevation = record (normalize c.elevation) { system = true };
  selected = true;
}

-- `Client.WithGrants`
unfoldable pub client_with_grants : Client → List String → Result MetadataError Client
client_with_grants c grants = elim c.selection_err [
  | some e ↦ err e
  | none ↦ ok (record c { elevation = with_grants c.elevation grants; selected = true })
]

-- `requestOptions`
pub record Target : Type 0 where
  pub id : String
  pub tenant : String

-- `WithTargetTenantID` and `WithTargetTenantCode`
abbrev pub with_target_tenant_id : String → Target → Target
with_target_tenant_id tenant_id o = record o { id = tenant_id; tenant = "" }

abbrev pub with_target_tenant_code : String → Target → Target
with_target_tenant_code tenant_code o = record o { id = ""; tenant = tenant_code }

-- `targetTenantOptions`
unfoldable pub target_tenant_options : String → String → List (Target → Target)
target_tenant_options tenant_id tenant_code =
    if not (tenant_id == "") || not (tenant_code == "")
    then (λ _. record { id = tenant_id; tenant = tenant_code }) ∷ []
    else []

unfoldable pub apply_options : List (Target → Target) → Target → Target
apply_options [] o = o
apply_options (opt ∷ opts) o = apply_options opts (opt o)

pub data RequestError : Type 0 where
  no_base_url exclusive_targets bad_request encode_failed : RequestError
  selection_failed : MetadataError → RequestError

abbrev pub Headers : Type 0
Headers = Assoc String String

abbrev pub set_if : Bool → String → String → Headers → Headers
set_if b name v h = if b then insert name v h else h

abbrev pub elevation_header : String
elevation_header = "X-Declarion-Elevation"

abbrev pub tenant_id_header : String
tenant_id_header = "X-Declarion-Tenant-ID"

abbrev pub tenant_code_header : String
tenant_code_header = "X-Declarion-Tenant-Code"

abbrev pub forwarded_for_header : String
forwarded_for_header = "X-Forwarded-For"

-- the last part of `applyHeaders`, with `setForwardedFor` for the address that the context holds
unfoldable pub plain_headers : Client → Target → (originating_ip : String) → Headers → Headers
plain_headers c ro originating_ip h =
    set_if (not (originating_ip == "")) forwarded_for_header originating_ip (
      set_if (not (ro.tenant == "")) tenant_code_header ro.tenant (
        set_if (not (ro.id == "")) tenant_id_header ro.id (
          set_if (not (c.token == "")) "Authorization" (str_append "Bearer " c.token)
            (insert "Content-Type" "application/json" h))))

module _ (encode : Elevation → Option String) where
  unfoldable pub selection_headers : Client → Result RequestError Headers
  selection_headers c =
      if c.selected
      then elim (encode c.elevation) [
        | none ↦ err encode_failed
        | some header ↦ ok (insert elevation_header header [])
      ]
      else ok []

  -- `applyHeaders`
  unfoldable pub apply_headers :
      Client → Target → (originating_ip : String) → Result RequestError Headers
  apply_headers c ro originating_ip = elim c.selection_err [
    | some e ↦ err (selection_failed e)
    | none ↦ elim (selection_headers c) [
      | err e ↦ err e
      | ok h ↦
          if not (ro.id == "") && not (ro.tenant == "")
          then err exclusive_targets
          else ok (plain_headers c ro originating_ip h)
    ]
  ]

  -- `newRequestWithBodyReader`: the URL and the headers. `valid` is whether the standard library
  -- accepts the method and the URL; `query` is the encoded query.
  unfoldable pub new_request :
      (valid : String → Bool)
      → Client
      → (path query : String) → (content_type : String) → List (Target → Target)
      → (originating_ip : String) → Result RequestError (String × Headers)
  new_request valid c path query content_type opts originating_ip =
      let ro = apply_options opts (record { id = c.tenant_id; tenant = c.tenant_code }) in
      let url = str_append c.base_url path in
      let u = if query == "" then url else str_append url (str_append "?" query) in
      if c.base_url == ""
      then err no_base_url
      else if not (ro.id == "") && not (ro.tenant == "")
      then err exclusive_targets
      else if not (valid u)
      then err bad_request
      else elim (apply_headers c ro originating_ip) [
        | err e ↦ err e
        | ok h ↦ ok (u, set_if (not (content_type == "")) "Content-Type" content_type h)
      ]
