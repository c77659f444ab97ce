-- ===== src/Runtime/Token.antt =====
-- runtime/token.go and runtime/verifier_token.go: minting and checking continuation tokens. A time
-- is a number of nanoseconds since 1970. `Jwt` is the JSON Web Token library, HS256 pinned, with
-- its documented behaviour as laws. `A` is the type of the attribute maps.
pub mod Checks
pub mod RoundTrip
pub mod Known
mod Tests
use declarion_sdk_go.Common.{
  ℕ, ◌+◌, ◌/◌, ◌≡◌, Option, none, some, List, [], ◌∷◌, String, string_Eq, Bool, true, false, not,
  ◌&&◌, ◌||◌, ◌==◌, if◌then◌else◌,
}
use declarion_sdk_go.Common.Int.{ℤ, pos, negsuc, ◌+ℤ◌, add_int64, ◌<ℤ◌, ltb_ℤ, leb_ℤ}
use declarion_sdk_go.Common.Sorting.{contains}
use declarion_sdk_go.Common.Result.{Result, ok, err, ◌>>=◌, ◌>>◌, fail_if, or_fail}
use declarion_sdk_go.Execution.{Elevation, normalize, is_empty, no_elevation}

-- `execution.CallerContext`
pub record CallerContext : Type 0 where
  pub impersonation_session_id : String
  pub agent_session_id : String
  pub agent_conversation_id : String
  pub session_id : String
  pub auth_method : String
  pub api_key_id : String

-- `jwt.RegisteredClaims`, its dates in seconds
pub record Registered : Type 0 where
  pub issuer : String
  pub subject : String
  pub audience : List String
  pub issued_at : ℤ
  pub expires_at : ℤ
  pub id : String

-- `HandlerClaims`
pub record Claims (A : Type 0) : Type 0 where
  pub kind : String
  pub run_as : Bool
  pub elevation : Elevation
  pub invoke_depth : Option ℤ
  pub caller_context : CallerContext
  pub registered : Registered
  pub user_id : String
  pub tenant_id : String
  pub tenant_code : String
  pub agent_id : String
  pub real_user_id : String
  pub roles : List String
  pub permissions : List String
  pub is_superadmin : Bool
  pub is_tenant_owner : Bool
  pub is_global_user : Bool
  pub attributes : A
  pub role_attributes : A
  pub action : String
  pub audit_op_id : String
  pub scope : String
  pub method : String
  pub anonymous : Bool

-- the zero `HandlerClaims`, whose attributes are nil maps; a date that is absent is 0 here
unfoldable pub zero_claims : {A : Type 0} → (nil_attributes : A) → Claims A
zero_claims nil_attributes = record {
  kind = "";
  run_as = false;
  elevation = no_elevation;
  invoke_depth = none;
  caller_context = record {
    impersonation_session_id = "";
    agent_session_id = "";
    agent_conversation_id = "";
    session_id = "";
    auth_method = "";
    api_key_id = "";
  };
  registered = record {
    issuer = "";
    subject = "";
    audience = [];
    issued_at = pos 0;
    expires_at = pos 0;
    id = "";
  };
  user_id = "";
  tenant_id = "";
  tenant_code = "";
  agent_id = "";
  real_user_id = "";
  roles = [];
  permissions = [];
  is_superadmin = false;
  is_tenant_owner = false;
  is_global_user = false;
  attributes = nil_attributes;
  role_attributes = nil_attributes;
  action = "";
  audit_op_id = "";
  scope = "";
  method = "";
  anonymous = false;
}

-- `VerifierClaims`
pub record VerifierClaims : Type 0 where
  pub registered : Registered
  pub method : String
  pub action : String
  pub scope : String

-- The library for one type of claims: signing under a secret; parsing with the signature, the
-- algorithm, the audience, the issuer and the expiry checked at a time in seconds; parsing with
-- nothing checked.
pub record Jwt (C : Type 0) (registered : C → Registered) : Type 0 where
  pub sign : (secret : String) → C → Option String
  pub parse_checked : (secret audience issuer : String) → (now : ℤ) → String → Option C
  pub parse_unverified : String → Option C
  -- what the JSON decoder makes of these claims once they are encoded
  pub decoded : C → C
  -- a signed token parses to what its claims decode to, where that is of the audience and the issuer
  -- and in time
  pub checked-sign :
      (secret audience issuer : String) (now : ℤ) (c : C) (t : String)
      → sign secret c ≡ some t
      → contains (registered (decoded c)).audience audience ≡ true
      → (registered (decoded c)).issuer ≡ issuer
      → now <ℤ (registered (decoded c)).expires_at
      → parse_checked secret audience issuer now t ≡ some (decoded c)
  -- what parses is of the audience and the issuer, in time
  pub checked_audience :
      (secret audience issuer : String) (now : ℤ) (c : C) (t : String)
      → parse_checked secret audience issuer now t ≡ some c
      → contains (registered c).audience audience ≡ true
  pub checked_expiry :
      (secret audience issuer : String) (now : ℤ) (c : C) (t : String)
      → parse_checked secret audience issuer now t ≡ some c
      → now <ℤ (registered c).expires_at

abbrev pub handler_token_audience : String
handler_token_audience = "handler_dispatch"

abbrev pub handler_token_issuer : String
handler_token_issuer = "declarion"

-- 30 seconds
abbrev pub handler_token_grace : ℤ
handler_token_grace = pos 30000000000

abbrev pub handler_token_scope : String
handler_token_scope = "handler"

abbrev pub verifier_token_audience : String
verifier_token_audience = "verifier_dispatch"

abbrev pub verifier_token_scope : String
verifier_token_scope = "verifier"

pub data TokenError : Type 0 where
  unparsable bad_scope bad_depth bad_elevation no_user no_tenant_or_action : TokenError
  no_secret no_tenant no_action bad_ttl unsigned no_method_or_action : TokenError

-- `claims.InvokeDepth == nil || *claims.InvokeDepth < 0`
abbrev pub lacks_depth : Option ℤ → Bool
lacks_depth none = true
lacks_depth (some d) = ltb_ℤ d (pos 0)

module _ {A : Type 0} where
  -- the checks of `parseHandlerToken` behind the parser
  unfoldable pub check_claims : Claims A → Result TokenError (Claims A)
  check_claims c = do
    fail_if (not (c.scope == handler_token_scope)) bad_scope
    fail_if (not c.anonymous && not c.run_as && lacks_depth c.invoke_depth) bad_depth
    fail_if ((c.anonymous || c.run_as) && not (is_empty c.elevation)) bad_elevation
    fail_if (not c.anonymous && c.user_id == "") no_user
    fail_if (c.tenant_id == "" || c.action == "") no_tenant_or_action
    ok c

abbrev pub HandlerJwt : Type 0 → Type 0
HandlerJwt A = Jwt (Claims A) (λ c. c.registered)

abbrev pub VerifierJwt : Type 0
VerifierJwt = Jwt VerifierClaims (λ c. c.registered)

-- `parseHandlerToken`, at a time in seconds
unfoldable pub parse_handler_token :
    {A : Type 0} → HandlerJwt A → (now : ℤ) → (token secret : String) → Result TokenError (Claims A)
parse_handler_token jwt now token secret = do
  c ←
      or_fail
        (if secret == ""
          then jwt.parse_unverified token
          else jwt.parse_checked secret handler_token_audience "declarion" now token)
        unparsable
  check_claims c

-- `parseVerifierToken`
unfoldable pub parse_verifier_token :
    VerifierJwt → (now : ℤ) → (token secret : String) → Result TokenError VerifierClaims
parse_verifier_token jwt now token secret = if secret == "" then err no_secret else (do
  c ← or_fail (jwt.parse_checked secret verifier_token_audience "declarion" now token) unparsable
  fail_if (not (c.scope == verifier_token_scope)) bad_scope
  fail_if (c.method == "" || c.action == "") no_method_or_action
  ok c)

-- `tokenAudience`: the first audience, with nothing checked; `none` is a token that cannot be read
unfoldable pub token_audience : (String → Option Registered) → String → Option String
token_audience peek token = elim (peek token) [
  | none ↦ none
  | some c ↦ some (elim c.audience [ [] ↦ "" | a ∷ _ ↦ a ])
]

-- `HandlerTokenParams`; a zero `ParentExpiresAt` is `none`
pub record TokenParams (A : Type 0) : Type 0 where
  pub kind : String
  pub run_as : Bool
  pub elevation : Elevation
  pub invoke_depth : ℤ
  pub caller_context : CallerContext
  pub parent_expires_at : Option ℤ
  pub user_id : String
  pub tenant_id : String
  pub tenant_code : String
  pub agent_id : String
  pub real_user_id : String
  pub roles : List String
  pub permissions : List String
  pub action : String
  pub ttl : ℤ
  pub is_superadmin : Bool
  pub is_tenant_owner : Bool
  pub is_global_user : Bool
  pub attributes : A
  pub role_attributes : A
  pub audit_op_id : String
  pub anonymous : Bool

-- `jwt.NewNumericDate`: whole seconds, rounded down
unfoldable pub numeric_date : ℤ → ℤ
numeric_date (pos n) = pos (n / 1000000000)
numeric_date (negsuc n) = negsuc (n / 1000000000)

-- the least of `now + (ttl + grace)`, whose inner sum is one of `int64`, and the parent's expiry
unfoldable pub expiry : ℤ → ℤ → Option ℤ → ℤ
expiry now ttl parent =
    let own = now +ℤ add_int64 ttl handler_token_grace in
    elim parent [ none ↦ own | some p ↦ if ltb_ℤ p own then p else own ]

module _ {A : Type 0} where
  abbrev pub minted : TokenParams A → (now : ℤ) → (id : String) → Claims A
  minted p now id = record {
    kind = p.kind;
    run_as = p.run_as;
    elevation = normalize p.elevation;
    invoke_depth = some p.invoke_depth;
    caller_context = p.caller_context;
    registered = record {
      issuer = handler_token_issuer;
      subject = p.user_id;
      audience = handler_token_audience ∷ [];
      issued_at = numeric_date now;
      expires_at = numeric_date (expiry now p.ttl p.parent_expires_at);
      id = id;
    };
    user_id = p.user_id;
    tenant_id = p.tenant_id;
    tenant_code = p.tenant_code;
    agent_id = p.agent_id;
    real_user_id = p.real_user_id;
    roles = p.roles;
    permissions = p.permissions;
    is_superadmin = p.is_superadmin;
    is_tenant_owner = p.is_tenant_owner;
    is_global_user = p.is_global_user;
    attributes = p.attributes;
    role_attributes = p.role_attributes;
    action = p.action;
    audit_op_id = p.audit_op_id;
    scope = handler_token_scope;
    method = p.action;
    anonymous = p.anonymous;
  }

  -- `MintHandlerToken`, at a time and with the fresh id that `uuid.NewString` gives
  unfoldable pub mint_handler_token :
      HandlerJwt A → (now : ℤ) → (id secret : String) → TokenParams A → Result TokenError String
  mint_handler_token jwt now id secret p = do
    fail_if (ltb_ℤ p.invoke_depth (pos 0)) bad_depth
    fail_if ((p.anonymous || p.run_as) && not (is_empty p.elevation)) bad_elevation
    fail_if (secret == "") no_secret
    fail_if (p.tenant_id == "") no_tenant
    fail_if (p.action == "") no_action
    fail_if (not p.anonymous && p.user_id == "") no_user
    fail_if (leb_ℤ p.ttl (pos 0)) bad_ttl
    or_fail (jwt.sign secret (minted p now id)) unsigned
