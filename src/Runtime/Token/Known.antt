-- ===== src/Runtime/Token/Known.antt =====
-- A library that knows one token, and claims to mint, for the tests.
use native.Mathlib.Decide.{ℕ_discrete}
use declarion_sdk_go.Common.{
  Option, none, some, [], ◌∷◌, String, string_Eq, Bool, true, false, ◌&&◌, ◌==◌, ==_iff,
  if◌then◌else◌, ◌≡◌, subst, arith, Bool-cases, inl, inr,
}
use declarion_sdk_go.Common.Int.{ℤ, pos, ◌<ℤ◌, ltb_ℤ}
use declarion_sdk_go.Common.Sorting.{contains}
use declarion_sdk_go.Execution.{normalize}
use declarion_sdk_go.Runtime.Token.{
  CallerContext, Registered, Claims, Jwt, HandlerJwt, TokenParams, minted, VerifierClaims,
  VerifierJwt,
}

String-discrete : Discrete String
String-discrete s t = elim (Bool-cases (s == t)) [
  | inl e ↦ yes ((==_iff s t).0 e)
  | inr e ↦ no (λ p. cc (e, (==_iff s t).1 p))
]

pub Claims-discrete : Discrete (Claims (Unit {0}))
Claims-discrete = hlevel (ℕ_discrete, String-discrete)

pub VerifierClaims-discrete : Discrete VerifierClaims
VerifierClaims-discrete = hlevel (ℕ_discrete, String-discrete)

-- The library that has signed one token, "signed", under the secret "key".
module _ {C : Type 0} (discrete : Discrete C) (registered : C → Registered) (decode : C → C)
    (known : C) where
  abbrev is_valid : (secret audience issuer : String) → ℤ → String → Bool
  is_valid secret audience issuer now t =
      secret == "key"
      && t == "signed"
      && contains (registered (decode known)).audience audience
      && (registered (decode known)).issuer == issuer
      && ltb_ℤ now (registered (decode known)).expires_at

  abbrev pub sign_known : String → C → Option String
  sign_known secret c = elim (discrete c known) [
    | yes _ ↦ if secret == "key" then some "signed" else none
    | no _ ↦ none
  ]

  abbrev parse_known : (secret audience issuer : String) → ℤ → String → Option C
  parse_known secret audience issuer now t =
      if is_valid secret audience issuer now t then some (decode known) else none

  pub known_signed :
      (secret audience issuer : String) (now : ℤ) (c : C) (t : String)
      → sign_known secret c ≡ some t
      → contains (registered (decode c)).audience audience ≡ true
      → (registered (decode c)).issuer ≡ issuer
      → now <ℤ (registered (decode c)).expires_at
      → parse_known secret audience issuer now t ≡ some (decode c)
  known_signed secret audience issuer now c t h a i e = elim (discrete c known) [
    | yes same ↦
        let a' = subst (λ d. contains (registered (decode d)).audience audience ≡ true) same a in
        let i' = subst (λ d. (registered (decode d)).issuer ≡ issuer) same i in
        let e' = subst (λ d. now <ℤ (registered (decode d)).expires_at) same e in
        ground (arith, ==_iff (registered (decode known)).issuer issuer, ==_iff t "signed")
    | no differs ↦ absurd (ground arith)
  ]

  pub known_parsed :
      (secret audience issuer : String) (now : ℤ) (c : C) (t : String)
      → parse_known secret audience issuer now t ≡ some c
      → (decode known ≡ c) × (is_valid secret audience issuer now t ≡ true)
  known_parsed secret audience issuer now c t h = ground arith

  pub known_audience :
      (secret audience issuer : String) (now : ℤ) (c : C) (t : String)
      → parse_known secret audience issuer now t ≡ some c
      → contains (registered c).audience audience ≡ true
  known_audience secret audience issuer now c t h =
      let (same, v) = known_parsed secret audience issuer now c t h in
      subst (λ d. contains (registered d).audience audience ≡ true) same (ground (arith, v))

  pub known_expiry :
      (secret audience issuer : String) (now : ℤ) (c : C) (t : String)
      → parse_known secret audience issuer now t ≡ some c
      → now <ℤ (registered c).expires_at
  known_expiry secret audience issuer now c t h =
      let (same, v) = known_parsed secret audience issuer now c t h in
      subst (λ d. now <ℤ (registered d).expires_at) same (ground (arith, v))

  abbrev pub knowing : Jwt C registered
  knowing = record {
    sign = sign_known;
    parse_checked = parse_known;
    parse_unverified = λ _. none;
    decoded = decode;
    checked-sign = known_signed;
    checked_audience = known_audience;
    checked_expiry = known_expiry;
  }

abbrev pub caller : CallerContext
caller = record {
  impersonation_session_id = "";
  agent_session_id = "";
  agent_conversation_id = "";
  session_id = "s";
  auth_method = "password";
  api_key_id = "";
}

abbrev pub params : TokenParams (Unit {0})
params = record {
  kind = "";
  run_as = false;
  elevation = record { system = false; grants = "b" ∷ "a" ∷ "b" ∷ [] };
  invoke_depth = pos 1;
  caller_context = caller;
  parent_expires_at = some (pos 5000000000000);
  user_id = "u1";
  tenant_id = "t1";
  tenant_code = "acme";
  agent_id = "";
  real_user_id = "";
  roles = [];
  permissions = "lead.read" ∷ [];
  action = "lead.load";
  ttl = pos 60000000000;
  is_superadmin = false;
  is_tenant_owner = false;
  is_global_user = false;
  attributes = tt;
  role_attributes = tt;
  audit_op_id = "";
  anonymous = false;
}

abbrev pub now : ℤ
now = pos 1000000000000

abbrev pub claims : Claims (Unit {0})
claims = minted params now "id"

-- the decoder normalises the elevation
abbrev pub decode_claims : Claims (Unit {0}) → Claims (Unit {0})
decode_claims c = record c { elevation = normalize c.elevation }

abbrev pub jwt : HandlerJwt (Unit {0})
jwt = knowing Claims-discrete (λ c. c.registered) decode_claims claims

abbrev pub verifier_claims : VerifierClaims
verifier_claims = record {
  registered = record {
    issuer = "declarion";
    subject = "";
    audience = "verifier_dispatch" ∷ [];
    issued_at = pos 1;
    expires_at = pos 100;
    id = "v";
  };
  method = "hook.verify";
  action = "hook.receive";
  scope = "verifier";
}

abbrev pub verifier_jwt : VerifierJwt
verifier_jwt = knowing VerifierClaims-discrete (λ c. c.registered) (λ c. c) verifier_claims
