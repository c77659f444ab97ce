-- ===== src/Runtime/Rpc/Pipeline/Gates.antt =====
-- What must hold before a registered function is called.
use declarion_sdk_go.Common.{
  Option, none, some, List, [], ◌∷◌, String, string_Eq, true, false, ◌==◌, ==_iff, ◌≡◌, ◌≢◌, ◌⊎◌,
  inl, inr, arith, refl, sym, subst, Option-cases, Bool-cases,
}
use declarion_sdk_go.Common.Int.{ℤ}
use declarion_sdk_go.Common.Sorting.{contains}
use declarion_sdk_go.Platform.Client.{Client, new}
use declarion_sdk_go.Common.Result.{ok, Result-cases}
use declarion_sdk_go.Runtime.Token.{
  Claims, VerifierClaims, Registered, token_audience, parse_handler_token, parse_verifier_token,
  handler_token_audience, verifier_token_audience,
}
use declarion_sdk_go.Runtime.Token.Checks.{
  IsWellFormed, parse_handler_token_iff, parse_verifier_token-ok,
}
use declarion_sdk_go.Runtime.Context.{project_authority}
use declarion_sdk_go.Runtime.Rpc.{Request, decoded, Headers, extract_bearer, with_handler_timeout}
use declarion_sdk_go.Runtime.Rpc.Reserved.{extract_reserved_params}
use declarion_sdk_go.Runtime.Rpc.Pipeline.{
  Host, AuthenticatedRequest, Call, VerifierCall, run_handler, run_verifier, authenticate_request,
  prepare_handler, prepare_verifier, is_verifier_call, plan_request, plan, run_as_client,
}

-- The platform client of a verifier: none without a run-as credential, and else one with that
-- credential as its token, for no particular tenant.
abbrev pub IsRunAs : (run_as_token : String) → Option Client → Type 0
IsRunAs run_as_token none = run_as_token ≡ ""
IsRunAs run_as_token (some client) =
    (run_as_token ≢ "")
    × (client.token ≡ run_as_token)
    × (client.tenant_id ≡ "")
    × (client.tenant_code ≡ "")

-- A list of audiences that does not name this one first.
abbrev pub NotFirst : String → List String → Type 0
NotFirst audience [] = Unit
NotFirst audience (first ∷ _) = first ≢ audience

not_first :
    (audience : List String)
    → (elim audience [ [] ↦ "" | a ∷ _ ↦ a ] == verifier_token_audience) ≡ false
    → NotFirst verifier_token_audience audience
not_first [] h = tt
not_first (a ∷ more) h = ground (arith, h, ==_iff a verifier_token_audience)

first_audience :
    (audience : List String)
    → (elim audience [ [] ↦ "" | a ∷ _ ↦ a ] == verifier_token_audience) ≡ true
    → (more : List String) × (audience ≡ verifier_token_audience ∷ more)
first_audience [] h = absurd (cc (h))
first_audience (a ∷ more) h = (more, ground (arith, h, ==_iff a verifier_token_audience))

module _ {V A J R X : Type 0} (host : Host V A J R X) where
  run_as_client-IsRunAs : (h : Headers) → IsRunAs h.run_as_token (run_as_client host h)
  run_as_client-IsRunAs h = elim (Bool-cases (h.run_as_token == "")) [
    | inl blank ↦ rw blank ((==_iff h.run_as_token "").0 blank)
    | inr there ↦ rw there (
      ground (arith, there, ==_iff h.run_as_token ""),
      unfold new in refl,
      unfold new in refl,
      unfold new in refl,
    )
  ]

  -- the routing by the first audience of a bearer that can be read
  routed_elsewhere :
      (token : String)
      → is_verifier_call host token ≡ false
      → token ≢ ""
      → (host.peek token ≡ none)
        ⊎ ((r : Registered) × (host.peek token ≡ some r)
            × NotFirst verifier_token_audience r.audience)
  unfolding is_verifier_call token_audience
  routed_elsewhere token away there = elim (Option-cases (host.peek token)) [
    | inl n ↦ inl n
    | inr (r, p) ↦
        inr (r, p, not_first r.audience (ground (arith, away, there, p, ==_iff token "")))
  ]

  routed_to_verifier :
      (token : String)
      → is_verifier_call host token ≡ true
      → (r : Registered) × (more : List String) × (host.peek token ≡ some r)
        × (r.audience ≡ verifier_token_audience ∷ more)
  unfolding is_verifier_call token_audience
  routed_to_verifier token e = elim (Option-cases (host.peek token)) [
    | inl n ↦ absurd (ground (arith, e, n))
    | inr (r, p) ↦
        let (more, first) = first_audience r.audience (ground (arith, e, p)) in (r, more, p, first)
  ]

  authenticate_request-checked :
      (now : ℤ) (h : Headers) (method : String) (v : AuthenticatedRequest A)
      → host.authenticator ≡ none
      → host.require_token ≡ true
      → authenticate_request host now h method ≡ some v
      → (parse_handler_token host.jwt now (extract_bearer h.authorization) host.jwt_secret
          ≡ ok v.claims)
        × ((v.claims.method ≡ "") ⊎ (v.claims.method ≡ method))
        × (extract_bearer h.authorization ≢ "")
  unfolding authenticate_request
  authenticate_request-checked now h method v a r e =
      elim (Result-cases
        (parse_handler_token host.jwt now (extract_bearer h.authorization) host.jwt_secret)) [
          | inr (x, p) ↦ absurd (ground (arith, a, r, e, p))
          | inl (c, p) ↦
              let token = extract_bearer h.authorization in
              let same : record { claims = c; platform_token = token } ≡ v =
                ground (arith, a, r, e, p) in
              rw (sym same) (
                p,
                ground (arith, a, r, e, p, ==_iff c.method "", ==_iff c.method method),
                ground (arith, a, r, e, p, ==_iff token ""),
              )
        ]

  pub prepare_handler-call :
      (now : ℤ) (h : Headers) (req : Request J) (call : Call A J)
      → prepare_handler host now h req ≡ ok call
      → (v : AuthenticatedRequest A) × (authenticate_request host now h req.method ≡ some v)
        × (call.ctx.claims ≡ some v.claims)
  unfolding prepare_handler project_authority
  prepare_handler-call now h req call e =
      elim (Option-cases (authenticate_request host now h req.method)) [
        | inl n ↦ absurd (ground (arith, n, e))
        | inr (v, p) ↦ (v, p, prepared v p)
      ]
    where
      prepared :
          (v : AuthenticatedRequest A)
          → authenticate_request host now h req.method ≡ some v
          → call.ctx.claims ≡ some v.claims
      prepared v p = elim (Option-cases (with_handler_timeout h.timeout)) [
        | inl n ↦ absurd (ground (arith, p, n, e))
        | inr (deadline, q) ↦
            elim (Result-cases
              (extract_reserved_params host.as_string host.as_strings req.params)) [
                | inr (x, w) ↦ absurd (ground (arith, p, q, w, e))
                | inl ((reserved, params), w) ↦ ground (arith, p, q, w, e)
              ]
      ]

  pub planned_handler :
      (now : ℤ) (h : Headers) (req : Request J) (call : Call A J)
      → plan host now h (decoded req) ≡ run_handler req call
      → (is_verifier_call host (extract_bearer h.authorization) ≡ false)
        × (prepare_handler host now h req ≡ ok call)
  unfolding plan plan_request
  planned_handler now h req call e = elim (Result-cases (prepare_handler host now h req)) [
    | inr (x, p) ↦ absurd (ground (arith, e, p))
    | inl (c, p) ↦ (ground (arith, e), ground (arith, e, p))
  ]

  planned_verifier :
      (now : ℤ) (h : Headers) (req : Request J) (call : VerifierCall X)
      → plan host now h (decoded req) ≡ run_verifier req call
      → (is_verifier_call host (extract_bearer h.authorization) ≡ true)
        × (prepare_verifier host now h req (extract_bearer h.authorization) ≡ ok call)
  unfolding plan plan_request
  planned_verifier now h req call e =
      elim (Result-cases (prepare_verifier host now h req (extract_bearer h.authorization))) [
        | inr (x, p) ↦ absurd (ground (arith, e, p))
        | inl (c, p) ↦ (ground (arith, e), ground (arith, e, p))
      ]

  -- On a server with a secret that requires a token and has no authenticator of its own, a handler
  -- is only called under claims that are well-formed and that its context holds, from a bearer that
  -- the library finds signed, addressed to handlers and in time, for this method or for any; and the
  -- bearer either cannot be read with nothing checked, or read so does not name the audience of
  -- verifiers first, while it may name it behind another one.
  pub plan-run_handler :
      (now : ℤ) (h : Headers) (req : Request J) (call : Call A J)
      → host.authenticator ≡ none
      → host.require_token ≡ true
      → host.jwt_secret ≢ ""
      → plan host now h (decoded req) ≡ run_handler req call
      → (c : Claims A) × (host.jwt.parse_checked host.jwt_secret handler_token_audience "declarion"
            now
            (extract_bearer h.authorization)
          ≡ some c)
        × IsWellFormed c
        × ((c.method ≡ "") ⊎ (c.method ≡ req.method))
        × (contains c.registered.audience handler_token_audience ≡ true)
        × (call.ctx.claims ≡ some c)
        × ((host.peek (extract_bearer h.authorization) ≡ none)
            ⊎ ((r : Registered) × (host.peek (extract_bearer h.authorization) ≡ some r)
                × NotFirst verifier_token_audience r.audience))
  plan-run_handler now h req call a r s e =
      let (apart, prepared) = planned_handler now h req call e in
      let (v, found, same) = prepare_handler-call now h req call prepared in
      let (parsed, bound, there) = authenticate_request-checked now h req.method v a r found in
      let (checked, well) =
        (parse_handler_token_iff host.jwt now (extract_bearer h.authorization) host.jwt_secret
            v.claims s).0
          parsed in
      (
        v.claims,
        checked,
        well,
        bound,
        host.jwt.checked_audience host.jwt_secret handler_token_audience "declarion" now v.claims
            (extract_bearer h.authorization) checked,
        same,
        routed_elsewhere (extract_bearer h.authorization) apart there,
      )

  prepare_verifier-call :
      (now : ℤ) (h : Headers) (req : Request J) (token : String) (call : VerifierCall X)
      → prepare_verifier host now h req token ≡ ok call
      → (c : VerifierClaims) × (parse_verifier_token host.verifier_jwt now token host.jwt_secret
          ≡ ok c)
        × (c.method ≡ req.method)
        × (call.platform ≡ run_as_client host h)
  unfolding prepare_verifier
  prepare_verifier-call now h req token call e =
      elim (Result-cases (parse_verifier_token host.verifier_jwt now token host.jwt_secret)) [
        | inr (x, p) ↦ absurd (ground (arith, e, p))
        | inl (c, p) ↦
            (c, p, ground (arith, e, p, ==_iff c.method req.method), ground (arith, e, p))
      ]

  -- A verifier is only called for a bearer whose first audience is that of verifiers, that the library
  -- finds signed under a secret that is not empty, addressed to verifiers and in time, and whose
  -- claims name exactly this method; and its platform client has the run-as credential as its token,
  -- for no particular tenant, or there is no client where the request has no such credential.
  pub plan-run_verifier :
      (now : ℤ) (h : Headers) (req : Request J) (call : VerifierCall X)
      → plan host now h (decoded req) ≡ run_verifier req call
      → (c : VerifierClaims) × (host.verifier_jwt.parse_checked host.jwt_secret
            verifier_token_audience "declarion" now
            (extract_bearer h.authorization)
          ≡ some c)
        × (host.jwt_secret ≢ "")
        × (c.method ≡ req.method)
        × IsRunAs h.run_as_token call.platform
        × ((r : Registered) × (more : List String) × (host.peek (extract_bearer h.authorization)
              ≡ some r)
            × (r.audience ≡ verifier_token_audience ∷ more))
  plan-run_verifier now h req call e =
      let (routed, prepared) = planned_verifier now h req call e in
      let (c, parsed, bound, client) =
        prepare_verifier-call now h req (extract_bearer h.authorization) call prepared in
      let (secret, checked, _, _, _) =
        parse_verifier_token-ok host.verifier_jwt now (extract_bearer h.authorization)
          host.jwt_secret c parsed in
      (
        c,
        checked,
        secret,
        bound,
        subst (IsRunAs h.run_as_token) (sym client) (run_as_client-IsRunAs h),
        routed_to_verifier (extract_bearer h.authorization) routed,
      )
