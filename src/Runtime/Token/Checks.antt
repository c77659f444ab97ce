-- ===== src/Runtime/Token/Checks.antt =====
-- Exactly which claims a handler token may carry, and which verifier tokens pass.
use declarion_sdk_go.Common.{
  Option, none, some, String, string_Eq, true, false, not, ◌&&◌, ◌||◌, ◌==◌, ==_iff, ◌≡◌, ◌≢◌, ap,
  sym, ◌∙◌, arith, Option-cases, inl, inr, ◌⊎◌, ◌↔◌,
}
use declarion_sdk_go.Common.Int.{ℤ, pos, ◌≤ℤ◌}
use declarion_sdk_go.Common.Result.{ok}
use declarion_sdk_go.Execution.{is_empty}
use declarion_sdk_go.Runtime.Token.{
  Claims, lacks_depth, check_claims, handler_token_scope, handler_token_audience, HandlerJwt,
  parse_handler_token, VerifierJwt, VerifierClaims, parse_verifier_token, verifier_token_audience,
  verifier_token_scope,
}

abbrev pub HasDepth : Option ℤ → Type 0
HasDepth none = ⊥
HasDepth (some d) = pos 0 ≤ℤ d

lacks_depth-HasDepth : (o : Option ℤ) → lacks_depth o ≡ false → HasDepth o
lacks_depth-HasDepth none h = absurd (cc)
lacks_depth-HasDepth (some d) h = ground arith

HasDepth-lacks_depth : (o : Option ℤ) → HasDepth o → lacks_depth o ≡ false
HasDepth-lacks_depth none h = absurd h
HasDepth-lacks_depth (some d) h = ground arith

module _ {A : Type 0} where
  -- The invariant of every accepted handler token.
  pub record IsWellFormed (c : Claims A) : Type 0 where
    pub in_scope : c.scope ≡ "handler"
    pub has_tenant : c.tenant_id ≢ ""
    pub has_action : c.action ≢ ""
    pub has_user : (c.anonymous ≡ true) ⊎ (c.user_id ≢ "")
    pub has_depth : (c.anonymous ≡ true) ⊎ ((c.run_as ≡ true) ⊎ HasDepth c.invoke_depth)
    pub elevates : (is_empty c.elevation ≡ true) ⊎ ((c.anonymous ≡ false) × (c.run_as ≡ false))

  -- the five tests that refuse
  record Passes (c : Claims A) : Type 0 where
    scope : not (c.scope == handler_token_scope) ≡ false
    depth : (not c.anonymous && not c.run_as && lacks_depth c.invoke_depth) ≡ false
    elevation : ((c.anonymous || c.run_as) && not (is_empty c.elevation)) ≡ false
    user : (not c.anonymous && c.user_id == "") ≡ false
    tenant : (c.tenant_id == "" || c.action == "") ≡ false

  check_claims-Passes : (c : Claims A) {d : Claims A} → check_claims c ≡ ok d → (d ≡ c) × Passes c
  unfolding check_claims
  check_claims-Passes c h = (
    ground arith,
    record {
      scope = ground arith;
      depth = ground arith;
      elevation = ground arith;
      user = ground arith;
      tenant = ground arith;
    },
  )

  Passes-IsWellFormed : (c : Claims A) → Passes c → IsWellFormed c
  Passes-IsWellFormed c p = record {
    in_scope = ground (arith, p.scope, ==_iff c.scope handler_token_scope);
    has_tenant = ground (arith, p.tenant, ==_iff c.tenant_id "");
    has_action = ground (arith, p.tenant, ==_iff c.action "");
    has_user = ground (arith, p.user, ==_iff c.user_id "");
    has_depth = ground (arith, p.depth, lacks_depth-HasDepth c.invoke_depth);
    elevates = ground (arith, p.elevation);
  }

  IsWellFormed-ok : (c : Claims A) → IsWellFormed c → check_claims c ≡ ok c
  unfolding check_claims
  IsWellFormed-ok c w = ground (
    arith,
    w.in_scope,
    w.has_tenant,
    w.has_action,
    w.has_user,
    w.has_depth,
    w.elevates,
    ==_iff c.scope handler_token_scope,
    ==_iff c.tenant_id "",
    ==_iff c.action "",
    ==_iff c.user_id "",
    HasDepth-lacks_depth c.invoke_depth,
  )

  -- With a secret, a token is accepted exactly when the library finds it signed, addressed to
  -- handlers and in time, and its claims are well-formed: it names a tenant and an action, and a
  -- user unless it is anonymous; a call depth that is not negative unless it is anonymous or
  -- run-as; and it elevates only if it is neither.
  pub parse_handler_token_iff :
      (jwt : HandlerJwt A) (now : ℤ) (token secret : String) (c : Claims A)
      → secret ≢ ""
      → (parse_handler_token jwt now token secret ≡ ok c) ↔ (
          (jwt.parse_checked secret handler_token_audience "declarion" now token ≡ some c)
          × IsWellFormed c)
  unfolding parse_handler_token
  parse_handler_token_iff jwt now token secret c s =
      elim (Option-cases (jwt.parse_checked secret handler_token_audience "declarion" now token)) [
        | inl n ↦ (λ h. absurd (ground (arith, ==_iff secret "")), λ h. absurd (cc (n, h.0)))
        | inr (d, e) ↦ (
          λ h.
              let (same, p) = check_claims-Passes d (ground (arith, ==_iff secret "")) in
              (e ∙ ap some (sym same), rw same (Passes-IsWellFormed d p)),
          λ h.
              let same : d ≡ c = ground (arith, h.0) in
              ground (arith, ==_iff secret "", h.0, IsWellFormed-ok c h.1),
        )
      ]

-- A verifier token is accepted only under a secret, only if it was signed for verifiers and is in
-- time, and only with a method and an action.
pub parse_verifier_token-ok :
    (jwt : VerifierJwt) (now : ℤ) (token secret : String) (c : VerifierClaims)
    → parse_verifier_token jwt now token secret ≡ ok c
    → (secret ≢ "")
      × (jwt.parse_checked secret verifier_token_audience "declarion" now token ≡ some c)
      × (c.scope ≡ "verifier")
      × (c.method ≢ "")
      × (c.action ≢ "")
unfolding parse_verifier_token
parse_verifier_token-ok jwt now token secret c h =
    elim (Option-cases (jwt.parse_checked secret verifier_token_audience "declarion" now token)) [
      | inl n ↦ absurd (ground arith)
      | inr (d, e) ↦ ground (
        arith,
        ==_iff secret "",
        ==_iff d.scope verifier_token_scope,
        ==_iff d.method "",
        ==_iff d.action "",
      )
    ]
