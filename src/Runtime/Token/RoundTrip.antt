-- ===== src/Runtime/Token/RoundTrip.antt =====
-- What `MintHandlerToken` mints, the checking side accepts.
use declarion_sdk_go.Common.{◌^◌, List, [], ◌∷◌, ◌++◌, All, Bool, String, string_Eq, true, ◌≡◌}
use declarion_sdk_go.Common.Int.{ℤ, pos, ◌≤ℤ◌, ◌<ℤ◌}
use declarion_sdk_go.Execution.{normalize}
use declarion_sdk_go.Runtime.Token.{CallerContext, Claims, HandlerJwt}

abbrev caller_texts : CallerContext → List String
caller_texts c =
    c.impersonation_session_id ∷ c.agent_session_id ∷ c.agent_conversation_id ∷ c.session_id
    ∷ c.auth_method ∷ c.api_key_id ∷ []

-- A date that a float64 holds exactly.
abbrev IsExactDate : ℤ → Type 0
IsExactDate date = (pos 0 ≤ℤ date) × (date <ℤ pos (2 ^ 53))

-- Claims that JSON can hold: every text is UTF-8, for which the encoder has no replacement to make,
-- and the dates are numbers that the decoder reads exactly.
pub record IsEncodable {A : Type 0} (utf8 : String → Bool) (c : Claims A) : Type 0 where
  pub texts :
      All
        (λ t. utf8 t ≡ true)
        (c.kind ∷ c.user_id ∷ c.tenant_id ∷ c.tenant_code ∷ c.agent_id ∷ c.real_user_id ∷ c.action
          ∷ c.audit_op_id ∷ c.scope ∷ c.method ∷ c.registered.issuer ∷ c.registered.subject
          ∷ c.registered.id ∷ [])
  pub lists :
      All
        (λ t. utf8 t ≡ true)
        (c.elevation.grants ++ c.roles ++ c.permissions ++ c.registered.audience)
  pub caller : All (λ t. utf8 t ≡ true) (caller_texts c.caller_context)
  pub issued : IsExactDate c.registered.issued_at
  pub expires : IsExactDate c.registered.expires_at

-- What encoding/json does with handler claims: every text, flag, list, number and date that it can
-- hold comes back, an elevation is read by its `UnmarshalJSON`, which normalises it, and an
-- attribute map comes back as `reread` says, its numbers as float64.
pub record DecodesJson {A : Type 0} (jwt : HandlerJwt A) (utf8 : String → Bool) (reread : A → A)
    : Type 0 where
  pub decodes :
      (c : Claims A)
      → IsEncodable utf8 c
      → jwt.decoded c ≡ record c {
        elevation = normalize c.elevation;
        attributes = reread c.attributes;
        role_attributes = reread c.role_attributes;
      }

module _ {A : Type 0} where
  -- the minted claims with attributes that JSON has read again
  abbrev reread_claims : (reread : A → A) → Claims A → Claims A
  reread_claims reread c = record c {
    attributes = reread c.attributes;
    role_attributes = reread c.role_attributes;
  }
