-- ===== src/Platform/Errors/Tests.antt =====
-- A proxy's answer and the platform's own.
use declarion_sdk_go.Common.{
  Option, none, some, [], ◌∷◌, String, string_Eq, true, ◌==◌, ◌≡◌, refl, if◌then◌else◌, arith,
}
use declarion_sdk_go.Common.Int.{ℤ, pos}
use declarion_sdk_go.Errs.{text, Error, as_error, code_of, after_last_slash}
use declarion_sdk_go.Errs.Wire.{Members, unmarshal, unmarshal_onto, unmarshal_member}
use declarion_sdk_go.Errs.Render.{fits}
use declarion_sdk_go.Platform.Errors.{
  is_problem_response, platform_error, error_from_response, status_of, is_not_found, valid_code,
  valid_family, valid_name,
}
use declarion_sdk_go.Platform.Errors.Trust.{error_from_response-foreign}

abbrev media_type : String → Option String
media_type s = some s

-- the only body that decodes
abbrev decode_members : String → Option (Members (Unit {0}))
decode_members body =
    if body == "{}" then some (("type", text "/errors/entity.not_found") ∷ []) else none

abbrev no_floats : Unit {0} → Option ℤ
no_floats _ = none

abbrev proxied : Error (Unit {0})
proxied =
    error_from_response [] (λ core. some 100) media_type decode_members (λ s. s) (pos 404) "{}"
      "/api/x" "application/json"

error_from_response-foreign_example :
    (code_of proxied.core.type ≡ "transport.unreadable_response")
    × (proxied.core.retryable ≡ true)
    × (status_of no_floats (as_error proxied) ≡ some (pos 404))
    × (is_not_found no_floats (as_error proxied) ≡ true)
unfolding is_problem_response
error_from_response-foreign_example =
    error_from_response-foreign [] (λ core. some 100) media_type decode_members (λ s. s) no_floats
      (pos 404) "{}" "/api/x" "application/json" refl (omega arith) (omega arith)

platform_answer :
    (error_from_response []
      (λ core. some 100)
      media_type
      decode_members
      (λ s. s)
      (pos 404)
      "{}"
      "/api/x"
      "application/problem+json").core.type
    ≡ "/errors/entity.not_found"
unfolding error_from_response platform_error is_problem_response unmarshal unmarshal_onto
    unmarshal_member code_of after_last_slash valid_code valid_family valid_name fits
platform_answer = refl
