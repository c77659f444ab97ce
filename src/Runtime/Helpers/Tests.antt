-- ===== src/Runtime/Helpers/Tests.antt =====
-- A verifier's view of a request, and a parameter that nobody set.
use declarion_sdk_go.Common.{◌≡◌, refl, none, List, [], ◌∷◌, string_Eq, ℕ, false}
use declarion_sdk_go.Common.Assoc.{lookup}
use declarion_sdk_go.Common.Result.{Result, ok, err}
use declarion_sdk_go.Errs.{text, Link, raise}
use declarion_sdk_go.Runtime.Helpers.{
  looked_up, get_required_param, VerifierCtx, first_value, verifier_header, query_value,
}

abbrev ctx : VerifierCtx
ctx = record {
  query = ("page", []) ∷ [];
  headers = ("x-signature", "s1" ∷ "s2" ∷ []) ∷ [];
  raw_body = [];
  platform = none;
  run_as = "";
  platform_url = "";
}

the_first_value : verifier_header (λ name. "x-signature") ctx "X-Signature" ≡ "s1"
unfolding verifier_header first_value lookup
the_first_value = refl

no_value : query_value ctx "page" ≡ ""
unfolding query_value first_value lookup
no_value = refl

abbrev as_is : ℕ → Result (List (Link ℕ)) ℕ
as_is n = ok n

not_configured :
    get_required_param [] as_is "limit" (looked_up 0 false)
    ≡ err (raise [] "param.not_configured" (("param", text "limit") ∷ []))
unfolding get_required_param
not_configured = refl
