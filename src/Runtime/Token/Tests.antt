-- ===== src/Runtime/Token/Tests.antt =====
-- Tokens under a library that knows one token.
use declarion_sdk_go.Common.{
  some, [], ◌∷◌, Bool, true, String, string_Eq, false, ==_iff, ◌≡◌, ◌≢◌, refl, arith, ◌↔◌,
}
use declarion_sdk_go.Common.Int.{pos, add_int64, ◌+ℤ◌}
use declarion_sdk_go.Common.Sorting.{contains, sorted_set, sort, compact}
use declarion_sdk_go.Common.Order.{str_leb}
use declarion_sdk_go.Common.Result.{ok}
use declarion_sdk_go.Execution.{normalize}
use declarion_sdk_go.Runtime.Token.Known.{claims, jwt, verifier_claims, verifier_jwt}
use declarion_sdk_go.Runtime.Token.{parse_handler_token, expiry, numeric_date, parse_verifier_token}
use declarion_sdk_go.Runtime.Token.Checks.{
  IsWellFormed, parse_handler_token_iff, parse_verifier_token-ok,
}

claims_minted :
    (claims.elevation ≡ record { system = false; grants = "a" ∷ "b" ∷ [] })
    × (claims.registered.expires_at ≡ pos 1090)
unfolding normalize sorted_set sort compact str_leb expiry numeric_date add_int64 ◌+ℤ◌
claims_minted = (refl, refl)

abbrev utf8 : String → Bool
utf8 _ = true

key_given : ◌≢◌ {A = String} "key" ""
key_given = ground (arith, ==_iff {A = String} "key" "")

parse_handler_token_iff_example :
    (parse_handler_token jwt (pos 1089) "signed" "key" ≡ ok claims) ↔ (
      (jwt.parse_checked "key" "handler_dispatch" "declarion" (pos 1089) "signed" ≡ some claims)
      × IsWellFormed claims)
parse_handler_token_iff_example =
    parse_handler_token_iff jwt (pos 1089) "signed" "key" claims key_given

verifies : parse_verifier_token verifier_jwt (pos 50) "signed" "key" ≡ ok verifier_claims
unfolding parse_verifier_token contains
verifies = refl

parse_verifier_token-ok_example :
    (◌≢◌ {A = String} "key" "")
    × (verifier_jwt.parse_checked "key" "verifier_dispatch" "declarion" (pos 50) "signed"
        ≡ some verifier_claims)
    × (verifier_claims.scope ≡ "verifier")
    × (verifier_claims.method ≢ "")
    × (verifier_claims.action ≢ "")
parse_verifier_token-ok_example =
    parse_verifier_token-ok verifier_jwt (pos 50) "signed" "key" verifier_claims verifies
