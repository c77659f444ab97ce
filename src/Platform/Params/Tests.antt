-- ===== src/Platform/Params/Tests.antt =====
-- A lookup that is answered by the platform, and the next one by the cache.
use declarion_sdk_go.Common.{◌≡◌, refl, arith, Option, some, [], ◌∷◌, true, false, String}
use declarion_sdk_go.Common.Int.{pos, mul_int64, ◌+ℤ◌}
use declarion_sdk_go.Common.Text.{parse_int64}
use declarion_sdk_go.Common.Assoc.{lookup}
use declarion_sdk_go.Platform.Header.{Header, get as get_header, header_int}
use declarion_sdk_go.Platform.ParamsCache.{ParamsKey, new, version_of, get}
use declarion_sdk_go.Platform.Params.{Exchange, not_answered, answered, Envelope, lookup_param}
use declarion_sdk_go.Platform.Params.Reuse.{lookup_param_reused}

abbrev key : ParamsKey
key = record {
  base_url = "http://p";
  token = "t";
  tenant_id = "";
  tenant_code = "acme";
  code = "retries";
}

abbrev headers : Header
headers = ("X-Declarion-Params-Version", "7") ∷ ("X-Declarion-Params-Max-Age-Ms", "5") ∷ []

abbrev parse_envelope : String → Option Envelope
parse_envelope _ = some (record { found = true; value = "3"; source = "tenant" })

abbrev parse_value : String → Option String
parse_value s = some s

abbrev sent : Exchange String
sent = answered 200 headers "{}"

abbrev again : Exchange String
again = not_answered "unreachable"

lookup_param_reused_example :
    let (a, asked, pc) = lookup_param parse_envelope parse_value key (pos 0) sent (pos 1000) new in
    (asked ≡ true)
    × (lookup_param parse_envelope parse_value key (pos 2000) again (pos 3000) pc ≡ (a, false, pc))
unfolding get lookup version_of get_header header_int parse_int64 mul_int64 ◌+ℤ◌
lookup_param_reused_example =
    lookup_param_reused parse_envelope parse_value key 200 headers "{}"
      (record { found = true; value = "3"; source = "tenant" }) (pos 7) 5 (pos 0) (pos 1000)
      (pos 2000) (pos 3000) again new tt refl (omega arith) (omega arith) refl refl (omega arith)
      (omega arith) refl (omega arith) (omega arith) (omega arith)
