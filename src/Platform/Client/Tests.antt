-- ===== src/Platform/Client/Tests.antt =====
-- A request of a derived client.
use declarion_sdk_go.Common.{
  Option, none, some, List, [], ◌∷◌, String, string_Eq, Bool, true, ◌≡◌, ◌≢◌, refl, ◌⊎◌,
}
use declarion_sdk_go.Common.Assoc.{insert}
use declarion_sdk_go.Common.Result.{ok}
use declarion_sdk_go.Execution.{Elevation}
use declarion_sdk_go.Platform.Client.{
  Client, Headers, Target, apply_options, with_target_tenant_id, new_request, apply_headers,
  selection_headers, plain_headers, trim_right_slashes, elevation_header,
}
use declarion_sdk_go.Platform.Client.Headers.{Says, IsSelection, new_request_headers}

abbrev client : Client
client = record {
  elevation = record { system = true; grants = [] };
  selection_err = none;
  selected = true;
  base_url = "http://p";
  token = "t";
  tenant_id = "";
  tenant_code = "acme";
}

abbrev encode : Elevation → Option String
encode e = some "e30"

abbrev valid : String → Bool
valid _ = true

abbrev opts : List (Target → Target)
opts = with_target_tenant_id "t1" ∷ []

abbrev sent : Headers
sent =
    (elevation_header, "e30")
    ∷ ("Content-Type", "application/json")
    ∷ ("Authorization", "Bearer t")
    ∷ ("X-Declarion-Tenant-ID", "t1")
    ∷ []

request :
    new_request encode valid client "/api/x" "a=1" "application/json" opts ""
    ≡ ok ("http://p/api/x?a=1", sent)
unfolding new_request apply_headers selection_headers plain_headers apply_options insert
request = refl

trimmed : trim_right_slashes "http://p//" ≡ "http://p"
unfolding trim_right_slashes
trimmed = refl

new_request_headers_example :
    let ro = apply_options opts (record { id = ""; tenant = "acme" }) in
    ((header : Option String) × Says header client ro "" sent × IsSelection encode client header)
    × ((ro.id ≡ "") ⊎ (ro.tenant ≡ ""))
    × (client.selection_err ≡ none)
    × (client.base_url ≢ "")
new_request_headers_example =
    new_request_headers encode valid client "/api/x" "a=1" "application/json" opts "" request
