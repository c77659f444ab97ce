-- ===== src/Platform/Header.antt =====
-- The response headers that the client reads: `headerInt` of platform/params_cache.go over an
-- `http.Header`, which holds each name in its canonical spelling.
use declarion_sdk_go.Common.{Option, none, List, [], ◌∷◌, String, string_Eq, ◌==◌, if◌then◌else◌}
use declarion_sdk_go.Common.Int.{ℤ}
use declarion_sdk_go.Common.Text.{codes, parse_int64}

abbrev pub Header : Type 0
Header = List (String × String)

-- `h.Get(name)`: the first value, or the empty string
unfoldable pub get : Header → String → String
get [] name = ""
get ((n, v) ∷ h) name = if n == name then v else get h name

unfoldable pub header_int : Header → String → Option ℤ
header_int h name = let raw = get h name in if raw == "" then none else parse_int64 (codes raw)

abbrev pub params_version_header : String
params_version_header = "X-Declarion-Params-Version"

abbrev pub params_max_age_header : String
params_max_age_header = "X-Declarion-Params-Max-Age-Ms"
