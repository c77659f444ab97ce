-- ===== src/Platform/UrlTemplate.antt =====
-- platform/tracing.go: the template that stands for a platform URL on a span. A path is the bytes of
-- `EscapedPath`; `base` is that of the client's base URL, `none` where it is no URL.
use declarion_sdk_go.Common.{
  ◌≡◌, refl, Option, none, some, List, [], ◌∷◌, String, ◌&&◌, nat_eq, if◌then◌else◌,
}
use declarion_sdk_go.Common.Text.{Bytes, codes}
use declarion_sdk_go.Common.Split.{split_on}
use declarion_sdk_go.Platform.Stream.Utf8.{bytes_eq, strip_prefix}

-- `strings.TrimRight(s, "/")`
trim_slashes : Bytes → Bytes
trim_slashes [] = []
trim_slashes (c ∷ s) =
    let rest = trim_slashes s in if nat_eq c b'/' && bytes_eq rest [] then [] else c ∷ rest

-- `strings.TrimPrefix`
abbrev trim_prefix : Bytes → Bytes → Bytes
trim_prefix s prefix = elim (strip_prefix prefix s) [ none ↦ s | some rest ↦ rest ]

-- the switch over the parts behind "api"
unfoldable pub template_of_parts : List Bytes → String
template_of_parts (kind ∷ []) = if bytes_eq kind (codes "mcp") then "/api/mcp" else ""
template_of_parts (kind ∷ _ ∷ []) =
    if bytes_eq kind (codes "data")
    then "/api/data/{entity}"
    else if bytes_eq kind (codes "actions")
    then "/api/actions/{code}"
    else if bytes_eq kind (codes "params")
    then "/api/params/{code}"
    else ""
template_of_parts (kind ∷ second ∷ _ ∷ []) =
    if bytes_eq kind (codes "data")
    then "/api/data/{entity}/{id}"
    else if bytes_eq kind (codes "schema") && bytes_eq second (codes "entities")
    then "/api/schema/entities/{entity}"
    else ""
template_of_parts _ = ""

abbrev behind_api : List Bytes → String
behind_api [] = ""
behind_api (first ∷ parts) = if bytes_eq first (codes "api") then template_of_parts parts else ""

-- the lookup of `tracedHTTPClient`
unfoldable pub url_template : (base : Option Bytes) → (path : Bytes) → String
unfolding trim_slashes
url_template base path =
    let inside : Bytes = elim base [ none ↦ path | some b ↦ trim_prefix path (trim_slashes b) ] in
    behind_api (split_on b'/' (trim_prefix inside (codes "/")))

templates :
    (url_template (some (codes "/v1/")) (codes "/v1/api/data/lead") ≡ "/api/data/{entity}")
    × (url_template none (codes "/api/schema/entities/lead") ≡ "/api/schema/entities/{entity}")
    × (url_template none (codes "/health") ≡ "")
unfolding url_template trim_slashes template_of_parts split_on bytes_eq strip_prefix
templates = (refl, refl, refl)
