-- ===== src/Tracing/Http.antt =====
-- tracing/http.go: the transport that traces a request and decides which trace headers it carries,
-- the middleware of a server, and the redirects of a client. A span is what the code tells of it;
-- what the tracer makes of a new span is the parameter `start`.
use declarion_sdk_go.Common.{
  Option, none, some, List, [], ◌∷◌, ◌++◌, String, string_Eq, Bool, true, false, not, ◌||◌, ◌==◌,
  if◌then◌else◌,
}
use declarion_sdk_go.Common.Int.{ℤ, pos, leb_ℤ}
use declarion_sdk_go.Common.Text.{codes}
use declarion_sdk_go.Common.Assoc.{lookup, retain}
use declarion_sdk_go.Common.Sorting.{contains}
use declarion_sdk_go.Errs.{Link, Catalogue, from, code_of, str_append}
use declarion_sdk_go.Tracing.{
  Context, Headers, Propagation, with_work, extract_trace, set_all, strip, inject,
}
use declarion_sdk_go.Tracing.Origin.{
  Url, Net, Attribute, text_attribute, int_attribute, same_origin, destination_attributes,
}

-- the methods that are known where the environment says nothing
abbrev default_methods : List String
default_methods =
    "CONNECT" ∷ "DELETE" ∷ "GET" ∷ "HEAD" ∷ "OPTIONS" ∷ "PATCH" ∷ "POST" ∷ "PUT" ∷ "TRACE" ∷ "QUERY"
    ∷ []

unfoldable pub named_methods : List String → List String
named_methods [] = []
named_methods (method ∷ methods) =
    let rest = named_methods methods in if method == "" then rest else method ∷ rest

-- `knownHTTPMethods`, of the environment's list split at its commas
unfoldable pub known_http_methods : (configured : Option (List String)) → List String
known_http_methods none = named_methods default_methods
known_http_methods (some methods) = named_methods methods

-- `httpMethod`: the attribute and the name of the span
unfoldable pub http_method : (method : String) → (known : List String) → String × String
http_method method known = if contains known method then (method, method) else ("_OTHER", "HTTP")

-- What the standard library finds in an error's chain.
pub record FailureKind : Type 0 where
  pub is_canceled : Bool
  pub is_deadline_exceeded : Bool
  -- a `net.Error`, and whether it is a timeout
  pub net_timeout : Option Bool

-- `TransportError`
unfoldable pub transport_error : FailureKind → String
transport_error e =
    if e.is_canceled
    then "canceled"
    else if e.is_deadline_exceeded
    then "timeout"
    else elim e.net_timeout [
      | none ↦ "_OTHER"
      | some timeout ↦ if timeout then "timeout" else "transport"
    ]

-- `ErrorType`
unfoldable pub error_type : {V : Type 0} → Catalogue → List (Link V) → FailureKind → String
error_type catalogue err failure = elim (from err) [
  | none ↦ transport_error failure
  | some declared ↦ elim (lookup (code_of declared.core.type) catalogue) [
    | none ↦ transport_error failure
    | some _ ↦ code_of declared.core.type
  ]
]

-- The type that `Fail` writes: a text, or a status in decimal.
pub data FailType : Type 0 where
  reason : String → FailType
  status_code : ℤ → FailType

pub record Span : Type 0 where
  pub name : String
  pub attributes : List Attribute
  pub fail : Option FailType

pub record Transport : Type 0 where
  pub origin : Option Url
  pub template : Option (Url → String)
  pub methods : List String
  pub forward : Bool

-- `WithURLTemplateLookup` and `ForwardTraceContext`
pub data HttpClientOption : Type 0 where
  with_url_template_lookup : (Url → String) → HttpClientOption
  forward_trace_context : HttpClientOption

unfoldable pub apply_client_options : List HttpClientOption → Transport → Transport
apply_client_options [] t = t
apply_client_options (with_url_template_lookup f ∷ options) t =
    apply_client_options options (record t { template = some f })
apply_client_options (forward_trace_context ∷ options) t =
    apply_client_options options (record t { forward = true })

-- `HTTPClient`: its transport. `parse` is `url.Parse`, `none` its error.
unfoldable pub http_client :
    (parse : String → Option Url)
    → (configured : Option (List String)) → (platform_url : String) → List HttpClientOption
    → Transport
http_client parse configured platform_url options = apply_client_options options (record {
  origin = if platform_url == "" then none else parse platform_url;
  template = none;
  methods = known_http_methods configured;
  forward = false;
})

-- `http.Request`, as far as the code looks at it
pub record Outgoing (Sp : Type 0) : Type 0 where
  pub ctx : Context Sp
  pub method : String
  pub url : Url
  pub headers : Headers

-- What the base transport gives: a response's status or an error; a nil response is `nil_response`.
pub data Answered : Type 0 where
  answered : (status : ℤ) → Answered
  nil_response : Answered
  not_sent : FailureKind → Answered

module _ {Sp Ip : Type 0} (otel : Propagation Sp) (net : Net Ip) where
  -- the template of a request to the transport's own origin, and empty otherwise
  abbrev template_of : Transport → Url → String
  template_of t url = elim t.template [
    | none ↦ ""
    | some template ↦ elim t.origin [
      | none ↦ ""
      | some origin ↦ if same_origin net origin url then template url else ""
    ]
  ]

  -- the span that `RoundTrip` starts
  unfoldable pub client_span : Transport → Outgoing Sp → Span
  client_span t req =
      let (method, name) = http_method req.method t.methods in
      let attributes =
        destination_attributes net req.url ++ (text_attribute "http.request.method" method ∷ []) in
      let template = template_of t req.url in
      if template == ""
      then record { name = name; attributes = attributes; fail = none }
      else record {
        name = str_append name (str_append " " template);
        attributes = attributes ++ (text_attribute "url.template" template ∷ []);
        fail = none;
      }

  -- the headers that `RoundTrip` sends in the context of its span
  unfoldable pub sent_headers : Transport → (span_ctx : Context Sp) → Url → Headers → Headers
  sent_headers t span_ctx url headers =
      let forwarded =
        if t.forward
        then set_all (otel.trace_headers span_ctx.span)
            (retain (λ name _. not (name == "traceparent" || name == "tracestate")) headers)
        else headers in
      elim t.origin [
        | none ↦ forwarded
        | some origin ↦
            if same_origin net origin url
            then inject otel span_ctx (strip forwarded)
            else strip forwarded
      ]

  -- what `RoundTrip` tells of the answer
  unfoldable pub finish_span : Span → Answered → Span
  finish_span span (not_sent e) = record span { fail = some (reason (transport_error e)) }
  finish_span span nil_response = span
  finish_span span (answered status) = record span {
    attributes = span.attributes ++ (int_attribute "http.response.status_code" status ∷ []);
    fail = if leb_ℤ (pos 400) status then some (status_code status) else none;
  }

  -- `RoundTrip`: the context of the new span keeps the work
  unfoldable pub round_trip :
      (start : Option Sp → Span → Option Sp)
      → Transport
      → (base : Outgoing Sp → Answered) → Outgoing Sp
      → Outgoing Sp × Span × Answered
  round_trip start t base req =
      let span = client_span t req in
      let ctx : Context Sp = record { span = start req.ctx.span span; work = req.ctx.work } in
      let sent : Outgoing Sp = record req {
        ctx = ctx;
        headers = sent_headers t ctx req.url req.headers;
      } in
      let response = base sent in (sent, finish_span span response, response)

  -- `PlatformClient`: what its `CheckRedirect` makes of the headers, and whether it follows
  unfoldable pub check_redirect :
      (destination : Url)
      → (previous : Option (Outgoing Sp → Bool)) → (via_count : ℤ) → Outgoing Sp
      → Headers × Bool
  check_redirect destination previous via_count req =
      let headers =
        if not (same_origin net destination req.url) then strip req.headers else req.headers in
      elim previous [
        | some decide ↦ (headers, decide (record req { headers = headers }))
        | none ↦ (headers, not (leb_ℤ (pos 10) via_count))
      ]

-- How a handler of the server ends: a status, a panic, or `http.ErrAbortHandler`.
pub data Served : Type 0 where
  wrote : (status : ℤ) → Served
  panicked aborted : Served

-- `ServerMiddleware` behind `skip`: the context of the handler's request, and the span
unfoldable pub server_context :
    {Sp : Type 0}
    → Propagation Sp
    → (known : List String) → Context Sp
    → (method : String) → Headers
    → Context Sp
server_context otel known ctx method headers =
    with_work (extract_trace otel ctx headers) ""
      (codes (str_append "http:" (http_method method known).1))

unfoldable pub server_span :
    (known : List String)
    → (method : String) → (tls : Bool) → (template : Option String) → Served
    → Span
server_span known method tls template served =
    let (named, name) = http_method method known in
    let started =
      text_attribute "http.request.method" named
      ∷ text_attribute "url.scheme" (if tls then "https" else "http")
      ∷ [] in
    let route : String = elim template [ none ↦ "" | some path ↦ path ] in
    elim served [
      | panicked ↦ record { name = name; attributes = started; fail = some (reason "panic") }
      | aborted ↦ record { name = name; attributes = started; fail = none }
      | wrote status ↦
          let attributes = started ++ (int_attribute "http.response.status_code" status ∷ []) in
          let fail = if leb_ℤ (pos 500) status then some (status_code status) else none in
          if route == ""
          then record { name = name; attributes = attributes; fail = fail }
          else record {
            name = str_append name (str_append " " route);
            attributes = attributes ++ (text_attribute "http.route" route ∷ []);
            fail = fail;
          }
    ]
