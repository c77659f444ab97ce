-- ===== src/Tracing/Tests.antt =====
-- A context whose path is full, requests to the platform and elsewhere, and a redirect.
use declarion_sdk_go.Common.{
  ◌≡◌, refl, Option, none, some, [], ◌∷◌, String, string_Eq, ◌==◌, true, false, ℕ, All,
  if◌then◌else◌,
}
use declarion_sdk_go.Common.Int.{pos}
use declarion_sdk_go.Common.Text.{codes, parse_int64}
use declarion_sdk_go.Common.Assoc.{lookup, insert, retain, IsMap}
use declarion_sdk_go.Tracing.{
  Context, Propagation, with_work, append_path, adopt_path, sanitize_path, path_chars, path_char,
  work_of, strip, is_trace_header, inject, set_all,
}
use declarion_sdk_go.Tracing.Path.{
  Reached, background, worked, IsPath, path_of, appended_path, path_of-append_kept,
}
use declarion_sdk_go.Tracing.Origin.{Url, Net, same_origin, effective_port, same_host}
use declarion_sdk_go.Tracing.Http.{
  Transport, Outgoing, Answered, answered, Span, round_trip, client_span, sent_headers,
  check_redirect,
}
use declarion_sdk_go.Tracing.Sent.{IsPropagation, own_sets, last_set, round_trip-headers}

abbrev otel : Propagation ℕ
otel = record {
  trace_headers = λ span. elim span [ none ↦ [] | some n ↦ ("traceparent", "00-1") ∷ [] ];
  extract_trace = λ _. none;
  baggage_headers = λ path. ("baggage", "path") ∷ [];
  extract_baggage =
      λ headers. elim (lookup "baggage" headers) [ none ↦ [] | some _ ↦ codes "evil path" ];
}

set_by_trace :
    (span : Option ℕ) → All (λ set. is_trace_header set.0 ≡ true) (otel.trace_headers span)
set_by_trace none = tt
set_by_trace (some n) = (refl, tt)

otel-IsPropagation : IsPropagation otel
otel-IsPropagation = record { traces = λ span. set_by_trace span; baggages = λ path. (refl, tt) }

abbrev net : Net ℕ
net = record { equal_fold = λ a b. a == b; parse_ip = λ _. none; ip_equal = λ a b. false }

abbrev url : String → String → Url
url host port = record { scheme = "https"; hostname = host; port = port; escaped_path = [] }

abbrev first : Context ℕ
first = with_work (record { span = none; work = none }) "r1" (codes "http:POST")

abbrev second : Context ℕ
second = append_path first (codes "send")

first-Reached : Reached otel first
first-Reached = worked "r1" (codes "http:POST") (background none)

path_of-append_kept_example :
    IsPath (path_of first)
    × (path_of second ≡ appended_path (path_of first) (sanitize_path (codes "send")))
path_of-append_kept_example = path_of-append_kept otel first (codes "send") first-Reached

the_path : path_of second ≡ codes "http:POST->send"
unfolding append_path with_work work_of sanitize_path path_chars path_char
the_path = refl

-- what a peer sends is sanitised
from_peer : path_of (adopt_path otel first (("baggage", "x" ∷ []) ∷ [])) ≡ codes "invalid"
unfolding adopt_path with_work work_of sanitize_path path_chars path_char lookup
from_peer = refl

abbrev transport : Transport
transport = record {
  origin = some (url "declarion.example" "0443");
  template = none;
  methods = [];
  forward = false;
}

abbrev request : Url → Outgoing ℕ
request to = record {
  ctx = record { span = some 1; work = first.work };
  method = "GET";
  url = to;
  headers = ("baggage", "caller" ∷ []) ∷ ("accept", "json" ∷ []) ∷ [];
}

abbrev base : Outgoing ℕ → Answered
base _ = answered (pos 200)

abbrev start : Option ℕ → Span → Option ℕ
start span _ = span

request-IsMap : (to : Url) → IsMap (request to).headers
unfolding lookup
request-IsMap to = (refl, (refl, tt))

abbrev at_home : Url
at_home = url "declarion.example" ""

round_trip-headers_example :
    lookup "baggage" (round_trip otel net start transport base (request at_home)).0.headers ≡ (
      if is_trace_header "baggage"
      then if same_origin net (url "declarion.example" "0443") at_home
        then last_set "baggage" (
            own_sets otel
              (start (some 1) (client_span otel net transport (request at_home)))
              first.work)
        else none
      else lookup "baggage" (request at_home).headers)
round_trip-headers_example =
    round_trip-headers otel otel-IsPropagation net start transport base (request at_home)
      (url "declarion.example" "0443") "baggage" refl (request-IsMap at_home)

sent_home :
    lookup "baggage" (round_trip otel net start transport base (request at_home)).0.headers
    ≡ some ("path" ∷ [])
unfolding round_trip sent_headers same_origin effective_port same_host parse_int64 inject strip
    retain set_all with_work work_of sanitize_path path_chars path_char lookup insert
sent_home = refl

sent_elsewhere :
    lookup "baggage"
      (round_trip otel net start transport base (request (url "other.example" ""))).0.headers
    ≡ none
unfolding round_trip sent_headers same_origin effective_port same_host parse_int64 strip retain
    lookup
sent_elsewhere = refl

one_origin : same_origin net (url "declarion.example" "0443") (url "declarion.example" "") ≡ true
unfolding same_origin effective_port same_host parse_int64
one_origin = refl

redirected :
    check_redirect otel net
      (url "declarion.example" "")
      none
      (pos 10)
      (request (url "other.example" ""))
    ≡ (("accept", "json" ∷ []) ∷ [], false)
unfolding check_redirect strip retain same_origin effective_port same_host parse_int64
redirected = refl
