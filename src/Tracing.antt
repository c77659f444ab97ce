-- ===== src/Tracing.antt =====
-- tracing/context.go: the work that a context carries, and the path of the codes that led to it.
--
-- A context is the trace that OpenTelemetry keeps in it, of any type `Sp`, and the `work` value.
-- Headers are those of `http.Header`, the values of each name, which is in lower case here. What OpenTelemetry reads
-- from and writes to a carrier is the record `Propagation`.
pub mod Path
pub mod Http
pub mod Origin
pub mod Sent
mod Tests
use declarion_sdk_go.Common.{
  ℕ, ◌+◌, ◌-◌, Option, none, some, List, [], ◌∷◌, ◌++◌, String, string_Eq, Bool, true, false, not,
  ◌&&◌, ◌||◌, ◌==◌, leb, ltb, nat_eq, if◌then◌else◌, length, take,
}
use declarion_sdk_go.Common.Text.{Bytes, codes, is_digit}
use declarion_sdk_go.Common.Assoc.{Assoc, insert, retain}

abbrev pub max_trace_path_bytes : ℕ
max_trace_path_bytes = 256

abbrev pub invalid_path : Bytes
invalid_path = codes "invalid"

abbrev pub truncated_mark : Bytes
truncated_mark = codes "->truncated"

-- a character of a path, behind a dash or not
unfoldable pub path_char : (dash : Bool) → ℕ → Bool
path_char dash c =
    leb b'A' c && leb c b'Z'
    || leb b'a' c && leb c b'z'
    || is_digit c
    || nat_eq c b'.'
    || nat_eq c b'_'
    || nat_eq c b':'
    || nat_eq c b'-'
    || nat_eq c b'>' && dash

-- the loop of `SanitizePath`; `dash` says whether the character before is a dash
unfoldable pub path_chars : (dash : Bool) → Bytes → Bool
path_chars dash [] = true
path_chars dash (c ∷ path) = path_char dash c && path_chars (nat_eq c b'-') path

unfoldable pub sanitize_path : Bytes → Bytes
sanitize_path path =
    if ltb max_trace_path_bytes (length path)
    then invalid_path
    else if path_chars false path
    then path
    else invalid_path

pub record Work : Type 0 where
  pub request_id : String
  pub trace_path : Bytes

pub record Context (Sp : Type 0) : Type 0 where
  pub span : Option Sp
  pub work : Option Work

abbrev pub Headers : Type 0
Headers = Assoc String (List String)

-- What OpenTelemetry does with a carrier: the headers that it sets for a trace and for a baggage of
-- the one member, and what it reads.
pub record Propagation (Sp : Type 0) : Type 0 where
  pub trace_headers : Option Sp → List (String × String)
  pub extract_trace : Headers → Option Sp
  pub baggage_headers : Bytes → List (String × String)
  pub extract_baggage : Headers → Bytes

abbrev pub joined_path : Bytes → Bytes → Bytes
joined_path path code = path ++ (b'-' ∷ b'>' ∷ code)

-- `joined[:MaxTracePathBytes-len("->truncated")] + "->truncated"`
unfoldable pub truncate_path : Bytes → Bytes
truncate_path joined = take (max_trace_path_bytes - length truncated_mark) joined ++ truncated_mark

abbrev pub is_blank : Bytes → Bool
is_blank [] = true
is_blank (_ ∷ _) = false

-- `carrier.Set` for each of these headers
unfoldable pub set_all : List (String × String) → Headers → Headers
set_all [] headers = headers
set_all ((name, value) ∷ sets) headers = set_all sets (insert name (value ∷ []) headers)

-- `Strip`
abbrev pub is_trace_header : String → Bool
is_trace_header name = name == "traceparent" || name == "tracestate" || name == "baggage"

unfoldable pub strip : Headers → Headers
strip headers = retain (λ name _. not (is_trace_header name)) headers

module _ {Sp : Type 0} where
  -- `WithWork`
  unfoldable pub with_work : Context Sp → (request_id : String) → (path : Bytes) → Context Sp
  with_work ctx request_id path = record ctx {
    work = some (record { request_id = request_id; trace_path = sanitize_path path });
  }

  -- `Work`
  unfoldable pub work_of : Context Sp → Work
  work_of ctx = elim ctx.work [ none ↦ record { request_id = ""; trace_path = [] } | some w ↦ w ]

  -- `AppendPath`
  unfoldable pub append_path : Context Sp → (code : Bytes) → Context Sp
  append_path ctx code =
      let w = work_of ctx in
      let joined = joined_path w.trace_path (sanitize_path code) in
      if is_blank w.trace_path
      then with_work ctx w.request_id (sanitize_path code)
      else if ltb max_trace_path_bytes (length joined)
      then with_work ctx w.request_id (truncate_path joined)
      else with_work ctx w.request_id joined

  module _ (otel : Propagation Sp) where
    -- `ExtractTrace`
    unfoldable pub extract_trace : Context Sp → Headers → Context Sp
    extract_trace ctx headers = record ctx { span = otel.extract_trace headers }

    -- `AdoptPath`
    unfoldable pub adopt_path : Context Sp → Headers → Context Sp
    adopt_path ctx headers =
        let path = otel.extract_baggage headers in
        if is_blank path then ctx else with_work ctx (work_of ctx).request_id path

    -- `Inject`
    unfoldable pub inject : Context Sp → Headers → Headers
    inject ctx headers =
        let w = work_of ctx in
        let traced = set_all (otel.trace_headers ctx.span) (strip headers) in
        if is_blank w.trace_path
        then traced
        else set_all (otel.baggage_headers (sanitize_path w.trace_path)) traced
