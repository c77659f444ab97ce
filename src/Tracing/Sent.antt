-- ===== src/Tracing/Sent.antt =====
-- Which trace headers leave the process: those of the request's own span and work, and only to the
-- platform's origin.
use declarion_sdk_go.Common.{
  ◌≡◌, refl, ◌∙◌, Option, none, some, List, [], ◌∷◌, ◌++◌, String, string_Eq, true, false, not,
  ◌||◌, ◌==◌, ==_iff, if◌then◌else◌, arith, inl, inr, Bool-cases, Option-cases, ap, All,
}
use declarion_sdk_go.Common.Text.{Bytes}
use declarion_sdk_go.Common.Assoc.{
  lookup, insert, retain, IsMap, lookup-insert, insert-IsMap, lookup-retain, retain-IsMap,
}
use declarion_sdk_go.Tracing.{
  Context, Work, Headers, Propagation, set_all, strip, is_trace_header, inject, sanitize_path,
  work_of, is_blank,
}
use declarion_sdk_go.Tracing.Origin.{Url, Net, same_origin}
use declarion_sdk_go.Tracing.Http.{
  Transport, Outgoing, Answered, Span, client_span, round_trip, sent_headers,
}

abbrev SetsTrace : List (String × String) → Type 0
SetsTrace = All (λ set. is_trace_header set.0 ≡ true)

-- What OpenTelemetry documents: the propagators set their own headers only.
pub record IsPropagation {Sp : Type 0} (otel : Propagation Sp) : Type 0 where
  pub traces : (span : Option Sp) → SetsTrace (otel.trace_headers span)
  pub baggages : (path : Bytes) → SetsTrace (otel.baggage_headers path)

lookup-none : (name : String) → lookup {V = List String} name [] ≡ none
unfolding lookup
lookup-none name = refl

lookup-set_all :
    (name : String) (sets : List (String × String)) (headers : Headers)
    → lookup name (set_all sets headers) ≡ elim (lookup name (set_all sets [])) [
      | none ↦ lookup name headers
      | some values ↦ some values
    ]
unfolding set_all
lookup-set_all name [] headers = unfold lookup in refl
lookup-set_all name ((key, value) ∷ sets) headers = ground (
  arith,
  lookup-set_all name sets (insert key (value ∷ []) headers),
  lookup-set_all name sets (insert key (value ∷ []) []),
  lookup-insert key name (value ∷ []) headers,
  lookup-insert key name (value ∷ []) [],
  lookup-none name,
)

set_all-other :
    (name : String) (sets : List (String × String)) (headers : Headers)
    → SetsTrace sets
    → is_trace_header name ≡ false
    → lookup name (set_all sets headers) ≡ lookup name headers
unfolding set_all
set_all-other name [] headers h k = refl
set_all-other name ((key, value) ∷ sets) headers h k =
    set_all-other name sets (insert key (value ∷ []) headers) h.1 k
    ∙ ground (arith, lookup-insert key name (value ∷ []) headers, ==_iff key name, h.0)

set_all-IsMap :
    (sets : List (String × String)) (headers : Headers)
    → IsMap headers
    → IsMap (set_all sets headers)
unfolding set_all
set_all-IsMap [] headers m = m
set_all-IsMap ((key, value) ∷ sets) headers m =
    set_all-IsMap sets (insert key (value ∷ []) headers) (insert-IsMap key (value ∷ []) headers m)

lookup-strip :
    (name : String) (headers : Headers)
    → IsMap headers
    → lookup name (strip headers) ≡ (if is_trace_header name then none else lookup name headers)
unfolding strip
lookup-strip name headers m =
    lookup-retain (λ key _. not (is_trace_header key)) name headers m
    ∙ elim (Bool-cases (is_trace_header name)) [
      | inl e ↦ ground (arith, e)
      | inr e ↦ ground (arith, e)
    ]

strip-IsMap : (headers : Headers) → IsMap headers → IsMap (strip headers)
unfolding strip
strip-IsMap headers m = retain-IsMap (λ key _. not (is_trace_header key)) headers m

-- the value that the last of these headers with this name sets
unfoldable pub last_set : (name : String) → List (String × String) → Option (List String)
last_set name [] = none
last_set name ((key, value) ∷ sets) = elim (last_set name sets) [
  | none ↦ if key == name then some (value ∷ []) else none
  | some values ↦ some values
]

-- The headers that OpenTelemetry has for a span, and behind them those that it has for the path of
-- the work where there is a path.
abbrev pub own_sets :
    {Sp : Type 0} → Propagation Sp → Option Sp → Option Work → List (String × String)
own_sets otel span none = otel.trace_headers span
own_sets otel span (some work) =
    if is_blank work.trace_path
    then otel.trace_headers span
    else otel.trace_headers span ++ otel.baggage_headers (sanitize_path work.trace_path)

lookup-set_all_nil :
    (name : String) (sets : List (String × String))
    → lookup name (set_all sets []) ≡ last_set name sets
unfolding set_all last_set
lookup-set_all_nil name [] = lookup-none name
lookup-set_all_nil name ((key, value) ∷ sets) = ground (
  arith,
  lookup-set_all name sets (insert key (value ∷ []) []),
  lookup-set_all_nil name sets,
  lookup-insert key name (value ∷ []) [],
  lookup-none name,
)

-- the headers that `Inject` writes to an empty carrier
abbrev own_headers : {Sp : Type 0} → Propagation Sp → Context Sp → Headers
own_headers otel ctx = inject otel ctx []

abbrev split_headers : Headers → Headers → String → Option (List String)
split_headers own headers name =
    if is_trace_header name then lookup name own else lookup name headers

lookup-set_all_stripped :
    (sets : List (String × String)) (name : String) (headers : Headers)
    → SetsTrace sets
    → IsMap headers
    → lookup name (set_all sets (strip headers)) ≡ split_headers (set_all sets []) headers name
lookup-set_all_stripped sets name headers h m = elim (Bool-cases (is_trace_header name)) [
  | inl e ↦
      lookup-set_all name sets (strip headers) ∙ ground (arith, e, lookup-strip name headers m)
  | inr e ↦
      set_all-other name sets (strip headers) h e ∙ ground (arith, e, lookup-strip name headers m)
]

set_all-append :
    (sets more : List (String × String)) (headers : Headers)
    → set_all more (set_all sets headers) ≡ set_all (sets ++ more) headers
unfolding set_all
set_all-append [] more headers = refl
set_all-append ((key, value) ∷ sets) more headers =
    set_all-append sets more (insert key (value ∷ []) headers)

All-append :
    (sets more : List (String × String))
    → SetsTrace sets
    → SetsTrace more
    → SetsTrace (sets ++ more)
All-append [] more h k = k
All-append (set ∷ sets) more h k = (h.0, All-append sets more h.1 k)

strip_nil : strip [] ≡ []
unfolding strip retain
strip_nil = refl

inject_nil :
    {Sp : Type 0} (otel : Propagation Sp) (ctx : Context Sp)
    → own_headers otel ctx ≡ set_all (own_sets otel ctx.span ctx.work) []
unfolding inject work_of
inject_nil otel ctx = elim (Option-cases ctx.work) [
  | inl e ↦ rw (e, strip_nil) refl
  | inr (w, e) ↦ elim (Bool-cases (is_blank w.trace_path)) [
    | inl blank ↦ rw (e, strip_nil, blank) refl
    | inr path ↦
        rw (e, strip_nil, path)
          (set_all-append (otel.trace_headers ctx.span)
            (otel.baggage_headers (sanitize_path w.trace_path)) [])
  ]
]

lookup-own_headers :
    {Sp : Type 0} (otel : Propagation Sp) (ctx : Context Sp) (name : String)
    → lookup name (own_headers otel ctx) ≡ last_set name (own_sets otel ctx.span ctx.work)
lookup-own_headers otel ctx name =
    rw (inject_nil otel ctx) (lookup-set_all_nil name (own_sets otel ctx.span ctx.work))

module _ {Sp : Type 0} (otel : Propagation Sp) (laws : IsPropagation otel) where
  lookup-inject :
      (ctx : Context Sp) (name : String) (headers : Headers)
      → IsMap headers
      → lookup name (inject otel ctx headers) ≡ split_headers (own_headers otel ctx) headers name
  unfolding inject
  lookup-inject ctx name headers m = elim (Bool-cases (is_blank (work_of ctx).trace_path)) [
    | inl blank ↦ rw blank (
        rw strip_nil (
          lookup-set_all_stripped (otel.trace_headers ctx.span) name headers (laws.traces ctx.span)
            m))
    | inr path ↦
        let traces = otel.trace_headers ctx.span in
        let baggages = otel.baggage_headers (sanitize_path (work_of ctx).trace_path) in
        rw
          (
            path,
            strip_nil,
            set_all-append traces baggages [],
            set_all-append traces baggages (strip headers),
          )
          (lookup-set_all_stripped (traces ++ baggages) name headers
            (All-append traces baggages (laws.traces ctx.span)
              (laws.baggages (sanitize_path (work_of ctx).trace_path)))
            m)
  ]

  module _ {Ip : Type 0} (net : Net Ip) where
    -- the headers after `ForwardTraceContext`
    abbrev forwarded : Transport → Context Sp → Headers → Headers
    forwarded t ctx headers =
        if t.forward
        then set_all (otel.trace_headers ctx.span)
            (retain (λ name _. not (name == "traceparent" || name == "tracestate")) headers)
        else headers

    forwarded-IsMap :
        (t : Transport) (ctx : Context Sp) (headers : Headers)
        → IsMap headers
        → IsMap (forwarded t ctx headers)
    forwarded-IsMap t ctx headers m = elim (Bool-cases t.forward) [
      | inl e ↦ rw e (
          set_all-IsMap (otel.trace_headers ctx.span)
            (retain (λ name _. not (name == "traceparent" || name == "tracestate")) headers)
            (retain-IsMap (λ name _. not (name == "traceparent" || name == "tracestate")) headers
              m))
      | inr e ↦ rw e m
    ]

    lookup-forwarded :
        (t : Transport) (ctx : Context Sp) (headers : Headers) (name : String)
        → IsMap headers
        → is_trace_header name ≡ false
        → lookup name (forwarded t ctx headers) ≡ lookup name headers
    lookup-forwarded t ctx headers name m k = elim (Bool-cases t.forward) [
      | inl e ↦
          let kept = retain (λ key _. not (key == "traceparent" || key == "tracestate")) headers in
          rw e (
            set_all-other name (otel.trace_headers ctx.span) kept (laws.traces ctx.span) k
            ∙ lookup-retain (λ key _. not (key == "traceparent" || key == "tracestate")) name
                headers m
            ∙ ground arith)
      | inr e ↦ rw e refl
    ]

    lookup-sent_headers :
        (t : Transport) (ctx : Context Sp) (url : Url) (headers : Headers) (origin : Url)
        (name : String)
        → t.origin ≡ some origin
        → IsMap headers
        → lookup name (sent_headers otel net t ctx url headers) ≡ (
            if is_trace_header name
            then if same_origin net origin url then lookup name (own_headers otel ctx) else none
            else lookup name headers)
    unfolding sent_headers
    lookup-sent_headers t ctx url headers origin name o m =
        let there = forwarded t ctx headers in
        let m' = forwarded-IsMap t ctx headers m in
        let stripped = lookup-strip name there m' in
        let injected = lookup-inject ctx name (strip there) (strip-IsMap there m') in
        elim (Bool-cases (same_origin net origin url)) [
          | inl here ↦
              rw (o, here)
                (injected ∙ elim (Bool-cases (is_trace_header name)) [
                  | inl e ↦ rw e refl
                  | inr e ↦ rw e (rw e at stripped ∙ lookup-forwarded t ctx headers name m e)
                ])
          | inr away ↦
              rw (o, away)
                (stripped ∙ elim (Bool-cases (is_trace_header name)) [
                  | inl e ↦ rw e refl
                  | inr e ↦ rw e (lookup-forwarded t ctx headers name m e)
                ])
        ]

    -- A request that a transport with an origin sends, forwarding or not, has every other header as
    -- the caller gave it. Where its URL is of that origin it has, whatever the caller gave, the trace
    -- headers that OpenTelemetry has for the span that is started for the request, and those for the
    -- path of the caller's work, where the work has a path, and no other trace header; elsewhere it
    -- has none of them. The caller's headers have each name once.
    pub round_trip-headers :
        (start : Option Sp → Span → Option Sp) (t : Transport) (base : Outgoing Sp → Answered)
        (req : Outgoing Sp) (origin : Url) (name : String)
        → t.origin ≡ some origin
        → IsMap req.headers
        → let (sent, span, response) = round_trip otel net start t base req in
          lookup name sent.headers ≡ (
            if is_trace_header name
            then if same_origin net origin req.url
              then last_set name
                  (own_sets otel (start req.ctx.span (client_span otel net t req)) req.ctx.work)
              else none
            else lookup name req.headers)
    unfolding round_trip
    round_trip-headers start t base req origin name o m =
        let span = start req.ctx.span (client_span otel net t req) in
        let ctx : Context Sp = record { span = span; work = req.ctx.work } in
        lookup-sent_headers t ctx req.url req.headers origin name o m
        ∙ ap
            (λ own.
              if is_trace_header name
              then if same_origin net origin req.url then own else none
              else lookup name req.headers)
            (lookup-own_headers otel ctx name)
