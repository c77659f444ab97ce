-- ===== src/Platform/Stream/Reading.antt =====
-- What holds of every stream, whatever was written to it.
use declarion_sdk_go.Common.{
  ℕ, ◌+◌, ◌≤◌, ◌≡◌, ◌≢◌, List, [], ◌∷◌, true, false, length, length-append, refl, arith, ap, sym,
  ◌∙◌, Option, some, none, Option-cases, Bool-cases, ◌⊎◌, inl, inr, ==_iff, string_Eq,
}
use declarion_sdk_go.Common.Text.{Bytes}
use declarion_sdk_go.Common.Result.{ok, Result-cases}
use declarion_sdk_go.Platform.Stream.Utf8.{
  is_utf8, bytes_eq_iff, strip_prefix, trim_space, length-strip_prefix, length-trim_space,
}
use declarion_sdk_go.Platform.Stream.{
  SseEvent, Block, add_data, empty_block, read_field, end_block, read_event, EndEnvelope,
  ActionStream, next, handle_event, finish_terminal, end_error, receive, at_lines, stream_event_end,
  event_prefix, data_prefix, comment_prefix,
}

-- What a read event is: within the bound, and its data in UTF-8.
pub record IsBounded (max_event_bytes : ℕ) (ev : SseEvent) : Type 0 where
  pub short : length ev.payload ≤ max_event_bytes
  pub utf8 : ev.payload ≢ [] → is_utf8 ev.payload ≡ true

-- The data of a block is shorter than the lines that it came from, and there only if a line had some.
abbrev IsCounted : Block → Type 0
IsCounted blk = (length blk.payload ≤ blk.total) × (blk.have_data ≡ false → blk.payload ≡ [])

-- A line without a field keeps the data; a `data:` line adds no more than its own length.
length-add_data :
    (v : Bytes) (blk : Block) → length (add_data v blk).payload ≤ length blk.payload + length v + 1
length-add_data v blk =
    ground (arith, length-append blk.payload (10 ∷ v), length-append blk.payload v)

read_field-IsCounted :
    (line : Bytes) (blk out : Block)
    → IsCounted blk
    → read_field line (record blk { total = blk.total + (length line + 1) }) ≡ some out
    → IsCounted out
unfolding read_field
read_field-IsCounted line blk out c h = elim (Option-cases (strip_prefix comment_prefix line)) [
  | inr (v, e) ↦ ground (arith, e, h, c.0, c.1)
  | inl n ↦ elim (Option-cases (strip_prefix event_prefix line)) [
    | inr (v, e) ↦ ground (arith, n, e, h, c.0, c.1)
    | inl m ↦ elim (Option-cases (strip_prefix data_prefix line)) [
      | inl k ↦ absurd (ground (arith, n, m, k))
      | inr (v, e) ↦
          let counted = record blk { total = blk.total + (length line + 1) } in
          let same : add_data (trim_space v) counted ≡ out = ground (arith, n, m, e, h) in
          rw (sym same) (
            ground (
              arith,
              length-add_data (trim_space v) counted,
              length-strip_prefix data_prefix line e,
              length-trim_space v,
              c.0,
            ),
            λ f. absurd (ground arith),
          )
    ]
  ]
]

end_block-IsBounded :
    {E : Type 0} (max_event_bytes : ℕ) (blk : Block) (ev : SseEvent)
    → IsCounted blk
    → blk.total ≤ max_event_bytes
    → end_block {E = E} blk ≡ ok (some ev)
    → IsBounded max_event_bytes ev
unfolding end_block
end_block-IsBounded max_event_bytes blk ev c le h = record {
  short = ground (arith, c.0);
  utf8 = λ full. ground (arith, full, c.1);
}

module _ {E : Type 0} (max_event_bytes : ℕ) (rest : Bytes) where
  read_event-IsBounded :
      (blk : Block) (lines more : List Bytes) (ev : SseEvent)
      → IsCounted blk
      → read_event {E = E} max_event_bytes blk lines rest ≡ ok (ev, more)
      → IsBounded max_event_bytes ev
  unfolding read_event
  read_event-IsBounded blk [] more ev c h = absurd (ground arith)
  read_event-IsBounded blk ([] ∷ lines) more ev c h = elim (Result-cases (end_block {E = E} blk)) [
    | inr (x, p) ↦ absurd (ground (arith, p))
    | inl (found, p) ↦ elim (Option-cases found) [
      | inl n ↦
          read_event-IsBounded empty_block lines more ev (omega arith, λ _. refl)
            (ground (arith, p ∙ ap ok n, h))
      | inr (ev', f) ↦
          let same : ev' ≡ ev = ground (arith, p ∙ ap ok f, h) in
          rw (sym same) (
            end_block-IsBounded {E = E} max_event_bytes blk ev' c (ground (arith, h)) (p ∙ ap ok f))
    ]
  ]
  read_event-IsBounded blk ((b ∷ bs) ∷ lines) more ev c h =
      elim (Option-cases
        (read_field (b ∷ bs) (record blk { total = blk.total + (length (b ∷ bs) + 1) }))) [
          | inl n ↦ absurd (ground (arith, n))
          | inr (out, r) ↦
              read_event-IsBounded out lines more ev (read_field-IsCounted (b ∷ bs) blk out c r)
                (ground (arith, r))
        ]

module _ {E : Type 0} (decode_end : Bytes → Option (EndEnvelope E)) where
  -- A stream that has said no keeps saying no: a call after the end, or after a close, changes
  -- nothing.
  pub next-next :
      (s t : ActionStream E) → next decode_end s ≡ (false, t) → next decode_end t ≡ (false, t)
  unfolding next handle_event finish_terminal
  next-next s t h = ground arith

  -- A frame that `Next` hands out is the data of one event: it is within the bound, in UTF-8, and
  -- counted once; the outcome and the end are not touched.
  pub next-true :
      (s t : ActionStream E)
      → next decode_end s ≡ (true, t)
      → (length t.cur ≤ s.max_event_bytes)
        × (t.cur ≢ [] → is_utf8 t.cur ≡ true)
        × (t.received.frames ≡ s.received.frames + 1)
        × (t.received.bytes ≡ s.received.bytes + length t.cur)
        × (t.err ≡ s.err)
        × (t.done ≡ false)
        × (t.delivered ≡ s.delivered)
  unfolding next handle_event
  next-true s t h =
      elim (Result-cases
        (read_event {E = E} s.max_event_bytes empty_block s.body.lines s.body.rest)) [
          | inr (x, p) ↦ absurd (ground (arith, p))
          | inl ((ev, more), p) ↦
              let b =
                read_event-IsBounded {E = E} s.max_event_bytes s.body.rest empty_block s.body.lines
                  more ev (omega arith, λ _. refl) p in
              let said : receive ev.payload (at_lines more s) ≡ t = ground (arith, p, h) in
              rw (sym said) (b.short, b.utf8, refl, refl, refl, ground (arith, p, h), refl)
        ]

  ended_cleanly :
      (s t : ActionStream E)
      → s.done ≡ false
      → s.closed ≡ false
      → next decode_end s ≡ (false, t)
      → t.err ≡ none
      → (ev : SseEvent) × (more : List Bytes) × (env : EndEnvelope E) × (read_event {E = E}
            s.max_event_bytes empty_block s.body.lines s.body.rest
          ≡ ok (ev, more))
        × (ev.event ≡ stream_event_end)
        × (decode_end ev.payload ≡ some env)
        × (env.status ≡ "success")
        × (t.done ≡ true)
  unfolding next handle_event finish_terminal end_error
  ended_cleanly s t d o h e =
      elim (Result-cases
        (read_event {E = E} s.max_event_bytes empty_block s.body.lines s.body.rest)) [
          | inr (x, p) ↦ absurd (ground (arith, p))
          | inl ((ev, more), p) ↦ elim (Option-cases (decode_end ev.payload)) [
            | inl n ↦ absurd (ground (arith, p, n))
            | inr (env, q) ↦ (
              ev,
              more,
              env,
              p,
              ground (arith, p, q, bytes_eq_iff ev.event stream_event_end),
              q,
              ground (arith, p, q, ==_iff env.status "success"),
              ground (arith, p, q),
            )
          ]
        ]

  -- Where `Next` first says no and there is no error, the caller has closed the stream, or the next
  -- event of the body was the terminal one, with the status `success`: every other end, the end of
  -- the body before that event included, leaves an error.
  pub next-success :
      (s t : ActionStream E)
      → s.done ≡ false
      → next decode_end s ≡ (false, t)
      → t.err ≡ none
      → (s.closed ≡ true)
        ⊎ ((ev : SseEvent) × (more : List Bytes) × (env : EndEnvelope E) × (read_event {E = E}
                s.max_event_bytes empty_block s.body.lines s.body.rest
              ≡ ok (ev, more))
            × (ev.event ≡ stream_event_end)
            × (decode_end ev.payload ≡ some env)
            × (env.status ≡ "success")
            × (t.done ≡ true))
  next-success s t d h e = elim (Bool-cases s.closed) [
    | inl closed ↦ inl closed
    | inr opened ↦ inr (ended_cleanly s t d opened h e)
  ]
