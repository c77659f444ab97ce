-- ===== src/Platform/Stream/Delivery.antt =====
-- What a caller of the reader gets from a stream that a server wrote.
use declarion_sdk_go.Common.{
  ℕ, zero, suc, ◌+◌, ◌≤◌, ◌<◌, ◌≡◌, List, [], ◌∷◌, ◌++◌, Bool, true, false, All, length, refl,
  arith, ap, ◌∙◌, Option, some,
}
use declarion_sdk_go.Common.Text.{Bytes}
use declarion_sdk_go.Common.Result.{ok}
use declarion_sdk_go.Platform.Stream.Utf8.{is_utf8, has_byte, bytes_eq}
use declarion_sdk_go.Platform.Stream.Written.{
  data_lines, tail, written, event_line, control_lines, heartbeat_lines, NoCr, read_event-frame,
  read_event-control, read_event-heartbeat,
}
use declarion_sdk_go.Platform.Stream.{
  SseEvent, Body, End, empty_block, read_event, EndEnvelope, ActionStream, new_action_stream,
  new_action_stream_started, read_start, next, handle_event, finish_terminal, end_error, receive,
  at_lines, finish, stream_event_start, stream_event_end,
}

-- What a server writes between the start and the end: heartbeats, and frames, each given by the
-- pieces of its payload between LFs.
pub data Item : Type 0 where
  heartbeat : (comment : Bytes) → Item
  frame : (piece : Bytes) → (pieces : List Bytes) → Item

unfoldable pub stream_lines : List Item → (last : Bytes) → List Bytes
stream_lines [] last = control_lines stream_event_end last []
stream_lines (heartbeat c ∷ items) last = heartbeat_lines c (stream_lines items last)
stream_lines (frame p ps ∷ items) last = data_lines (p ∷ ps) (stream_lines items last)

unfoldable pub payloads : List Item → List Bytes
payloads [] = []
payloads (heartbeat c ∷ items) = payloads items
payloads (frame p ps ∷ items) = (p ++ tail ps) ∷ payloads items

unfoldable pub total_bytes : List Bytes → ℕ
total_bytes [] = 0
total_bytes (p ∷ ps) = length p + total_bytes ps

-- No CR, payloads in UTF-8, and each event within the bound.
unfoldable pub IsWritable : ℕ → Item → Type 0
IsWritable max_event_bytes (heartbeat c) = NoCr c × (length c + 3 ≤ max_event_bytes)
IsWritable max_event_bytes (frame p ps) =
    All NoCr (p ∷ ps) × (written (p ∷ ps) ≤ max_event_bytes) × (is_utf8 (p ++ tail ps) ≡ true)

abbrev pub IsControl : ℕ → (name p : Bytes) → Type 0
IsControl max_event_bytes name p =
    NoCr p
    × (length (event_line name) + 1 + written (p ∷ []) ≤ max_event_bytes)
    × (is_utf8 p ≡ true)

module _ {E : Type 0} (decode_end : Bytes → Option (EndEnvelope E)) where
  -- calling `Next` until it says no, at most so many times: the frames, and the stream
  unfoldable pub drain : ℕ → ActionStream E → List Bytes × ActionStream E
  drain zero s = ([], s)
  drain (suc calls) s =
      let (more, s') = next decode_end s in
      elim more [
        | true ↦ let (frames, t) = drain calls s' in (s'.cur ∷ frames, t)
        | false ↦ ([], s')
      ]

  -- a stream between its start and its end
  abbrev IsOpen : ActionStream E → Type 0
  IsOpen s = (s.done ≡ false) × (s.closed ≡ false)

  next-event :
      (lines more : List Bytes) (ev : SseEvent) (s : ActionStream E)
      → IsOpen s
      → read_event {E = E} s.max_event_bytes empty_block lines s.body.rest ≡ ok (ev, more)
      → next decode_end (at_lines lines s) ≡ handle_event decode_end ev (at_lines more s)
  unfolding next
  next-event lines more ev s o h = ground arith

  next-heartbeat :
      (c : Bytes) (more : List Bytes) (s : ActionStream E)
      → IsOpen s
      → IsWritable s.max_event_bytes (heartbeat c)
      → next decode_end (at_lines (heartbeat_lines c more) s) ≡ next decode_end (at_lines more s)
  unfolding next IsWritable
  next-heartbeat c more s o w =
      rw (o.0, o.1, read_event-heartbeat {E = E} s.max_event_bytes s.body.rest c more w.0 w.1) refl

  next-frame :
      (p : Bytes) (ps : List Bytes) (more : List Bytes) (s : ActionStream E)
      → IsOpen s
      → IsWritable s.max_event_bytes (frame p ps)
      → next decode_end (at_lines (data_lines (p ∷ ps) more) s)
        ≡ (true, receive (p ++ tail ps) (at_lines more s))
  unfolding handle_event IsWritable
  next-frame p ps more s o (no_cr, le, utf8) =
      next-event (data_lines (p ∷ ps) more) more (record { event = []; payload = p ++ tail ps }) s o
        (read_event-frame s.max_event_bytes s.body.rest p ps more no_cr le utf8)

  next-end :
      (p : Bytes) (more : List Bytes) (env : EndEnvelope E) (s : ActionStream E)
      → IsOpen s
      → IsControl s.max_event_bytes stream_event_end p
      → decode_end p ≡ some env
      → next decode_end (at_lines (control_lines stream_event_end p more) s) ≡ (
        false,
        finish
            (end_error env)
            (record (at_lines more s) { delivered = (env.delivered_frames, env.delivered_bytes) }),
      )
  unfolding handle_event finish_terminal bytes_eq has_byte
  next-end p more env s o (no_cr, le, utf8) d =
      next-event (control_lines stream_event_end p more) more
        (record { event = stream_event_end; payload = p }) s o
        (read_event-control s.max_event_bytes s.body.rest stream_event_end p more refl no_cr le
          utf8)
      ∙ rw (d, finish_terminal) refl

  drain-false :
      (calls : ℕ) (s t : ActionStream E)
      → next decode_end s ≡ (false, t)
      → drain (suc calls) s ≡ ([], t)
  unfolding drain
  drain-false calls s t h = ground (arith, h)

  drain-true :
      (calls : ℕ) (s t : ActionStream E)
      → next decode_end s ≡ (true, t)
      → drain (suc calls) s ≡ (t.cur ∷ (drain calls t).0, (drain calls t).1)
  unfolding drain
  drain-true calls s t h = ground (arith, h)

  drain-same :
      (calls : ℕ) (s t : ActionStream E)
      → next decode_end s ≡ next decode_end t
      → drain (suc calls) s ≡ drain (suc calls) t
  unfolding drain
  drain-same calls s t h = ground (arith, h)

  -- what a drained stream holds behind a written end
  record IsDelivered (env : EndEnvelope E) (frames : List Bytes) (s t : ActionStream E)
      : Type 0 where
    pub ended : t.done ≡ true
    pub outcome : t.err ≡ end_error env
    pub counted : t.received.frames ≡ s.received.frames + length frames
    pub weighed : t.received.bytes ≡ s.received.bytes + total_bytes frames
    pub sent : t.delivered ≡ (env.delivered_frames, env.delivered_bytes)
    pub kept : t.meta ≡ s.meta

  drain_lines :
      (calls : ℕ) (items : List Item) (last : Bytes) (env : EndEnvelope E) (s : ActionStream E)
      → length items < calls
      → IsOpen s
      → All (IsWritable s.max_event_bytes) items
      → IsControl s.max_event_bytes stream_event_end last
      → decode_end last ≡ some env
      → ((drain calls (at_lines (stream_lines items last) s)).0 ≡ payloads items)
        × IsDelivered env (payloads items) s (drain calls (at_lines (stream_lines items last) s)).1
  unfolding stream_lines payloads total_bytes
  drain_lines zero items last env s lt o w c d = absurd (omega (arith, lt))
  drain_lines (suc calls) [] last env s lt o w c d =
      rw (drain-false calls _ _ (next-end last [] env s o c d)) (
        refl,
        record {
          ended = refl;
          outcome = refl;
          counted = omega arith;
          weighed = omega arith;
          sent = refl;
          kept = refl;
        },
      )
  drain_lines (suc calls) (heartbeat b ∷ items) last env s lt o w c d =
      rw (drain-same calls _ _ (next-heartbeat b (stream_lines items last) s o w.0))
        (drain_lines (suc calls) items last env s (omega (arith, lt)) o w.1 c d)
  drain_lines (suc calls) (frame p ps ∷ items) last env s lt o w c d =
      let (same, t) =
        drain_lines calls items last env (receive (p ++ tail ps) s) (omega (arith, lt)) o w.1 c d in
      rw (drain-true calls _ _ (next-frame p ps (stream_lines items last) s o w.0)) (
        ap (λ fs. (p ++ tail ps) ∷ fs) same,
        record {
          ended = t.ended;
          outcome = t.outcome;
          counted = omega (arith, t.counted);
          weighed = omega (arith, t.weighed);
          sent = t.sent;
          kept = t.kept;
        },
      )

  read_start-event :
      (is_json : Bytes → Bool) (meta : Bytes) (more : List Bytes) (s : ActionStream E)
      → read_event {E = E} s.max_event_bytes empty_block s.body.lines s.body.rest
        ≡ ok (record { event = stream_event_start; payload = meta }, more)
      → is_json meta ≡ true
      → read_start is_json s ≡ ok (record (at_lines more s) { meta = meta })
  unfolding read_start bytes_eq
  read_start-event is_json meta more s h json = rw (h, read_start) (rw json refl)

  -- A stream that a server wrote by the contract - the start with JSON metadata, heartbeats and
  -- frames, the end, each event within the bound, without CR and in UTF-8 - opens; draining it with
  -- more calls than there are items gives every frame in order, joined at its LFs; then the stream
  -- is done, with the outcome and the counts of the terminal event, and with its own counts the
  -- number and the bytes of these frames.
  pub drain-started :
      (is_json : Bytes → Bool) (max_event_bytes calls : ℕ) (meta : Bytes) (items : List Item)
      (last rest : Bytes) (ending : End) (env : EndEnvelope E)
      → IsControl max_event_bytes stream_event_start meta
      → is_json meta ≡ true
      → All (IsWritable max_event_bytes) items
      → IsControl max_event_bytes stream_event_end last
      → decode_end last ≡ some env
      → length items < calls
      → let body : Body = record {
        lines = control_lines stream_event_start meta (stream_lines items last);
        rest = rest;
        end = ending;
      } in
        (s : ActionStream E) × (new_action_stream_started is_json body max_event_bytes ≡ ok s)
        × (s.meta ≡ meta)
        × ((drain calls s).0 ≡ payloads items)
        × ((drain calls s).1.done ≡ true)
        × ((drain calls s).1.err ≡ end_error env)
        × ((drain calls s).1.received.frames ≡ length (payloads items))
        × ((drain calls s).1.received.bytes ≡ total_bytes (payloads items))
        × ((drain calls s).1.delivered ≡ (env.delivered_frames, env.delivered_bytes))
  unfolding new_action_stream_started has_byte
  drain-started is_json bound calls meta items last rest ending env (no_cr, le, utf8) json w c d
        lt =
      let body : Body = record {
        lines = control_lines stream_event_start meta (stream_lines items last);
        rest = rest;
        end = ending;
      } in
      let opened : ActionStream E = record (new_action_stream body bound) { meta = meta } in
      let (same, t) = drain_lines calls items last env opened lt (refl, refl) w c d in
      (
        at_lines (stream_lines items last) opened,
        read_start-event is_json meta (stream_lines items last) (new_action_stream body bound)
            (read_event-control {E = E} bound rest stream_event_start meta (stream_lines items last)
              refl no_cr le utf8)
            json,
        refl,
        same,
        t.ended,
        t.outcome,
        omega (arith, t.counted),
        omega (arith, t.weighed),
        t.sent,
      )
