-- ===== src/Platform/Stream/Tests.antt =====
-- Streams read to their end, and the theorems at them.
use declarion_sdk_go.Common.{
  ◌⊎◌, ◌≡◌, ◌≢◌, ◌≤◌, ◌+◌, refl, List, [], ◌∷◌, true, false, Bool, Option, none, some,
  if◌then◌else◌, String, arith,
}
use declarion_sdk_go.Common.Int.{pos}
use declarion_sdk_go.Common.Text.{Bytes, codes}
use declarion_sdk_go.Common.Result.{ok}
use declarion_sdk_go.Platform.Stream.Utf8.{
  is_utf8, has_byte, bytes_eq, strip_prefix, trim_space, valid_from,
}
use declarion_sdk_go.Platform.Stream.Written.{data_lines, tail, written, control_lines}
use declarion_sdk_go.Platform.Stream.Reading.{next-next, next-true, next-success}
use declarion_sdk_go.Platform.Stream.Delivery.{
  Item, heartbeat, frame, stream_lines, payloads, total_bytes, IsWritable, drain, drain-started,
}
use declarion_sdk_go.Platform.Stream.{
  eof, EndEnvelope, ActionStream, interrupted, event_too_large, read_event, read_field, end_block,
  SseEvent, next, handle_event, finish_terminal, end_error, at_lines, receive, finish,
  new_action_stream, new_action_stream_started, stream_event_start, stream_event_end, unreadable,
  carriage_return,
}

abbrev success : EndEnvelope String
success = record {
  status = "success";
  error = none;
  delivered_frames = pos 2;
  delivered_bytes = pos 8;
}

abbrev terminal : Bytes
terminal = codes "{\"status\":\"success\"}"

abbrev decode_end : Bytes → Option (EndEnvelope String)
decode_end bs = if bytes_eq bs terminal then some success else none

abbrev is_json : Bytes → Bool
is_json bs = bytes_eq bs (codes "{}")

abbrev items : List Item
items =
    frame (codes "one") (codes "two" ∷ [])
    ∷ heartbeat (codes " alive")
    ∷ frame (195 ∷ 169 ∷ []) []
    ∷ []

abbrev open_stream : List Bytes → ActionStream String
open_stream lines = new_action_stream (record { lines = lines; rest = []; end = eof }) 100

drain-started_example :
    (s : ActionStream String) × (new_action_stream_started is_json
        (record {
          lines = control_lines stream_event_start (codes "{}") (stream_lines items terminal);
          rest = [];
          end = eof;
        })
        100
      ≡ ok s)
    × (s.meta ≡ codes "{}")
    × ((drain decode_end 4 s).0 ≡ payloads items)
    × ((drain decode_end 4 s).1.done ≡ true)
    × ((drain decode_end 4 s).1.err ≡ none)
    × ((drain decode_end 4 s).1.received.frames ≡ 2)
    × ((drain decode_end 4 s).1.received.bytes ≡ total_bytes (payloads items))
    × ((drain decode_end 4 s).1.delivered ≡ (pos 2, pos 8))
unfolding end_error written tail IsWritable payloads is_utf8 valid_from has_byte bytes_eq data_lines
drain-started_example =
    drain-started decode_end is_json 100 4 (codes "{}") items terminal [] eof success
      (refl, omega arith, refl) refl
      (
        ((refl, (refl, tt)), omega arith, refl),
        ((refl, omega arith), (((refl, tt), omega arith, refl), tt)),
      )
      (refl, omega arith, refl) refl (omega arith)

-- a stream that breaks off inside an event
abbrev cut : ActionStream String
cut = open_stream (codes "data: half" ∷ [])

abbrev cut_end : ActionStream String
cut_end = finish (some interrupted) (at_lines [] cut)

next-next_example : next decode_end cut_end ≡ (false, cut_end)
unfolding next read_event read_field strip_prefix trim_space has_byte
next-next_example = next-next decode_end cut cut_end refl

abbrev one_frame : ActionStream String
one_frame = open_stream (codes "data: x" ∷ [] ∷ codes "data: y" ∷ [])

abbrev behind_one : ActionStream String
behind_one = receive (codes "x") (at_lines (codes "data: y" ∷ []) one_frame)

next-true_example :
    (1 ≤ 100)
    × (codes "x" ≢ [] → is_utf8 (codes "x") ≡ true)
    × (1 ≡ 0 + 1)
    × (1 ≡ 0 + 1)
    × (behind_one.err ≡ none)
    × (behind_one.done ≡ false)
    × (behind_one.delivered ≡ (pos 0, pos 0))
unfolding next read_event read_field strip_prefix trim_space has_byte end_block is_utf8 valid_from
    handle_event
next-true_example = next-true decode_end one_frame behind_one refl

abbrev ending : ActionStream String
ending =
    open_stream
      (codes "event: declarion.stream.end" ∷ codes "data: {\"status\":\"success\"}" ∷ [] ∷ [])

abbrev ended : ActionStream String
ended = finish none (record (at_lines [] ending) { delivered = (pos 2, pos 8) })

next-success_example :
    (ending.closed ≡ true)
    ⊎ ((ev : SseEvent) × (more : List Bytes) × (env : EndEnvelope String) × (read_event {E = String}
            100
            (record { event = []; payload = []; have_data = false; comment = false; total = 0 })
            ending.body.lines
            []
          ≡ ok (ev, more))
        × (ev.event ≡ stream_event_end)
        × (decode_end ev.payload ≡ some env)
        × (env.status ≡ "success")
        × (ended.done ≡ true))
unfolding next read_event read_field strip_prefix trim_space has_byte end_block is_utf8 valid_from
    handle_event finish_terminal end_error bytes_eq
next-success_example = next-success decode_end ending ended refl refl refl

-- the bound counts the bytes of all lines, and a CR is refused
too_large :
    (next decode_end (
      new_action_stream
        (record { lines = codes "data: abc" ∷ [] ∷ []; rest = []; end = eof })
        9)).1.err
    ≡ some event_too_large
unfolding next read_event read_field strip_prefix trim_space has_byte
too_large = refl

with_cr :
    (next decode_end (open_stream ((100 ∷ 13 ∷ []) ∷ [] ∷ []))).1.err
    ≡ some (unreadable carriage_return)
unfolding next read_event read_field strip_prefix trim_space has_byte
with_cr = refl
