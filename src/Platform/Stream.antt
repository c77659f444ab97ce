-- ===== src/Platform/Stream.antt =====
-- platform/actions_stream.go: the incremental reader of a streaming action's response. The bytes of
-- the body are given by the lines that end in LF, the unterminated rest, and how the body ends. The
-- decoders of the two JSON texts are parameters.
pub mod Utf8
pub mod Written
mod Tests
pub mod Reading
pub mod Delivery
use declarion_sdk_go.Common.{
  ℕ, ◌+◌, List, [], ◌∷◌, ◌++◌, Bool, true, false, not, ◌&&◌, ◌||◌, ltb, length, if◌then◌else◌,
  Option, none, some, String, string_Eq, ◌==◌,
}
use declarion_sdk_go.Common.Int.{ℤ, pos}
use declarion_sdk_go.Common.Text.{Bytes, codes}
use declarion_sdk_go.Common.Result.{Result, ok, err}
use declarion_sdk_go.Platform.Stream.Utf8.{is_utf8, has_byte, bytes_eq, strip_prefix, trim_space}

-- How the body ends: with `io.EOF`, or with another error of the reader.
pub data End : Type 0 where
  eof broken : End

-- The errors of the client, by type and cause.
pub data Unreadable : Type 0 where
  carriage_return unrecognized_line empty_event bad_utf8 : Unreadable
  second_start unknown_control malformed_terminal no_error_object unknown_status : Unreadable
  not_started bad_metadata : Unreadable

pub data StreamError (E : Type 0) : Type 0 where
  event_too_large interrupted : StreamError E
  unreadable : Unreadable → StreamError E
  answered : E → StreamError E

-- the body that is still to be read
pub record Body : Type 0 where
  pub lines : List Bytes
  pub rest : Bytes
  pub end : End

pub record SseEvent : Type 0 where
  pub event : Bytes
  pub payload : Bytes

-- the locals of `readEvent` for one block of lines
pub record Block : Type 0 where
  pub event : Bytes
  pub payload : Bytes
  pub have_data : Bool
  pub comment : Bool
  pub total : ℕ

abbrev pub empty_block : Block
empty_block = record { event = []; payload = []; have_data = false; comment = false; total = 0 }

abbrev pub event_prefix : Bytes
event_prefix = codes "event:"

abbrev pub data_prefix : Bytes
data_prefix = codes "data:"

abbrev pub comment_prefix : Bytes
comment_prefix = codes ":"

abbrev pub stream_event_start : Bytes
stream_event_start = codes "declarion.stream.start"

abbrev pub stream_event_end : Bytes
stream_event_end = codes "declarion.stream.end"

abbrev pub is_empty : Bytes → Bool
is_empty [] = true
is_empty (_ ∷ _) = false

-- one more `data:` line: behind an LF if there is data already
abbrev pub add_data : Bytes → Block → Block
add_data v blk = record blk {
  payload = if blk.have_data then blk.payload ++ (10 ∷ v) else blk.payload ++ v;
  have_data = true;
}

-- the switch over a line's prefix; `none` is a line that it does not know
unfoldable pub read_field : Bytes → Block → Option Block
read_field line blk = elim (strip_prefix comment_prefix line) [
  | some _ ↦ some (record blk { comment = true })
  | none ↦ elim (strip_prefix event_prefix line) [
    | some v ↦ some (record blk { event = trim_space v })
    | none ↦ elim (strip_prefix data_prefix line) [
      | some v ↦ some (add_data (trim_space v) blk)
      | none ↦ none
    ]
  ]
]

module _ {E : Type 0} where
  -- what a block comes to at its empty line: `none` is a heartbeat
  unfoldable pub end_block : Block → Result (StreamError E) (Option SseEvent)
  end_block blk =
      if not blk.have_data && is_empty blk.event
      then (if blk.comment then ok none else err (unreadable empty_event))
      else if blk.have_data && not (is_utf8 blk.payload)
      then err (unreadable bad_utf8)
      else ok (some (record { event = blk.event; payload = blk.payload }))

  -- `readEvent` from within a block, a heartbeat starting the next one. The running total is
  -- compared with the bound at the end of each line, where it is greatest.
  unfoldable pub read_event :
      (max_event_bytes : ℕ)
      → Block
      → List Bytes
      → (rest : Bytes) → Result (StreamError E) (SseEvent × List Bytes)
  read_event max_event_bytes blk [] rest =
      if ltb max_event_bytes (blk.total + length rest) then err event_too_large else err interrupted
  read_event max_event_bytes blk (line ∷ lines) rest =
      let counted = record blk { total = blk.total + (length line + 1) } in
      if ltb max_event_bytes counted.total
      then err event_too_large
      else if has_byte 13 line
      then err (unreadable carriage_return)
      else if is_empty line
      then elim (end_block blk) [
        | err e ↦ err e
        | ok (some ev) ↦ ok (ev, lines)
        | ok none ↦ read_event max_event_bytes empty_block lines rest
      ]
      else elim (read_field line counted) [
        | none ↦ err (unreadable unrecognized_line)
        | some blk' ↦ read_event max_event_bytes blk' lines rest
      ]

-- `Delivered`. Both count what one reader took: they do not come near the bound of an `int64`.
pub record Delivered : Type 0 where
  pub frames : ℕ
  pub bytes : ℕ

-- `streamEndEnvelope`
pub record EndEnvelope (E : Type 0) : Type 0 where
  pub status : String
  pub error : Option E
  pub delivered_frames : ℤ
  pub delivered_bytes : ℤ

-- `ActionStream`, with what is left of its body
pub record ActionStream (E : Type 0) : Type 0 where
  pub body : Body
  pub max_event_bytes : ℕ
  pub meta : Bytes
  pub cur : Bytes
  pub received : Delivered
  pub err : Option (StreamError E)
  pub done : Bool
  pub delivered : ℤ × ℤ
  pub closed : Bool

-- `newActionStream`
abbrev pub new_action_stream : {E : Type 0} → Body → ℕ → ActionStream E
new_action_stream body max_event_bytes = record {
  body = body;
  max_event_bytes = max_event_bytes;
  meta = [];
  cur = [];
  received = record { frames = 0; bytes = 0 };
  err = none;
  done = false;
  delivered = (pos 0, pos 0);
  closed = false;
}

module _ {E : Type 0} where
  -- `finish`
  abbrev pub finish : Option (StreamError E) → ActionStream E → ActionStream E
  finish e s = record s { err = e; done = true }

  -- `Close`, of which the state keeps the flag
  unfoldable pub close : ActionStream E → ActionStream E
  close s = record s { closed = true }

  abbrev pub at_lines : List Bytes → ActionStream E → ActionStream E
  at_lines lines s = record s { body = record (s.body) { lines = lines } }

  -- one more frame
  abbrev pub receive : Bytes → ActionStream E → ActionStream E
  receive frame s = record s {
    cur = frame;
    received = record { frames = s.received.frames + 1; bytes = s.received.bytes + length frame };
  }

-- the `switch env.Status` of `finishTerminal`
unfoldable pub end_error : {E : Type 0} → EndEnvelope E → Option (StreamError E)
end_error env =
    if env.status == "success"
    then none
    else if env.status == "error"
    then elim env.error [ none ↦ some (unreadable no_error_object) | some e ↦ some (answered e) ]
    else some (unreadable unknown_status)

module _ {E : Type 0} (decode_end : Bytes → Option (EndEnvelope E)) where
  -- `finishTerminal`
  unfoldable pub finish_terminal : Bytes → ActionStream E → ActionStream E
  finish_terminal payload s = elim (decode_end payload) [
    | none ↦ finish (some (unreadable malformed_terminal)) s
    | some env ↦
        finish (end_error env)
          (record s { delivered = (env.delivered_frames, env.delivered_bytes) })
  ]

  -- the switch over the event in `Next`
  unfoldable pub handle_event : SseEvent → ActionStream E → Bool × ActionStream E
  handle_event ev s =
      if is_empty ev.event
      then (true, receive ev.payload s)
      else if bytes_eq ev.event stream_event_end
      then (false, finish_terminal ev.payload s)
      else if bytes_eq ev.event stream_event_start
      then (false, finish (some (unreadable second_start)) s)
      else (false, finish (some (unreadable unknown_control)) s)

  -- `Next`
  unfoldable pub next : ActionStream E → Bool × ActionStream E
  next s =
      if s.done || s.closed
      then (false, s)
      else elim (read_event s.max_event_bytes empty_block s.body.lines s.body.rest) [
        | err e ↦ (false, finish (some e) (at_lines [] s))
        | ok (ev, lines) ↦ handle_event ev (at_lines lines s)
      ]

module _ {E : Type 0} (is_json : Bytes → Bool) where
  -- `readStart`
  unfoldable pub read_start : ActionStream E → Result (StreamError E) (ActionStream E)
  read_start s = elim (read_event s.max_event_bytes empty_block s.body.lines s.body.rest) [
    | err e ↦ err e
    | ok (ev, lines) ↦
        if not (bytes_eq ev.event stream_event_start)
        then err (unreadable not_started)
        else if not (is_json ev.payload)
        then err (unreadable bad_metadata)
        else ok (record (at_lines lines s) { meta = ev.payload })
  ]

  -- `NewActionStreamStarted`
  unfoldable pub new_action_stream_started : Body → ℕ → Result (StreamError E) (ActionStream E)
  new_action_stream_started body max_event_bytes =
      read_start (new_action_stream body max_event_bytes)
