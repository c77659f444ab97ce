-- ===== src/Platform/Stream/Written.antt =====
-- The lines of an event as a server writes them, and what `readEvent` makes of them.
use declarion_sdk_go.Common.{
  ℕ, ◌+◌, ◌≤◌, ◌≡◌, List, [], ◌∷◌, ◌++◌, true, false, All, length, refl, arith, ap, sym, ◌∙◌,
}
use declarion_sdk_go.Common.Text.{Bytes, codes}
use declarion_sdk_go.Common.Result.{ok}
use declarion_sdk_go.Platform.Stream.Utf8.{is_utf8, has_byte, strip_prefix, trim_space}
use declarion_sdk_go.Platform.Stream.{
  Block, empty_block, read_field, end_block, read_event, add_data,
}
use mathlib.Core.List.{append_assoc, append-nil}

-- `data: p`, and the lines of a payload behind its first one, in front of the lines that follow
abbrev pub data_line : Bytes → Bytes
data_line p = codes "data: " ++ p

unfoldable pub data_lines : List Bytes → (more : List Bytes) → List Bytes
data_lines [] more = [] ∷ more
data_lines (p ∷ ps) more = data_line p ∷ data_lines ps more

-- the pieces of a payload behind the first, each behind an LF
unfoldable pub tail : List Bytes → Bytes
tail [] = []
tail (p ∷ ps) = (10 ∷ p) ++ tail ps

-- the bytes of these lines, the empty one included
unfoldable pub written : List Bytes → ℕ
written [] = 1
written (p ∷ ps) = length (data_line p) + 1 + written ps

-- a control event with a payload of one line, and a heartbeat
abbrev pub event_line : Bytes → Bytes
event_line name = codes "event: " ++ name

abbrev pub control_lines : (name p : Bytes) → (more : List Bytes) → List Bytes
control_lines name p more = event_line name ∷ data_lines (p ∷ []) more

abbrev pub heartbeat_lines : Bytes → (more : List Bytes) → List Bytes
heartbeat_lines c more = (codes ":" ++ c) ∷ [] ∷ more

abbrev pub NoCr : Bytes → Type 0
NoCr p = has_byte 13 p ≡ false

module _ {E : Type 0} (max_event_bytes : ℕ) (rest : Bytes) where
  read_event-data_line :
      (p : Bytes) (blk : Block) (more : List Bytes)
      → NoCr p
      → blk.total + (length (data_line p) + 1) ≤ max_event_bytes
      → read_event {E = E} max_event_bytes blk (data_line p ∷ more) rest
        ≡ read_event max_event_bytes
            (add_data p (record blk { total = blk.total + (length (data_line p) + 1) }))
            more
            rest
  unfolding read_event read_field has_byte strip_prefix trim_space
  read_event-data_line p blk more no_cr le = ground arith

  -- the empty line that ends an event with data
  read_event-empty_line :
      (blk : Block) (more : List Bytes) {all : Bytes}
      → blk.have_data ≡ true
      → blk.total + 1 ≤ max_event_bytes
      → blk.payload ≡ all
      → is_utf8 all ≡ true
      → read_event {E = E} max_event_bytes blk ([] ∷ more) rest
        ≡ ok (record { event = blk.event; payload = all }, more)
  unfolding read_event end_block has_byte
  read_event-empty_line blk more h le same utf8 = ground arith

  read_event-data_lines :
      (ps : List Bytes) (blk : Block) (more : List Bytes) {all : Bytes}
      → blk.have_data ≡ true
      → All NoCr ps
      → blk.total + written ps ≤ max_event_bytes
      → blk.payload ++ tail ps ≡ all
      → is_utf8 all ≡ true
      → read_event {E = E} max_event_bytes blk (data_lines ps more) rest
        ≡ ok (record { event = blk.event; payload = all }, more)
  unfolding data_lines tail written
  read_event-data_lines [] blk more h no_cr le same utf8 =
      read_event-empty_line blk more h le (sym (append-nil blk.payload) ∙ same) utf8
  read_event-data_lines (p ∷ ps) blk more {all} h no_cr le same utf8 =
      let next_block = add_data p (record blk { total = blk.total + (length (data_line p) + 1) }) in
      let behind : next_block.payload ≡ blk.payload ++ (10 ∷ p) = ground arith in
      read_event-data_line p blk (data_lines ps more) no_cr.0 (omega arith)
      ∙ read_event-data_lines ps next_block more refl no_cr.1 (omega arith)
          (ap (λ b. b ++ tail ps) behind ∙ append_assoc blk.payload (10 ∷ p) (tail ps) ∙ same) utf8

  pub read_event-frame :
      (p : Bytes) (ps : List Bytes) (more : List Bytes)
      → All NoCr (p ∷ ps)
      → written (p ∷ ps) ≤ max_event_bytes
      → is_utf8 (p ++ tail ps) ≡ true
      → read_event {E = E} max_event_bytes empty_block (data_lines (p ∷ ps) more) rest
        ≡ ok (record { event = []; payload = p ++ tail ps }, more)
  unfolding data_lines written
  read_event-frame p ps more no_cr le utf8 =
      let next_block = add_data p (record empty_block { total = 0 + (length (data_line p) + 1) }) in
      read_event-data_line p empty_block (data_lines ps more) no_cr.0 (omega arith)
      ∙ read_event-data_lines ps next_block more refl no_cr.1 (omega arith) refl utf8

  read_event-event_line :
      (name : Bytes) (more : List Bytes)
      → NoCr name
      → length (event_line name) + 1 ≤ max_event_bytes
      → read_event {E = E} max_event_bytes empty_block (event_line name ∷ more) rest
        ≡ read_event max_event_bytes
            (record empty_block { event = name; total = length (event_line name) + 1 })
            more
            rest
  unfolding read_event read_field has_byte strip_prefix trim_space
  read_event-event_line name more no_cr le = ground arith

  pub read_event-control :
      (name p : Bytes) (more : List Bytes)
      → NoCr name
      → NoCr p
      → length (event_line name) + 1 + written (p ∷ []) ≤ max_event_bytes
      → is_utf8 p ≡ true
      → read_event {E = E} max_event_bytes empty_block (control_lines name p more) rest
        ≡ ok (record { event = name; payload = p }, more)
  unfolding data_lines written tail
  read_event-control name p more no_cr no_cr_p le utf8 =
      let named = record empty_block { event = name; total = length (event_line name) + 1 } in
      let filled =
        add_data p
          (record named { total = length (event_line name) + 1 + (length (data_line p) + 1) }) in
      read_event-event_line name (data_lines (p ∷ []) more) no_cr (omega arith)
      ∙ read_event-data_line p named (data_lines [] more) no_cr_p (omega arith)
      ∙ read_event-data_lines [] filled more refl tt (omega arith) (append-nil p) utf8

  pub read_event-heartbeat :
      (c : Bytes) (more : List Bytes)
      → NoCr c
      → length c + 3 ≤ max_event_bytes
      → read_event {E = E} max_event_bytes empty_block (heartbeat_lines c more) rest
        ≡ read_event max_event_bytes empty_block more rest
  unfolding read_event read_field end_block has_byte strip_prefix
  read_event-heartbeat c more no_cr le = ground arith
