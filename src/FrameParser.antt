-- ===== src/FrameParser.antt =====
-- `wsframe::FrameParser` (single_header/fastws.hpp): a parser that resumes where the bytes ran out.
-- `remaining()` does not wrap where `m_ptr <= size()`: `IsValid` of FrameParser/Abstract.antt.
pub mod Abstract
pub mod Valid
pub mod Updates
pub mod LengthField
pub mod RoundTrip
pub mod Total
pub mod Beyond
pub mod Stream
pub mod Chunks
pub mod Oversized
use fast_websocket_client.Base.{
  ℕ, zero, suc, ◌+◌, ◌-◌, ◌*◌, ◌^◌, bit_and, bit_or, Bool, true, false, not, ◌&&◌, ◌||◌, List, [],
  ◌∷◌, Option, none, some, ◌>>=◌, if◌then◌else◌, ltb, leb, ◌==◌, length, take, drop, get_or, splice,
  u64,
}
use fast_websocket_client.FrameBuffer
use fast_websocket_client.FrameBuffer.{FrameBuffer, push_back_view}
use fast_websocket_client.Frame.{Frame, empty_frame, opcode_of}

-- `int << k` for `k >= 32`, which C++ leaves undefined, is what the machine at hand makes of it: the
-- value of `byte << k` after its conversion to `std::uint64_t`.
pub record Machine : Type 0 where
  pub wide_shift : ℕ → ℕ → ℕ

pub data ParseStage : Type 0 where
  fin_bit opcode mask_bit payload_len extended_payload_len_16 : ParseStage
  extended_payload_len_64 masking_key payload_data done : ParseStage

abbrev pub stage_index : ParseStage → ℕ
stage_index fin_bit = 0
stage_index opcode = 1
stage_index mask_bit = 2
stage_index payload_len = 3
stage_index extended_payload_len_16 = 4
stage_index extended_payload_len_64 = 5
stage_index masking_key = 6
stage_index payload_data = 7
stage_index done = 8

abbrev pub is_stage : ParseStage → ParseStage → Bool
is_stage s t = stage_index s == stage_index t

pub record FrameParser : Type 0 where
  pub stage : ParseStage
  pub frame : Frame
  pub frame_buffer : FrameBuffer
  pub payload_length : ℕ
  pub ptr : ℕ

-- `FrameParser()`. The frame that the code leaves uninitialised is the empty one here; each field
-- but the masking key, which an unmasked frame does not use, is set before it is read.
abbrev pub initial : FrameParser
initial = record {
  stage = fin_bit;
  frame = empty_frame;
  frame_buffer = FrameBuffer.initial 4096;
  payload_length = 0;
  ptr = 0;
}

abbrev pub remaining : FrameParser → ℕ
remaining p = FrameBuffer.size p.frame_buffer - p.ptr

-- `*(head() + m_ptr)`. A byte outside the vector, which the code leaves undefined, is 0.
abbrev pub read : FrameParser → ℕ
read p = get_or p.frame_buffer.buf p.ptr 0

-- What `consume()` leaves; the byte that it returns is `read`.
abbrev pub consumed : FrameParser → FrameParser
consumed p = record p { ptr = p.ptr + 1 }

-- `byte & 0x80` as a `bool`.
unfoldable pub top_bit : ℕ → Bool
top_bit byte = not (bit_and byte 0x80 == 0)

-- Waits at `s` for `n` bytes: the guard of each stage is the negation of this.
abbrev pub ready : FrameParser → ParseStage → ℕ → Bool
ready p s n = is_stage p.stage s && leb n (remaining p)

unfoldable pub check_fin_bit : FrameParser → FrameParser
check_fin_bit p =
    if ready p fin_bit 1
    then record p { frame = record p.frame { fin = top_bit (read p) }; stage = opcode }
    else p

unfoldable pub check_opcode : FrameParser → FrameParser
check_opcode p =
    if ready p opcode 1
    then record (consumed p) {
      frame = record p.frame { opcode = opcode_of (bit_and (read p) 0x0f) };
      stage = mask_bit;
    }
    else p

unfoldable pub check_mask_bit : FrameParser → FrameParser
check_mask_bit p =
    if ready p mask_bit 1
    then record p { frame = record p.frame { mask = top_bit (read p) }; stage = payload_len }
    else p

-- `m_frame.mask ? ParseStage::MASKING_KEY : ParseStage::PAYLOAD_DATA`
abbrev pub stage_after_length : Bool → ParseStage
stage_after_length mask = if mask then masking_key else payload_data

unfoldable pub check_payload_len : FrameParser → FrameParser
check_payload_len p =
    let len = bit_and (read p) 0x7f in
    if ready p payload_len 1
    then (if len == 126
        then record (consumed p) { stage = extended_payload_len_16 }
        else if len == 127
        then record (consumed p) { stage = extended_payload_len_64 }
        else record (consumed p) { payload_length = len; stage = stage_after_length p.frame.mask })
    else p

unfoldable pub check_extended_payload_len_16 : FrameParser → FrameParser
check_extended_payload_len_16 p =
    if ready p extended_payload_len_16 2
    then record (consumed (consumed p)) {
      payload_length = bit_or (read p * 2 ^ 8) (read (consumed p));
      stage = stage_after_length p.frame.mask;
    }
    else p

module _ ⦃m : Machine⦄ where
  -- `consume() << k` in `int`, converted to `std::uint64_t` by `|=`: at 24 bits the sign bit of the
  -- `int` is reached, and the conversion extends it.
  unfoldable pub shift_int : ℕ → ℕ → ℕ
  shift_int byte k =
      if ltb k 24
      then byte * 2 ^ k
      else if k == 24
      then (if ltb byte 128 then byte * 2 ^ 24 else byte * 2 ^ 24 + (2 ^ 64 - 2 ^ 32))
      else m.wide_shift byte k

  -- The loop of `check_extended_payload_len_64`, with `i` rounds left.
  unfoldable pub consume_length : ℕ → FrameParser → FrameParser
  consume_length zero p = p
  consume_length (suc i) p = consume_length i (record (consumed p) {
    payload_length = bit_or p.payload_length (shift_int (read p) (8 * i));
  })

  unfoldable pub check_extended_payload_len_64 : FrameParser → FrameParser
  check_extended_payload_len_64 p =
      if ready p extended_payload_len_64 8
      then record (consume_length 8 (record p { payload_length = 0 })) {
        stage = stage_after_length p.frame.mask;
      }
      else p

unfoldable pub check_masking_key : FrameParser → FrameParser
check_masking_key p =
    let p1 = consumed p in
    let p2 = consumed p1 in
    let p3 = consumed p2 in
    if ready p masking_key 4
    then record (consumed p3) {
      frame = record p.frame {
        masking_key = record { k0 = read p; k1 = read p1; k2 = read p2; k3 = read p3 };
      };
      stage = payload_data;
    }
    else p

unfoldable pub check_payload_data : FrameParser → FrameParser
check_payload_data p =
    if ready p payload_data p.payload_length
    then (if p.payload_length == 0 then record p { stage = done } else record p {
      frame = record p.frame { payload = take p.payload_length (drop p.ptr p.frame_buffer.buf) };
      ptr = p.ptr + p.payload_length;
      stage = done;
    })
    else p

abbrev pub is_done : FrameParser → Bool
is_done p = is_stage p.stage done

module _ ⦃m : Machine⦄ where
  -- The state that `parse()` leaves; what it returns is `result` of that state.
  unfoldable pub parse : FrameParser → FrameParser
  parse p = check_payload_data (
      check_masking_key (
        check_extended_payload_len_64 (
          check_extended_payload_len_16
            (check_payload_len (check_mask_bit (check_opcode (check_fin_bit p)))))))

-- What `parse()` returns in the state that it leaves.
abbrev pub result : FrameParser → Option Frame
result p = if is_done p then some p.frame else none

-- `reset()`: what was not read moves to the front of the buffer.
unfoldable pub reset : FrameParser → FrameParser
reset p =
    let kept = take (remaining p) (drop p.ptr p.frame_buffer.buf) in
    let moved = record p.frame_buffer { buf = splice p.frame_buffer.buf 0 kept } in
    record {
      stage = fin_bit;
      frame = empty_frame;
      frame_buffer =
          if ltb 0 (remaining p)
          then FrameBuffer.claim_space (FrameBuffer.reset moved) (remaining p)
          else FrameBuffer.reset p.frame_buffer;
      payload_length = 0;
      ptr = 0;
    }

unfoldable pub clear : FrameParser → FrameParser
clear p = record {
  stage = fin_bit;
  frame = empty_frame;
  frame_buffer = FrameBuffer.reset p.frame_buffer;
  payload_length = 0;
  ptr = 0;
}

-- The first test of each `update`.
abbrev pub reset_if_done : FrameParser → FrameParser
reset_if_done p = if is_done p then reset p else p

module _ ⦃m : Machine⦄ where
  -- The last two lines of each `update`.
  unfoldable pub parse_remaining : FrameParser → FrameParser × Option Frame
  parse_remaining p = if remaining p == 0 then (p, none) else (parse p, result (parse p))

  -- `update` of a `View` and of a `std::string_view`, which differ in the type of the view alone.
  unfoldable pub update_view : FrameParser → List ℕ → Option (FrameParser × Option Frame)
  unfolding parse_remaining
  update_view p view =
      let q = reset_if_done p in
      if not (length view == 0)
      then (push_back_view q.frame_buffer view >>= λ b.
          some (parse_remaining (record q { frame_buffer = b })))
      else if not (is_stage q.stage fin_bit)
      then some (q, none)
      else some (parse_remaining q)

  -- `update(bool new_data)`, after the socket stored bytes in `frame_buffer()`.
  unfoldable pub update : FrameParser → Bool → FrameParser × Option Frame
  unfolding parse_remaining
  update p new_data =
      let q = reset_if_done p in
      if not new_data && not (is_stage q.stage fin_bit) then (q, none) else parse_remaining q
