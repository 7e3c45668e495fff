-- ===== src/FrameParser/Abstract.antt =====
-- What a parser knows, without the buffer: the stage, the frame so far, and the bytes not yet read.
-- `decode` and the functions below it are the parser as one pass over those bytes.
pub mod Shape
pub mod Window
pub mod Refine
pub mod Resume
use fast_websocket_client.Base.{
  ℕ, zero, suc, ◌+◌, ◌-◌, ◌*◌, ◌≤◌, bit_and, bit_or, Bool, List, [], ◌∷◌, ◌++◌, if◌then◌else◌, ltb,
  ◌==◌, length, take, drop, get_or,
}
use fast_websocket_client.FrameBuffer.{FrameBuffer, view, capacity, size}
use fast_websocket_client.Frame.{Frame, MaskingKey, empty_frame, opcode_of}
use fast_websocket_client.FrameParser.{
  Machine, ParseStage, fin_bit, opcode, mask_bit, payload_len, extended_payload_len_16,
  extended_payload_len_64, masking_key, payload_data, done, FrameParser, top_bit, shift_int,
}

pub record Reading : Type 0 where
  pub stage : ParseStage
  pub frame : Frame
  pub payload_length : ℕ
  pub pending : List ℕ

-- The bytes that the parser holds and has not consumed.
abbrev pub pending_of : FrameParser → List ℕ
pending_of p = drop p.ptr (view p.frame_buffer)

abbrev pub reading : FrameParser → Reading
reading p = record {
  stage = p.stage;
  frame = p.frame;
  payload_length = p.payload_length;
  pending = pending_of p;
}

-- The read position stands within the bytes written, and these within the vector.
pub record IsValid (p : FrameParser) : Type 0 where
  pub read_within : p.ptr ≤ size p.frame_buffer
  pub write_within : size p.frame_buffer ≤ capacity p.frame_buffer

abbrev pub at : ParseStage → Frame → ℕ → List ℕ → Reading
at s f n xs = record { stage = s; frame = f; payload_length = n; pending = xs }

-- From `payload_data` on, with the length `n` known.
unfoldable pub data_from : Frame → ℕ → List ℕ → Reading
data_from f n xs =
    if ltb (length xs) n
    then at payload_data f n xs
    else if n == 0
    then at done f n xs
    else at done (record f { payload = take n xs }) n (drop n xs)

unfoldable pub key_from : Frame → ℕ → List ℕ → Reading
unfolding data_from
key_from f n (a ∷ b ∷ c ∷ d ∷ xs) =
    data_from (record f { masking_key = record { k0 = a; k1 = b; k2 = c; k3 = d } }) n xs
key_from f n xs = at masking_key f n xs

abbrev pub body_from : Frame → ℕ → List ℕ → Reading
body_from f n xs = if f.mask then key_from f n xs else data_from f n xs

unfoldable pub length_16_from : Frame → ℕ → List ℕ → Reading
unfolding key_from
length_16_from f n (a ∷ b ∷ xs) = body_from f (bit_or (a * 256) b) xs
length_16_from f n xs = at extended_payload_len_16 f n xs

module _ ⦃m : Machine⦄ where
  -- The length that the next `i` bytes give, over what has been gathered.
  abbrev pub gather : ℕ → ℕ → List ℕ → ℕ
  gather zero acc xs = acc
  gather (suc i) acc xs = gather i (bit_or acc (shift_int (get_or xs 0 0) (8 * i))) (drop 1 xs)

  unfoldable pub length_64_from : Frame → ℕ → List ℕ → Reading
  unfolding key_from
  length_64_from f n xs =
      if ltb (length xs) 8
      then at extended_payload_len_64 f n xs
      else body_from f (gather 8 0 xs) (drop 8 xs)

  unfoldable pub length_from : Frame → ℕ → List ℕ → Reading
  unfolding length_16_from length_64_from
  length_from f n [] = at payload_len f n []
  length_from f n (x ∷ xs) =
      let len = bit_and x 0x7f in
      if len == 126
      then length_16_from f n xs
      else if len == 127
      then length_64_from f n xs
      else body_from f len xs

  unfoldable pub mask_from : Frame → ℕ → List ℕ → Reading
  unfolding length_from
  mask_from f n [] = at mask_bit f n []
  mask_from f n (x ∷ xs) = length_from (record f { mask = top_bit x }) n (x ∷ xs)

  unfoldable pub opcode_from : Frame → ℕ → List ℕ → Reading
  unfolding mask_from
  opcode_from f n [] = at opcode f n []
  opcode_from f n (x ∷ xs) = mask_from (record f { opcode = opcode_of (bit_and x 0x0f) }) n xs

  unfoldable pub fin_from : Frame → ℕ → List ℕ → Reading
  unfolding opcode_from
  fin_from f n [] = at fin_bit f n []
  fin_from f n (x ∷ xs) = opcode_from (record f { fin = top_bit x }) n (x ∷ xs)

  -- Goes on from a stage.
  unfoldable pub run_from : ParseStage → Frame → ℕ → List ℕ → Reading
  unfolding fin_from
  run_from fin_bit f n xs = fin_from f n xs
  run_from opcode f n xs = opcode_from f n xs
  run_from mask_bit f n xs = mask_from f n xs
  run_from payload_len f n xs = length_from f n xs
  run_from extended_payload_len_16 f n xs = length_16_from f n xs
  run_from extended_payload_len_64 f n xs = length_64_from f n xs
  run_from masking_key f n xs = key_from f n xs
  run_from payload_data f n xs = data_from f n xs
  run_from done f n xs = at done f n xs

  abbrev pub run : Reading → Reading
  run r = run_from r.stage r.frame r.payload_length r.pending

  -- A fresh parser on a list of bytes.
  abbrev pub decode : List ℕ → Reading
  decode xs = fin_from empty_frame 0 xs
