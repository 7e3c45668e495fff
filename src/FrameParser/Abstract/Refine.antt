-- ===== src/FrameParser/Abstract/Refine.antt =====
-- The parser on its buffer (single_header/fastws.hpp) against the pass over the bytes not yet read.
use fast_websocket_client.Base.{
  ℕ, zero, suc, ◌+◌, ◌-◌, ◌*◌, ◌≤◌, bit_and, bit_or, ◌≡◌, refl, ap, ◌∙◌, inl, inr, Bool, true,
  false, arith, if◌then◌else◌, ltb, leb, ◌==◌, Bool-cases, length, drop,
}
use fast_websocket_client.FrameBuffer.{FrameBuffer, capacity}
use fast_websocket_client.Frame.{Frame, opcode_of}
use fast_websocket_client.FrameParser.{
  Machine, ParseStage, fin_bit, opcode, mask_bit, payload_len, extended_payload_len_16,
  extended_payload_len_64, masking_key, payload_data, done, FrameParser, top_bit, shift_int,
  check_fin_bit, check_opcode, check_mask_bit, check_payload_len, check_extended_payload_len_16,
  check_extended_payload_len_64, consume_length, check_masking_key, check_payload_data, parse,
}
use fast_websocket_client.FrameParser.Abstract.Shape.{
  head, fin_from_more, opcode_from_more, mask_from_more, length_from_more, length_16_from_more,
  length_16_from_wait, fin_from_wait, opcode_from_wait, mask_from_wait, length_from_wait,
}
use fast_websocket_client.FrameParser.Abstract.{
  reading, IsValid, data_from, key_from, body_from, length_16_from, gather, length_64_from,
  length_from, mask_from, opcode_from, fin_from, run_from, run,
}
use fast_websocket_client.FrameParser.Abstract.Window.{
  state, rest, after_key, length-rest, head-rest_at, rest_at, head-rest, data-refines, key-refines,
  choice-refines,
}

module _ ⦃m : Machine⦄ where
  abbrev after_64 : FrameParser → FrameParser
  after_64 p = after_key (check_extended_payload_len_64 p)

  abbrev after_16 : FrameParser → FrameParser
  after_16 p = after_64 (check_extended_payload_len_16 p)

  abbrev after_length : FrameParser → FrameParser
  after_length p = after_16 (check_payload_len p)

  abbrev after_mask : FrameParser → FrameParser
  after_mask p = after_length (check_mask_bit p)

  abbrev after_opcode : FrameParser → FrameParser
  after_opcode p = after_mask (check_opcode p)

module _ (b : FrameBuffer) (fits : b.ptr ≤ capacity b) where
  module _ ⦃m : Machine⦄ where
    consume_length-gather :
        (k : ℕ) (s : ParseStage) (f : Frame) (acc i : ℕ)
        → i + k ≤ b.ptr
        → consume_length k (state s f b acc i) ≡ state s f b (gather k acc (rest b i)) (i + k)
    unfolding consume_length
    consume_length-gather zero s f acc i h = ap (λ j. state s f b acc j) (omega arith)
    consume_length-gather (suc k) s f acc i h =
        let acc' = bit_or acc (shift_int (head (rest b i)) (8 * k)) in
        rw (head-rest b fits i (omega arith)) (
          consume_length-gather k s f acc' (i + 1) (omega arith)
          ∙ rw (rest_at b fits i (i + 1) 1 refl)
              (ap (λ j. state s f b (gather k acc' (drop 1 (rest b i))) j) (omega arith)))

    choice_64-refines :
        (mask : Bool) (f : Frame) (n i : ℕ)
        → reading (after_64 (state (if mask then masking_key else payload_data) f b n i))
          ≡ (if mask then key_from f n (rest b i) else data_from f n (rest b i))
    unfolding check_extended_payload_len_64
    choice_64-refines true f n i = choice-refines b fits true f n i
    choice_64-refines false f n i = choice-refines b fits false f n i

    choice_16-refines :
        (mask : Bool) (f : Frame) (n i : ℕ)
        → reading (after_16 (state (if mask then masking_key else payload_data) f b n i))
          ≡ (if mask then key_from f n (rest b i) else data_from f n (rest b i))
    unfolding check_extended_payload_len_16
    choice_16-refines true f n i = choice_64-refines true f n i
    choice_16-refines false f n i = choice_64-refines false f n i

    length_64-refines :
        (f : Frame) (n i : ℕ)
        → reading (after_64 (state extended_payload_len_64 f b n i)) ≡ length_64_from f n (rest b i)
    unfolding check_extended_payload_len_64 length_64_from
    length_64-refines f n i = elim (Bool-cases (leb 8 (b.ptr - i))) [
      | inl enough ↦
          let there : ltb (length (rest b i)) 8 ≡ false = ground (arith, length-rest b fits i) in
          rw
            (
              enough,
              there,
              consume_length-gather 8 extended_payload_len_64 f 0 i (ground arith),
              ← rest_at b fits i (i + 8) 8 refl,
            )
            (choice-refines b fits f.mask f (gather 8 0 (rest b i)) (i + 8))
      | inr short ↦
          let there : ltb (length (rest b i)) 8 ≡ true = ground (arith, length-rest b fits i) in
          rw (short, there) (unfold check_masking_key check_payload_data in refl)
    ]

    length_16-refines :
        (f : Frame) (n i : ℕ)
        → reading (after_16 (state extended_payload_len_16 f b n i)) ≡ length_16_from f n (rest b i)
    unfolding check_extended_payload_len_16
    length_16-refines f n i = elim (Bool-cases (leb 2 (b.ptr - i))) [
      | inl enough ↦
          rw
            (
              enough,
              length_16_from_more f n (rest b i) (ground (arith, length-rest b fits i)),
              head-rest_at b fits i i 0 (omega arith) (ground arith),
              head-rest_at b fits i (i + 1) 1 (omega arith) (ground arith),
              ← rest_at b fits i (i + 1 + 1) 2 (omega arith),
            )
            (choice_64-refines f.mask f _ (i + 1 + 1))
      | inr short ↦
          rw (short, length_16_from_wait f n (rest b i) (ground (arith, length-rest b fits i)))
            (unfold check_extended_payload_len_64 check_masking_key check_payload_data in refl)
    ]

    -- The three cases of the seven-bit length.
    split_length :
        (f : Frame) (n i len : ℕ)
        → reading (
            after_16 (
              if len == 126
              then state extended_payload_len_16 f b n i
              else if len == 127
              then state extended_payload_len_64 f b n i
              else state (if f.mask then masking_key else payload_data) f b len i))
          ≡ (if len == 126
              then length_16_from f n (rest b i)
              else if len == 127
              then length_64_from f n (rest b i)
              else body_from f len (rest b i))
    split_length f n i len = elim (Bool-cases (len == 126)) [
      | inl short ↦ rw short (length_16-refines f n i)
      | inr other ↦ elim (Bool-cases (len == 127)) [
        | inl long ↦
            rw (other, long) (unfold check_extended_payload_len_16 in length_64-refines f n i)
        | inr direct ↦ rw (other, direct) (choice_16-refines f.mask f len i)
      ]
    ]

    length-refines :
        (f : Frame) (n i : ℕ)
        → reading (after_length (state payload_len f b n i)) ≡ length_from f n (rest b i)
    unfolding check_payload_len
    length-refines f n i = elim (Bool-cases (leb 1 (b.ptr - i))) [
      | inl enough ↦
          rw
            (
              enough,
              length_from_more f n (rest b i) (ground (arith, length-rest b fits i)),
              head-rest b fits i (ground arith),
              ← rest_at b fits i (i + 1) 1 refl,
            )
            (split_length f n (i + 1) (bit_and (head (rest b i)) 0x7f))
      | inr short ↦
          rw (short, length_from_wait f n (rest b i) (ground (arith, length-rest b fits i)))
            (unfold check_extended_payload_len_16 check_extended_payload_len_64 check_masking_key
                check_payload_data in
              refl)
    ]

    mask-refines :
        (f : Frame) (n i : ℕ)
        → reading (after_mask (state mask_bit f b n i)) ≡ mask_from f n (rest b i)
    unfolding check_mask_bit
    mask-refines f n i = elim (Bool-cases (leb 1 (b.ptr - i))) [
      | inl enough ↦
          rw
            (
              enough,
              mask_from_more f n (rest b i) (ground (arith, length-rest b fits i)),
              head-rest b fits i (ground arith),
            )
            (length-refines (record f { mask = top_bit (head (rest b i)) }) n i)
      | inr short ↦
          rw (short, mask_from_wait f n (rest b i) (ground (arith, length-rest b fits i)))
            (unfold check_payload_len check_extended_payload_len_16 check_extended_payload_len_64
                check_masking_key check_payload_data in
              refl)
    ]

    opcode-refines :
        (f : Frame) (n i : ℕ)
        → reading (after_opcode (state opcode f b n i)) ≡ opcode_from f n (rest b i)
    unfolding check_opcode
    opcode-refines f n i = elim (Bool-cases (leb 1 (b.ptr - i))) [
      | inl enough ↦
          rw
            (
              enough,
              opcode_from_more f n (rest b i) (ground (arith, length-rest b fits i)),
              head-rest b fits i (ground arith),
              ← rest_at b fits i (i + 1) 1 refl,
            )
            (mask-refines (record f { opcode = opcode_of (bit_and (head (rest b i)) 0x0f) }) n
              (i + 1))
      | inr short ↦
          rw (short, opcode_from_wait f n (rest b i) (ground (arith, length-rest b fits i)))
            (unfold check_mask_bit check_payload_len check_extended_payload_len_16
                check_extended_payload_len_64 check_masking_key check_payload_data in
              refl)
    ]

    fin-refines :
        (f : Frame) (n i : ℕ)
        → reading (after_opcode (check_fin_bit (state fin_bit f b n i))) ≡ fin_from f n (rest b i)
    unfolding check_fin_bit
    fin-refines f n i = elim (Bool-cases (leb 1 (b.ptr - i))) [
      | inl enough ↦
          rw
            (
              enough,
              fin_from_more f n (rest b i) (ground (arith, length-rest b fits i)),
              head-rest b fits i (ground arith),
            )
            (opcode-refines (record f { fin = top_bit (head (rest b i)) }) n i)
      | inr short ↦
          rw (short, fin_from_wait f n (rest b i) (ground (arith, length-rest b fits i)))
            (unfold check_opcode check_mask_bit check_payload_len check_extended_payload_len_16
                check_extended_payload_len_64 check_masking_key check_payload_data in
              refl)
    ]

    state-refines :
        (s : ParseStage) (f : Frame) (n i : ℕ)
        → reading (parse (state s f b n i)) ≡ run_from s f n (rest b i)
    unfolding parse run_from
    state-refines fin_bit f n i = fin-refines f n i
    state-refines opcode f n i = unfold check_fin_bit in opcode-refines f n i
    state-refines mask_bit f n i = unfold check_fin_bit check_opcode in mask-refines f n i
    state-refines payload_len f n i =
        unfold check_fin_bit check_opcode check_mask_bit in length-refines f n i
    state-refines extended_payload_len_16 f n i =
        unfold check_fin_bit check_opcode check_mask_bit check_payload_len in
        length_16-refines f n i
    state-refines extended_payload_len_64 f n i =
        unfold check_fin_bit check_opcode check_mask_bit check_payload_len
          check_extended_payload_len_16 in
        length_64-refines f n i
    state-refines masking_key f n i =
        unfold check_fin_bit check_opcode check_mask_bit check_payload_len
          check_extended_payload_len_16 check_extended_payload_len_64 in
        key-refines b fits f n i
    state-refines payload_data f n i =
        unfold check_fin_bit check_opcode check_mask_bit check_payload_len
          check_extended_payload_len_16 check_extended_payload_len_64 check_masking_key in
        data-refines b fits f n i
    state-refines done f n i =
        unfold check_fin_bit check_opcode check_mask_bit check_payload_len
          check_extended_payload_len_16 check_extended_payload_len_64 check_masking_key
          check_payload_data in
        refl

-- One parse of a valid parser, from whatever stage, does what one pass over the list of its unread
-- bytes does: the same stage, frame, payload length and unread bytes.
pub parse-run : ⦃m : Machine⦄ (p : FrameParser) → IsValid p → reading (parse p) ≡ run (reading p)
parse-run p v = state-refines p.frame_buffer v.write_within p.stage p.frame p.payload_length p.ptr
