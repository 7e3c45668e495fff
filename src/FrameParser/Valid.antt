-- ===== src/FrameParser/Valid.antt =====
-- IsValid through each stage of the parser (single_header/fastws.hpp).
use fast_websocket_client.Base.{
  ℕ, zero, suc, ◌+◌, ◌≡◌, refl, ◌∙◌, arith, take, drop, length-splice, length-replicate,
}
use fast_websocket_client.FrameParser.{
  Machine, FrameParser, initial, remaining, check_fin_bit, check_opcode, check_mask_bit,
  check_payload_len, check_extended_payload_len_16, check_extended_payload_len_64, consume_length,
  check_masking_key, check_payload_data, parse, reset, clear,
}
use fast_websocket_client.FrameParser.Abstract.{IsValid}

check_fin_bit-IsValid : {p : FrameParser} → IsValid p → IsValid (check_fin_bit p)
unfolding check_fin_bit
check_fin_bit-IsValid v = ground arith

check_opcode-IsValid : {p : FrameParser} → IsValid p → IsValid (check_opcode p)
unfolding check_opcode
check_opcode-IsValid v = ground arith

check_mask_bit-IsValid : {p : FrameParser} → IsValid p → IsValid (check_mask_bit p)
unfolding check_mask_bit
check_mask_bit-IsValid v = ground arith

check_payload_len-IsValid : {p : FrameParser} → IsValid p → IsValid (check_payload_len p)
unfolding check_payload_len
check_payload_len-IsValid v = ground arith

check_extended_payload_len_16-IsValid :
    {p : FrameParser} → IsValid p → IsValid (check_extended_payload_len_16 p)
unfolding check_extended_payload_len_16
check_extended_payload_len_16-IsValid v = ground arith

check_masking_key-IsValid : {p : FrameParser} → IsValid p → IsValid (check_masking_key p)
unfolding check_masking_key
check_masking_key-IsValid v = ground arith

check_payload_data-IsValid : {p : FrameParser} → IsValid p → IsValid (check_payload_data p)
unfolding check_payload_data
check_payload_data-IsValid v = ground arith

module _ ⦃m : Machine⦄ where
  ptr-consume_length : (k : ℕ) (p : FrameParser) → (consume_length k p).ptr ≡ p.ptr + k
  unfolding consume_length
  ptr-consume_length zero p = omega arith
  ptr-consume_length (suc k) p = ptr-consume_length k _ ∙ omega arith

  buffer-consume_length :
      (k : ℕ) (p : FrameParser) → (consume_length k p).frame_buffer ≡ p.frame_buffer
  unfolding consume_length
  buffer-consume_length zero p = refl
  buffer-consume_length (suc k) p = buffer-consume_length k _

  check_extended_payload_len_64-IsValid :
      {p : FrameParser} → IsValid p → IsValid (check_extended_payload_len_64 p)
  unfolding check_extended_payload_len_64
  check_extended_payload_len_64-IsValid {p} v = ground (
    arith,
    ptr-consume_length 8 (record p { payload_length = 0 }),
    buffer-consume_length 8 (record p { payload_length = 0 }),
  )

  pub parse-IsValid : {p : FrameParser} → IsValid p → IsValid (parse p)
  unfolding parse
  parse-IsValid v = check_payload_data-IsValid (
      check_masking_key-IsValid (
        check_extended_payload_len_64-IsValid (
          check_extended_payload_len_16-IsValid (
            check_payload_len-IsValid
              (check_mask_bit-IsValid (check_opcode-IsValid (check_fin_bit-IsValid v)))))))

pub reset-IsValid : {p : FrameParser} → IsValid p → IsValid (reset p)
unfolding reset
reset-IsValid {p} v =
    ground (
      arith,
      length-splice p.frame_buffer.buf 0 (take (remaining p) (drop p.ptr p.frame_buffer.buf)),
    )

pub clear-IsValid : (p : FrameParser) → IsValid (clear p)
unfolding clear
clear-IsValid p = omega arith

-- A parser that was just made.
pub initial-IsValid : IsValid initial
initial-IsValid = record {
  read_within = omega arith;
  write_within = omega (arith, length-replicate 4096 zero);
}
