-- ===== src/Frame.antt =====
-- `wsframe::Frame` (single_header/fastws.hpp): the opcodes, the frame, and `Frame::construct`, which
-- writes a frame to a buffer.
pub mod Wire
pub mod Printing
use fast_websocket_client.Base.{
  ℕ, zero, suc, ◌+◌, ◌*◌, ◌/◌, ◌%◌, ◌^◌, bit_and, bit_or, bit_xor, Bool, true, false, List, [], ◌∷◌,
  Option, ◌>>=◌, if◌then◌else◌, ltb, leb, ◌==◌, length,
}
use fast_websocket_client.FrameBuffer
use fast_websocket_client.FrameBuffer.{FrameBuffer, push_back, copy_in, ensure_fit}

-- `Frame::Opcode`. Its type is `std::uint8_t`, so a cast can also make a value with no name.
pub data Opcode : Type 0 where
  continuation text binary close ping pong unknown : Opcode
  unnamed : ℕ → Opcode

abbrev pub opcode_value : Opcode → ℕ
opcode_value continuation = 0x0
opcode_value text = 0x1
opcode_value binary = 0x2
opcode_value close = 0x8
opcode_value ping = 0x9
opcode_value pong = 0xa
opcode_value unknown = 0xb
opcode_value (unnamed n) = n

-- `static_cast<Opcode>`
unfoldable pub opcode_of : ℕ → Opcode
opcode_of n =
    if n == 0x0
    then continuation
    else if n == 0x1
    then text
    else if n == 0x2
    then binary
    else if n == 0x8
    then close
    else if n == 0x9
    then ping
    else if n == 0xa
    then pong
    else if n == 0xb
    then unknown
    else unnamed n

-- `std::array<std::uint8_t, 4>`
pub record MaskingKey : Type 0 where
  pub k0 : ℕ
  pub k1 : ℕ
  pub k2 : ℕ
  pub k3 : ℕ

abbrev pub key_bytes : MaskingKey → List ℕ
key_bytes key = key.k0 ∷ key.k1 ∷ key.k2 ∷ key.k3 ∷ []

abbrev pub zero_key : MaskingKey
zero_key = record { k0 = 0; k1 = 0; k2 = 0; k3 = 0 }

-- `masking_key[j]` for `j` below 4.
abbrev pub key_at : MaskingKey → ℕ → ℕ
key_at key j =
    if j == 0 then key.k0 else if j == 1 then key.k1 else if j == 2 then key.k2 else key.k3

-- The payload is the bytes that the `string_view` shows.
pub record Frame : Type 0 where
  pub fin : Bool
  pub mask : Bool
  pub opcode : Opcode
  pub masking_key : MaskingKey
  pub payload : List ℕ

-- `Frame {}`
abbrev pub empty_frame : Frame
empty_frame = record {
  fin = false;
  mask = false;
  opcode = continuation;
  masking_key = zero_key;
  payload = [];
}

-- The loop that masks the payload, from index `i` on.
unfoldable pub mask_from : MaskingKey → ℕ → List ℕ → List ℕ
mask_from key i [] = []
mask_from key i (x ∷ xs) = bit_xor x (key_at key (i % 4)) ∷ mask_from key (i + 1) xs

-- The low `8 * i` bits of a length in network order, as the loop from `i - 1` down to 0 writes them.
unfoldable pub network_bytes : ℕ → ℕ → List ℕ
network_bytes zero n = []
network_bytes (suc i) n = bit_and (n / 2 ^ (8 * i)) 0xff ∷ network_bytes i n

write_length : ℕ → ℕ → FrameBuffer → Option FrameBuffer
write_length mask_bit n b =
    if ltb n 126
    then push_back b (bit_or mask_bit n)
    else if leb n 0xffff
    then (push_back b (bit_or mask_bit 126) >>= λ b.
        push_back b (bit_and (n / 2 ^ 8) 0xff) >>= λ b. push_back b (bit_and n 0xff))
    else (push_back b (bit_or mask_bit 127) >>= λ b. copy_in b (network_bytes 8 n))

write_payload : Frame → FrameBuffer → Option FrameBuffer
write_payload f b =
    if f.mask
    then (copy_in b (key_bytes f.masking_key) >>= λ b.
        copy_in b (mask_from f.masking_key 0 f.payload))
    else copy_in b f.payload

-- `Frame::construct`. The `construct` of the code returns nothing and leaves the frame in `buf`.
unfoldable pub construct : Frame → FrameBuffer → Option FrameBuffer
unfolding write_length write_payload
construct f buf =
    push_back (ensure_fit (FrameBuffer.reset buf) (length f.payload + 14 + 100))
      (bit_or (if f.fin then 0x80 else 0x00) (bit_and (opcode_value f.opcode) 0x0f))
    >>= write_length (if f.mask then 0x80 else 0x00) (length f.payload)
    >>= write_payload f
