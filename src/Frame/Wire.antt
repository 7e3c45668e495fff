-- ===== src/Frame/Wire.antt =====
-- The layout that RFC 6455 gives a frame, as a plain list of bytes, and `Frame::construct`
-- against it.
use fast_websocket_client.Base.{
  ℕ, zero, suc, ◌+◌, ◌/◌, ◌%◌, ◌^◌, ◌≤◌, ◌<◌, bit_and, bit_or, ◌≡◌, refl, ap, ◌∙◌, inl, inr, Bool,
  true, false, List, [], ◌∷◌, ◌++◌, some, arith, if◌then◌else◌, ltb, leb, Bool-cases, length,
  length-append, take,
}
use fast_websocket_client.Bits.{bit_or_fields, bit_and_mask, bit_xor_twice}
use fast_websocket_client.FrameBuffer
use fast_websocket_client.FrameBuffer.{FrameBuffer, view, push_back, copy_in, ensure_fit, capacity}
use fast_websocket_client.FrameBuffer.Writes.{
  Writes, copy_in-Writes, push_back-Writes, Writes-then, capacity-ensure_fit, ptr-ensure_fit,
}
use fast_websocket_client.Frame.{
  Frame, MaskingKey, opcode_value, key_bytes, key_at, mask_from, network_bytes, write_length,
  write_payload, construct,
}

-- A flag in the highest bit of a byte, over seven bits.
abbrev pub flagged : Bool → ℕ → ℕ
flagged b low = if b then 128 + low else low

-- Length below 126 in one byte; below 65536 after 126, in two bytes; else after 127, in eight.
abbrev pub length_field : Bool → ℕ → List ℕ
length_field mask n =
    if ltb n 126
    then flagged mask n ∷ []
    else if ltb n 65536
    then flagged mask 126 ∷ n / 256 ∷ n % 256 ∷ []
    else (flagged mask 127
        ∷ n / 2 ^ 56 % 256
        ∷ n / 2 ^ 48 % 256
        ∷ n / 2 ^ 40 % 256
        ∷ n / 2 ^ 32 % 256
        ∷ n / 2 ^ 24 % 256
        ∷ n / 2 ^ 16 % 256
        ∷ n / 2 ^ 8 % 256
        ∷ n % 256
        ∷ [])

abbrev pub payload_field : Frame → List ℕ
payload_field f =
    if f.mask then key_bytes f.masking_key ++ mask_from f.masking_key 0 f.payload else f.payload

abbrev pub wire : Frame → List ℕ
wire f =
    flagged f.fin (opcode_value f.opcode % 16)
    ∷ (length_field f.mask (length f.payload) ++ payload_field f)

pub length-mask_from :
    (key : MaskingKey) (i : ℕ) (xs : List ℕ) → length (mask_from key i xs) ≡ length xs
unfolding mask_from
length-mask_from key i [] = refl
length-mask_from key i (x ∷ xs) = ap suc (length-mask_from key (i + 1) xs)

-- Masking a payload twice with one key, from any index, gives the payload back.
pub mask_from_twice :
    (key : MaskingKey) (i : ℕ) (xs : List ℕ) → mask_from key i (mask_from key i xs) ≡ xs
unfolding mask_from
mask_from_twice key i [] = refl
mask_from_twice key i (x ∷ xs) =
    rw (bit_xor_twice x (key_at key (i % 4)), mask_from_twice key (i + 1) xs)

low_byte : (n : ℕ) → bit_and n 0xff ≡ n % 256
low_byte n = bit_and_mask 8 n

flag-or : (b : Bool) (low : ℕ) → low < 128 → bit_or (if b then 0x80 else 0x00) low ≡ flagged b low
flag-or true low h = bit_or_fields 7 1 low h
flag-or false low h = omega (arith, bit_or_fields 7 0 low h)

first_byte :
    (f : Frame)
    → bit_or (if f.fin then 0x80 else 0x00) (bit_and (opcode_value f.opcode) 0x0f)
      ≡ flagged f.fin (opcode_value f.opcode % 16)
first_byte f =
    rw (bit_and_mask 4 (opcode_value f.opcode))
      (flag-or f.fin (opcode_value f.opcode % 16) (omega arith))

network_bytes-eight :
    (n : ℕ)
    → network_bytes 8 n
      ≡ n / 2 ^ 56 % 256
        ∷ n / 2 ^ 48 % 256
        ∷ n / 2 ^ 40 % 256
        ∷ n / 2 ^ 32 % 256
        ∷ n / 2 ^ 24 % 256
        ∷ n / 2 ^ 16 % 256
        ∷ n / 2 ^ 8 % 256
        ∷ n % 256
        ∷ []
unfolding network_bytes
network_bytes-eight n = let whole : n / 1 ≡ n = omega arith in simp (low_byte, whole)

length-network_bytes : (i n : ℕ) → length (network_bytes i n) ≡ i
unfolding network_bytes
length-network_bytes zero n = refl
length-network_bytes (suc i) n = ap suc (length-network_bytes i n)

write_length-Writes :
    (mask : Bool) (n : ℕ)
    → Writes (write_length (if mask then 0x80 else 0x00) n) (length_field mask n)
unfolding write_length
write_length-Writes mask n b room = elim (Bool-cases (ltb n 126)) [
  | inl short ↦
      rw (short, flag-or mask n (ground arith))
        (push_back-Writes (flagged mask n) b (rw short at room))
  | inr more ↦ elim (Bool-cases (ltb n 65536)) [
    | inl medium ↦
        let in_code : leb n 0xffff ≡ true = ground arith in
        let high : n / 2 ^ 8 % 256 ≡ n / 256 = ground arith in
        rw
          (
            more,
            in_code,
            medium,
            flag-or mask 126 (omega arith),
            low_byte (n / 2 ^ 8),
            low_byte n,
            high,
          )
          (Writes-then _ _ (flagged mask 126 ∷ []) (n / 256 ∷ n % 256 ∷ []) (push_back-Writes _)
            (Writes-then _ _ (n / 256 ∷ []) (n % 256 ∷ []) (push_back-Writes _)
              (push_back-Writes _))
            b (rw (more, medium) at room))
    | inr long ↦
        let in_code : leb n 0xffff ≡ false = ground arith in
        rw (more, in_code, long, flag-or mask 127 (omega arith), ← network_bytes-eight n)
          (Writes-then _ _ (flagged mask 127 ∷ []) (network_bytes 8 n) (push_back-Writes _)
            (copy_in-Writes (network_bytes 8 n)) b
            (omega (arith, length-network_bytes 8 n, rw (more, long) at room)))
  ]
]

write_payload-Writes : (f : Frame) → Writes (write_payload f) (payload_field f)
unfolding write_payload
write_payload-Writes f b room = elim (Bool-cases f.mask) [
  | inl masked ↦ rw masked (
      Writes-then _ _ (key_bytes f.masking_key) (mask_from f.masking_key 0 f.payload)
        (copy_in-Writes _) (copy_in-Writes _) b (rw masked at room))
  | inr plain ↦ rw plain (copy_in-Writes f.payload b (rw plain at room))
]

length-length_field : (mask : Bool) (n : ℕ) → length (length_field mask n) ≤ 9
length-length_field mask n = ground arith

length-payload_field : (f : Frame) → length (payload_field f) ≤ 4 + length f.payload
length-payload_field f = ground (arith, length-mask_from f.masking_key 0 f.payload)

-- Writing a frame to any buffer never stores outside the vector, and leaves in the buffer's view
-- exactly the bytes of the RFC's layout: flags, length in one, three or nine bytes, and the
-- payload, behind its key and masked with it if the frame is masked.
pub construct-wire :
    (f : Frame) (buf : FrameBuffer)
    → (out : FrameBuffer) × (construct f buf ≡ some out) × (view out ≡ wire f)
unfolding construct
construct-wire f buf =
    let fitted = ensure_fit (FrameBuffer.reset buf) (length f.payload + 14 + 100) in
    let start : fitted.ptr ≡ 0 = ptr-ensure_fit (FrameBuffer.reset buf) _ in
    let room : length f.payload + 114 ≤ capacity fitted =
      omega (arith, capacity-ensure_fit (FrameBuffer.reset buf) (length f.payload + 14 + 100)) in
    let done =
      Writes-then _ (write_payload f) _ (payload_field f)
        (Writes-then _ _ (flagged f.fin (opcode_value f.opcode % 16) ∷ [])
          (length_field f.mask (length f.payload)) (push_back-Writes _)
          (write_length-Writes f.mask (length f.payload)))
        (write_payload-Writes f) fitted
        (omega (
          arith,
          start,
          room,
          length-append (length_field f.mask (length f.payload)) (payload_field f),
          length-length_field f.mask (length f.payload),
          length-payload_field f,
        )) in
    rw (first_byte f)
      (done.out, done.returns, done.appended ∙ ap (λ n. take n fitted.buf ++ wire f) start)
