-- ===== src/FrameFactory/Bytes.antt =====
-- The numbers that `FrameFactory::construct` (single_header/fastws.hpp) hands to the socket.
use fast_websocket_client.Base.{
  ℕ, ◌+◌, ◌/◌, ◌^◌, ◌%◌, ◌<◌, ◌≡◌, refl, subst, sym, Bool, true, false, List, [], ◌∷◌, ◌++◌, inl,
  inr, Bool-cases, arith, if◌then◌else◌, length, ltb, All,
}
use fast_websocket_client.Bits.{bit_xor-lt}
use fast_websocket_client.Exec.{ok}
use fast_websocket_client.Frame.{
  Frame, Opcode, MaskingKey, key_bytes, key_at, mask_from, opcode_value, zero_key,
}
use fast_websocket_client.Frame.Wire.{wire, flagged, length_field}
use fast_websocket_client.FrameFactory.{FrameFactory, frame_with, construct}
use fast_websocket_client.FrameFactory.Frames.{construct-returns}
use fast_websocket_client.Random.{next_key}
use fast_websocket_client.Random.Cache.{IsByte, All-append, IsFilled, next_key-IsFilled}

record IsKey (key : MaskingKey) : Type 0 where
  b0 : IsByte key.k0
  b1 : IsByte key.k1
  b2 : IsByte key.k2
  b3 : IsByte key.k3

key_at-IsByte : (key : MaskingKey) (j : ℕ) → IsKey key → IsByte (key_at key j)
key_at-IsByte key j k = ground (arith, k.b0, k.b1, k.b2, k.b3)

mask_from-IsByte :
    (key : MaskingKey) (i : ℕ) (xs : List ℕ)
    → IsKey key
    → All IsByte xs
    → All IsByte (mask_from key i xs)
unfolding mask_from
mask_from-IsByte key i [] k h = tt
mask_from-IsByte key i (x ∷ xs) k h =
    (bit_xor-lt 8 _ _ h.0 (key_at-IsByte key (i % 4) k), mask_from-IsByte key (i + 1) xs k h.1)

flagged-IsByte : (b : Bool) (low : ℕ) → low < 128 → IsByte (flagged b low)
flagged-IsByte true low h = omega arith
flagged-IsByte false low h = omega arith

eight_bytes-IsByte :
    (n : ℕ)
    → All IsByte (
        n / 2 ^ 56 % 256
        ∷ n / 2 ^ 48 % 256
        ∷ n / 2 ^ 40 % 256
        ∷ n / 2 ^ 32 % 256
        ∷ n / 2 ^ 24 % 256
        ∷ n / 2 ^ 16 % 256
        ∷ n / 2 ^ 8 % 256
        ∷ n % 256
        ∷ [])
eight_bytes-IsByte n =
    let low : (k : ℕ) → k % 256 < 256 = λ k. omega arith in
    (low _, (low _, (low _, (low _, (low _, (low _, (low _, (low _, tt))))))))

length_field-IsByte : (mask : Bool) (n : ℕ) → All IsByte (length_field mask n)
length_field-IsByte mask n = elim (Bool-cases (ltb n 126)) [
  | inl short ↦ rw short (flagged-IsByte mask n (ground arith), tt)
  | inr long ↦ elim (Bool-cases (ltb n 65536)) [
    | inl medium ↦
        let high : n / 256 < 256 = ground arith in
        rw (long, medium) (flagged-IsByte mask 126 (omega arith), (high, (omega arith, tt)))
    | inr large ↦ rw (long, large) (flagged-IsByte mask 127 (omega arith), eight_bytes-IsByte n)
  ]
]

masked_field-IsByte :
    (mask : Bool) (key : MaskingKey) (payload : List ℕ)
    → (mask ≡ true → IsKey key)
    → All IsByte payload
    → All IsByte (if mask then key_bytes key ++ mask_from key 0 payload else payload)
masked_field-IsByte true key payload k h =
    let v = k refl in (v.b0, (v.b1, (v.b2, (v.b3, mask_from-IsByte key 0 payload v h))))
masked_field-IsByte false key payload k h = h

wire-IsByte :
    (f : Frame) → (f.mask ≡ true → IsKey f.masking_key) → All IsByte f.payload → All IsByte (wire f)
wire-IsByte f k h = (
  flagged-IsByte f.fin (opcode_value f.opcode % 16) (omega arith),
  All-append (length_field f.mask (length f.payload)) _
      (length_field-IsByte f.mask (length f.payload))
      (masked_field-IsByte f.mask f.masking_key f.payload k h),
)

taken-IsKey :
    (mask : Bool) (s : FrameFactory)
    → IsFilled s.random
    → mask ≡ true
    → IsKey (if mask then (next_key s.random).0 else zero_key)
taken-IsKey true s v _ =
    let (filled, b0, b1, b2, b3, moved) = next_key-IsFilled s.random v in
    record { b0 = b0; b1 = b1; b2 = b2; b3 = b3 }
taken-IsKey false s v e = absurd cc

left-IsFilled :
    (mask : Bool) (s : FrameFactory)
    → IsFilled s.random
    → IsFilled (if mask then (next_key s.random).1 else s.random)
left-IsFilled true s v = (next_key-IsFilled s.random v).0
left-IsFilled false s v = v

-- From a cache that is full of bytes with its position at a multiple of four within it, and for a
-- payload of bytes, what the factory returns are numbers below 256, and the cache that it leaves
-- is of the same kind.
pub construct-IsByte :
    (fin : Bool) (opcode : Opcode) (mask : Bool) (payload : List ℕ) (s : FrameFactory)
    → IsFilled s.random
    → All IsByte payload
    → (bytes : List ℕ) × ((construct fin opcode mask payload s).0 ≡ ok bytes)
      × All IsByte bytes
      × IsFilled (construct fin opcode mask payload s).1.random
unfolding frame_with
construct-IsByte fin opcode mask payload s v h =
    let (returns, left) = construct-returns fin opcode mask payload s in
    let f = frame_with s fin opcode mask payload in
    (
      wire f,
      returns,
      wire-IsByte f (taken-IsKey mask s v) h,
      subst IsFilled (sym left) (left-IsFilled mask s v),
    )
