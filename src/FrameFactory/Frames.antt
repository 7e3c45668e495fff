-- ===== src/FrameFactory/Frames.antt =====
-- What the methods of the factory (single_header/fastws.hpp) return.
use fast_websocket_client.Base.{
  ℕ, zero, suc, ◌+◌, ◌%◌, arith, get_or, bit_xor, ◌∷◌, ◌^◌, ◌≤◌, ◌<◌, ◌≡◌, refl, ap, Bool, true,
  false, List, [], ◌++◌, some, if◌then◌else◌, ltb, lt→ltb, le→ltb_false, length,
}
use native.Mathlib.Nat.{zero-add}
use fast_websocket_client.Exec.{ping_payload, pong_payload, close_payload, ok, throw}
use fast_websocket_client.Frame.{Frame, Opcode, MaskingKey, key_bytes, key_at, mask_from}
use fast_websocket_client.Frame.Wire.{wire, construct-wire, mask_from_twice, length-mask_from}
use fast_websocket_client.FrameParser.{Machine, FrameParser, update_view}
use fast_websocket_client.FrameParser.Abstract.{IsValid}
use fast_websocket_client.FrameParser.LengthField.{ZeroShifts}
use fast_websocket_client.FrameParser.RoundTrip.{IsWireOpcode, received}
use fast_websocket_client.FrameParser.Stream.{IsIdle, update_view-wire}
use fast_websocket_client.Random.{next_key}
use fast_websocket_client.FrameFactory.{FrameFactory, frame_with, construct, ping, pong, close}

-- The factory's construct never faults: it returns the frame's bytes in the RFC's layout, and the
-- cache of random bytes that it leaves is the one behind the next key if the frame is masked, and
-- else the one it had.
pub construct-returns :
    (fin : Bool) (opcode : Opcode) (mask : Bool) (payload : List ℕ) (s : FrameFactory)
    → ((construct fin opcode mask payload s).0 ≡ ok (wire (frame_with s fin opcode mask payload)))
      × ((construct fin opcode mask payload s).1.random
          ≡ (if mask then (next_key s.random).1 else s.random))
unfolding construct
construct-returns fin opcode mask payload s =
    let (b, written, shows) = construct-wire (frame_with s fin opcode mask payload) s.buf in
    rw written (ap ok shows, refl)

-- What a masked frame's receiver makes of its payload.
abbrev pub unmasked : Frame → List ℕ
unmasked f = mask_from f.masking_key 0 f.payload

-- Octet i of the masked bytes is octet i of the others, XORed with octet i modulo 4 of the key.
pub record IsMaskedWith (key plain masked : List ℕ) : Type 0 where
  pub as_long : length masked ≡ length plain
  pub at :
      (i : ℕ)
      → i < length plain
      → get_or masked i 0 ≡ bit_xor (get_or plain i 0) (get_or key (i % 4) 0)

key_bytes-get_or : (key : MaskingKey) (j : ℕ) → j < 4 → get_or (key_bytes key) j 0 ≡ key_at key j
key_bytes-get_or key zero h = refl
key_bytes-get_or key (suc zero) h = refl
key_bytes-get_or key (suc (suc zero)) h = refl
key_bytes-get_or key (suc (suc (suc zero))) h = refl
key_bytes-get_or key (suc (suc (suc (suc j)))) h = absurd (omega arith)

mask_from-get_or :
    (key : MaskingKey) (k : ℕ) (xs : List ℕ) (i : ℕ)
    → i < length xs
    → get_or (mask_from key k xs) i 0
      ≡ bit_xor (get_or xs i 0) (get_or (key_bytes key) ((k + i) % 4) 0)
unfolding mask_from
mask_from-get_or key k [] i h = absurd (omega arith)
mask_from-get_or key k (x ∷ xs) zero h =
    let same : (k + 0) % 4 ≡ k % 4 = omega arith in
    rw (same, key_bytes-get_or key (k % 4) (omega arith))
mask_from-get_or key k (x ∷ xs) (suc i) h =
    let same : (k + suc i) % 4 ≡ (k + 1 + i) % 4 = ap (λ n. n % 4) (omega arith) in
    rw same (mask_from-get_or key (k + 1) xs i (omega arith))

mask_from-IsMaskedWith :
    (key : MaskingKey) (xs : List ℕ) → IsMaskedWith (key_bytes key) xs (mask_from key 0 xs)
mask_from-IsMaskedWith key xs = record {
  as_long = length-mask_from key 0 xs;
  at = λ i h. rw zero-add at (mask_from-get_or key 0 xs i h);
}

-- The factory returns the bytes of a masked frame for every opcode of four bits and every payload
-- below 2 ^ 31 bytes, and a valid parser between two frames that is given them, with any bytes
-- behind them, returns a final masked frame of the same opcode, with the key that the cache gives
-- next, as many payload bytes as were given, each the given one XORed with the byte of the key at
-- its index modulo 4, so that unmasking gives the payload back, and is then between two frames
-- with just the bytes behind unread, on a machine that shifts 0 to 0.
pub construct-update_view :
    ⦃m : Machine⦄ (opcode : Opcode) (payload rest : List ℕ) (s : FrameFactory) (p : FrameParser)
    → ZeroShifts m
    → IsValid p
    → IsIdle p []
    → IsWireOpcode opcode
    → length payload < 2 ^ 31
    → (bytes : List ℕ) × (f : Frame) × (q : FrameParser) × ((construct true opcode true payload s).0
        ≡ ok bytes)
      × (update_view p (bytes ++ rest) ≡ some (q, some f))
      × (f.opcode ≡ opcode)
      × (f.fin ≡ true)
      × (f.mask ≡ true)
      × (f.masking_key ≡ (next_key s.random).0)
      × IsMaskedWith (key_bytes f.masking_key) payload f.payload
      × (unmasked f ≡ payload)
      × IsIdle q rest
unfolding frame_with
construct-update_view opcode payload rest s p zeros v idle named small =
    let f = frame_with s true opcode true payload in
    let (q, read, after, _) = update_view-wire p f rest zeros v idle named small in
    (
      wire f,
      received f,
      q,
      (construct-returns true opcode true payload s).0,
      read,
      refl,
      refl,
      refl,
      refl,
      mask_from-IsMaskedWith (next_key s.random).0 payload,
      mask_from_twice (next_key s.random).0 0 payload,
      after,
    )

-- A ping, a pong and a close frame are each refused, with the exception of their kind and the
-- factory unchanged, if the payload is longer than 125 bytes, and else return the bytes of the
-- final frame of their kind in the RFC's layout.
pub control_limit :
    (mask : Bool) (payload : List ℕ) (s : FrameFactory)
    → (125 < length payload
        → (ping mask payload s ≡ (throw ping_payload, s))
          × (pong mask payload s ≡ (throw pong_payload, s))
          × (close mask payload s ≡ (throw close_payload, s)))
      × (length payload ≤ 125
          → ((ping mask payload s).0 ≡ ok (wire (frame_with s true Opcode.ping mask payload)))
            × ((pong mask payload s).0 ≡ ok (wire (frame_with s true Opcode.pong mask payload)))
            × ((close mask payload s).0 ≡ ok (wire (frame_with s true Opcode.close mask payload))))
unfolding ping pong close
control_limit mask payload s = (
  λ long. let e : ltb 125 (length payload) ≡ true = lt→ltb _ _ long in rw e (refl, refl, refl),
  λ fits.
      let e : ltb 125 (length payload) ≡ false = le→ltb_false _ _ fits in
      rw e (
        (construct-returns true Opcode.ping mask payload s).0,
        (construct-returns true Opcode.pong mask payload s).0,
        (construct-returns true Opcode.close mask payload s).0,
      ),
)
