-- ===== src/FrameParser/RoundTrip.antt =====
-- The parser (single_header/fastws.hpp) on the layout of one frame and what follows it.
use fast_websocket_client.Base.{
  ℕ, ◌%◌, ◌^◌, ◌<◌, ◌≡◌, refl, ap, ◌∙◌, inl, inr, Bool, true, false, List, [], ◌∷◌, ◌++◌,
  append_assoc, arith, if◌then◌else◌, ltb, ◌==◌, Bool-cases, le→ltb_false, length, length-append,
  take-append, drop-append,
}
use fast_websocket_client.Frame.{
  Frame, MaskingKey, Opcode, opcode_of, opcode_value, zero_key, mask_from,
}
use fast_websocket_client.Frame.Wire.{wire, length_field, payload_field, length-mask_from}
use fast_websocket_client.FrameParser.{Machine, top_bit, done}
use fast_websocket_client.FrameParser.LengthField.{
  ZeroShifts, eight_bytes, top_bit-flagged, low_seven, low_four, two_bytes, gather-network,
}
use fast_websocket_client.FrameParser.Abstract.{
  at, data_from, key_from, body_from, length_16_from, length_64_from, length_from, fin_from, decode,
}
use fast_websocket_client.FrameParser.Abstract.Shape.{head, mask_from_more}
use fast_websocket_client.FrameParser.Abstract

abbrev make : Bool → Bool → Opcode → MaskingKey → List ℕ → Frame
make fin mask opcode key payload = record {
  fin = fin;
  mask = mask;
  opcode = opcode;
  masking_key = key;
  payload = payload;
}

-- The opcodes that four bits hold.
abbrev pub IsWireOpcode : Opcode → Type 0
IsWireOpcode o = opcode_of (opcode_value o % 16) ≡ o

pub text-IsWireOpcode : IsWireOpcode Opcode.text
unfolding opcode_of
text-IsWireOpcode = refl

pub binary-IsWireOpcode : IsWireOpcode Opcode.binary
unfolding opcode_of
binary-IsWireOpcode = refl

pub ping-IsWireOpcode : IsWireOpcode Opcode.ping
unfolding opcode_of
ping-IsWireOpcode = refl

pub close-IsWireOpcode : IsWireOpcode Opcode.close
unfolding opcode_of
close-IsWireOpcode = refl

-- What the parser makes of a frame that was written: the payload of a masked one stays masked.
abbrev pub received : Frame → Frame
received f = record f {
  masking_key = if f.mask then f.masking_key else zero_key;
  payload = if f.mask then mask_from f.masking_key 0 f.payload else f.payload;
}

data-reads :
    (fin mask : Bool) (opcode : Opcode) (key : MaskingKey) (n : ℕ) (ys rest : List ℕ)
    → length ys ≡ n
    → data_from (make fin mask opcode key []) n (ys ++ rest)
      ≡ at done (make fin mask opcode key ys) n rest
unfolding data_from
data-reads fin mask opcode key n [] rest e = ground arith
data-reads fin mask opcode key n (y ∷ ys) rest e =
    ground
      (arith, length-append (y ∷ ys) rest, take-append (y ∷ ys) rest, drop-append (y ∷ ys) rest)

body-reads :
    (fin mask : Bool) (opcode : Opcode) (key : MaskingKey) (payload rest : List ℕ)
    → let f = make fin mask opcode key payload in
      body_from (make fin mask opcode zero_key []) (length payload) (payload_field f ++ rest)
      ≡ at done (received f) (length payload) rest
unfolding key_from
body-reads fin true opcode key payload rest =
    data-reads fin true opcode key (length payload) (mask_from key 0 payload) rest
      (length-mask_from key 0 payload)
body-reads fin false opcode key payload rest =
    data-reads fin false opcode zero_key (length payload) payload rest refl

flag-reads :
    (mask : Bool) (n : ℕ) (tail : List ℕ) → top_bit (head (length_field mask n ++ tail)) ≡ mask
flag-reads mask n tail =
    ground (arith, top_bit-flagged mask n, top_bit-flagged mask 126, top_bit-flagged mask 127)

module _ ⦃m : Machine⦄ (zeros : ZeroShifts m) where
  length-reads :
      (f : Frame) (mask : Bool) (n : ℕ) (tail : List ℕ)
      → n < 2 ^ 31
      → length_from f 0 (length_field mask n ++ tail) ≡ body_from f n tail
  unfolding length_from length_16_from length_64_from
  length-reads f mask n tail h = elim (Bool-cases (ltb n 126)) [
    | inl short ↦
        let not_126 : (n == 126) ≡ false = ground arith in
        let not_127 : (n == 127) ≡ false = ground arith in
        rw (short, low_seven mask n (ground arith), not_126, not_127)
    | inr more ↦ elim (Bool-cases (ltb n 65536)) [
      | inl medium ↦ rw (more, medium, low_seven mask 126 (omega arith), two_bytes n)
      | inr long ↦
          let enough : ltb (length (eight_bytes n tail)) 8 ≡ false =
            le→ltb_false _ _ (omega arith) in
          rw (more, long, low_seven mask 127 (omega arith), enough, gather-network zeros n tail h)
    ]
  ]

  mask-reads :
      (f : Frame) (mask : Bool) (k n : ℕ) (tail : List ℕ)
      → Abstract.mask_from f k (length_field mask n ++ tail)
        ≡ length_from (record f { mask = mask }) k (length_field mask n ++ tail)
  mask-reads f mask k n tail =
      mask_from_more f k (length_field mask n ++ tail) (ground arith)
      ∙ ap (λ b. length_from (record f { mask = b }) k (length_field mask n ++ tail))
          (flag-reads mask n tail)

  -- One pass over a frame's bytes and whatever follows them stops behind the frame, with its
  -- fields; here for payloads below 2 ^ 31 bytes.
  pub decode-wire :
      (f : Frame) (rest : List ℕ)
      → IsWireOpcode f.opcode
      → length f.payload < 2 ^ 31
      → decode (wire f ++ rest) ≡ at done (received f) (length f.payload) rest
  unfolding fin_from Abstract.opcode_from
  decode-wire f rest named small =
      rw
        (
          top_bit-flagged f.fin (opcode_value f.opcode % 16) (omega arith),
          low_four f.fin (opcode_value f.opcode % 16) (omega arith),
          named,
          append_assoc (length_field f.mask (length f.payload)) (payload_field f) rest,
        )
        (mask-reads (make f.fin false f.opcode zero_key []) f.mask 0 (length f.payload) _
          ∙ length-reads (make f.fin f.mask f.opcode zero_key []) f.mask (length f.payload) _ small
          ∙ body-reads f.fin f.mask f.opcode f.masking_key f.payload rest)
