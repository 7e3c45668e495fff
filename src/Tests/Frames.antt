-- ===== src/Tests/Frames.antt =====
-- Frames, the parser and the factory (single_header/fastws.hpp) at concrete inputs.
use fast_websocket_client.Base.{
  ℕ, zero, suc, ◌+◌, ◌-◌, ◌*◌, All, ◌^◌, ◌%◌, ◌≤◌, ◌<◌, ◌≡◌, refl, true, false, List, [], ◌∷◌, ◌++◌,
  Option, none, some, arith, replicate, length,
}
use fast_websocket_client.Exec.{ok, throw, ping_payload, pong_payload, close_payload}
use fast_websocket_client.FrameBuffer.{FrameBuffer, view, push_back_view}
use fast_websocket_client.FrameBuffer
use fast_websocket_client.Frame.{
  Frame, Opcode, MaskingKey, empty_frame, zero_key, opcode_of, mask_from, key_bytes,
}
use fast_websocket_client.Frame
use fast_websocket_client.Frame.Wire.{wire, construct-wire}
use fast_websocket_client.FrameParser.{
  Machine, ParseStage, FrameParser, initial, parse, result, update_view, update, check_fin_bit,
  check_opcode, check_mask_bit, check_payload_len, check_extended_payload_len_16,
  check_extended_payload_len_64, check_masking_key, check_payload_data,
}
use fast_websocket_client.FrameParser.Abstract.{IsValid, reading, run}
use fast_websocket_client.FrameParser.Abstract.Refine.{parse-run}
use fast_websocket_client.FrameParser.Valid.{initial-IsValid}
use fast_websocket_client.FrameParser.LengthField.{ZeroShifts, eight_bytes}
use fast_websocket_client.FrameParser.RoundTrip.{text-IsWireOpcode, received}
use fast_websocket_client.FrameParser.Stream.{
  IsIdle, update_view-append, update_view-wire, update-false-wire,
}
use fast_websocket_client.FrameParser.Oversized.{oversized-waits}
use fast_websocket_client.Random.{RandomCache, next_key}
use fast_websocket_client.Random.Cache.{IsFilled}
use fast_websocket_client.FrameFactory.{FrameFactory, frame_with, construct, ping, pong, close}
use fast_websocket_client.FrameFactory.Frames.{
  unmasked, IsMaskedWith, construct-update_view, control_limit,
}

-- The shift of a 32-bit register by the low five bits of its count.
instance abbrev pub register : Machine
register = record { wide_shift = λ byte k. (byte * 2 ^ (k % 32)) % 2 ^ 32 }

pub register-ZeroShifts : ZeroShifts register
register-ZeroShifts k = omega arith

pub initial-IsIdle : IsIdle initial []
initial-IsIdle = refl

abbrev pub hello : Frame
hello = record {
  fin = true;
  mask = false;
  opcode = Opcode.text;
  masking_key = zero_key;
  payload = 104 ∷ 105 ∷ [];
}

abbrev pub some_cache : RandomCache
some_cache = record { random = record { s0 = 1; s1 = 2 }; cache = replicate 32 7; cache_ptr = 28 }

abbrev pub some_factory : FrameFactory
some_factory = record { buf = FrameBuffer.initial 16; random = some_cache }

-- A parser with a small buffer, and the one that has read the first byte of `hello`.
abbrev small : FrameParser
small = record initial { frame_buffer = record { buf = 0 ∷ 0 ∷ []; ptr = 0 } }

first_byte : (q : FrameParser) × (update_view small (0x81 ∷ []) ≡ some (q, none))
unfolding update_view push_back_view parse check_payload_data check_masking_key
    check_extended_payload_len_64 check_extended_payload_len_16 check_payload_len check_mask_bit
    check_opcode check_fin_bit
first_byte = (_, refl)

update_view-wire_example :
    (q : FrameParser) × (update_view initial (wire hello ++ (0x89 ∷ []))
      ≡ some (q, some (received hello)))
    × IsIdle q (0x89 ∷ [])
    × IsValid q
update_view-wire_example =
    update_view-wire initial hello (0x89 ∷ []) register-ZeroShifts initial-IsValid initial-IsIdle
      text-IsWireOpcode (omega arith)

construct-update_view_example :
    (bytes : List ℕ) × (f : Frame) × (q : FrameParser) × ((construct true Opcode.text true
        (104 ∷ 105 ∷ [])
        some_factory).0
      ≡ ok bytes)
    × (update_view initial (bytes ++ []) ≡ some (q, some f))
    × (f.opcode ≡ Opcode.text)
    × (f.fin ≡ true)
    × (f.mask ≡ true)
    × (f.masking_key ≡ (next_key some_factory.random).0)
    × IsMaskedWith (key_bytes f.masking_key) (104 ∷ 105 ∷ []) f.payload
    × (unmasked f ≡ 104 ∷ 105 ∷ [])
    × IsIdle q []
construct-update_view_example =
    construct-update_view Opcode.text (104 ∷ 105 ∷ []) [] some_factory initial register-ZeroShifts
      initial-IsValid initial-IsIdle text-IsWireOpcode (omega arith)

construct-wire_example :
    (out : FrameBuffer) × (Frame.construct hello (FrameBuffer.initial 4) ≡ some out)
    × (view out ≡ wire hello)
construct-wire_example = construct-wire hello (FrameBuffer.initial 4)

abbrev one : List ℕ
one = 1 ∷ []

control_limit_example :
    (125 < length one
      → (ping true one some_factory ≡ (throw ping_payload, some_factory))
        × (pong true one some_factory ≡ (throw pong_payload, some_factory))
        × (close true one some_factory ≡ (throw close_payload, some_factory)))
    × (length one ≤ 125
        → ((ping true one some_factory).0
            ≡ ok (wire (frame_with some_factory true Opcode.ping true one)))
          × ((pong true one some_factory).0
              ≡ ok (wire (frame_with some_factory true Opcode.pong true one)))
          × ((close true one some_factory).0
              ≡ ok (wire (frame_with some_factory true Opcode.close true one))))
control_limit_example = control_limit true one some_factory

sevens-All : (n : ℕ) → All (λ b. b < 256) (replicate n 7)
sevens-All zero = tt
sevens-All (suc n) = (omega arith, sevens-All n)

pub some_cache-IsFilled : IsFilled some_cache
some_cache-IsFilled = record {
  full = refl;
  bytes = sevens-All 32;
  aligned = refl;
  within = omega arith;
}

-- A parser whose buffer holds the bytes of `hello`, and one byte more.
abbrev loaded : FrameParser
loaded = record initial {
  frame_buffer = record { buf = 0x81 ∷ 2 ∷ 104 ∷ 105 ∷ 0x89 ∷ 0 ∷ []; ptr = 5 };
}

-- The parser behind the opcode of a PING frame, at its mask bit, with two bytes unread.
abbrev at_mask : FrameParser
at_mask = record initial {
  stage = ParseStage.mask_bit;
  frame = record empty_frame { fin = true; opcode = Opcode.ping };
  frame_buffer = record { buf = 0x89 ∷ 1 ∷ 42 ∷ 0 ∷ []; ptr = 3 };
  ptr = 1;
}

parse-run_example : reading (parse at_mask) ≡ run (reading at_mask)
parse-run_example =
    parse-run at_mask (record { read_within = omega arith; write_within = omega arith })

update-false-wire_example :
    ((update loaded false).1 ≡ some (received hello))
    × IsIdle (update loaded false).0 (0x89 ∷ [])
    × IsValid (update loaded false).0
update-false-wire_example =
    update-false-wire loaded hello (0x89 ∷ []) register-ZeroShifts
      (record { read_within = omega arith; write_within = omega arith }) refl text-IsWireOpcode
      (omega arith)

-- A parser that has read up to a length of 2 ^ 31 bytes.
abbrev at_length : FrameParser
at_length = record {
  stage = ParseStage.extended_payload_len_64;
  frame = empty_frame;
  frame_buffer = record { buf = eight_bytes (2 ^ 31) []; ptr = 8 };
  payload_length = 0;
  ptr = 0;
}

oversized-waits_example :
    (result (parse at_length) ≡ none)
    × ((parse at_length).payload_length ≡ 2 ^ 31 + (2 ^ 64 - 2 ^ 32))
oversized-waits_example =
    oversized-waits register-ZeroShifts at_length (2 ^ 31) []
      (record { read_within = omega arith; write_within = omega arith }) refl refl refl
      (omega arith) (omega arith) (omega arith)

update_view-append_example :
    (q₁ q₂ : FrameParser) × (out : Option Frame) × (update_view first_byte.0 (2 ∷ 104 ∷ 105 ∷ [])
      ≡ some (q₁, out))
    × (update_view small ((0x81 ∷ []) ++ (2 ∷ 104 ∷ 105 ∷ [])) ≡ some (q₂, out))
    × (reading q₁ ≡ reading q₂)
update_view-append_example =
    update_view-append small (0x81 ∷ []) (2 ∷ 104 ∷ 105 ∷ [])
      (record { read_within = omega arith; write_within = omega arith }) (omega arith) (omega arith)
      first_byte.1
