-- ===== src/Tests/Streams.antt =====
-- Streams of frames, what a frame prints as, and the bytes of the factory, at concrete inputs.
use fast_websocket_client.Base.{
  ℕ, suc, ◌≡◌, refl, true, List, [], ◌∷◌, ◌++◌, some, arith, replicate, length, All,
}
use mathlib.Core.List.{map}
use fast_websocket_client.Exec.{ok}
use fast_websocket_client.Frame.{Frame, Opcode}
use fast_websocket_client.Frame.Printing.{opcode_to_string, print, print-injective}
use fast_websocket_client.FrameParser.{FrameParser, initial}
use fast_websocket_client.FrameParser.Abstract.{IsValid}
use fast_websocket_client.FrameParser.Chunks.{IsSendable, updates}
use fast_websocket_client.FrameParser.Chunks.Delivery.{updates-wires}
use fast_websocket_client.FrameParser.RoundTrip.{text-IsWireOpcode, ping-IsWireOpcode, received}
use fast_websocket_client.FrameParser.Stream.{IsIdle}
use fast_websocket_client.FrameParser.Valid.{initial-IsValid}
use fast_websocket_client.FrameFactory.{construct}
use fast_websocket_client.FrameFactory.Bytes.{construct-IsByte}
use fast_websocket_client.Random.Cache.{IsByte, IsFilled}
use fast_websocket_client.Tests.Frames.{
  register, register-ZeroShifts, initial-IsIdle, hello, some_factory, some_cache-IsFilled,
}

abbrev empty_ping : Frame
empty_ping = record hello { opcode = Opcode.ping; payload = [] }

abbrev frames : List Frame
frames = hello ∷ empty_ping ∷ []

frames-IsSendable : All IsSendable frames
frames-IsSendable = (
  record { named = text-IsWireOpcode; small = omega arith },
  (record { named = ping-IsWireOpcode; small = omega arith }, tt),
)

-- The bytes of the two frames, cut within both.
abbrev chunks : List (List ℕ)
chunks = (0x81 ∷ []) ∷ [] ∷ (2 ∷ 104 ∷ []) ∷ (105 ∷ 0x89 ∷ []) ∷ (0 ∷ []) ∷ []

updates-wires_example :
    (q : FrameParser) × (updates initial (chunks ++ replicate (suc (length frames)) [])
      ≡ some (map received frames, q))
    × IsValid q
    × IsIdle q []
updates-wires_example =
    updates-wires register-ZeroShifts initial chunks frames initial-IsValid initial-IsIdle
      frames-IsSendable refl

-- An unmasked frame prints the same whatever its key.
abbrev keyed : Frame
keyed = record hello { masking_key = record { k0 = 1; k1 = 2; k2 = 3; k3 = 4 } }

same_line : print hello ≡ print keyed
unfolding print
same_line = refl

print-injective_example :
    (hello.fin ≡ keyed.fin)
    × (opcode_to_string hello.opcode ≡ opcode_to_string keyed.opcode)
    × (hello.mask ≡ keyed.mask)
    × (hello.mask ≡ true → hello.masking_key ≡ keyed.masking_key)
    × (hello.payload ≡ keyed.payload)
print-injective_example = print-injective hello keyed same_line

construct-IsByte_example :
    (bytes : List ℕ) × ((construct true Opcode.text true (104 ∷ []) some_factory).0 ≡ ok bytes)
    × All IsByte bytes
    × IsFilled (construct true Opcode.text true (104 ∷ []) some_factory).1.random
construct-IsByte_example =
    construct-IsByte true Opcode.text true (104 ∷ []) some_factory some_cache-IsFilled
      (omega arith, tt)
