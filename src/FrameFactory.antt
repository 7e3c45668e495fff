-- ===== src/FrameFactory.antt =====
-- `wsframe::FrameFactory` (single_header/fastws.hpp): frames of the kinds that a client sends, with a
-- fresh masking key each. The `std::string_view` that a method returns is the list of its bytes.
pub mod Frames
pub mod Bytes
use fast_websocket_client.Base.{
  ℕ, ◌<◌, Bool, true, false, List, [], Option, none, some, if◌then◌else◌, ltb, length,
}
use fast_websocket_client.Exec.{
  Error, ping_payload, pong_payload, close_payload, fault, Result, ok, throw, Exec, raise,
}
use fast_websocket_client.FrameBuffer
use fast_websocket_client.FrameBuffer.{FrameBuffer, view}
use fast_websocket_client.Frame.{Frame, Opcode, MaskingKey, zero_key}
use fast_websocket_client.Frame
use fast_websocket_client.Random.{RandomCache, new_cache, next_key}

pub record FrameFactory : Type 0 where
  pub buf : FrameBuffer
  pub random : RandomCache

-- The constructor, on the two values of `device_random()`.
unfoldable pub new_factory : ℕ → ℕ → FrameFactory
new_factory seed1 seed2 = record { buf = FrameBuffer.initial 4096; random = new_cache seed1 seed2 }

-- The frame that `construct` fills in. An unmasked one leaves its key as it is, and unread.
unfoldable pub frame_with : FrameFactory → Bool → Opcode → Bool → List ℕ → Frame
frame_with s fin opcode mask payload = record {
  fin = fin;
  mask = mask;
  opcode = opcode;
  masking_key = if mask then (next_key s.random).0 else zero_key;
  payload = payload;
}

abbrev store : FrameFactory → RandomCache → Option FrameBuffer → Result (List ℕ) × FrameFactory
store s random none = (throw fault, s)
store s random (some b) = (ok (view b), record { buf = b; random = random })

unfoldable pub construct : Bool → Opcode → Bool → List ℕ → Exec FrameFactory (List ℕ)
unfolding frame_with
construct fin opcode mask payload s =
    store s (if mask then (next_key s.random).1 else s.random)
      (Frame.construct (frame_with s fin opcode mask payload) s.buf)

unfoldable pub text : Bool → Bool → List ℕ → Exec FrameFactory (List ℕ)
text fin mask payload = construct fin Opcode.text mask payload

unfoldable pub binary : Bool → Bool → List ℕ → Exec FrameFactory (List ℕ)
binary fin mask payload = construct fin Opcode.binary mask payload

unfoldable pub ping : Bool → List ℕ → Exec FrameFactory (List ℕ)
ping mask payload =
    if ltb 125 (length payload) then raise ping_payload else construct true Opcode.ping mask payload

unfoldable pub pong : Bool → List ℕ → Exec FrameFactory (List ℕ)
pong mask payload =
    if ltb 125 (length payload) then raise pong_payload else construct true Opcode.pong mask payload

unfoldable pub close : Bool → List ℕ → Exec FrameFactory (List ℕ)
close mask payload =
    if ltb 125 (length payload)
    then raise close_payload
    else construct true Opcode.close mask payload
