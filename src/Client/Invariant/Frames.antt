-- ===== src/Client/Invariant/Frames.antt =====
-- What the factory makes for the methods of a client (include/fastws/fastws.hpp) that send a frame.
use fast_websocket_client.Base.{
  ℕ, ◌≤◌, ◌≡◌, refl, true, if◌then◌else◌, Bool-cases, inl, inr, List, length, ltb, arith,
}
use fast_websocket_client.Exec.{Error, ping_payload, pong_payload, close_payload, raise}
use fast_websocket_client.Exec.Keeps.{Yields}
use fast_websocket_client.Frame.{Frame, Opcode}
use fast_websocket_client.Frame.Wire.{wire}
use fast_websocket_client.FrameFactory
use fast_websocket_client.FrameFactory.{FrameFactory, frame_with}
use fast_websocket_client.FrameFactory.Frames.{construct-returns}
use fast_websocket_client.Client.Invariant.{Makes}

-- The opcodes that a client sends, with the length of the payload.
abbrev pub IsKind : Opcode → ℕ → Type 0
IsKind Opcode.text n = Unit
IsKind Opcode.binary n = Unit
IsKind Opcode.ping n = n ≤ 125
IsKind Opcode.pong n = n ≤ 125
IsKind Opcode.close n = n ≤ 125
IsKind other n = ⊥

-- The bytes of one final masked frame of such a kind, in the RFC's layout.
pub record IsClientFrame (bytes : List ℕ) : Type 0 where
  pub frame : Frame
  pub layout : bytes ≡ wire frame
  pub final : frame.fin ≡ true
  pub masked : frame.mask ≡ true
  pub kind : IsKind frame.opcode (length frame.payload)

module _ (E : Error → Type 0) {G : List ℕ → Type 0}
    (good : (bytes : List ℕ) → IsClientFrame bytes → G bytes) where
  made-Yields :
      (opcode : Opcode) (payload : List ℕ) (f : FrameFactory)
      → IsKind opcode (length payload)
      → Yields G E (FrameFactory.construct true opcode true payload f).0
  unfolding frame_with
  made-Yields opcode payload f kind = rw (construct-returns true opcode true payload f).0 (
      good _ record {
        frame = frame_with f true opcode true payload;
        layout = refl;
        final = refl;
        masked = refl;
        kind = kind;
      })

  control-Yields :
      (opcode : Opcode) (e : Error) (payload : List ℕ) (f : FrameFactory)
      → E e
      → (length payload ≤ 125 → IsKind opcode (length payload))
      → Yields G E
          ((if ltb 125 (length payload)
              then raise e
              else FrameFactory.construct true opcode true payload)
            f).0
  control-Yields opcode e payload f refused kind = elim (Bool-cases (ltb 125 (length payload))) [
    | inl long ↦ rw long refused
    | inr fits ↦ rw fits (made-Yields opcode payload f (kind (ground arith)))
  ]

  -- Each of the methods makes such a frame, or throws the exception of its kind.
  pub client_frames : E ping_payload → E pong_payload → E close_payload → Makes G E
  unfolding FrameFactory.text FrameFactory.binary FrameFactory.ping FrameFactory.pong
      FrameFactory.close
  client_frames refused_ping refused_pong refused_close payload f = (
    made-Yields Opcode.text payload f tt,
    made-Yields Opcode.binary payload f tt,
    control-Yields Opcode.ping ping_payload payload f refused_ping (λ h. h),
    control-Yields Opcode.pong pong_payload payload f refused_pong (λ h. h),
    control-Yields Opcode.close close_payload payload f refused_close (λ h. h),
  )
