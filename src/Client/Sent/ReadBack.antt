-- ===== src/Client/Sent/ReadBack.antt =====
-- What a receiver reads of the messages that a client (include/fastws/fastws.hpp) hands to its socket.
use fast_websocket_client.Base.{
  ℕ, ◌^◌, ◌<◌, ◌≡◌, refl, sym, ap, subst, ◌∙◌, true, List, [], ◌∷◌, ◌++◌, some, length,
}
use fast_websocket_client.Exec.{ok, ◌>>=◌}
use fast_websocket_client.Frame.{Frame, Opcode}
use fast_websocket_client.Frame.Wire.{wire}
use fast_websocket_client.FrameFactory
use fast_websocket_client.FrameFactory.{FrameFactory, frame_with}
use fast_websocket_client.FrameFactory.Frames.{unmasked, construct-returns, construct-update_view}
use fast_websocket_client.FrameParser.{Machine, FrameParser, update_view}
use fast_websocket_client.FrameParser.Abstract.{IsValid}
use fast_websocket_client.FrameParser.LengthField.{ZeroShifts}
use fast_websocket_client.FrameParser.RoundTrip.{
  IsWireOpcode, text-IsWireOpcode, binary-IsWireOpcode,
}
use fast_websocket_client.FrameParser.Stream.{IsIdle}
use fast_websocket_client.Socket.{Platform}
use fast_websocket_client.Client.{Event, Call, Program, Handler, System}
use fast_websocket_client.Client.Methods.{Method, on_factory, send, send_text, send_binary}
use fast_websocket_client.Client.Callbacks.{
  run_program, world-invoke, world-send_text, world-send_binary,
}
use fast_websocket_client.Client.Sent.{Log, logging}

-- One more was sent, and the receiver's parser reads it as the whole message.
pub record ReadBack ⦃machine : Machine⦄ (opcode : Opcode) (payload rest : List ℕ) (q : FrameParser)
    (sent sent' : List (List ℕ)) : Type 0 where
  pub bytes : List ℕ
  pub appended : sent' ≡ sent ++ (bytes ∷ [])
  pub frame : Frame
  pub after : FrameParser
  pub reads : update_view q (bytes ++ rest) ≡ some (after, some frame)
  pub same_opcode : frame.opcode ≡ opcode
  pub final : frame.fin ≡ true
  pub same_payload : unmasked frame ≡ payload
  pub idle : IsIdle after rest

ok_injective : {xs ys : List ℕ} → ok xs ≡ ok ys → xs ≡ ys
ok_injective e = cc

module _ (p : Platform) ⦃handler : Handler⦄ ⦃machine : Machine⦄ (zeros : ZeroShifts machine) where
  construct_send-sent :
      (opcode : Opcode) (payload : List ℕ) (s : System (Log p.World) handler.H)
      → ((on_factory ⦃platform = logging p⦄ (FrameFactory.construct true opcode true payload)
            >>= send ⦃platform = logging p⦄)
          s).1.world.sent
        ≡ s.world.sent ++ (wire (frame_with s.client.factory true opcode true payload) ∷ [])
  unfolding send ◌>>=◌
  construct_send-sent opcode payload s =
      rw (construct-returns true opcode true payload s.client.factory).0 refl

  construct_send-ReadBack :
      (opcode : Opcode) (payload rest : List ℕ) (q : FrameParser)
      (s : System (Log p.World) handler.H)
      → IsValid q
      → IsIdle q []
      → IsWireOpcode opcode
      → length payload < 2 ^ 31
      → ReadBack opcode payload rest q s.world.sent
          ((on_factory ⦃platform = logging p⦄ (FrameFactory.construct true opcode true payload)
              >>= send ⦃platform = logging p⦄)
            s).1.world.sent
  construct_send-ReadBack opcode payload rest q s v idle named small =
      let (bytes, f, after, made, reads, same_opcode, final, _, _, _, same_payload, idle') =
        construct-update_view opcode payload rest s.client.factory q zeros v idle named small in
      let same : wire (frame_with s.client.factory true opcode true payload) ≡ bytes =
        ok_injective (sym (construct-returns true opcode true payload s.client.factory).0 ∙ made) in
      record {
        bytes = bytes;
        appended = construct_send-sent opcode payload s ∙ ap (λ b. s.world.sent ++ (b ∷ [])) same;
        frame = f;
        after = after;
        reads = reads;
        same_opcode = same_opcode;
        final = final;
        same_payload = same_payload;
        idle = idle';
      }

  -- A text given to the client goes to the socket as the bytes of one frame.
  pub send_text-ReadBack :
      (payload rest : List ℕ) (q : FrameParser) (s : System (Log p.World) handler.H)
      → IsValid q
      → IsIdle q []
      → length payload < 2 ^ 31
      → ReadBack Opcode.text payload rest q s.world.sent
          (send_text ⦃platform = logging p⦄ payload s).1.world.sent
  unfolding send_text FrameFactory.text
  send_text-ReadBack payload rest q s v idle small =
      construct_send-ReadBack Opcode.text payload rest q s v idle text-IsWireOpcode small

  pub send_binary-ReadBack :
      (payload rest : List ℕ) (q : FrameParser) (s : System (Log p.World) handler.H)
      → IsValid q
      → IsIdle q []
      → length payload < 2 ^ 31
      → ReadBack Opcode.binary payload rest q s.world.sent
          (send_binary ⦃platform = logging p⦄ payload s).1.world.sent
  unfolding send_binary FrameFactory.binary
  send_binary-ReadBack payload rest q s v idle small =
      construct_send-ReadBack Opcode.binary payload rest q s v idle binary-IsWireOpcode small

  -- A callback that sends one message and returns.
  pub invoke_text-ReadBack :
      (callback : Event → Method ⦃platform = logging p⦄ (Unit {0})) (h : handler.H)
      (payload rest : List ℕ) (q : FrameParser) (s : System (Log p.World) handler.H)
      → IsValid q
      → IsIdle q []
      → length payload < 2 ^ 31
      → ReadBack Opcode.text payload rest q s.world.sent
          (run_program ⦃platform = logging p⦄ callback
            (Program.invoke h (Call.send_text payload) (λ h' reply. Program.return h'))
            s).1.world.sent
  invoke_text-ReadBack callback h payload rest q s v idle small =
      let s' = record s { handler = h } in
      subst (λ w. ReadBack Opcode.text payload rest q s.world.sent w.sent)
        (sym (
          world-invoke ⦃platform = logging p⦄ callback h (Call.send_text payload) s
          ∙ world-send_text ⦃platform = logging p⦄ callback payload s'))
        (send_text-ReadBack payload rest q s' v idle small)

  pub invoke_binary-ReadBack :
      (callback : Event → Method ⦃platform = logging p⦄ (Unit {0})) (h : handler.H)
      (payload rest : List ℕ) (q : FrameParser) (s : System (Log p.World) handler.H)
      → IsValid q
      → IsIdle q []
      → length payload < 2 ^ 31
      → ReadBack Opcode.binary payload rest q s.world.sent
          (run_program ⦃platform = logging p⦄ callback
            (Program.invoke h (Call.send_binary payload) (λ h' reply. Program.return h'))
            s).1.world.sent
  invoke_binary-ReadBack callback h payload rest q s v idle small =
      let s' = record s { handler = h } in
      subst (λ w. ReadBack Opcode.binary payload rest q s.world.sent w.sent)
        (sym (
          world-invoke ⦃platform = logging p⦄ callback h (Call.send_binary payload) s
          ∙ world-send_binary ⦃platform = logging p⦄ callback payload s'))
        (send_binary-ReadBack payload rest q s' v idle small)
