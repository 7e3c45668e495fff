-- ===== src/Tests/Closing.antt =====
-- Closing (include/fastws/fastws.hpp) at bad moments: runs of the code.
use fast_websocket_client.Base.{
  ℕ, ◌≡◌, refl, true, false, List, [], ◌∷◌, ◌++◌, ◌+◌, take, drop, ltb, length,
}
use fast_websocket_client.Exec.{ok, ◌>>=◌}
use fast_websocket_client.Frame
use fast_websocket_client.FrameBuffer
use fast_websocket_client.FrameFactory
use fast_websocket_client.FrameParser
use fast_websocket_client.Random
use fast_websocket_client.Client.{Event, System}
use fast_websocket_client.Client.Methods
use fast_websocket_client.Client.Session
use fast_websocket_client.Client.Callbacks.{callback_at, run_program}
use fast_websocket_client.Client.Delivery.{recorder}
use fast_websocket_client.Tests.Frames.{register}
use fast_websocket_client.Tests.Connection.{fresh}
use fast_websocket_client.Client.Delivery.{first}
use fast_websocket_client.Socket.{Platform}
use fast_websocket_client.FrameParser.{initial}

-- The chunks that are still to come are the world.
instance abbrev bringing : Platform
bringing = record {
  World = List (List ℕ);
  open_socket = λ host port w. (ok tt, w);
  send = λ bytes w. (ok tt, w);
  read = λ n w. (ok (first w), drop 1 w);
  read_into = λ b hint w. (
    ok (
      ltb 0 (length (first w)),
      record { buf = take b.ptr b.buf ++ first w; ptr = b.ptr + length (first w) },
    ),
    drop 1 w,
  );
  clock = λ w. (0, w);
  sleep = λ w. w;
  random_byte = λ w. (7, w);
  base64 = λ bytes. bytes;
}

abbrev waiting : System (List (List ℕ)) (List Event)
waiting = record { client = record fresh { parser = initial }; handler = []; world = [] }

-- A frame has come in part when the client closes: the rest of it passes for a CLOSE frame.
abbrev interrupted : System (List (List ℕ)) (List Event)
interrupted = record waiting {
  client = record waiting.client { connection_open = true };
  world = (0x82 ∷ 2 ∷ []) ∷ [] ∷ (0x88 ∷ 0 ∷ []) ∷ [];
}

interrupted_closes : (Session.close (callback_at 3) 1 interrupted).0 ≡ ok true
unfolding Methods.start_timer Methods.send_ping FrameFactory.ping ◌>>=◌ Session.close
    Session.close_open Session.poll Session.poll_loop Session.await_close Methods.next_frame
    Methods.update_ping Methods.elapsed Methods.send_close Methods.send Methods.parse_view
    Methods.parsed callback_at run_program FrameFactory.close FrameFactory.construct Frame.construct
    FrameBuffer.push_back FrameBuffer.ensure_fit FrameBuffer.copy_in FrameBuffer.push_back_view
    Frame.mask_from Random.next_key FrameParser.clear FrameParser.update FrameParser.update_view
    FrameParser.parse FrameParser.check_fin_bit FrameParser.check_opcode FrameParser.check_mask_bit
    FrameParser.check_payload_len FrameParser.check_extended_payload_len_16
    FrameParser.check_extended_payload_len_64 FrameParser.check_masking_key
    FrameParser.check_payload_data FrameParser.reset Frame.opcode_of FrameParser.top_bit
    Session.dispatch
interrupted_closes = refl

-- The server closes while the client does: the handler is told twice.
abbrev crossed : System (List (List ℕ)) (List Event)
crossed = record waiting {
  client = record waiting.client { connection_open = true };
  world = (0x88 ∷ 0 ∷ []) ∷ [];
}

crossed_tells_twice :
    (Session.close (callback_at 3) 0 crossed).1.handler
    ≡ Event.on_close true ∷ Event.on_close false ∷ []
unfolding Methods.start_timer Methods.send_ping FrameFactory.ping ◌>>=◌ Session.close
    Session.close_open Session.poll Session.poll_loop Session.await_close Methods.next_frame
    Methods.update_ping Methods.elapsed Methods.send_close Methods.send Methods.parse_view
    Methods.parsed callback_at run_program FrameFactory.close FrameFactory.construct Frame.construct
    FrameBuffer.push_back FrameBuffer.ensure_fit FrameBuffer.copy_in FrameBuffer.push_back_view
    Frame.mask_from Random.next_key FrameParser.clear FrameParser.update FrameParser.update_view
    FrameParser.parse FrameParser.check_fin_bit FrameParser.check_opcode FrameParser.check_mask_bit
    FrameParser.check_payload_len FrameParser.check_extended_payload_len_16
    FrameParser.check_extended_payload_len_64 FrameParser.check_masking_key
    FrameParser.check_payload_data FrameParser.reset Frame.opcode_of FrameParser.top_bit
    Session.dispatch
crossed_tells_twice = refl
