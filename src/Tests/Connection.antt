-- ===== src/Tests/Connection.antt =====
-- The client (include/fastws/fastws.hpp) and its handshake at concrete inputs.
use fast_websocket_client.Base.{
  Option, ℕ, ◌+◌, ◌≡◌, refl, true, false, List, [], ◌∷◌, ◌++◌, some, arith,
}
use fast_websocket_client.Exec.{ok, ◌>>=◌}
use fast_websocket_client.FrameBuffer.{FrameBuffer, push_back, ensure_fit, copy_in}
use fast_websocket_client.Frame.{Frame, Opcode, mask_from}
use fast_websocket_client.Frame
use fast_websocket_client.FrameFactory
use fast_websocket_client.Random.{next_key}
use fast_websocket_client.FrameParser.{FrameParser, initial, update_view, update, clear}
use fast_websocket_client.FrameParser.Valid.{initial-IsValid}
use fast_websocket_client.FrameParser.Stream.{IsIdle}
use fast_websocket_client.FrameFactory.Frames.{unmasked}
use fast_websocket_client.Handshake.{codes, crlf, build_websocket_handshake_request}
use fast_websocket_client.Handshake.Request.{read_lines, read_lines-build}
use fast_websocket_client.Socket.{Platform}
use fast_websocket_client.Client.{ConnectionStatus, Client, Event, Call, Program, Handler, System}
use fast_websocket_client.Client.Session.{
  switching, blank_line, poll, poll_loop, close, close_open, await_close, dispatch,
}
use fast_websocket_client.Client.Methods.{update_ping, next_frame, elapsed, send, send_close}
use fast_websocket_client.Client.Callbacks.{callback_at, run_program}
use fast_websocket_client.Client.Lifetime.{run_calls, lifetime}
use fast_websocket_client.Client.Status.{
  is_healthy, IsSynced, IsClosed, run_calls-IsClosed, lifetime-IsSynced,
}
use fast_websocket_client.Client.Ends.{close_lem, poll_lem}
use fast_websocket_client.FrameParser.Abstract.{reading, run}
use fast_websocket_client.FrameParser.Abstract.Resume.{feed}
use fast_websocket_client.FrameParser.Updates.{Outcome, settle}
use fast_websocket_client.Client.Arrivals.{next_frame-Outcome}
use fast_websocket_client.Client.Heartbeat.{dispatch-pong, update_ping-unanswered}
use fast_websocket_client.Tests.Frames.{
  register, register-ZeroShifts, initial-IsIdle, some_factory, hello,
}

-- A server that answers each `read` with the response of the handshake, and stores nothing in the
-- buffer of the parser. The world is the time.
instance abbrev pub accepting : Platform
accepting = record {
  World = ℕ;
  open_socket = λ host port w. (ok tt, w);
  send = λ bytes w. (ok tt, w);
  read = λ n w. (ok (switching ++ blank_line), w);
  read_into = λ b hint w. (ok (false, b), w);
  clock = λ w. (w, w);
  sleep = λ w. w + 100000000;
  random_byte = λ w. (7, w);
  base64 = λ bytes. bytes;
}

-- A handler that closes the connection when a text comes.
instance abbrev closing : Handler
closing = record {
  H = Unit {0};
  react = λ h event. elim event [
    | Event.on_text frame ↦ Program.invoke h (Call.close 0) (λ h' reply. Program.return h')
    | _ ↦ Program.return h
  ];
}

abbrev pub fresh : Client
fresh = record {
  host = 104 ∷ [];
  path = 47 ∷ [];
  port = 80;
  extra_headers = [];
  parser = record initial { frame_buffer = record { buf = 0 ∷ 0 ∷ []; ptr = 0 } };
  factory = some_factory;
  status = ConnectionStatus.unknown;
  connection_open = false;
  ping_timer = 0;
  waiting_for_ping = false;
  ping_every = 60000;
  ping_timeout = 10000;
  last_rtt = 0;
}

abbrev started : System ℕ (Unit {0})
started = record { client = fresh; handler = tt; world = 70000000000 }

abbrev connected : System ℕ (Unit {0})
connected = record {
  client = record fresh { status = ConnectionStatus.healthy; connection_open = true };
  handler = tt;
  world = 70000000000;
}

abbrev pub calls : List Call
calls = Call.send_text (104 ∷ []) ∷ Call.poll 4 ∷ Call.close 1 ∷ []

lifetime-IsSynced_example : IsSynced (lifetime 3 1 calls started).client
lifetime-IsSynced_example = lifetime-IsSynced 3 1 calls started refl

run_calls-IsClosed_example : IsClosed (run_calls 3 calls started).client
run_calls-IsClosed_example = run_calls-IsClosed 3 calls started refl

abbrev pinged : Frame
pinged = record hello { opcode = Opcode.ping }

dispatch-pong_example :
    (bytes : List ℕ) × (g : Frame) × (q : FrameParser) × ((dispatch
        (callback_at 3)
        pinged
        connected).1.world
      ≡ (accepting.send bytes connected.world).1)
    × (update_view initial (bytes ++ []) ≡ some (q, some g))
    × (g.opcode ≡ Opcode.pong)
    × (g.fin ≡ true)
    × (unmasked g ≡ pinged.payload)
    × IsIdle q []
dispatch-pong_example =
    dispatch-pong (callback_at 3) pinged connected [] initial register-ZeroShifts initial-IsValid
      initial-IsIdle refl (omega arith)

update_ping-unanswered_example :
    let pinged = (update_ping connected).1 in
    let ended = (update_ping (record pinged { world = 90000000000 })).1 in
    (pinged.client.connection_open ≡ connected.client.connection_open)
    × (pinged.client.status ≡ connected.client.status)
    × (ended.client.connection_open ≡ false)
    × (ended.client.status ≡ ConnectionStatus.ping_timed_out)
    × (ended.world ≡ (accepting.clock 90000000000).1)
update_ping-unanswered_example =
    update_ping-unanswered connected 90000000000 refl (omega arith) (omega arith)

abbrev calm : System ℕ (Unit {0})
calm = record connected { world = 1 }

close_returns : (close (callback_at 1) 0 calm).0 ≡ ok false
unfolding close close_open poll poll_loop next_frame update update_ping elapsed send_close
    FrameFactory.close FrameFactory.construct Frame.construct push_back ensure_fit copy_in mask_from
    next_key clear send await_close callback_at run_program ◌>>=◌
close_returns = refl

close_lem_example : IsClosed (close (callback_at 1) 0 calm).1.client
close_lem_example = close_lem 1 0 calm false close_returns

poll_returns : (poll (callback_at 1) 4 calm).0 ≡ ok ConnectionStatus.healthy
unfolding poll poll_loop next_frame update update_ping elapsed ◌>>=◌
poll_returns = refl

poll_lem_example :
    (poll (callback_at 1) 4 calm).1.client.connection_open ≡ is_healthy ConnectionStatus.healthy
poll_lem_example = poll_lem 1 4 calm ConnectionStatus.healthy refl poll_returns

read_lines-build_example :
    read_lines 6 (build_websocket_handshake_request (104 ∷ []) (47 ∷ []) (75 ∷ []) []) ≡ (
      (codes "GET " ++ (47 ∷ []) ++ codes " HTTP/1.1")
          ∷ (codes "Host: " ++ (104 ∷ []))
          ∷ codes "Upgrade: websocket"
          ∷ codes "Connection: Upgrade"
          ∷ (codes "Sec-WebSocket-Key: " ++ (75 ∷ []))
          ∷ codes "Sec-WebSocket-Version: 13"
          ∷ [],
      [] ++ crlf,
    )
read_lines-build_example = read_lines-build (104 ∷ []) (47 ∷ []) (75 ∷ []) [] refl refl refl

-- A socket that brings an empty text frame.
abbrev filled : FrameBuffer
filled = record { buf = 0x81 ∷ 0 ∷ []; ptr = 2 }

abbrev chatty : Platform
chatty = record accepting { read_into = λ b hint w. (ok (true, filled), w) }

next_frame-Outcome_example :
    (out : Option Frame) × ((next_frame ⦃platform = chatty⦄ calm).0 ≡ ok out)
    × Outcome
        (run (feed (settle (reading calm.client.parser)) (0x81 ∷ 0 ∷ [])))
        (next_frame ⦃platform = chatty⦄ calm).1.client.parser
        out
next_frame-Outcome_example =
    next_frame-Outcome ⦃platform = chatty⦄ calm filled
      (record { read_within = omega arith; write_within = omega arith }) refl
      (record {
        came = 0x81 ∷ 0 ∷ [];
        appended = refl;
        moved = refl;
        within = omega arith;
        told = refl;
      })
