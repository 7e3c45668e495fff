-- ===== src/Tests/Programs.antt =====
-- The programs under examples/, and the client's behaviour on a bad or a silent connection, at concrete
-- inputs.
use fast_websocket_client.Base.{
  ℕ, List, ◌^◌, ◌<◌, length, ◌+◌, ◌≡◌, refl, sym, append-nil, true, [], ◌∷◌, ◌++◌, arith, replicate,
}
use fast_websocket_client.Exec.{Error, ok, throw, socket_error, ◌>>=◌}
use fast_websocket_client.Exec.Keeps.{Allowed}
use fast_websocket_client.Frame
use fast_websocket_client.Frame.{Frame}
use fast_websocket_client.FrameBuffer
use fast_websocket_client.FrameFactory
use fast_websocket_client.FrameParser
use fast_websocket_client.Random
use fast_websocket_client.FrameParser.Abstract.{IsValid}
use fast_websocket_client.FrameParser.Beyond.{IsBlind}
use fast_websocket_client.Socket.{Platform, NoFault, Reliable}
use fast_websocket_client.Client.{ConnectionStatus, Event, Call, Handler, System}
use fast_websocket_client.Client.Methods
use fast_websocket_client.Client.Session
use fast_websocket_client.Client.Session.{switching, blank_line, close}
use fast_websocket_client.Client.Callbacks.{call, callback_at, run_program}
use fast_websocket_client.Client.Lifetime.{lifetime}
use fast_websocket_client.Client.Safety.{lifetime-NoFault}
use fast_websocket_client.Client.Refusal.{close-refused}
use fast_websocket_client.Examples.{Output, poll_while}
use fast_websocket_client.Examples.Example
use fast_websocket_client.Examples.Silence.{Quiet, Waits, TimedOut, poll_while-silent}
use fast_websocket_client.Os.{Os, Sent}
use fast_websocket_client.SocketWrapper.{Held, send, send_loop}
use fast_websocket_client.SocketWrapper.Link.{tcp_platform}
use fast_websocket_client.SocketWrapper.Transfers.{positive_int-small}
use fast_websocket_client.Tests.Sockets.{Kernel, kernel_os, booted}
use fast_websocket_client.Tests.Descriptors.{around}
use fast_websocket_client.Tests.Frames.{register, initial-IsIdle, hello}
use fast_websocket_client.Tests.Connection.{accepting, fresh, calls}

instance abbrev example_handler : Handler
example_handler = Example.handler

abbrev started : System ℕ Output
started = record { client = fresh; handler = []; world = 70000000000 }

accepting-Reliable : Reliable accepting
accepting-Reliable = record {
  at_open = λ host port w. tt;
  at_send = λ bytes w. tt;
  at_read = λ n w. tt;
  at_read_into = λ b hint w h. record {
    came = [];
    appended = sym (append-nil _);
    moved = omega arith;
    within = h;
    told = refl;
  };
}

fresh-IsValid : IsValid fresh.parser
fresh-IsValid = record { read_within = omega arith; write_within = omega arith }

lifetime-NoFault_example :
    IsValid (lifetime 3 1 calls started).client.parser
    × IsBlind (lifetime 3 1 calls started).client.parser
    × Allowed NoFault (Session.construct (callback_at 3) 1 started).0
    × Allowed NoFault (call (callback_at 3) (Call.poll 2) (lifetime 3 1 calls started)).0
lifetime-NoFault_example =
    lifetime-NoFault accepting-Reliable 3 1 calls (Call.poll 2) started fresh-IsValid

-- A server whose answers begin with a CLOSE frame.
abbrev closing_server : Platform
closing_server = record accepting {
  read = λ n w. (ok ((0x88 ∷ 0 ∷ []) ++ (switching ++ blank_line)), w);
}

abbrev connected : System ℕ Output
connected = record started {
  client = record fresh {
    status = ConnectionStatus.healthy;
    connection_open = true;
    waiting_for_ping = true;
    ping_timer = 70000000000;
  };
  world = 79999999999;
}

abbrev echoed : Frame
echoed = record hello { payload = Example.greeting }

greeting_returns :
    (callback_at ⦃platform = closing_server⦄ 2 (Event.on_text echoed) connected).0 ≡ ok tt
unfolding Example.on_text ◌>>=◌ Session.close Session.close_open Session.poll Session.poll_loop
    Session.await_close Methods.next_frame Methods.update_ping Methods.elapsed Methods.send_close
    Methods.send Methods.parse_view Methods.parsed callback_at run_program Example.react
    Example.on_close FrameFactory.close FrameFactory.construct Frame.construct FrameBuffer.push_back
    FrameBuffer.ensure_fit FrameBuffer.copy_in FrameBuffer.push_back_view Frame.mask_from
    Random.next_key FrameParser.clear FrameParser.update FrameParser.update_view FrameParser.parse
    FrameParser.check_fin_bit FrameParser.check_opcode FrameParser.check_mask_bit
    FrameParser.check_payload_len FrameParser.check_extended_payload_len_16
    FrameParser.check_extended_payload_len_64 FrameParser.check_masking_key
    FrameParser.check_payload_data FrameParser.reset Frame.opcode_of FrameParser.top_bit
greeting_returns = refl

-- The clock moves on by a nanosecond with each reading.
abbrev ticking : Platform
ticking = record accepting { clock = λ w. (w, w + 1) }

abbrev ticking_quiet : Quiet ticking
ticking_quiet = record {
  time = λ w. w;
  at_clock = λ w. (refl, omega arith);
  at_read_into = λ b hint w h. (
    b,
    refl,
    record {
      came = [];
      appended = sym (append-nil _);
      moved = omega arith;
      within = h;
      told = refl;
    },
  );
  at_read_time = λ b hint w. omega arith;
}

connected-Waits : Waits ⦃platform = ticking⦄ ticking_quiet 3 connected
connected-Waits = record { valid = fresh-IsValid; idle = initial-IsIdle; waiting = refl; up = refl }

poll_while-silent_example :
    TimedOut ⦃platform = ticking⦄ ticking_quiet 3 connected
      (poll_while ⦃platform = ticking⦄ 3 (replicate 3 true) connected)
poll_while-silent_example =
    poll_while-silent ⦃platform = ticking⦄ ticking_quiet 3 2 connected connected-Waits (omega arith)

-- A kernel that refuses every send, below a socket with a descriptor.
abbrev refusing_os : Os
refusing_os = record kernel_os { send = λ fd bytes w. (Sent.refused, w) }

abbrev refusing : Platform
refusing = tcp_platform refusing_os around

refusing-refuses :
    (x : ℕ) (xs : List ℕ) (w : Held Kernel)
    → length (x ∷ xs) < 2 ^ 31
    → (e : Error) × ((refusing.send (x ∷ xs) w).0 ≡ throw e)
unfolding send send_loop ◌>>=◌
refusing-refuses x xs w h = (socket_error, rw (positive_int-small (length (x ∷ xs)) h) refl)

abbrev unplugged : System (Held Kernel) Output
unplugged = record { client = connected.client; handler = []; world = booted }

close-refused_example :
    (e : Error) × ((close ⦃platform = refusing⦄
        (callback_at ⦃platform = refusing⦄ 3)
        10
        unplugged).0
      ≡ throw e)
close-refused_example = close-refused ⦃platform = refusing⦄ refusing-refuses 3 10 unplugged refl
