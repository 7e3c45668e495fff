-- ===== src/Tests/Delivery.antt =====
-- Clients at a server that sends frames in chunks (include/fastws/fastws.hpp), at concrete inputs.
use fast_websocket_client.Base.{
  true, false, All, Option, none, some, if◌then◌else◌, leb, ap, ℕ, zero, suc, ◌≤◌, ◌<◌, ◌≡◌, refl,
  List, [], ◌∷◌, ◌++◌, inl, arith, length, take, drop, replicate,
}
use fast_websocket_client.Frame.{Frame, Opcode}
use fast_websocket_client.FrameParser.{initial}
use fast_websocket_client.FrameParser.Valid.{initial-IsValid}
use fast_websocket_client.FrameParser.RoundTrip.{
  text-IsWireOpcode, ping-IsWireOpcode, binary-IsWireOpcode, close-IsWireOpcode,
}
use fast_websocket_client.Socket.{Platform}
use fast_websocket_client.Client.{Call, System, Event}
use fast_websocket_client.Client.Delivery.{Feeds, first, recorder}
use fast_websocket_client.Client.Delivery.Work.{events}
use fast_websocket_client.Client.Delivery.Polls.{polls-events}
use fast_websocket_client.Client.Lifetime.{run_calls, lifetime}
use fast_websocket_client.Tests.Frames.{register, register-ZeroShifts, initial-IsIdle, hello}
use fast_websocket_client.Client.Session.{close, connect, contains, switching, blank_line}
use fast_websocket_client.Client.Connecting.{Opens, Complete, Concludes, connect-Concludes}
use fast_websocket_client.Client.Connecting.Conversation.{lifetime-events}
use fast_websocket_client.FrameParser.Chunks.{joined}
use fast_websocket_client.Client.Callbacks.{callback_at}
use fast_websocket_client.Client.Closing.{Answers}
use fast_websocket_client.Client.Delivery.Tcp.{arriving, IsShort, Segments, tcp_Feeds, tcp_Answers}
use fast_websocket_client.Client.Delivery.Tcp.Opening.{tcp_Opens}
use fast_websocket_client.Os.{Os, Surroundings, Receipt}
use fast_websocket_client.SocketWrapper.{Held, unconnected}
use fast_websocket_client.SocketWrapper.Link.{tcp_platform}
use fast_websocket_client.Tests.Sockets.{Kernel, kernel_os, booted}
use fast_websocket_client.Client.Closing.Graceful.{Graceful, close-Graceful}
use fast_websocket_client.Tests.Connection.{fresh}

-- A kernel, and the segments that a server sends.
pub record Served : Type 0 where
  pub kernel : Kernel
  pub segments : List (List ℕ)

-- What does not fit stays for the next `recv`.
abbrev recv_segment : ℕ → List (List ℕ) → Receipt × List (List ℕ)
recv_segment n [] = (Receipt.blocked, [])
recv_segment n (c ∷ cs) =
    if leb (length c) n then (arriving c, cs) else (Receipt.came (take n c), drop n c ∷ cs)

instance abbrev pub serving_os : Os
serving_os = record {
  World = Served;
  Address = Unit {0};
  getaddrinfo = λ host port w. (some (tt ∷ []), w);
  freeaddrinfo = λ w. w;
  socket = λ a w. let (fd, k) = kernel_os.socket a w.kernel in (fd, record w { kernel = k });
  set_nodelay = λ d w. w;
  connect = λ d a w. (true, w);
  set_nonblocking = λ d w. w;
  close = λ n w. record w { kernel = kernel_os.close n w.kernel };
  send = λ fd bytes w.
      let (sent, k) = kernel_os.send fd bytes w.kernel in (sent, record w { kernel = k });
  recv = λ fd n w. elim fd [
    | none ↦ (Receipt.refused, w)
    | some d ↦ let (got, later) = recv_segment n w.segments in (got, record w { segments = later })
  ];
  moved_from = λ text. [];
}

abbrev pub still : Surroundings Served
still = record {
  clock = λ w. (0, w);
  sleep = λ w. w;
  random_byte = λ w. (7, w);
  base64 = λ bytes. bytes;
}

recv_segment-short :
    (n : ℕ) (cs : List (List ℕ))
    → 1024 ≤ n
    → All IsShort cs
    → recv_segment n cs ≡ (arriving (first cs), drop 1 cs)
recv_segment-short n [] h short = refl
recv_segment-short n (c ∷ cs) h short =
    let fits : leb (length c) n ≡ true = ground (arith, short.0) in rw fits

abbrev serving : Segments serving_os still
serving = record {
  upcoming = λ w. w.segments;
  at_recv = λ d n w h short.
      let e = recv_segment-short n w.segments h short in (ap (λ t. t.0) e, ap (λ t. t.1) e);
  at_send = λ d x xs w. (refl, refl);
  at_getaddrinfo = λ host port w. (tt, [], refl, refl);
  at_freeaddrinfo = λ w. refl;
  at_socket = λ a w. (w.kernel.count, refl, refl);
  at_set_nodelay = λ d w. refl;
  at_connect = λ d a w. (refl, refl);
  at_set_nonblocking = λ d w. refl;
  at_close = λ d w. refl;
  at_clock = λ w. refl;
  at_sleep = λ w. refl;
  at_random = λ w. refl;
}

instance abbrev pub serving_tcp : Platform
serving_tcp = tcp_platform serving_os still

abbrev feeds : Feeds serving_tcp
feeds = tcp_Feeds ⦃os = serving_os⦄ still serving

abbrev answers : Answers feeds
answers = tcp_Answers ⦃os = serving_os⦄ still serving

abbrev opens : Opens feeds
opens = tcp_Opens ⦃os = serving_os⦄ still serving

-- A wrapper that is connected, or is not yet.
abbrev served : Option ℕ → List (List ℕ) → Held Served
served fd segments = record {
  wrapper = record unconnected { sockfd = fd };
  world = record { kernel = booted.world; segments = segments };
}

abbrev empty_binary : Frame
empty_binary = record hello { opcode = Opcode.binary; payload = [] }

abbrev beat : Frame
beat = record hello { opcode = Opcode.ping; payload = 7 ∷ [] }

abbrev frames : List Frame
frames = hello ∷ beat ∷ empty_binary ∷ []

abbrev pub waiting : System (Held Served) (List Event)
waiting = record {
  client = record fresh { parser = initial };
  handler = [];
  world =
      served (some 3)
        ((0x81 ∷ []) ∷ (2 ∷ 104 ∷ []) ∷ (105 ∷ 0x89 ∷ []) ∷ (1 ∷ 7 ∷ 0x82 ∷ []) ∷ (0 ∷ []) ∷ []);
}

polls-events_example :
    (run_calls 3 (replicate 8 (Call.poll 4)) waiting).handler ≡ [] ++ events frames
polls-events_example =
    polls-events feeds register-ZeroShifts 2 8 waiting frames initial-IsValid initial-IsIdle
      (3, refl, (omega arith, (omega arith, (omega arith, (omega arith, (omega arith, tt))))))
      (
        record { named = text-IsWireOpcode; small = omega arith },
        (
          record { named = ping-IsWireOpcode; small = omega arith },
          (record { named = binary-IsWireOpcode; small = omega arith }, tt),
        ),
      )
      (tt, (omega arith, (tt, tt))) refl (omega arith)

abbrev goodbye : Frame
goodbye = record hello { opcode = Opcode.close; payload = [] }

-- Nothing comes at first, and then a text and a CLOSE frame.
abbrev leaving : System (Held Served) (List Event)
leaving = record waiting {
  client = record waiting.client { connection_open = true };
  world = served (some 3) ([] ∷ (0x81 ∷ 2 ∷ 104 ∷ []) ∷ (105 ∷ 0x88 ∷ []) ∷ (0 ∷ []) ∷ []);
}

close-Graceful_example : Graceful leaving (close (callback_at 3) 1 leaving)
close-Graceful_example =
    close-Graceful feeds answers register-ZeroShifts 2 1 leaving (hello ∷ goodbye ∷ []) refl
      initial-IsValid initial-IsIdle
      (3, refl, (omega arith, (omega arith, (omega arith, (omega arith, tt))))) refl
      (
        record { named = text-IsWireOpcode; small = omega arith },
        (record { named = close-IsWireOpcode; small = omega arith }, tt),
      )
      refl refl (omega arith)

-- Nothing comes but the response, in two parts, and one chunk behind it.
abbrev greeted : System (Held Served) (List Event)
greeted = record waiting {
  world = served none (switching ∷ (blank_line ++ (0x81 ∷ [])) ∷ (0 ∷ []) ∷ []);
}

connect-Concludes_example :
    Concludes feeds answers opens 1 greeted (connect (callback_at 2) 1 greeted)
connect-Concludes_example =
    connect-Concludes feeds answers opens 1 1 greeted
      (omega arith, (omega arith, (omega arith, tt)))

-- The response in two parts, and then a text and a PING frame.
abbrev welcomed : System (Held Served) (List Event)
welcomed = record waiting {
  world =
      served none (switching ∷ blank_line ∷ (0x81 ∷ 2 ∷ 104 ∷ []) ∷ (105 ∷ 0x89 ∷ 1 ∷ 7 ∷ []) ∷ []);
}

two-Complete : Complete 10 [] welcomed.world.world.segments 2
two-Complete = record { within = omega arith; shortest = fewer; stopped = inl refl }
  where
    fewer :
        (k : ℕ)
        → k < 2
        → contains blank_line (joined (take k welcomed.world.world.segments)) ≡ false
    fewer zero h = refl
    fewer (suc zero) h = refl
    fewer (suc (suc k)) h = absurd (omega arith)

lifetime-events_example :
    (lifetime 3 1 (replicate 4 (Call.poll 4)) welcomed).handler
    ≡ Event.on_open ∷ events (hello ∷ beat ∷ [])
lifetime-events_example =
    lifetime-events feeds answers opens register-ZeroShifts 2 1 4 2 welcomed (hello ∷ beat ∷ [])
      initial-IsValid initial-IsIdle (omega arith, (omega arith, (omega arith, (omega arith, tt))))
      two-Complete refl
      (
        record { named = text-IsWireOpcode; small = omega arith },
        (record { named = ping-IsWireOpcode; small = omega arith }, tt),
      )
      (tt, (omega arith, tt)) refl (omega arith)
