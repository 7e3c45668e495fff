-- ===== src/Client.antt =====
-- `fastws::WSClient` (include/fastws/fastws.hpp). The handler is an argument: what it does in a callback
-- is a program of calls of the client's public methods.
pub mod Methods
pub mod Session
pub mod Callbacks
pub mod Invariant
pub mod Lifetime
pub mod Safety
pub mod Descriptors
pub mod Status
pub mod Sent
pub mod Ends
pub mod Heartbeat
pub mod Arrivals
pub mod Refusal
pub mod Delivery
pub mod Closing
pub mod Connecting
use fast_websocket_client.Base.{
  ℕ, zero, suc, ◌+◌, ◌-◌, ◌*◌, Bool, true, false, not, List, [], ◌∷◌, ◌++◌, if◌then◌else◌, ltb,
  ◌==◌,
}
use fast_websocket_client.Exec.{Error, Result, ok, throw, Exec}
use fast_websocket_client.Frame.{Frame}
use fast_websocket_client.FrameParser.{FrameParser, initial}
use fast_websocket_client.FrameFactory.{FrameFactory}

pub data ConnectionStatus : Type 0 where
  healthy closed_by_server closed_by_client ping_timed_out failed unknown : ConnectionStatus

-- The members of `WSClient` but the socket and the handler. The two limits of the ping are in
-- milliseconds, the other times in nanoseconds.
pub record Client : Type 0 where
  pub host : List ℕ
  pub path : List ℕ
  pub port : ℕ
  pub extra_headers : List ℕ
  pub parser : FrameParser
  pub factory : FrameFactory
  pub status : ConnectionStatus
  pub connection_open : Bool
  pub ping_timer : ℕ
  pub waiting_for_ping : Bool
  pub ping_every : ℕ
  pub ping_timeout : ℕ
  pub last_rtt : ℕ

-- The members as the constructor initializes them, before its body. The timer has no value yet.
unfoldable pub new_client : List ℕ → List ℕ → ℕ → List ℕ → ℕ → ℕ → ℕ → FrameFactory → Client
new_client host path port extra_headers ping_frequency ping_timeout timer factory = record {
  host = host;
  path = path;
  port = port;
  extra_headers = extra_headers;
  parser = initial;
  factory = factory;
  status = unknown;
  connection_open = false;
  ping_timer = timer;
  waiting_for_ping = false;
  ping_every = ping_frequency * 1000;
  ping_timeout = ping_timeout * 1000;
  last_rtt = 0;
}

-- The callbacks of a handler.
pub data Event : Type 0 where
  on_open : Event
  on_close : Bool → Event
  on_text on_binary on_continuation : Frame → Event

-- The public methods that a handler may call on the client that it is given.
pub data Call : Type 0 where
  send_text send_binary : List ℕ → Call
  close poll : ℕ → Call

pub data Reply : Type 0 where
  sent : Reply
  closed : Bool → Reply
  polled : ConnectionStatus → Reply

-- The body of a callback over the handler's own state `H`: it returns, or it stores its state, calls the
-- client, and goes on from the state that it then finds and the reply. A throw of the client passes
-- through it.
pub data Program (H : Type 0) : Type 0 where
  return : H → Program H
  invoke : H → Call → (H → Reply → Program H) → Program H

pub record Handler : Type 1 where
  pub H : Type 0
  pub react : H → Event → Program H

-- The client, its handler and the world around them.
pub record System (W H : Type 0) : Type 0 where
  pub client : Client
  pub handler : H
  pub world : W
