-- ===== src/Client/Invariant.antt =====
-- Facts about the client and the world that every public method keeps, with every handler and however
-- the method ends, and the errors that the methods throw.
pub mod Frames
pub mod Methods
pub mod Session
pub mod Opening
pub mod Lasting
pub mod Worldly
use fast_websocket_client.Base.{
  ℕ, zero, suc, Bool, true, false, not, List, [], Option, none, some, if◌then◌else◌, ◌≢◌,
}
use fast_websocket_client.Exec.{Error, stack_exhausted, Exec, pure, ◌>>=◌, ◌>>◌}
use fast_websocket_client.Exec.Keeps.{Keeps, Yields, pure-Keeps, bind-Keeps, if-Keeps, when-Keeps}
use fast_websocket_client.Frame.{Frame, Opcode}
use fast_websocket_client.FrameParser.{Machine, clear}
use fast_websocket_client.FrameFactory
use fast_websocket_client.FrameFactory.{FrameFactory}
use fast_websocket_client.Socket.{Platform}
use fast_websocket_client.Client.{
  ConnectionStatus, healthy, closed_by_server, closed_by_client, ping_timed_out, Client, Handler,
  System, Event, on_close, on_text, on_binary, on_continuation, Call, Program,
}
use fast_websocket_client.Client.Methods.{
  Method, on_world, on_factory, assign, the_client, now, sleep, send, send_pong, send_close,
  send_ping, send_text, send_binary, start_timer, elapsed, handle_pong, update_ping, next_frame,
  parse_view,
}
use fast_websocket_client.Client.Session.{
  dispatch_as, dispatch, poll_loop, poll, await_close, close_open, close, rounds,
}
use fast_websocket_client.Client.Callbacks.{call, run_program, callback_at}

-- What the factory makes for a client: bytes of which `G` holds, or one of the errors in `E`.
abbrev pub Makes : (List ℕ → Type 0) → (Error → Type 0) → Type 0
Makes G E =
    (payload : List ℕ) (f : FrameFactory)
    → Yields G E (FrameFactory.text true true payload f).0
      × Yields G E (FrameFactory.binary true true payload f).0
      × Yields G E (FrameFactory.ping true payload f).0
      × Yields G E (FrameFactory.pong true payload f).0
      × Yields G E (FrameFactory.close true payload f).0

module _ ⦃platform : Platform⦄ ⦃handler : Handler⦄ ⦃machine : Machine⦄ where
  abbrev pub Holds : (Client → platform.World → Type 0) → System platform.World handler.H → Type 0
  Holds P s = P s.client s.world

  -- A fact `P` about the client and the world that no step of the client's work undoes, and the errors
  -- `E` that these steps may throw.
  pub record Invariant (P : Client → platform.World → Type 0) (E : Error → Type 0) : Type 1 where
    pub at_factory :
        (c : Client) (w : platform.World) (f : FrameFactory)
        → P c w
        → P (record c { factory = f }) w
    pub at_timer :
        (c : Client) (w : platform.World) (t : ℕ) → P c w → P (record c { ping_timer = t }) w
    pub at_waiting :
        (c : Client) (w : platform.World) (b : Bool)
        → P c w
        → P (record c { waiting_for_ping = b }) w
    pub at_rtt : (c : Client) (w : platform.World) (t : ℕ) → P c w → P (record c { last_rtt = t }) w
    pub at_end :
        (c : Client) (w : platform.World) (st : ConnectionStatus)
        → st ≢ healthy
        → P c w
        → P (record c { connection_open = false; status = st }) w
    pub at_clear :
        (c : Client) (w : platform.World) → P c w → P (record c { parser = clear c.parser }) w
    pub at_clock : (c : Client) (w : platform.World) → P c w → P c (platform.clock w).1
    pub at_sleep : (c : Client) (w : platform.World) → P c w → P c (platform.sleep w)
    -- What is said of the bytes of a frame that goes to the socket.
    pub goes : List ℕ → Type 0
    pub at_send : (c : Client) (bytes : List ℕ) → goes bytes → Keeps (P c) E (platform.send bytes)
    pub at_read : (c : Client) (n : ℕ) → Keeps (P c) E (platform.read n)
    pub at_next_frame : Keeps (Holds P) E next_frame
    pub at_parse_view : (view : List ℕ) → Keeps (Holds P) E (parse_view view)
    pub at_frame : Makes goes E
    pub at_nesting : E stack_exhausted
