-- ===== src/Examples.antt =====
-- The programs under examples/: a client with a handler that prints what comes, polled until it is no
-- longer HEALTHY.
pub mod Ping
pub mod Example
pub mod Coinbase
pub mod Endings
pub mod Silence
use fast_websocket_client.Base.{ℕ, Bool, List, [], ◌∷◌, ◌++◌, if◌then◌else◌}
use fast_websocket_client.Exec.{no_progress, pure, raise, ◌>>=◌, ◌>>◌}
use fast_websocket_client.Frame.{Frame}
use fast_websocket_client.Frame.Printing.{digit, print}
use fast_websocket_client.FrameFactory.{FrameFactory}
use fast_websocket_client.FrameParser.{Machine}
use fast_websocket_client.Handshake.{codes}
use fast_websocket_client.Socket.{Platform}
use fast_websocket_client.Client.{Client, new_client, Handler}
use fast_websocket_client.Client.Methods.{Method}
use fast_websocket_client.Client.Session.{construct, poll, close}
use fast_websocket_client.Client.Callbacks.{callback_at}
use fast_websocket_client.Client.Status.{is_healthy}

-- What a handler wrote to `std::cout`. The client's own messages are left out.
abbrev pub Output : Type 0
Output = List ℕ

-- `std::endl`
abbrev pub endl : List ℕ
endl = 10 ∷ []

abbrev pub closed_line : Bool → List ℕ
closed_line success = codes "Connection Closed (success = " ++ (digit success ∷ (codes ")" ++ endl))

abbrev pub frame_line : List ℕ → Frame → List ℕ
frame_line start frame = start ++ (print frame ++ endl)

-- `FrameHandler::Client client(handler, host, path, port)`, whose other arguments are the default ones.
abbrev pub client_of : List ℕ → List ℕ → ℕ → ℕ → FrameFactory → Client
client_of host path port timer factory = new_client host path port [] 60 10 timer factory

module _ ⦃platform : Platform⦄ ⦃handler : Handler⦄ ⦃machine : Machine⦄ (depth : ℕ) where
  -- The loop of `main`, on what its condition is found to be in each round.
  unfoldable pub poll_while : List Bool → Method (Unit {0})
  poll_while [] = raise no_progress
  poll_while (should_run ∷ later) =
      let rest = poll_while later in
      let round = poll (callback_at depth) 4 >>= λ st. if is_healthy st then rest else pure tt in
      if should_run then round else pure tt

  -- `main` on a client whose members are initialized: the body of the constructor, the loop, and the
  -- destructor.
  unfoldable pub run_client : List Bool → Method (Unit {0})
  unfolding poll_while
  run_client conditions =
      construct (callback_at depth) 10
      >> poll_while conditions
      >> close (callback_at depth) 10
      >>= λ success. pure tt
