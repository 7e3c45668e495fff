-- ===== src/Client/Status.antt =====
-- The status of the client: what every public method keeps of it, however the socket and the handler
-- behave and however the method ends.
use fast_websocket_client.Base.{ℕ, Bool, true, false, List, if◌then◌else◌, ◌≡◌, refl, ◌≢◌}
use fast_websocket_client.FrameParser.{Machine}
use fast_websocket_client.Socket.{Platform}
use fast_websocket_client.Client.{
  ConnectionStatus, healthy, closed_by_server, closed_by_client, ping_timed_out, failed, unknown,
  Client, Handler, Call,
}
use fast_websocket_client.Client.Invariant.Lasting.{Lasting, lasting-Invariant, lasting-Opening}
use fast_websocket_client.Client.Lifetime.{
  State, run_calls, lifetime, run_calls-kept, lifetime-kept,
}

abbrev pub is_healthy : ConnectionStatus → Bool
is_healthy healthy = true
is_healthy _ = false

-- The connection is open when, and only when, the status is `HEALTHY`.
abbrev pub IsSynced : Client → Type 0
IsSynced c = c.connection_open ≡ is_healthy c.status

abbrev pub IsClosed : Client → Type 0
IsClosed c = c.connection_open ≡ false

ended : (st : ConnectionStatus) → st ≢ healthy → false ≡ is_healthy st
ended healthy h = absurd (h refl)
ended closed_by_server h = refl
ended closed_by_client h = refl
ended ping_timed_out h = refl
ended failed h = refl
ended unknown h = refl

pub IsSynced-Lasting : Lasting IsSynced
IsSynced-Lasting = record {
  at_factory = λ c f h. h;
  at_parser = λ c p h. h;
  at_timer = λ c t h. h;
  at_waiting = λ c b h. h;
  at_rtt = λ c t h. h;
  at_end = λ c st e h. ended st e;
}

pub IsClosed-Lasting : Lasting IsClosed
IsClosed-Lasting = record {
  at_factory = λ c f h. h;
  at_parser = λ c p h. h;
  at_timer = λ c t h. h;
  at_waiting = λ c b h. h;
  at_rtt = λ c t h. h;
  at_end = λ c st e h. refl;
}

concluded : (c : Client) (b : Bool) → b ≡ is_healthy (if b then healthy else failed)
concluded c true = refl
concluded c false = refl

module _ ⦃platform : Platform⦄ ⦃handler : Handler⦄ ⦃machine : Machine⦄ where
  -- Once the connection is closed, any public calls leave it closed, whatever the handler's
  -- callbacks, the socket, the clock and the random numbers do, and though calls throw.
  pub run_calls-IsClosed :
      (depth : ℕ) (calls : List Call) (s : State)
      → IsClosed s.client
      → IsClosed (run_calls depth calls s).client
  run_calls-IsClosed = run_calls-kept (lasting-Invariant IsClosed-Lasting)

  -- From a client whose connection is open exactly if its status is HEALTHY, the constructor and
  -- then any public calls, unless the constructor throws, end with a client of which the same
  -- holds, whatever the handler's callbacks (which may call the client), the socket, the clock and
  -- the random numbers do, and though calls throw.
  pub lifetime-IsSynced :
      (depth timeout : ℕ) (calls : List Call) (s : State)
      → IsSynced s.client
      → IsSynced (lifetime depth timeout calls s).client
  lifetime-IsSynced =
      lifetime-kept (lasting-Invariant IsSynced-Lasting)
        (lasting-Opening IsSynced-Lasting (λ c b h. concluded c b))
