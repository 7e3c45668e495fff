-- ===== src/Client/Ends.antt =====
-- What `close` and `poll` leave where they return.
use fast_websocket_client.Base.{ℕ, Bool, true, false, not, if◌then◌else◌, ◌≡◌, refl, subst}
use fast_websocket_client.Exec.{ok, pure, ◌>>=◌}
use fast_websocket_client.Exec.Keeps.{AnyError, when-Keeps}
use fast_websocket_client.Exec.Ensures.{
  Ensures, pure-Ensures, keeps-Ensures, any-Ensures, bind-Ensures,
}
use fast_websocket_client.FrameParser.{Machine}
use fast_websocket_client.Socket.{Platform}
use fast_websocket_client.Client.{ConnectionStatus, Client, Handler, System}
use fast_websocket_client.Client.Methods.{the_client}
use fast_websocket_client.Client.Session.{poll, close, close_open, rounds}
use fast_websocket_client.Client.Callbacks.{callback_at}
use fast_websocket_client.Client.Invariant.{Invariant}
use fast_websocket_client.Client.Invariant.Lasting.{OfClient, lasting-Invariant}
use fast_websocket_client.Client.Invariant.Methods.{update_ping-Keeps, await_close-Keeps}
use fast_websocket_client.Client.Invariant.Session.{callback_at-Keeps, poll_loop-Keeps}
use fast_websocket_client.Client.Status.{
  is_healthy, IsSynced, IsClosed, IsSynced-Lasting, IsClosed-Lasting,
}

module _ ⦃platform : Platform⦄ ⦃handler : Handler⦄ ⦃machine : Machine⦄ (depth : ℕ) where
  abbrev At : (Client → Type 0) → System platform.World handler.H → Type 0
  At P s = P s.client

  abbrev Any : System platform.World handler.H → Type 0
  Any s = Unit {0}

  abbrev closed_invariant : Invariant (OfClient IsClosed-Lasting) AnyError
  closed_invariant = lasting-Invariant IsClosed-Lasting

  abbrev synced_invariant : Invariant (OfClient IsSynced-Lasting) AnyError
  synced_invariant = lasting-Invariant IsSynced-Lasting

  close_open-Ensures :
      (timeout : ℕ) → Ensures Any (close_open (callback_at depth) timeout) (λ _. At IsClosed)
  unfolding close_open
  close_open-Ensures timeout = bind-Ensures _ _ (any-Ensures _) λ _.
      bind-Ensures _ _ (any-Ensures _) λ _. bind-Ensures _ _ (any-Ensures _) λ _.
        bind-Ensures {Q = λ _. At IsClosed} _ _ (record { apply = λ s a h e. refl })
          λ _. bind-Ensures _ _ (keeps-Ensures _ (await_close-Keeps closed_invariant _)) λ success.
            bind-Ensures _ _ (keeps-Ensures _ (callback_at-Keeps closed_invariant depth _))
              λ _. pure-Ensures success (λ s h. h)

  -- Where closing returns, from any client, the connection is closed, with every handler and every
  -- behaviour of the socket.
  pub close_lem :
      (timeout : ℕ) (s : System platform.World handler.H) (b : Bool)
      → (close (callback_at depth) timeout s).0 ≡ ok b
      → IsClosed (close (callback_at depth) timeout s).1.client
  unfolding close ◌>>=◌
  close_lem timeout s b e = closed s.client.connection_open refl b e
    where
      closed :
          (up : Bool)
          → s.client.connection_open ≡ up
          → (b : Bool)
          → ((if not up then pure true else close_open (callback_at depth) timeout) s).0 ≡ ok b
          → IsClosed
              ((if not up then pure true else close_open (callback_at depth) timeout) s).1.client
      closed true h b e = (close_open-Ensures timeout).apply s b tt e
      closed false h b e = h

  poll-Ensures :
      (max_reads : ℕ)
      → Ensures
          (At IsSynced)
          (poll (callback_at depth) max_reads)
          (λ st s. s.client.connection_open ≡ is_healthy st)
  unfolding poll
  poll-Ensures max_reads =
      bind-Ensures _ _
        (keeps-Ensures _ (
          poll_loop-Keeps synced_invariant (callback_at depth)
            (callback_at-Keeps synced_invariant depth) (rounds max_reads)))
        λ returned.
          bind-Ensures _ _
            (keeps-Ensures _ (when-Keeps (not returned) _ (update_ping-Keeps synced_invariant)))
            λ _.
              bind-Ensures {Q = λ c s. IsSynced s.client × (s.client ≡ c)} the_client _
                (record { apply = λ s c h e. (h, got s.client c e) })
                λ c.
                  pure-Ensures c.status
                    (λ s (h, e). subst (λ x. s.client.connection_open ≡ is_healthy x.status) e h)
    where
      got : (c d : Client) → ok c ≡ ok d → c ≡ d
      got c d e = cc

  -- Where polling returns a status, from a client whose connection is open exactly if its status
  -- is HEALTHY, it leaves the connection open exactly if the status that it returns is HEALTHY.
  pub poll_lem :
      (max_reads : ℕ) (s : System platform.World handler.H) (st : ConnectionStatus)
      → IsSynced s.client
      → (poll (callback_at depth) max_reads s).0 ≡ ok st
      → (poll (callback_at depth) max_reads s).1.client.connection_open ≡ is_healthy st
  poll_lem max_reads s st h e = (poll-Ensures max_reads).apply s st h e
