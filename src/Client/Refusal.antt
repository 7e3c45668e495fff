-- ===== src/Client/Refusal.antt =====
-- `WSClient::close` (include/fastws/fastws.hpp) over a socket that refuses to send.
use fast_websocket_client.Base.{
  ℕ, ◌∷◌, ◌^◌, ◌<◌, arith, length, ◌≡◌, sym, subst, true, not, if◌then◌else◌, List, [],
}
use fast_websocket_client.Frame.{mask_from}
use fast_websocket_client.FrameFactory.{frame_with}
use fast_websocket_client.FrameFactory.Frames.{control_limit}
use fast_websocket_client.Exec.{Error, throw, pure, ◌>>=◌}
use fast_websocket_client.Exec.Throws.{Throws, then-Throws, first-Throws}
use fast_websocket_client.FrameParser.{Machine}
use fast_websocket_client.Socket.{Platform}
use fast_websocket_client.Client.{Handler}
use fast_websocket_client.Client.Methods.{send, send_close}
use fast_websocket_client.Client.Session.{close, close_open}
use fast_websocket_client.Client.Callbacks.{callback_at}
use fast_websocket_client.Client.Lifetime.{State}

module _ ⦃platform : Platform⦄ ⦃handler : Handler⦄ ⦃machine : Machine⦄
    (refuses : (x : ℕ) (xs : List ℕ) (w : platform.World)
      → length (x ∷ xs) < 2 ^ 31
      → (e : Error) × ((platform.send (x ∷ xs) w).0 ≡ throw e)) where
  send_close-Throws : Throws (send_close [])
  unfolding send_close send ◌>>=◌ frame_with mask_from
  send_close-Throws = record {
    apply = λ s.
        let made = ((control_limit true [] s.client.factory).1 (omega arith)).2 in
        let (e, h) = refuses _ _ s.world (omega arith) in rw made (e, h);
  }

  close_open-Throws : (depth timeout : ℕ) → Throws (close_open (callback_at depth) timeout)
  unfolding close_open
  close_open-Throws depth timeout =
      then-Throws _ _ λ _. then-Throws _ _ λ _. first-Throws _ _ send_close-Throws

  -- When every send of at least one byte and less than 2 ^ 31 throws, `close` of an open
  -- connection throws, whatever the handler's callbacks do.
  pub close-refused :
      (depth timeout : ℕ) (s : State)
      → s.client.connection_open ≡ true
      → (e : Error) × ((close (callback_at depth) timeout s).0 ≡ throw e)
  unfolding close ◌>>=◌
  close-refused depth timeout s up =
      subst
        (λ open_now.
          (e : Error) × (((if not open_now
                then pure true
                else close_open (callback_at depth) timeout)
              s).0
            ≡ throw e))
        (sym up) ((close_open-Throws depth timeout).apply s)
