-- ===== src/SslSocketWrapper/Transfers.antt =====
-- The bytes that `SSLSocketWrapper` sends and receives.
use fast_websocket_client.Base.{
  ℕ, zero, suc, ◌+◌, ◌≤◌, ◌≡◌, refl, Bool, List, ◌∷◌, Option, arith, ltb, length,
}
use fast_websocket_client.Exec.{no_progress, ok, throw}
use fast_websocket_client.FrameBuffer.{FrameBuffer, capacity, claim_space}
use fast_websocket_client.FrameBuffer.Reads.{receive_at_tail-Stores}
use fast_websocket_client.Socket.{Received}
use fast_websocket_client.Os.{Sent}
use fast_websocket_client.SslSocketWrapper.{Tls, Held, send_loop, stored, read_into}

module _ ⦃tls : Tls⦄ where
  -- While every write of the TLS library answers 0, the loop of send on a request that is not
  -- empty uses up any number of rounds without returning or throwing.
  pub send_loop-spins :
      (fuel : ℕ) (x : ℕ) (xs : List ℕ) (total : ℕ) (s : Held)
      → ((ssl : Option tls.Ssl) (bytes : List ℕ) (w : tls.os.World)
          → (tls.write ssl bytes w).0 ≡ Sent.accepted 0)
      → (send_loop fuel (x ∷ xs) total s).0 ≡ throw no_progress
  unfolding send_loop
  send_loop-spins zero x xs total s none_sent = refl
  send_loop-spins (suc fuel) x xs total s none_sent =
      rw (none_sent s.wrapper.ssl (x ∷ xs) s.world, send_loop)
        (send_loop-spins fuel x xs (total + 0) _ none_sent)

  -- Where the TLS library stores no more bytes than it is asked for, reading into a buffer whose
  -- position is within its vector returns: the bytes that came stand behind the others, the
  -- position behind them and within the vector, and the result tells whether any came.
  pub read_into-Received :
      (b : FrameBuffer) (hint : ℕ) (s : Held)
      → b.ptr ≤ capacity b
      → length (tls.read_ex s.wrapper.ssl hint s.world).0 ≤ hint
      → (told : Bool) × (b' : FrameBuffer) × ((read_into b hint s).0 ≡ ok (told, b'))
        × Received b told b'
  unfolding read_into stored
  read_into-Received b hint s h fits =
      let bytes = (tls.read_ex s.wrapper.ssl hint s.world).0 in
      let done = receive_at_tail-Stores b hint bytes h fits in
      (
        ltb 0 (length bytes),
        claim_space done.out (length bytes),
        rw (done.returns, stored, read_into),
        record {
          came = bytes;
          appended = done.appended;
          moved = omega (arith, done.moved);
          within = done.within;
          told = refl;
        },
      )
