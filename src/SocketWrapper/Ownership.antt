-- ===== src/SocketWrapper/Ownership.antt =====
-- The descriptors under the sends and receives of a `SocketWrapper` (include/fastws/socket_wrapper.hpp).
use fast_websocket_client.Base.{
  ℕ, zero, suc, ◌+◌, ◌≡◌, sym, subst, Bool, List, [], ◌∷◌, Option-cases, inl, inr, drop, arith,
  replicate, length-replicate,
}
use fast_websocket_client.FrameBuffer.{FrameBuffer, receive_at_tail}
use fast_websocket_client.Os.{Os, Documented}
use fast_websocket_client.SocketWrapper
use fast_websocket_client.SocketWrapper.{Held, close_fd, disconnect, send_loop}
use fast_websocket_client.SocketWrapper.Descriptors.{Owns, same-Owns}
use fast_websocket_client.SocketWrapper.Transfers.{Sent-cases, Receipt-cases, received-keeps}

module _ ⦃os : Os⦄ (laws : Documented os) (base : ℕ → Bool) where
  abbrev pub HoldsOne : Held os.World → Type 0
  HoldsOne s = Owns laws base s.wrapper.sockfd s.world

  pub send_loop-Owns :
      (fuel : ℕ) (bytes : List ℕ) (total : ℕ) (s : Held os.World)
      → HoldsOne s
      → HoldsOne (send_loop fuel bytes total s).1
  unfolding send_loop
  send_loop-Owns fuel [] total s h = h
  send_loop-Owns zero (x ∷ xs) total s h = h
  send_loop-Owns (suc fuel) (x ∷ xs) total s h =
      let fd = s.wrapper.sockfd in
      let still = same-Owns laws (laws.at_send_open fd (x ∷ xs) s.world) h in
      elim (Sent-cases (os.send fd (x ∷ xs) s.world).0) [
        | inl (n, e) ↦ rw (e, send_loop) (send_loop-Owns fuel (drop n (x ∷ xs)) (total + n) _ still)
        | inr (inl e) ↦ rw (e, send_loop) still
        | inr (inr e) ↦ rw (e, send_loop) still
      ]

  pub read-Owns : (n : ℕ) (s : Held os.World) → HoldsOne s → HoldsOne (SocketWrapper.read n s).1
  unfolding SocketWrapper.read
  read-Owns n s h =
      let still = same-Owns laws (laws.at_recv_open s.wrapper.sockfd n s.world) h in
      elim (Receipt-cases (os.recv s.wrapper.sockfd n s.world).0) [
        | inl (bytes, e) ↦
            let fits = laws.at_recv s.wrapper.sockfd n s.world bytes e in
            let kept =
              received-keeps bytes
                (record {
                  wrapper = record s.wrapper { out = replicate n 0 };
                  world = (os.recv s.wrapper.sockfd n s.world).1;
                })
                (omega (arith, length-replicate {A = ℕ} n 0)) in
            rw (e, SocketWrapper.read) (subst (λ r. HoldsOne r.1) (sym kept) still)
        | inr (inl e) ↦ rw (e, SocketWrapper.read) still
        | inr (inr e) ↦ rw (e, SocketWrapper.read) still
      ]

  stored-state :
      (b : FrameBuffer) (bytes : List ℕ) (s : Held os.World)
      → (SocketWrapper.stored b bytes s).1 ≡ s
  unfolding SocketWrapper.stored
  stored-state b bytes s = elim (Option-cases (receive_at_tail b bytes)) [
    | inl e ↦ rw (e, SocketWrapper.stored)
    | inr (b', e) ↦ rw (e, SocketWrapper.stored)
  ]

  pub read_into-Owns :
      (b : FrameBuffer) (hint : ℕ) (s : Held os.World)
      → HoldsOne s
      → HoldsOne (SocketWrapper.read_into b hint s).1
  unfolding SocketWrapper.read_into
  read_into-Owns b hint s h =
      let still = same-Owns laws (laws.at_recv_open s.wrapper.sockfd hint s.world) h in
      elim (Receipt-cases (os.recv s.wrapper.sockfd hint s.world).0) [
        | inl (bytes, e) ↦
            rw (e, SocketWrapper.read_into) (subst HoldsOne (sym (stored-state _ bytes _)) still)
        | inr (inl e) ↦ rw (e, SocketWrapper.read_into) still
        | inr (inr e) ↦ rw (e, SocketWrapper.read_into) still
      ]
