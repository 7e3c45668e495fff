-- ===== src/Client/Delivery/Tcp/Opening.antt =====
-- The opening of a `SocketWrapper` (include/fastws/socket_wrapper.hpp) for a client at such a kernel.
use fast_websocket_client.Base.{
  ℕ, ◌≡◌, refl, sym, ap, subst, ◌∙◌, List, [], Option, none, some, All,
}
use fast_websocket_client.Exec.{ok, ◌>>=◌}
use fast_websocket_client.Os.{Os, Surroundings}
use fast_websocket_client.SocketWrapper.{
  Held, connect_each, connected_or_throw, connect_to, connect, construct, assigned, open_socket,
  disconnect, close_fd, move_assign,
}
use fast_websocket_client.Client.Connecting.{Opens}
use fast_websocket_client.Client.Delivery.Tcp.{
  IsShort, Segments, Tcp, IsLive, same-IsLive, tcp_Feeds,
}

module _ ⦃os : Os⦄ (around : Surroundings os.World) (segments : Segments os around) where
  -- The constructor of the wrapper connects to the first address.
  constructed :
      (host : List ℕ) (port : ℕ) (w : os.World)
      → (d : ℕ) × (w' : os.World) × (construct host port w ≡ (
        ok tt,
        record {
          wrapper = record { host = host; port = some port; sockfd = some d; out = [] };
          world = w';
        },
      ))
        × (segments.upcoming w' ≡ segments.upcoming w)
  unfolding construct connect connect_to connect_each connected_or_throw ◌>>=◌
  constructed host port w =
      let (a, others, found, same₁) = segments.at_getaddrinfo host (some port) w in
      let w₁ = (os.getaddrinfo host (some port) w).1 in
      let (d, made, same₂) = segments.at_socket a w₁ in
      let w₂ = (os.socket a w₁).1 in
      let same₃ = segments.at_set_nodelay d w₂ in
      let (up, same₄) = segments.at_connect d a (os.set_nodelay d w₂) in
      let w₄ = (os.connect d a (os.set_nodelay d w₂)).1 in
      let w₅ = os.freeaddrinfo w₄ in
      (
        d,
        os.set_nonblocking d w₅,
        rw (found, connect_to, connect_each, made, up) refl,
        segments.at_set_nonblocking d w₅
            ∙ segments.at_freeaddrinfo w₄
            ∙ same₄
            ∙ same₃
            ∙ same₂
            ∙ same₁,
      )

  closed : (fd : Option ℕ) (w : os.World) → segments.upcoming (close_fd fd w) ≡ segments.upcoming w
  closed none w = refl
  closed (some d) w = segments.at_close d w

  pub opened :
      (host : List ℕ) (port : ℕ) (s : Held os.World)
      → (d : ℕ) × (s' : Held os.World) × ((Tcp around segments).open_socket host port s
          ≡ (ok tt, s'))
        × (s'.wrapper.sockfd ≡ some d)
        × (segments.upcoming s'.world ≡ segments.upcoming s.world)
  unfolding open_socket assigned move_assign disconnect
  opened host port s =
      let (d, w, e, same) = constructed host port s.world in
      (
        d,
        record {
          wrapper = record { host = host; port = some port; sockfd = some d; out = [] };
          world = close_fd s.wrapper.sockfd w;
        },
        rw e refl,
        refl,
        closed s.wrapper.sockfd w ∙ same,
      )

  abbrev pub tcp_Opens : Opens (tcp_Feeds around segments)
  tcp_Opens = record {
    Ready = λ s. All IsShort (segments.upcoming s.world);
    at_open = λ host port s short.
        let (d, s', e, fd, same) = opened host port s in
        (
          ap (λ t. t.0) e,
          ap (λ t. segments.upcoming t.1.world) e ∙ same,
          subst (λ t. IsLive around segments t.1) (sym e)
              (d, fd, same-IsLive around segments _ short same),
        );
    at_random = λ s live.
        let (d, fd, short) = live in
        let same = segments.at_random s.world in
        (same, (d, fd, same-IsLive around segments _ short same));
  }
