-- ===== src/Client/Delivery/Tcp.antt =====
-- `NoTLSClient` (include/fastws/fastws.hpp), whose socket is a `SocketWrapper`, over a kernel that brings one
-- segment with each `recv` and takes what is sent.
pub mod Opening
use fast_websocket_client.Base.{
  ℕ, zero, suc, ◌+◌, ◌≤◌, ◌≡◌, refl, sym, ap, subst, ◌∙◌, Bool, true, false, List, [], ◌∷◌, Option,
  none, some, arith, length, take, drop, drop-all, length-take, replicate, length-replicate, All,
}
use fast_websocket_client.Exec.{ok, ◌>>=◌}
use fast_websocket_client.FrameBuffer.{FrameBuffer, capacity, ensure_extra_space}
use fast_websocket_client.Socket.{Platform, Received}
use fast_websocket_client.Os.{Os, Surroundings, Sent, Receipt}
use fast_websocket_client.SocketWrapper.{
  Held, connect_each, connected_or_throw, connect_to, connect, construct, assigned, open_socket,
  disconnect, close_fd, move_assign, send_loop, send, read, read_into, positive_int,
}
use fast_websocket_client.SocketWrapper.Transfers.{received-keeps, stored-Received, grown-Received}
use fast_websocket_client.SocketWrapper.Link.{tcp_platform}
use fast_websocket_client.Client.Delivery.{Feeds, first}
use fast_websocket_client.Client.Closing.{Answers}
use fast_websocket_client.Client.Connecting.{Opens}

-- What `recv` tells of a segment; an empty one is a moment when nothing has come.
abbrev pub arriving : List ℕ → Receipt
arriving [] = Receipt.blocked
arriving (x ∷ xs) = Receipt.came (x ∷ xs)

abbrev pub IsShort : List ℕ → Type 0
IsShort c = length c ≤ 1024

-- A kernel with a server that accepts the connection, and with segments to come of which each fits in
-- the 1024 bytes that `poll` asks for.
pub record Segments (os : Os) (around : Surroundings os.World) : Type 0 where
  pub upcoming : os.World → List (List ℕ)
  pub at_recv :
      (d n : ℕ) (w : os.World)
      → 1024 ≤ n
      → All IsShort (upcoming w)
      → ((os.recv (some d) n w).0 ≡ arriving (first (upcoming w)))
        × (upcoming (os.recv (some d) n w).1 ≡ drop 1 (upcoming w))
  pub at_send :
      (d x : ℕ) (xs : List ℕ) (w : os.World)
      → ((os.send (some d) (x ∷ xs) w).0 ≡ Sent.accepted (length (x ∷ xs)))
        × (upcoming (os.send (some d) (x ∷ xs) w).1 ≡ upcoming w)
  pub at_getaddrinfo :
      (host : List ℕ) (port : Option ℕ) (w : os.World)
      → (a : os.Address) × (others : List os.Address) × ((os.getaddrinfo host port w).0
          ≡ some (a ∷ others))
        × (upcoming (os.getaddrinfo host port w).1 ≡ upcoming w)
  pub at_freeaddrinfo : (w : os.World) → upcoming (os.freeaddrinfo w) ≡ upcoming w
  pub at_socket :
      (a : os.Address) (w : os.World)
      → (d : ℕ) × ((os.socket a w).0 ≡ some d) × (upcoming (os.socket a w).1 ≡ upcoming w)
  pub at_set_nodelay : (d : ℕ) (w : os.World) → upcoming (os.set_nodelay d w) ≡ upcoming w
  pub at_connect :
      (d : ℕ) (a : os.Address) (w : os.World)
      → ((os.connect d a w).0 ≡ true) × (upcoming (os.connect d a w).1 ≡ upcoming w)
  pub at_set_nonblocking : (d : ℕ) (w : os.World) → upcoming (os.set_nonblocking d w) ≡ upcoming w
  pub at_close : (d : ℕ) (w : os.World) → upcoming (os.close d w) ≡ upcoming w
  pub at_clock : (w : os.World) → upcoming (around.clock w).1 ≡ upcoming w
  pub at_sleep : (w : os.World) → upcoming (around.sleep w) ≡ upcoming w
  pub at_random : (w : os.World) → upcoming (around.random_byte w).1 ≡ upcoming w

module _ ⦃os : Os⦄ (around : Surroundings os.World) (segments : Segments os around) where
  abbrev pub Tcp : Platform
  Tcp = tcp_platform os around

  abbrev pub IsLive : Held os.World → Type 0
  IsLive s = (d : ℕ) × (s.wrapper.sockfd ≡ some d) × All IsShort (segments.upcoming s.world)

  pub drop-All : (cs : List (List ℕ)) → All IsShort cs → All IsShort (drop 1 cs)
  drop-All [] h = tt
  drop-All (c ∷ cs) h = h.1

  pub first-IsShort : (cs : List (List ℕ)) → All IsShort cs → length (first cs) ≤ 1024
  first-IsShort [] h = omega arith
  first-IsShort (c ∷ cs) h = h.0

  pub same-IsLive :
      {cs : List (List ℕ)} (w : os.World)
      → All IsShort cs
      → segments.upcoming w ≡ cs
      → All IsShort (segments.upcoming w)
  same-IsLive w h e = subst (All IsShort) (sym e) h

  -- What `read_into` makes of a segment.
  pub arrived :
      (b : FrameBuffer) (c : List ℕ) (s : Held os.World)
      → b.ptr ≤ capacity b
      → length c ≤ 1024
      → (os.recv s.wrapper.sockfd 1024 s.world).0 ≡ arriving c
      → (told : Bool) × (b' : FrameBuffer) × (Tcp.read_into b 1024 s
          ≡ (ok (told, b'), record s { world = (os.recv s.wrapper.sockfd 1024 s.world).1 }))
        × ((r : Received b told b') × (r.came ≡ c))
  unfolding read_into
  arrived b [] s h fits e =
      (false, ensure_extra_space b 1024, rw (e, read_into) refl, grown-Received b 1024 h)
  arrived b (x ∷ xs) s h fits e =
      let (told, b', done, got) =
        stored-Received b 1024 (x ∷ xs)
          (record s { world = (os.recv s.wrapper.sockfd 1024 s.world).1 }) h fits in
      (told, b', rw (e, read_into) done, got)

  -- What `read` makes of a segment.
  pub kept :
      (n : ℕ) (c : List ℕ) (s : Held os.World)
      → length c ≤ n
      → (os.recv s.wrapper.sockfd n s.world).0 ≡ arriving c
      → Tcp.read n s ≡ (
        ok c,
        record {
          wrapper = record s.wrapper { out = c };
          world = (os.recv s.wrapper.sockfd n s.world).1;
        },
      )
  unfolding read
  kept n [] s fits e = rw (e, read) refl
  kept n (x ∷ xs) s fits e =
      rw (e, read)
        (received-keeps (x ∷ xs)
          (record {
            wrapper = record s.wrapper { out = replicate n 0 };
            world = (os.recv s.wrapper.sockfd n s.world).1;
          })
          (omega (arith, length-replicate {A = ℕ} n 0)))

  -- The next segment comes over the descriptor of the wrapper.
  pub next :
      (n d : ℕ) (s : Held os.World)
      → s.wrapper.sockfd ≡ some d
      → 1024 ≤ n
      → All IsShort (segments.upcoming s.world)
      → ((os.recv s.wrapper.sockfd n s.world).0 ≡ arriving (first (segments.upcoming s.world)))
        × (segments.upcoming (os.recv s.wrapper.sockfd n s.world).1
            ≡ drop 1 (segments.upcoming s.world))
  next n d s fd h short = rw fd (segments.at_recv d n s.world h short)

  -- All of a request is taken at once.
  taken :
      (bytes : List ℕ) (d total : ℕ) (s : Held os.World)
      → s.wrapper.sockfd ≡ some d
      → (fuel : ℕ) → length bytes ≤ fuel
      → (w : os.World) × (n : ℕ) × (send_loop fuel bytes total s ≡ (ok n, record s { world = w }))
        × (segments.upcoming w ≡ segments.upcoming s.world)
  unfolding send_loop
  taken [] d total s fd fuel h = (s.world, total, refl, refl)
  taken (x ∷ xs) d total s fd zero h = absurd (omega arith)
  taken (x ∷ xs) d total s fd (suc fuel) h =
      let (all, same) = segments.at_send d x xs s.world in
      let all' : (os.send s.wrapper.sockfd (x ∷ xs) s.world).0 ≡ Sent.accepted (length (x ∷ xs)) =
        rw fd all in
      (
        (os.send s.wrapper.sockfd (x ∷ xs) s.world).1,
        total + length (x ∷ xs),
        rw (all', send_loop, drop-all (length xs) xs (omega arith), send_loop) refl,
        rw fd same,
      )

  pub send-taken :
      (bytes : List ℕ) (d : ℕ) (s : Held os.World)
      → s.wrapper.sockfd ≡ some d
      → (w : os.World) × (Tcp.send bytes s ≡ (ok tt, record s { world = w }))
        × (segments.upcoming w ≡ segments.upcoming s.world)
  unfolding send ◌>>=◌
  send-taken bytes d s fd =
      let part = take (positive_int (length bytes)) bytes in
      let (w, n, e, same) =
        taken part d 0 s fd (length bytes)
          (omega (arith, length-take (positive_int (length bytes)) bytes)) in
      (w, rw e refl, same)

  -- `SocketWrapper` over such a kernel, while it has a descriptor.
  abbrev pub tcp_Feeds : Feeds Tcp
  tcp_Feeds = record {
    upcoming = λ s. segments.upcoming s.world;
    Live = IsLive;
    at_read_into = λ b s live h.
        let (d, fd, short) = live in
        let (got, moved) = next 1024 d s fd (omega arith) short in
        let (told, b', e, r) = arrived b _ s h (first-IsShort _ short) got in
        (
          told,
          b',
          ap (λ t. t.0) e,
          r,
          ap (λ t. segments.upcoming t.1.world) e ∙ moved,
          subst (λ t. IsLive t.1) (sym e) (d, fd, same-IsLive _ (drop-All _ short) moved),
        );
    at_clock = λ s live.
        let (d, fd, short) = live in
        let same = segments.at_clock s.world in (same, (d, fd, same-IsLive _ short same));
    at_send = λ bytes s live.
        let (d, fd, short) = live in
        let (w, e, same) = send-taken bytes d s fd in
        (
          ap (λ t. t.0) e,
          ap (λ t. segments.upcoming t.1.world) e ∙ same,
          subst (λ t. IsLive t.1) (sym e) (d, fd, same-IsLive _ short same),
        );
  }

  abbrev pub tcp_Answers : Answers tcp_Feeds
  tcp_Answers = record {
    at_read = λ n s h live.
        let (d, fd, short) = live in
        let (got, moved) = next n d s fd h short in
        let e = kept n _ s (omega (arith, first-IsShort _ short)) got in
        (
          ap (λ t. t.0) e,
          ap (λ t. segments.upcoming t.1.world) e ∙ moved,
          subst (λ t. IsLive t.1) (sym e) (d, fd, same-IsLive _ (drop-All _ short) moved),
        );
    at_sleep = λ s live.
        let (d, fd, short) = live in
        let same = segments.at_sleep s.world in (same, (d, fd, same-IsLive _ short same));
  }
