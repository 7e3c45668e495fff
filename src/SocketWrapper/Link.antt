-- ===== src/SocketWrapper/Link.antt =====
-- `SocketWrapper` as the socket of a client: `NoTLSClient` of include/fastws/fastws.hpp.
use fast_websocket_client.Base.{
  ℕ, zero, suc, ◌+◌, ◌≡◌, refl, Bool, true, false, List, [], ◌∷◌, Option, none, some, Option-cases,
  subst, sym, Bool-cases, inl, inr, drop, arith, replicate, length-replicate,
}
use fast_websocket_client.Exec.{Result, ok, throw, pure, follow, ◌>>=◌}
use fast_websocket_client.Exec.Keeps.{Allowed}
use fast_websocket_client.FrameBuffer.{FrameBuffer}
use fast_websocket_client.Socket.{Platform, NoFault, Filled, Reliable}
use fast_websocket_client.Os.{Os, Documented, Surroundings}
use fast_websocket_client.SocketWrapper.{
  SocketWrapper, Held, connect_each, connected_or_throw, connect_to, connect, construct, assigned,
  open_socket, send_loop, send, read, read_into,
}
use fast_websocket_client.SocketWrapper.Transfers.{
  Sent-cases, Receipt-cases, received-keeps, Fills, read_into-Fills,
}

-- The socket and the world around it, as the client sees them.
abbrev pub tcp_platform : (os : Os) → Surroundings os.World → Platform
tcp_platform os around = record {
  World = Held os.World;
  open_socket = open_socket ⦃os = os⦄;
  send = λ bytes. send ⦃os = os⦄ bytes >>= λ n. pure tt;
  read = read ⦃os = os⦄;
  read_into = read_into ⦃os = os⦄;
  clock = λ s. let (t, w) = around.clock s.world in (t, record s { world = w });
  sleep = λ s. record s { world = around.sleep s.world };
  random_byte = λ s. let (b, w) = around.random_byte s.world in (b, record s { world = w });
  base64 = around.base64;
}

module _ ⦃os : Os⦄ where
  connect_each-returns :
      (addresses : List os.Address) (s : Held os.World)
      → (b : Bool) × ((connect_each addresses s).0 ≡ ok b)
  unfolding connect_each
  connect_each-returns [] s = (false, refl)
  connect_each-returns (a ∷ others) s = elim (Option-cases (os.socket a s.world).0) [
    | inl nothing ↦ rw (nothing, connect_each) (connect_each-returns others _)
    | inr (d, got) ↦
        elim (Bool-cases (os.connect d a (os.set_nodelay d (os.socket a s.world).1)).0) [
          | inl up ↦ rw (got, up, connect_each) (true, refl)
          | inr down ↦ rw (got, down, connect_each) (connect_each-returns others _)
        ]
  ]

  connected_or_throw-Allowed :
      (b : Bool) (fd : Option ℕ) (s : Held os.World) → Allowed NoFault (connected_or_throw b fd s).0
  unfolding connected_or_throw
  connected_or_throw-Allowed true (some d) s = tt
  connected_or_throw-Allowed true none s = λ e. cc
  connected_or_throw-Allowed false none s = λ e. cc
  connected_or_throw-Allowed false (some d) s = λ e. cc

  connect_to-Allowed :
      (addresses : Option (List os.Address)) (s : Held os.World)
      → Allowed NoFault (connect_to addresses s).0
  unfolding connect_to ◌>>=◌
  connect_to-Allowed none s = λ e. cc
  connect_to-Allowed (some addresses) s =
      let (b, e) = connect_each-returns addresses s in rw e (connected_or_throw-Allowed b _ _)

  assigned-Allowed :
      (r : Result (Unit {0})) (made : SocketWrapper) (s : Held os.World)
      → Allowed NoFault r
      → Allowed NoFault (assigned made r s).0
  unfolding assigned
  assigned-Allowed (ok _) made s h = tt
  assigned-Allowed (throw e) made s h = h

  open_socket-Allowed :
      (host : List ℕ) (port : ℕ) (s : Held os.World) → Allowed NoFault (open_socket host port s).0
  unfolding open_socket construct connect
  open_socket-Allowed host port s = assigned-Allowed _ _ _ (connect_to-Allowed _ _)

  send_loop-Allowed :
      (fuel : ℕ) (bytes : List ℕ) (total : ℕ) (s : Held os.World)
      → Allowed NoFault (send_loop fuel bytes total s).0
  unfolding send_loop
  send_loop-Allowed fuel [] total s = tt
  send_loop-Allowed zero (x ∷ xs) total s = λ e. cc
  send_loop-Allowed (suc fuel) (x ∷ xs) total s =
      elim (Sent-cases (os.send s.wrapper.sockfd (x ∷ xs) s.world).0) [
        | inl (n, e) ↦ rw (e, send_loop) (send_loop-Allowed fuel (drop n (x ∷ xs)) (total + n) _)
        | inr (inl e) ↦ rw (e, send_loop) (λ f. cc)
        | inr (inr e) ↦ rw (e, send_loop) (λ f. cc)
      ]

  read-Allowed : Documented os → (n : ℕ) (s : Held os.World) → Allowed NoFault (read n s).0
  unfolding read
  read-Allowed laws n s = elim (Receipt-cases (os.recv s.wrapper.sockfd n s.world).0) [
    | inl (bytes, e) ↦
        let fits = laws.at_recv s.wrapper.sockfd n s.world bytes e in
        let kept =
          received-keeps bytes
            (record {
              wrapper = record s.wrapper { out = replicate n 0 };
              world = (os.recv s.wrapper.sockfd n s.world).1;
            })
            (omega (arith, length-replicate {A = ℕ} n 0)) in
        rw (e, read) (subst (λ r. Allowed NoFault r.0) (sym kept) tt)
    | inr (inl e) ↦ rw (e, read) tt
    | inr (inr e) ↦ rw (e, read) (λ f. cc)
  ]

pub sent-Allowed :
    {W A : Type 0} (r : Result A) (s : W)
    → Allowed NoFault r
    → Allowed NoFault (follow r (λ n. pure {A = Unit {0}} tt) s).0
sent-Allowed (ok n) s h = tt
sent-Allowed (throw e) s h = h

Fills-Filled :
    ⦃os : Os⦄ {laws : Documented os} {b : FrameBuffer}
    {r : Result (Bool × FrameBuffer) × Held os.World}
    → Fills laws b r
    → Filled b r.0
Fills-Filled fills = elim fills.ended [ inl (told, b', e, got) ↦ rw e got | inr e ↦ rw e (λ f. cc) ]

-- Over documented system calls, `SocketWrapper` is a socket as the client needs it: a read stores
-- what comes within the bytes that it made room for, opening and sending end in no fault either,
-- and reading into a buffer whose position is within its vector throws without a store outside, or
-- leaves the bytes that came behind the others.
pub tcp_platform-Reliable :
    (os : Os) (around : Surroundings os.World) → Documented os → Reliable (tcp_platform os around)
unfolding ◌>>=◌
tcp_platform-Reliable os around laws = record {
  at_open = open_socket-Allowed ⦃os = os⦄;
  at_send = λ bytes s. sent-Allowed _ _ (unfold send in send_loop-Allowed ⦃os = os⦄ _ _ _ _);
  at_read = read-Allowed ⦃os = os⦄ laws;
  at_read_into = λ b hint s h. Fills-Filled ⦃os = os⦄ (read_into-Fills ⦃os = os⦄ laws b hint s h);
}
