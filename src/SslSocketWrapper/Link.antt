-- ===== src/SslSocketWrapper/Link.antt =====
-- `SSLSocketWrapper` as the socket of a client: `TLSClient` of include/fastws/fastws.hpp.
use fast_websocket_client.Base.{
  ℕ, zero, suc, ◌+◌, ◌≤◌, Bool-cases, Option-cases, List, [], ◌∷◌, Option, none, some, inl, inr,
  drop, length, arith, replicate, length-replicate,
}
use fast_websocket_client.Exec.{Result, ok, throw, pure, ◌>>=◌}
use fast_websocket_client.Exec.Keeps.{Allowed}
use fast_websocket_client.Socket.{Platform, NoFault, Reliable}
use fast_websocket_client.Os.{Surroundings}
use fast_websocket_client.SocketWrapper.Transfers.{Sent-cases, store_out-fits}
use fast_websocket_client.SocketWrapper.Link.{sent-Allowed}
use fast_websocket_client.SslSocketWrapper.{
  Tls, SslSocketWrapper, Held, handshake, secure, connect_to, connect, construct, assigned,
  open_socket, send_loop, send, received, read, read_into,
}
use fast_websocket_client.SslSocketWrapper.Transfers.{read_into-Received}

-- The socket and the world around it, as the client sees them.
abbrev pub tls_platform : (tls : Tls) → Surroundings tls.os.World → Platform
tls_platform tls around = record {
  World = Held ⦃tls = tls⦄;
  open_socket = open_socket ⦃tls = tls⦄;
  send = λ bytes. send ⦃tls = tls⦄ bytes >>= λ n. pure tt;
  read = read ⦃tls = tls⦄;
  read_into = read_into ⦃tls = tls⦄;
  clock = λ s. let (t, w) = around.clock s.world in (t, record s { world = w });
  sleep = λ s. record s { world = around.sleep s.world };
  random_byte = λ s. let (b, w) = around.random_byte s.world in (b, record s { world = w });
  base64 = around.base64;
}

module _ ⦃tls : Tls⦄ where
  handshake-Allowed :
      (d : ℕ) (session : tls.Ssl) (s : Held) → Allowed NoFault (handshake d session s).0
  unfolding handshake
  handshake-Allowed d session s =
      let named = tls.set_tlsext_host_name session s.wrapper.host s.world in
      elim (Bool-cases (tls.ssl_connect session (tls.set_fd session d named)).0) [
        | inl up ↦ rw (up, handshake) tt
        | inr down ↦ rw (down, handshake) (λ e. cc)
      ]

  secure-Allowed : (fd : Option ℕ) (s : Held) → Allowed NoFault (secure fd s).0
  unfolding secure
  secure-Allowed none s = λ e. cc
  secure-Allowed (some d) s =
      let (ctx, w) = tls.ctx_new s.world in
      elim (Option-cases (tls.ssl_new ctx w).0) [
        | inl none_made ↦ rw (none_made, secure) (λ e. cc)
        | inr (session, made) ↦
            rw (made, secure)
              (handshake-Allowed d session (record s {
                wrapper = record s.wrapper { ctx = ctx; ssl = (tls.ssl_new ctx w).0 };
                world = (tls.ssl_new ctx w).1;
              }))
      ]

  connect_to-Allowed :
      (addresses : Option (List tls.os.Address)) (s : Held)
      → Allowed NoFault (connect_to addresses s).0
  unfolding connect_to
  connect_to-Allowed none s = λ e. cc
  connect_to-Allowed (some addresses) s = secure-Allowed _ _

  assigned-Allowed :
      (r : Result (Unit {0})) (made : SslSocketWrapper) (s : Held)
      → Allowed NoFault r
      → Allowed NoFault (assigned made r s).0
  unfolding assigned
  assigned-Allowed (ok _) made s h = tt
  assigned-Allowed (throw e) made s h = h

  connect-Allowed : (s : Held) → Allowed NoFault (connect s).0
  unfolding connect
  connect-Allowed s =
      let (addresses, w) = tls.os.getaddrinfo s.wrapper.host s.wrapper.port s.world in
      connect_to-Allowed addresses (record s { world = w })

  construct-Allowed :
      (host : List ℕ) (port : ℕ) (w : tls.os.World) → Allowed NoFault (construct host port w).0
  unfolding construct
  construct-Allowed host port w = connect-Allowed _

  open_socket-Allowed :
      (host : List ℕ) (port : ℕ) (s : Held) → Allowed NoFault (open_socket host port s).0
  unfolding open_socket
  open_socket-Allowed host port s =
      let (r, made) = construct host port s.world in
      assigned-Allowed r made.wrapper _ (construct-Allowed host port s.world)

  send_loop-Allowed :
      (fuel : ℕ) (bytes : List ℕ) (total : ℕ) (s : Held)
      → Allowed NoFault (send_loop fuel bytes total s).0
  unfolding send_loop
  send_loop-Allowed fuel [] total s = tt
  send_loop-Allowed zero (x ∷ xs) total s = λ e. cc
  send_loop-Allowed (suc fuel) (x ∷ xs) total s =
      elim (Sent-cases (tls.write s.wrapper.ssl (x ∷ xs) s.world).0) [
        | inl (n, e) ↦ rw (e, send_loop) (send_loop-Allowed fuel (drop n (x ∷ xs)) (total + n) _)
        | inr (inl e) ↦ rw (e, send_loop) (λ f. cc)
        | inr (inr e) ↦ rw (e, send_loop) (λ f. cc)
      ]

  read-Allowed :
      ((ssl : Option tls.Ssl) (n : ℕ) (w : tls.os.World) → length (tls.read_ex ssl n w).0 ≤ n)
      → (n : ℕ) (s : Held) → Allowed NoFault (read n s).0
  unfolding read
  read-Allowed fits n s =
      let out = replicate n 0 in
      let (bytes, w) = tls.read_ex s.wrapper.ssl n s.world in
      let (stored, e, front) =
        store_out-fits out bytes
          (omega (arith, length-replicate {A = ℕ} n 0, fits s.wrapper.ssl n s.world)) in
      rw (e, received) tt

-- Where the TLS library stores no more bytes than it is asked for, `SSLSocketWrapper` is a socket
-- as the client needs it: a read stores what comes within the bytes that it made room for, opening
-- and sending end in no fault either, and reading into a buffer whose position is within its
-- vector leaves the bytes that came behind the others.
pub tls_platform-Reliable :
    (tls : Tls) (around : Surroundings tls.os.World)
    → ((ssl : Option tls.Ssl) (n : ℕ) (w : tls.os.World) → length (tls.read_ex ssl n w).0 ≤ n)
    → Reliable (tls_platform tls around)
unfolding ◌>>=◌
tls_platform-Reliable tls around fits = record {
  at_open = open_socket-Allowed ⦃tls = tls⦄;
  at_send = λ bytes s. sent-Allowed _ _ (unfold send in send_loop-Allowed ⦃tls = tls⦄ _ _ _ _);
  at_read = read-Allowed ⦃tls = tls⦄ fits;
  at_read_into = λ b hint s h.
      let (told, b', e, got) =
        read_into-Received ⦃tls = tls⦄ b hint s h (fits s.wrapper.ssl hint s.world) in
      rw e got;
}
