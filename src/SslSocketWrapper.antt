-- ===== src/SslSocketWrapper.antt =====
-- `fastws::SSLSocketWrapper` (include/fastws/socket_wrapper.hpp): a TLS socket over the system calls and
-- OpenSSL, which is a parameter.
pub mod Transfers
pub mod Link
pub mod Descriptors
use fast_websocket_client.Base.{
  ℕ, zero, suc, ◌+◌, Bool, true, false, List, [], ◌∷◌, Option, none, some, if◌then◌else◌, ltb,
  length, take, drop, replicate,
}
use fast_websocket_client.Exec.{
  socket_error, no_progress, fault, Result, ok, Exec, pure, raise, follow, ◌>>=◌, ◌>>◌,
}
use fast_websocket_client.FrameBuffer.{
  FrameBuffer, ensure_extra_space, receive_at_tail, claim_space,
}
use fast_websocket_client.Os.{Os, Sent, accepted, blocked, refused}
use fast_websocket_client.SocketWrapper.{positive_int, close_fd, store_out}

-- OpenSSL. A null pointer is `none`.
pub record Tls : Type 1 where
  pub os : Os
  pub Ctx : Type 0
  pub Ssl : Type 0
  pub ctx_new : os.World → Option Ctx × os.World
  pub ctx_free : Ctx → os.World → os.World
  pub ssl_new : Option Ctx → os.World → Option Ssl × os.World
  pub ssl_free : Ssl → os.World → os.World
  pub set_tlsext_host_name : Ssl → List ℕ → os.World → os.World
  pub get_fd : Ssl → os.World → Option ℕ
  pub set_fd : Ssl → ℕ → os.World → os.World
  -- `true` where `SSL_connect` is positive.
  pub ssl_connect : Ssl → os.World → Bool × os.World
  -- The queue of errors that `get_ssl_error` empties.
  pub clear_errors : os.World → os.World
  pub shutdown : Ssl → os.World → os.World
  -- `SSL_write`; `accepted 0` is its result 0.
  pub write : Option Ssl → List ℕ → os.World → Sent × os.World
  -- The bytes that `SSL_read_ex` stores, none on a failure.
  pub read_ex : Option Ssl → ℕ → os.World → List ℕ × os.World

module _ ⦃tls : Tls⦄ where
  abbrev pub World : Type 0
  World = tls.os.World

  pub record SslSocketWrapper : Type 0 where
    pub host : List ℕ
    pub port : Option ℕ
    pub sockfd : Option ℕ
    pub sslsock : Option ℕ
    pub ctx : Option tls.Ctx
    pub ssl : Option tls.Ssl
    pub out : List ℕ

  -- `SSLSocketWrapper()`
  abbrev pub unconnected : SslSocketWrapper
  unconnected = record {
    host = [];
    port = none;
    sockfd = none;
    sslsock = none;
    ctx = none;
    ssl = none;
    out = [];
  }

  pub record Held : Type 0 where
    pub wrapper : SslSocketWrapper
    pub world : World

  abbrev pub put : Option ℕ → World → Held → Held
  put fd w s = record s { wrapper = record s.wrapper { sockfd = fd }; world = w }

  -- The loop of `connect` over the addresses. It ends at the first address for which there is no socket.
  unfoldable pub connect_each : List tls.os.Address → Held → Held
  connect_each [] s = s
  connect_each (a ∷ others) s =
      let (fd, w) = tls.os.socket a s.world in
      elim fd [
        | none ↦ put none w s
        | some d ↦
            let (connected, w') = tls.os.connect d a (tls.os.set_nodelay d w) in
            elim connected [
              | true ↦ put (some d) w' s
              | false ↦ connect_each others (put none (tls.os.close d w') s)
            ]
      ]

  -- From `SSL_set_tlsext_host_name` on, with the descriptor and the session.
  unfoldable pub handshake : ℕ → tls.Ssl → Exec Held (Unit {0})
  handshake d session s =
      let named = tls.set_tlsext_host_name session s.wrapper.host s.world in
      let s' = record s { wrapper = record s.wrapper { sslsock = tls.get_fd session named } } in
      let (connected, w) = tls.ssl_connect session (tls.set_fd session d named) in
      elim connected [
        | true ↦ (ok tt, record s' { world = tls.os.set_nonblocking d (tls.os.freeaddrinfo w) })
        | false ↦ raise socket_error (record s' { world = tls.clear_errors w })
      ]

  -- From the test of `m_sockfd` on.
  unfoldable pub secure : Option ℕ → Exec Held (Unit {0})
  unfolding handshake
  secure none = raise socket_error
  secure (some d) = λ s.
      let (ctx, w) = tls.ctx_new s.world in
      let (ssl, w') = tls.ssl_new ctx w in
      let s' = record s { wrapper = record s.wrapper { ctx = ctx; ssl = ssl }; world = w' } in
      elim ssl [ none ↦ raise socket_error s' | some session ↦ handshake d session s' ]

  -- `connect` on the answer of `getaddrinfo`.
  unfoldable pub connect_to : Option (List tls.os.Address) → Exec Held (Unit {0})
  unfolding connect_each secure
  connect_to none = raise socket_error
  connect_to (some addresses) =
      λ s. let s' = connect_each addresses s in secure s'.wrapper.sockfd s'

  unfoldable pub connect : Exec Held (Unit {0})
  unfolding connect_to
  connect s =
      let (addresses, w) = tls.os.getaddrinfo s.wrapper.host s.wrapper.port s.world in
      connect_to addresses (record s { world = w })

  -- `SSLSocketWrapper(host, port)`
  unfoldable pub construct : List ℕ → ℕ → World → Result (Unit {0}) × Held
  unfolding connect
  construct host port w =
      connect (record { wrapper = record unconnected { host = host; port = some port }; world = w })

  abbrev pub free_ctx : Option tls.Ctx → World → World
  free_ctx none w = w
  free_ctx (some ctx) w = tls.ctx_free ctx w

  abbrev pub free_ssl : Option tls.Ssl → World → World
  free_ssl none w = w
  free_ssl (some ssl) w = tls.ssl_free ssl (tls.shutdown ssl w)

  -- `disconnect`, which leaves the members as they are.
  unfoldable pub disconnect : Held → Held
  disconnect s = record s {
    world =
        free_ssl s.wrapper.ssl
          (free_ctx s.wrapper.ctx (close_fd ⦃os = tls.os⦄ s.wrapper.sockfd s.world));
  }

  -- What a move leaves of `other`.
  abbrev pub left_by_move : SslSocketWrapper → SslSocketWrapper
  left_by_move other = record other {
    host = tls.os.moved_from other.host;
    sockfd = none;
    sslsock = none;
    ctx = none;
    ssl = none;
    out = tls.os.moved_from other.out;
  }

  -- `SSLSocketWrapper(SSLSocketWrapper&&)`: the new wrapper, whose port has no value, and the other.
  unfoldable pub move_construct : SslSocketWrapper → SslSocketWrapper × SslSocketWrapper
  move_construct other = (record other { port = none }, left_by_move other)

  -- `operator=(SSLSocketWrapper&&)` on two objects: the one assigned to, which keeps its port, and the
  -- other.
  unfoldable pub move_assign : SslSocketWrapper → Held → Held × SslSocketWrapper
  unfolding disconnect
  move_assign other s = (
    record (disconnect s) { wrapper = record other { port = s.wrapper.port } },
    left_by_move other,
  )

  -- What the assignment of the temporary leaves, once the temporary is destroyed, or once its
  -- constructor threw.
  unfoldable pub assigned : SslSocketWrapper → Result (Unit {0}) → Exec Held (Unit {0})
  unfolding move_assign disconnect
  assigned made (Result.ok _) s =
      let (s', other) = move_assign made s in
      (
        ok tt,
        record s' { world = (disconnect (record { wrapper = other; world = s'.world })).world },
      )
  assigned made (Result.throw e) s = raise e s

  -- `socket = SSLSocketWrapper(host, port)`
  unfoldable pub open_socket : List ℕ → ℕ → Exec Held (Unit {0})
  unfolding construct assigned
  open_socket host port s =
      let (r, made) = construct host port s.world in
      assigned made.wrapper r (record s { world = made.world })

  -- The loop of `send`, with the bytes that are to be sent and the number of those sent.
  unfoldable pub send_loop : ℕ → List ℕ → ℕ → Exec Held ℕ
  send_loop fuel [] total s = (ok total, s)
  send_loop zero (x ∷ xs) total s = raise no_progress s
  send_loop (suc fuel) (x ∷ xs) total s =
      let (sent, w) = tls.write s.wrapper.ssl (x ∷ xs) s.world in
      elim sent [
        | accepted n ↦ send_loop fuel (drop n (x ∷ xs)) (total + n) (record s { world = w })
        | blocked ↦ raise socket_error (record s { world = w })
        | refused ↦ raise socket_error (record s { world = w })
      ]

  unfoldable pub send : List ℕ → Exec Held ℕ
  unfolding send_loop
  send req = send_loop (length req) (take (positive_int (length req)) req) 0

  -- The bytes that `SSL_read_ex` stored in `m_out`, and `m_out.resize(read)`.
  unfoldable pub received : List ℕ → Exec Held (List ℕ)
  received bytes s = elim (store_out s.wrapper.out bytes) [
    | none ↦ raise fault s
    | some out ↦
        let kept = take (length bytes) out in
        (ok kept, record s { wrapper = record s.wrapper { out = kept } })
  ]

  -- `read`: the bytes of the view that it returns. `m_out` is cleared and resized to `read_size`
  -- zeros before `SSL_read_ex` stores there.
  unfoldable pub read : ℕ → Exec Held (List ℕ)
  unfolding received
  read read_size s =
      let grown = record s.wrapper { out = replicate read_size 0 } in
      let (bytes, w) = tls.read_ex s.wrapper.ssl read_size s.world in
      received bytes (record { wrapper = grown; world = w })

  -- The bytes that `SSL_read_ex` stored in a buffer that was grown, and the claim of their space.
  unfoldable pub stored : FrameBuffer → List ℕ → Exec Held (Bool × FrameBuffer)
  stored b bytes = elim (receive_at_tail b bytes) [
    | none ↦ raise fault
    | some b' ↦ pure (ltb 0 (length bytes), claim_space b' (length bytes))
  ]

  -- `read_into`, with the buffer that it leaves.
  unfoldable pub read_into : FrameBuffer → ℕ → Exec Held (Bool × FrameBuffer)
  unfolding stored
  read_into b hint s =
      let (bytes, w) = tls.read_ex s.wrapper.ssl hint s.world in
      stored (ensure_extra_space b hint) bytes (record s { world = w })
