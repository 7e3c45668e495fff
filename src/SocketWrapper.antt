-- ===== src/SocketWrapper.antt =====
-- `fastws::SocketWrapper` (include/fastws/socket_wrapper.hpp): a TCP socket over the system calls.
pub mod Descriptors
pub mod Assignment
pub mod Transfers
pub mod Ownership
pub mod Link
use fast_websocket_client.Base.{
  ℕ, zero, suc, ◌+◌, ◌^◌, ◌%◌, ◌<◌, Bool, true, false, List, [], ◌∷◌, Option, none, some,
  if◌then◌else◌, ltb, leb, length, take, drop, replicate, splice,
}
use fast_websocket_client.Exec.{
  socket_error, no_progress, fault, Result, ok, Exec, pure, raise, ◌>>=◌, ◌>>◌,
}
use fast_websocket_client.FrameBuffer.{
  FrameBuffer, ensure_extra_space, receive_at_tail, claim_space,
}
use fast_websocket_client.Os.{Os, Sent, Receipt}

-- The members. A port of `none` was never given a value.
pub record SocketWrapper : Type 0 where
  pub host : List ℕ
  pub port : Option ℕ
  pub sockfd : Option ℕ
  pub out : List ℕ

-- `SocketWrapper()`
abbrev pub unconnected : SocketWrapper
unconnected = record { host = []; port = none; sockfd = none; out = [] }

-- A wrapper and the world around it.
pub record Held (W : Type 0) : Type 0 where
  pub wrapper : SocketWrapper
  pub world : W

-- `static_cast<int>` of a size; a loop that goes on while the result is positive sees 0 for a
-- negative one.
abbrev pub positive_int : ℕ → ℕ
positive_int n = let r = n % 2 ^ 32 in if ltb r (2 ^ 31) then r else 0

-- What `recv` or `SSL_read_ex` do at the first byte of `m_out`: store the bytes that came.
unfoldable pub store_out : List ℕ → List ℕ → Option (List ℕ)
store_out out came = if leb (length came) (length out) then some (splice out 0 came) else none

module _ ⦃os : Os⦄ where
  abbrev pub World : Type 0
  World = os.World

  abbrev pub put : Option ℕ → World → Held World → Held World
  put fd w s = record s { wrapper = record s.wrapper { sockfd = fd }; world = w }

  -- The loop of `connect` over the addresses; the result is `connected`.
  unfoldable pub connect_each : List os.Address → Exec (Held World) Bool
  connect_each [] s = (ok false, s)
  connect_each (a ∷ others) s =
      let (fd, w) = os.socket a s.world in
      elim fd [
        | none ↦ connect_each others (put none w s)
        | some d ↦
            let (connected, w') = os.connect d a (os.set_nodelay d w) in
            elim connected [
              | true ↦ (ok true, put (some d) w' s)
              | false ↦ connect_each others (put none (os.close d w') s)
            ]
      ]

  -- What follows the loop: `freeaddrinfo`, the test and `fcntl`.
  unfoldable pub connected_or_throw : Bool → Option ℕ → Exec (Held World) (Unit {0})
  connected_or_throw true (some d) s =
      (ok tt, record s { world = os.set_nonblocking d (os.freeaddrinfo s.world) })
  connected_or_throw _ _ s = raise socket_error (record s { world = os.freeaddrinfo s.world })

  -- `connect` on the answer of `getaddrinfo`.
  unfoldable pub connect_to : Option (List os.Address) → Exec (Held World) (Unit {0})
  unfolding connect_each connected_or_throw
  connect_to none = raise socket_error
  connect_to (some addresses) =
      connect_each addresses >>= λ connected s. connected_or_throw connected s.wrapper.sockfd s

  unfoldable pub connect : Exec (Held World) (Unit {0})
  unfolding connect_to
  connect s =
      let (addresses, w) = os.getaddrinfo s.wrapper.host s.wrapper.port s.world in
      connect_to addresses (record s { world = w })

  -- `SocketWrapper(host, port)`
  unfoldable pub construct : List ℕ → ℕ → World → Result (Unit {0}) × Held World
  unfolding connect
  construct host port w = connect (record {
    wrapper = record { host = host; port = some port; sockfd = none; out = [] };
    world = w;
  })

  -- `close` of the descriptor, where there is one.
  abbrev pub close_fd : Option ℕ → World → World
  close_fd none w = w
  close_fd (some d) w = os.close d w

  unfoldable pub disconnect : Held World → Held World
  disconnect s = put none (close_fd s.wrapper.sockfd s.world) s

  -- What a move leaves of `other`.
  abbrev pub left_by_move : SocketWrapper → SocketWrapper
  left_by_move other = record other {
    host = os.moved_from other.host;
    sockfd = none;
    out = os.moved_from other.out;
  }

  -- `SocketWrapper(SocketWrapper&&)`: the new wrapper, and the other.
  unfoldable pub move_construct : SocketWrapper → SocketWrapper × SocketWrapper
  move_construct other = (other, left_by_move other)

  -- `operator=(SocketWrapper&&)` on two objects: the one assigned to, and the other.
  unfoldable pub move_assign : SocketWrapper → Held World → Held World × SocketWrapper
  unfolding disconnect
  move_assign other s = (record (disconnect s) { wrapper = other }, left_by_move other)

  -- What the assignment of the temporary leaves, once the temporary is destroyed, or once its
  -- constructor threw.
  unfoldable pub assigned : SocketWrapper → Result (Unit {0}) → Exec (Held World) (Unit {0})
  unfolding move_assign disconnect
  assigned made (Result.ok _) s =
      let (s', other) = move_assign made s in
      (
        ok tt,
        record s' { world = (disconnect (record { wrapper = other; world = s'.world })).world },
      )
  assigned made (Result.throw e) s = raise e s

  -- `socket = SocketWrapper(host, port)`
  unfoldable pub open_socket : List ℕ → ℕ → Exec (Held World) (Unit {0})
  unfolding construct assigned
  open_socket host port s =
      let (r, made) = construct host port s.world in
      assigned made.wrapper r (record s { world = made.world })

  -- The loop of `send`, with the bytes that are to be sent and the number of those sent.
  unfoldable pub send_loop : ℕ → List ℕ → ℕ → Exec (Held World) ℕ
  send_loop fuel [] total s = (ok total, s)
  send_loop zero (x ∷ xs) total s = raise no_progress s
  send_loop (suc fuel) (x ∷ xs) total s =
      let (sent, w) = os.send s.wrapper.sockfd (x ∷ xs) s.world in
      elim sent [
        | Sent.accepted n ↦ send_loop fuel (drop n (x ∷ xs)) (total + n) (record s { world = w })
        | Sent.blocked ↦ raise socket_error (record s { world = w })
        | Sent.refused ↦ raise socket_error (record s { world = w })
      ]

  unfoldable pub send : List ℕ → Exec (Held World) ℕ
  unfolding send_loop
  send req = send_loop (length req) (take (positive_int (length req)) req) 0

  -- The bytes that `recv` stored in `m_out`, and `m_out.resize(ret)`.
  unfoldable pub received : List ℕ → Exec (Held World) (List ℕ)
  received bytes s = elim (store_out s.wrapper.out bytes) [
    | none ↦ raise fault s
    | some out ↦
        let kept = take (length bytes) out in
        (ok kept, record s { wrapper = record s.wrapper { out = kept } })
  ]

  -- `read`: the bytes of the view that it returns. `m_out` is cleared and resized to `chunk_size`
  -- zeros before `recv` stores there.
  unfoldable pub read : ℕ → Exec (Held World) (List ℕ)
  unfolding received
  read chunk_size s =
      let grown = record s.wrapper { out = replicate chunk_size 0 } in
      let (got, w) = os.recv s.wrapper.sockfd chunk_size s.world in
      elim got [
        | Receipt.came bytes ↦ received bytes (record { wrapper = grown; world = w })
        | Receipt.blocked ↦ (ok [], record { wrapper = record grown { out = [] }; world = w })
        | Receipt.refused ↦ raise socket_error (record { wrapper = grown; world = w })
      ]

  -- The bytes that `recv` stored in a buffer that was grown, and the claim of their space.
  unfoldable pub stored : FrameBuffer → List ℕ → Exec (Held World) (Bool × FrameBuffer)
  stored b bytes = elim (receive_at_tail b bytes) [
    | none ↦ raise fault
    | some b' ↦
        pure (if ltb 0 (length bytes) then (true, claim_space b' (length bytes)) else (false, b'))
  ]

  -- `read_into`, with the buffer that it leaves; a throw leaves the bytes of the old one.
  unfoldable pub read_into : FrameBuffer → ℕ → Exec (Held World) (Bool × FrameBuffer)
  unfolding stored
  read_into b hint s =
      let roomy = ensure_extra_space b hint in
      let (got, w) = os.recv s.wrapper.sockfd hint s.world in
      let s' = record s { world = w } in
      elim got [
        | Receipt.came bytes ↦ stored roomy bytes s'
        | Receipt.blocked ↦ (ok (false, roomy), s')
        | Receipt.refused ↦ raise socket_error s'
      ]
