-- ===== src/Client/Session.antt =====
-- The methods of `WSClient` that run a connection: `connect` and the constructor, `poll`, `close`. Each is
-- given the callbacks of the handler.
use fast_websocket_client.Base.{
  ℕ, zero, suc, ◌+◌, ◌*◌, ◌/◌, ◌%◌, Bool, true, false, not, ◌&&◌, ◌||◌, List, [], ◌∷◌, ◌++◌, none,
  some, if◌then◌else◌, ltb, ◌==◌,
}
use fast_websocket_client.Exec.{failed_to_connect, ok, pure, raise, ◌>>=◌, ◌>>◌, when}
use fast_websocket_client.Frame.{Frame, Opcode}
use fast_websocket_client.FrameParser
use fast_websocket_client.FrameParser.{Machine}
use fast_websocket_client.Handshake.{
  codes, generate_sec_websocket_key, build_websocket_handshake_request,
}
use fast_websocket_client.Socket.{Platform}
use fast_websocket_client.Client.{
  ConnectionStatus, healthy, closed_by_server, closed_by_client, failed, Client, Handler, Event,
  on_open, on_close, on_text, on_binary, on_continuation,
}
use fast_websocket_client.Client.Methods.{
  Method, on_world, assign, the_client, sleep, send, send_pong, send_close, send_ping, start_timer,
  handle_pong, update_ping, next_frame, parse_view,
}

-- `std::to_string` of a number below `10 ^ fuel`.
unfoldable pub decimal : ℕ → ℕ → List ℕ
decimal zero n = []
decimal (suc fuel) n =
    let digit = (48 + n % 10) ∷ [] in
    let front = decimal fuel (n / 10) ++ digit in if ltb n 10 then digit else front

-- `find(sub) != npos`
abbrev pub starts_with : List ℕ → List ℕ → Bool
starts_with [] xs = true
starts_with (y ∷ sub) [] = false
starts_with (y ∷ sub) (x ∷ xs) = x == y && starts_with sub xs

abbrev pub contains : List ℕ → List ℕ → Bool
contains sub [] = starts_with sub []
contains sub (x ∷ xs) = starts_with sub (x ∷ xs) || contains sub xs

abbrev pub blank_line : List ℕ
blank_line = 13 ∷ 10 ∷ 13 ∷ 10 ∷ []

abbrev pub switching : List ℕ
switching = codes "HTTP/1.1 101"

abbrev pub host_header : Client → List ℕ
host_header c = if c.port == 443 then c.host else c.host ++ codes ":" ++ decimal 20 c.port

abbrev pub request_of : Client → List ℕ → List ℕ
request_of c key = build_websocket_handshake_request (host_header c) c.path key c.extra_headers

-- The test of `count_reads` follows the first frame, so a limit of 0 takes one too.
abbrev pub rounds : ℕ → ℕ
rounds max_reads = if max_reads == 0 then 1 else max_reads

module _ ⦃platform : Platform⦄ ⦃handler : Handler⦄ ⦃machine : Machine⦄ where
  abbrev pub new_key : Method (List ℕ)
  new_key s =
      let (key, w) = generate_sec_websocket_key platform.random_byte platform.base64 s.world in
      (ok key, record s { world = w })

  -- The loop of `connect`, with the rounds that are left.
  unfoldable pub await_response : ℕ → List ℕ → Method (List ℕ)
  await_response zero response = pure response
  await_response (suc left) response = on_world (platform.read 4096) >>= λ more.
      let joined = response ++ more in
      let rest = sleep >> await_response left joined in
      if contains blank_line joined then pure joined else rest

  -- The loop of `close`, with the rounds that are left.
  unfoldable pub await_close : ℕ → Method Bool
  await_close zero = pure false
  await_close (suc left) =
      let rest = sleep >> await_close left in
      on_world (platform.read 1024) >>= parse_view >>= λ parsed. elim parsed [
        | none ↦ rest
        | some frame ↦ elim frame.opcode [ Opcode.close ↦ pure true | _ ↦ rest ]
      ]

  -- The body of the constructor behind `connect`.
  abbrev pub greet : Bool → Method (Unit {0})
  greet connected = do
    when (not connected) (raise failed_to_connect)
    assign (λ c. record c { waiting_for_ping = true })
    start_timer
    send_ping []

module _ ⦃platform : Platform⦄ ⦃handler : Handler⦄ ⦃machine : Machine⦄
    (callback : Event → Method (Unit {0})) where
  -- The body of the loop of `poll`; `true` means that the method returns at once.
  unfoldable pub dispatch_as : Opcode → Frame → Method Bool
  dispatch_as Opcode.text frame = callback (on_text frame) >> pure false
  dispatch_as Opcode.binary frame = callback (on_binary frame) >> pure false
  dispatch_as Opcode.ping frame = send_pong frame.payload >> pure false
  dispatch_as Opcode.pong frame = handle_pong >> pure false
  dispatch_as Opcode.close frame = do
    assign (λ c. record c { connection_open = false; status = closed_by_server })
    send_close []
    callback (on_close true)
    pure true
  dispatch_as other frame = callback (on_continuation frame) >> pure false

  unfoldable pub dispatch : Frame → Method Bool
  unfolding dispatch_as
  dispatch frame = dispatch_as frame.opcode frame

  -- The loop of `poll`, with the frames that it may still take.
  unfoldable pub poll_loop : ℕ → Method Bool
  poll_loop zero = pure false
  poll_loop (suc left) =
      let rest = poll_loop left in
      next_frame >>= λ parsed. elim parsed [
        | none ↦ pure false
        | some frame ↦ dispatch frame >>= λ returned. if returned then pure true else rest
      ]

  unfoldable pub poll : ℕ → Method ConnectionStatus
  poll max_reads = do
    returned ← poll_loop (rounds max_reads)
    when (not returned) update_ping
    c ← the_client
    pure c.status

  -- `close` on an open connection.
  unfoldable pub close_open : ℕ → Method Bool
  close_open timeout = do
    poll 4
    assign (λ c. record c { parser = FrameParser.clear c.parser })
    send_close []
    assign (λ c. record c { status = closed_by_client; connection_open = false })
    success ← await_close (timeout * 10)
    callback (on_close success)
    pure success

  unfoldable pub close : ℕ → Method Bool
  unfolding close_open
  close timeout =
      the_client >>= λ c. if not c.connection_open then pure true else close_open timeout

  -- The last part of `connect`, on the response.
  unfoldable pub conclude : List ℕ → Method Bool
  conclude response = do
    assign (λ c. record c { connection_open = contains switching response })
    if contains switching response
        then assign (λ c. record c { status = healthy }) >> callback on_open
        else assign (λ c. record c { status = failed })
    c ← the_client
    pure c.connection_open

  unfoldable pub connect : ℕ → Method Bool
  connect timeout = do
    c ← the_client
    on_world (platform.open_socket c.host c.port)
    key ← new_key
    send (request_of c key)
    response ← await_response (timeout * 10) []
    conclude response

  -- The body of the constructor.
  unfoldable pub construct : ℕ → Method (Unit {0})
  construct timeout = connect timeout >>= greet
