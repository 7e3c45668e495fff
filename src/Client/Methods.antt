-- ===== src/Client/Methods.antt =====
-- The methods of `WSClient` that send and receive one frame, and its ping timer.
use fast_websocket_client.Base.{
  ℕ, ◌-◌, ◌*◌, Bool, true, false, List, [], Option, none, some, if◌then◌else◌, ltb, ◌≡◌, refl,
}
use fast_websocket_client.Exec.{
  fault, Result, ok, throw, follow, Exec, pure, raise, modify, ◌>>=◌, ◌>>◌, when,
}
use fast_websocket_client.Frame.{Frame}
use fast_websocket_client.FrameParser.{Machine, FrameParser, update_view, update}
use fast_websocket_client.FrameFactory
use fast_websocket_client.FrameFactory.{FrameFactory}
use fast_websocket_client.Socket.{Platform}
use fast_websocket_client.Client.{ping_timed_out, Client, Handler, System}

-- `elapsed > limit`, with the limit in milliseconds.
abbrev pub exceeds : ℕ → ℕ → Bool
exceeds nanoseconds limit = ltb (limit * 1000000) nanoseconds

module _ ⦃platform : Platform⦄ ⦃handler : Handler⦄ ⦃machine : Machine⦄ where
  abbrev pub Method : Type 0 → Type 0
  Method A = Exec (System platform.World handler.H) A

  -- An action of the world, of the factory, and an assignment to the client.
  abbrev pub on_world : {A : Type 0} → Exec platform.World A → Method A
  on_world m s = let (r, w) = m s.world in (r, record s { world = w })

  abbrev pub on_factory : {A : Type 0} → Exec FrameFactory A → Method A
  on_factory m s =
      let (r, f) = m s.client.factory in (r, record s { client = record s.client { factory = f } })

  abbrev pub assign : (Client → Client) → Method (Unit {0})
  assign f = modify (λ s. record s { client = f s.client })

  abbrev pub the_client : Method Client
  the_client s = (ok s.client, s)

  abbrev pub now : Method ℕ
  now s = let (t, w) = platform.clock s.world in (ok t, record s { world = w })

  abbrev pub sleep : Method (Unit {0})
  sleep = modify (λ s. record s { world = platform.sleep s.world })

  unfoldable pub send : List ℕ → Method (Unit {0})
  send frame = on_world (platform.send frame)

  unfoldable pub send_pong : List ℕ → Method (Unit {0})
  send_pong payload = on_factory (FrameFactory.pong true payload) >>= send

  unfoldable pub send_close : List ℕ → Method (Unit {0})
  send_close payload = on_factory (FrameFactory.close true payload) >>= send

  unfoldable pub send_ping : List ℕ → Method (Unit {0})
  send_ping payload = on_factory (FrameFactory.ping true payload) >>= send

  unfoldable pub send_text : List ℕ → Method (Unit {0})
  send_text payload = on_factory (FrameFactory.text true true payload) >>= send

  unfoldable pub send_binary : List ℕ → Method (Unit {0})
  send_binary payload = on_factory (FrameFactory.binary true true payload) >>= send

  -- `m_ping_timer.start()` and `m_ping_timer.get_elapsed_ms()`, the latter in nanoseconds.
  unfoldable pub start_timer : Method (Unit {0})
  start_timer = now >>= λ t. assign (λ c. record c { ping_timer = t })

  unfoldable pub elapsed : Method ℕ
  elapsed = do t ← now; c ← the_client; pure (t - c.ping_timer)

  unfoldable pub handle_pong : Method (Unit {0})
  handle_pong = do
    t ← elapsed
    assign (λ c. record c { last_rtt = t })
    start_timer
    assign (λ c. record c { waiting_for_ping = false })

  unfoldable pub update_ping : Method (Unit {0})
  update_ping = do
    c ← the_client
    t ← elapsed
    if c.waiting_for_ping
        then when (exceeds t c.ping_timeout)
            (assign (λ c. record c { connection_open = false; status = ping_timed_out }))
        else when (exceeds t c.ping_every)
            (assign (λ c. record c { waiting_for_ping = true }) >> start_timer >> send_ping [])

  -- `m_parser.update(m_socket.read_into(m_parser.frame_buffer(), 1024))`
  unfoldable pub next_frame : Method (Option Frame)
  next_frame = do
    c ← the_client
    got ← on_world (platform.read_into c.parser.frame_buffer 1024)
    let step = update (record c.parser { frame_buffer = got.1 }) got.0
    assign (λ c. record c { parser = step.0 })
    pure step.1

  -- What follows an `update` of the parser.
  unfoldable pub parsed : Option (FrameParser × Option Frame) → Method (Option Frame)
  parsed none = raise fault
  parsed (some (p, out)) = assign (λ c. record c { parser = p }) >> pure out

  -- `m_parser.update(view)`
  unfoldable pub parse_view : List ℕ → Method (Option Frame)
  unfolding parsed
  parse_view view = the_client >>= λ c. parsed (update_view c.parser view)

  -- What follows leaves the world alone.
  pub world-bind :
      {A B : Type 0} (m : Method A) (k : A → Method B) (s : System platform.World handler.H)
      → ((a : A) (t : System platform.World handler.H) → (k a t).1.world ≡ t.world)
      → ((m >>= k) s).1.world ≡ (m s).1.world
  unfolding ◌>>=◌
  world-bind {A} m k s same = world-follow (m s).0 (m s).1
    where
      world-follow :
          (r : Result A) (t : System platform.World handler.H) → (follow r k t).1.world ≡ t.world
      world-follow (ok a) t = same a t
      world-follow (throw e) t = refl
