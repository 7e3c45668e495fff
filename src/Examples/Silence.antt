-- ===== src/Examples/Silence.antt =====
-- The loop of the programs under examples/ at a server that says nothing.
use fast_websocket_client.Base.{
  ℕ, zero, suc, ◌+◌, ◌-◌, ◌*◌, ◌≤◌, ◌<◌, ◌≡◌, refl, ap, ◌∙◌, ◌⊎◌, Bool, true, false, Bool-cases,
  inl, inr, List, [], ◌∷◌, none, arith, ltb, lt→ltb, le→ltb_false, replicate,
}
use fast_websocket_client.Exec.{Result, ok, ◌>>=◌}
use fast_websocket_client.FrameBuffer.{FrameBuffer, capacity}
use fast_websocket_client.FrameParser.{Machine, FrameParser, update}
use fast_websocket_client.FrameParser.Abstract.{IsValid}
use fast_websocket_client.FrameParser.Stream.{IsIdle}
use fast_websocket_client.Socket.{Platform, Received}
use fast_websocket_client.Client.{Client, ConnectionStatus, Handler, healthy, ping_timed_out}
use fast_websocket_client.Client.Methods.{next_frame, update_ping, elapsed, exceeds}
use fast_websocket_client.Client.Session.{poll, poll_loop}
use fast_websocket_client.Client.Arrivals.{silent-Idle}
use fast_websocket_client.Client.Callbacks.{callback_at}
use fast_websocket_client.Client.Lifetime.{State}
use fast_websocket_client.Client.Status.{is_healthy, IsClosed}
use fast_websocket_client.Examples.{poll_while}

-- The socket brings no byte, and each reading of the clock is later than the one before.
pub record Quiet (platform : Platform) : Type 0 where
  pub time : platform.World → ℕ
  pub at_clock :
      (w : platform.World) → ((platform.clock w).0 ≡ time w) × (time w < time (platform.clock w).1)
  pub at_read_into :
      (b : FrameBuffer) (hint : ℕ) (w : platform.World)
      → b.ptr ≤ capacity b
      → (b' : FrameBuffer) × ((platform.read_into b hint w).0 ≡ ok (false, b'))
        × Received b false b'
  pub at_read_time :
      (b : FrameBuffer) (hint : ℕ) (w : platform.World)
      → time w ≤ time (platform.read_into b hint w).1

split_lt : (a b : ℕ) → (a < b) ⊎ (b ≤ a)
split_lt a b = elim (Bool-cases (ltb a b)) [
  | inl e ↦ inl (ground arith)
  | inr e ↦ inr (ground arith)
]

module _ ⦃platform : Platform⦄ ⦃handler : Handler⦄ ⦃machine : Machine⦄
    (quiet : Quiet platform) where
  next_frame-silent :
      (s : State)
      → IsValid s.client.parser
      → IsIdle s.client.parser []
      → (q : FrameParser) × IsValid q
        × IsIdle q []
        × (next_frame s ≡ (
          ok none,
          record s {
            client = record s.client { parser = q };
            world = (platform.read_into s.client.parser.frame_buffer 1024 s.world).1;
          },
        ))
  unfolding next_frame ◌>>=◌
  next_frame-silent s v idle =
      let (b, e, r) = quiet.at_read_into s.client.parser.frame_buffer 1024 s.world v.write_within in
      let (vq, iq, none_came) = silent-Idle s.client.parser b v idle r in
      ((update (record s.client.parser { frame_buffer = b }) false).0, vq, iq, rw (e, none_came))

  update_ping-waits :
      (s : State)
      → s.client.waiting_for_ping ≡ true
      → (platform.clock s.world).0 ≤ s.client.ping_timer + s.client.ping_timeout * 1000000
      → update_ping s ≡ (ok tt, record s { world = (platform.clock s.world).1 })
  unfolding update_ping elapsed ◌>>=◌
  update_ping-waits s waiting early =
      let e : exceeds ((platform.clock s.world).0 - s.client.ping_timer) s.client.ping_timeout
          ≡ false =
        le→ltb_false _ _ (omega arith) in
      rw (waiting, e)

  abbrev timed_out : Client → Client
  timed_out c = record c { connection_open = false; status = ping_timed_out }

  update_ping-expires :
      (s : State)
      → s.client.waiting_for_ping ≡ true
      → s.client.ping_timer + s.client.ping_timeout * 1000000 < (platform.clock s.world).0
      → update_ping s
        ≡ (ok tt, record s { client = timed_out s.client; world = (platform.clock s.world).1 })
  unfolding update_ping elapsed ◌>>=◌
  update_ping-expires s waiting late =
      let e : exceeds ((platform.clock s.world).0 - s.client.ping_timer) s.client.ping_timeout
          ≡ true =
        lt→ltb _ _ (omega arith) in
      rw (waiting, e)

  module _ (depth : ℕ) where
    poll-silent :
        (s s₁ s₂ : State)
        → next_frame s ≡ (ok none, s₁)
        → update_ping s₁ ≡ (ok tt, s₂)
        → poll (callback_at depth) 4 s ≡ (ok s₂.client.status, s₂)
    unfolding poll poll_loop ◌>>=◌
    poll-silent s s₁ s₂ e f = rw (e, f)

    poll_while-goes :
        (later : List Bool) (s s' : State) (st : ConnectionStatus)
        → poll (callback_at depth) 4 s ≡ (ok st, s')
        → is_healthy st ≡ true
        → poll_while depth (true ∷ later) s ≡ poll_while depth later s'
    unfolding poll_while ◌>>=◌
    poll_while-goes later s s' st e up = rw (e, up)

    poll_while-ends :
        (later : List Bool) (s s' : State) (st : ConnectionStatus)
        → poll (callback_at depth) 4 s ≡ (ok st, s')
        → is_healthy st ≡ false
        → poll_while depth (true ∷ later) s ≡ (ok tt, s')
    unfolding poll_while ◌>>=◌
    poll_while-ends later s s' st e down = rw (e, down)

    -- The client waits for the answer to a ping, and has nothing unread.
    pub record Waits (s : State) : Type 0 where
      pub valid : IsValid s.client.parser
      pub idle : IsIdle s.client.parser []
      pub waiting : s.client.waiting_for_ping ≡ true
      pub up : s.client.status ≡ healthy

    -- What the loop leaves.
    pub record TimedOut (s : State) (r : Result (Unit {0}) × State) : Type 0 where
      pub returns : r.0 ≡ ok tt
      pub closed : IsClosed r.1.client
      pub told : r.1.client.status ≡ ping_timed_out
      pub unheard : r.1.handler ≡ s.handler

    abbrev limit : State → ℕ
    limit s = s.client.ping_timer + s.client.ping_timeout * 1000000

    -- One round in which the ping does not time out.
    record Passes (s : State) : Type 0 where
      next : State
      waits : Waits next
      goes : (later : List Bool) → poll_while depth (true ∷ later) s ≡ poll_while depth later next
      early : quiet.time s.world ≤ limit s
      same : limit next ≡ limit s
      passed : quiet.time s.world < quiet.time next.world
      unheard : next.handler ≡ s.handler

    round :
        (s : State)
        → Waits s
        → ((later : List Bool) → TimedOut s (poll_while depth (true ∷ later) s)) ⊎ Passes s
    round s w =
        let (q, vq, iq, e) = next_frame-silent s w.valid w.idle in
        let v = (platform.read_into s.client.parser.frame_buffer 1024 s.world).1 in
        let s₁ : State = record s { client = record s.client { parser = q }; world = v } in
        let later = quiet.at_read_time s.client.parser.frame_buffer 1024 s.world in
        let (reads, passes) = quiet.at_clock v in
        elim (split_lt (limit s) (quiet.time v)) [
          | inl late ↦
              let f = update_ping-expires s₁ w.waiting (omega (arith, late, reads)) in
              inl (λ more.
                rw (poll_while-ends more s _ _ (poll-silent s s₁ _ e f) refl)
                  record { returns = refl; closed = refl; told = refl; unheard = refl })
          | inr early ↦
              let f = update_ping-waits s₁ w.waiting (omega (arith, early, reads)) in
              inr record {
                next = record s₁ { world = (platform.clock v).1 };
                waits = record { valid = vq; idle = iq; waiting = w.waiting; up = w.up };
                goes = λ more.
                    poll_while-goes more s _ _ (poll-silent s s₁ _ e f) (ap is_healthy w.up);
                early = omega (arith, early, later);
                same = refl;
                passed = omega (arith, later, passes);
                unheard = refl;
              }
        ]

    moved :
        {s s' : State} (e : s'.handler ≡ s.handler) {r r' : Result (Unit {0}) × State}
        → r ≡ r'
        → TimedOut s' r'
        → TimedOut s r
    moved e same t =
        rw same
          record { returns = t.returns; closed = t.closed; told = t.told; unheard = t.unheard ∙ e }

    -- When the socket brings no byte and each reading of the clock is later than the one before, a
    -- client that is HEALTHY, waits for the answer to a ping and has a valid parser between two
    -- frames with nothing unread is polled for suc n rounds at most, where the timeout lies less
    -- than n nanoseconds ahead: the loop returns, with the connection closed as timed out and the
    -- handler's state as it was.
    pub poll_while-silent :
        (n : ℕ) (s : State)
        → Waits s
        → s.client.ping_timer + s.client.ping_timeout * 1000000 < quiet.time s.world + n
        → TimedOut s (poll_while depth (replicate (suc n) true) s)
    poll_while-silent zero s w h = elim (round s w) [
      | inl ends ↦ ends []
      | inr goes ↦ absurd (omega (arith, goes.early))
    ]
    poll_while-silent (suc n) s w h = elim (round s w) [
      | inl ends ↦ ends (replicate (suc n) true)
      | inr goes ↦
          moved goes.unheard (goes.goes (replicate (suc n) true))
            (poll_while-silent n goes.next goes.waits (omega (arith, h, goes.same, goes.passed)))
    ]
