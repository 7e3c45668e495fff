-- ===== src/Client/Connecting/Conversation.antt =====
-- A client (include/fastws/fastws.hpp) from its constructor on, at a server that accepts the handshake
-- and then sends frames.
use fast_websocket_client.Base.{
  ℕ, suc, ◌+◌, ◌*◌, ◌≤◌, ◌≡◌, sym, ap, subst, ◌∙◌, inl, inr, Bool, true, Bool-cases, if◌then◌else◌,
  List, [], ◌∷◌, ◌++◌, append_assoc, append-nil, arith, length, replicate, All, take, drop, ltb,
}
use fast_websocket_client.Exec.{Result, ok, follow, ◌>>=◌}
use fast_websocket_client.Frame.{Frame}
use fast_websocket_client.FrameParser.{Machine}
use fast_websocket_client.FrameParser.LengthField.{ZeroShifts}
use fast_websocket_client.FrameParser.Abstract.{IsValid}
use fast_websocket_client.FrameParser.Stream.{IsIdle}
use fast_websocket_client.FrameParser.Chunks.{IsSendable, joined, wires}
use fast_websocket_client.Socket.{Platform}
use fast_websocket_client.Client.{Event, Call}
use fast_websocket_client.Client.Methods.{start_timer}
use fast_websocket_client.Client.Session.{connect, construct, greet, contains, switching}
use fast_websocket_client.Client.Callbacks.{callback_at}
use fast_websocket_client.Client.Lifetime.{after, lifetime}
use fast_websocket_client.Client.Delivery.{State, Feeds, recorder, IsPolled}
use fast_websocket_client.Client.Delivery.Dispatch.{Returns, send_ping-Returns}
use fast_websocket_client.Client.Delivery.Work.{events}
use fast_websocket_client.Client.Delivery.Polls.{polls-events}
use fast_websocket_client.Client.Closing.{Answers}
use fast_websocket_client.Client.Connecting.{Opens, Complete, connect-Concludes}

-- No two numbers of chunks make the response.
not_fewer :
    (rounds : ℕ) (chunks : List (List ℕ)) (a b : ℕ)
    → Complete rounds [] chunks a
    → Complete rounds [] chunks b
    → b ≤ a
not_fewer rounds chunks a b x y = elim x.stopped [
  | inl found ↦ elim (Bool-cases (ltb a b)) [
    | inl fewer ↦ absurd (let no = y.shortest a (ground arith) in cc)
    | inr more ↦ ground arith
  ]
  | inr all ↦ omega (arith, y.within, all)
]

module _ ⦃platform : Platform⦄ ⦃machine : Machine⦄ (feeds : Feeds platform)
    (answers : Answers feeds) (opens : Opens feeds) (zeros : ZeroShifts machine) (depth : ℕ) where
  greet-Returns : (s : State) → feeds.Live s.world → Returns feeds tt [] s (greet true s)
  unfolding start_timer ◌>>=◌
  greet-Returns s live =
      let w = (platform.clock s.world).1 in
      let (same, still) = feeds.at_clock s.world live in
      let pings =
        send_ping-Returns feeds
          (record s {
            client = record s.client {
              waiting_for_ping = true;
              ping_timer = (platform.clock s.world).0;
            };
            world = w;
          })
          still in
      record {
        returns = pings.returns;
        tells = record {
          told = pings.tells.told;
          same_parser = pings.tells.same_parser;
          same_chunks = pings.tells.same_chunks ∙ same;
          live = pings.tells.live;
        };
      }

  greeted :
      (r : Result Bool × State)
      → feeds.Live r.1.world
      → r.0 ≡ ok true
      → Returns feeds tt [] r.1 (follow r.0 greet r.1)
  greeted (r, t) live e =
      subst (λ x. Returns feeds tt [] t (follow x greet t)) (sym e) (greet-Returns t live)

  abbrev Constructed : State → ℕ → Result (Unit {0}) × State → Type 0
  Constructed s k r =
      (r.0 ≡ ok tt)
      × (r.1.handler ≡ s.handler ++ (Event.on_open ∷ []))
      × (r.1.client.parser ≡ s.client.parser)
      × (feeds.upcoming r.1.world ≡ drop k (feeds.upcoming s.world))
      × feeds.Live r.1.world

  construct-Constructed :
      (timeout k : ℕ) (s : State)
      → opens.Ready s.world
      → Complete (timeout * 10) [] (feeds.upcoming s.world) k
      → contains switching (joined (take k (feeds.upcoming s.world))) ≡ true
      → Constructed s k (construct (callback_at (suc depth)) timeout s)
  unfolding construct ◌>>=◌
  construct-Constructed timeout k s ready complete agrees =
      let u = feeds.upcoming s.world in
      let r = connect (callback_at (suc depth)) timeout s in
      let c = connect-Concludes feeds answers opens depth timeout s ready in
      let same : c.used ≡ k = omega (
        arith,
        not_fewer (timeout * 10) u c.used k c.complete complete,
        not_fewer (timeout * 10) u k c.used complete c.complete,
      ) in
      let yes : contains switching (joined (take c.used u)) ≡ true =
        ap (λ i. contains switching (joined (take i u))) same ∙ agrees in
      let g = greeted r c.live (c.returns ∙ ap ok yes) in
      (
        g.returns,
        g.tells.told
            ∙ append-nil r.1.handler
            ∙ c.told
            ∙ ap (λ b. s.handler ++ (if b then Event.on_open ∷ [] else [])) yes,
        g.tells.same_parser ∙ c.same_parser,
        g.tells.same_chunks ∙ c.left_over ∙ ap (λ i. drop i u) same,
        g.tells.live,
      )

  -- On a client whose parser is valid, between two frames and with nothing unread, whose socket is
  -- ready to open, and once open is live, takes what is sent and brings one chunk with each read
  -- of 1024 bytes or more, with a handler that writes down what it is told, when k is the fewest
  -- chunks that hold a blank line, at most ten for each second of the timeout, or that many if
  -- none do, these hold the status line HTTP/1.1 101, and the chunks behind them bring the bytes
  -- of a sequence of frames in the RFC's layout, cut anywhere, with opcodes of four bits, but not
  -- CLOSE, and payloads below 2 ^ 31 bytes, at most 125 bytes for a PING: after the constructor
  -- and as many polls as there are of these chunks and frames together, or more, the handler was
  -- told of the opening and then of each of the frames but the PING and PONG frames (masked
  -- payloads still masked), once and in order, and of nothing else, on a machine that shifts 0 to
  -- 0.
  pub lifetime-events :
      (timeout n k : ℕ) (s : State) (gs : List Frame)
      → IsValid s.client.parser
      → IsIdle s.client.parser []
      → opens.Ready s.world
      → Complete (timeout * 10) [] (feeds.upcoming s.world) k
      → contains switching (joined (take k (feeds.upcoming s.world))) ≡ true
      → All IsSendable gs
      → All IsPolled gs
      → joined (drop k (feeds.upcoming s.world)) ≡ wires gs
      → length (drop k (feeds.upcoming s.world)) + length gs ≤ n
      → (lifetime (suc depth) timeout (replicate n (Call.poll 4)) s).handler
        ≡ s.handler ++ (Event.on_open ∷ events gs)
  unfolding lifetime after
  lifetime-events timeout n k s gs v idle ready complete agrees fine polled e enough =
      let (returns, told, same_parser, left, live) =
        construct-Constructed timeout k s ready complete agrees in
      let t = (construct (callback_at (suc depth)) timeout s).1 in
      let heard =
        polls-events feeds zeros depth n t gs (subst IsValid (sym same_parser) v)
          (subst (λ p. IsIdle p []) (sym same_parser) idle) live fine polled (ap joined left ∙ e)
          (omega (arith, ap length left, enough)) in
      subst
        (λ r.
          (after r (suc depth) (replicate n (Call.poll 4)) t).handler
          ≡ s.handler ++ (Event.on_open ∷ events gs))
        (sym returns)
        (heard
          ∙ ap (λ h. h ++ events gs) told
          ∙ append_assoc s.handler (Event.on_open ∷ []) (events gs))
