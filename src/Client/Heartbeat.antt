-- ===== src/Client/Heartbeat.antt =====
-- The pings of the two sides: the answer to the server's, and the end of a connection whose server does
-- not answer the client's.
use fast_websocket_client.Base.{
  ℕ, ◌-◌, ◌*◌, ◌≤◌, ◌<◌, ◌≡◌, refl, ap, ◌∙◌, true, false, List, [], ◌++◌, some, arith, length, ltb,
  lt→ltb, le→ltb_false,
}
use fast_websocket_client.Exec.{Result, ok, throw, pure, follow, ◌>>=◌}
use fast_websocket_client.Frame.{Frame, Opcode, opcode_of}
use fast_websocket_client.FrameParser.{Machine, FrameParser, update_view}
use fast_websocket_client.FrameParser.Abstract.{IsValid}
use fast_websocket_client.FrameParser.LengthField.{ZeroShifts}
use fast_websocket_client.FrameParser.RoundTrip.{IsWireOpcode}
use fast_websocket_client.FrameParser.Stream.{IsIdle}
use fast_websocket_client.FrameFactory
use fast_websocket_client.FrameFactory.{FrameFactory}
use fast_websocket_client.FrameFactory.Frames.{unmasked, construct-update_view}
use fast_websocket_client.Socket.{Platform}
use fast_websocket_client.Client.{Handler, System, Event, ping_timed_out}
use fast_websocket_client.Client.Methods.{
  Method, send, send_pong, send_ping, update_ping, start_timer, elapsed, exceeds,
}
use fast_websocket_client.Client.Session.{dispatch, dispatch_as}

pong-named : IsWireOpcode Opcode.pong
unfolding opcode_of
pong-named = refl

pong-fits :
    (payload : List ℕ) (s : FrameFactory)
    → length payload ≤ 125
    → FrameFactory.pong true payload s ≡ FrameFactory.construct true Opcode.pong true payload s
unfolding FrameFactory.pong
pong-fits payload s h = let e : ltb 125 (length payload) ≡ false = le→ltb_false _ _ h in rw e

pub state-pure : {S A B : Type 0} (r : Result A) (b : B) (s : S) → (follow r (λ _. pure b) s).1 ≡ s
state-pure (ok a) b s = refl
state-pure (throw x) b s = refl

module _ ⦃platform : Platform⦄ ⦃handler : Handler⦄ ⦃machine : Machine⦄ where
  world-send_pong :
      (payload bytes : List ℕ) (s : System platform.World handler.H)
      → (FrameFactory.pong true payload s.client.factory).0 ≡ ok bytes
      → (send_pong payload s).1.world ≡ (platform.send bytes s.world).1
  unfolding send_pong send ◌>>=◌
  world-send_pong payload bytes s e = rw e

  -- A PING frame with a payload of at most 125 bytes makes the body of poll's loop send one frame,
  -- and do nothing else to the world; a valid parser between two frames that is given this frame,
  -- with any bytes behind it, returns a final PONG frame whose payload, once unmasked, is the
  -- ping's, on a machine that shifts 0 to 0.
  pub dispatch-pong :
      (callback : Event → Method (Unit {0})) (f : Frame) (s : System platform.World handler.H)
      (rest : List ℕ) (p : FrameParser)
      → ZeroShifts machine
      → IsValid p
      → IsIdle p []
      → f.opcode ≡ Opcode.ping
      → length f.payload ≤ 125
      → (bytes : List ℕ) × (g : Frame) × (q : FrameParser) × ((dispatch callback f s).1.world
          ≡ (platform.send bytes s.world).1)
        × (update_view p (bytes ++ rest) ≡ some (q, some g))
        × (g.opcode ≡ Opcode.pong)
        × (g.fin ≡ true)
        × (unmasked g ≡ f.payload)
        × IsIdle q rest
  unfolding dispatch dispatch_as ◌>>=◌
  dispatch-pong callback f s rest p zeros valid idle ping fits =
      let (bytes, g, q, made, read, op, fin, _, _, _, same, after) =
        construct-update_view Opcode.pong f.payload rest s.client.factory p zeros valid idle
          pong-named (omega arith) in
      (
        bytes,
        g,
        q,
        rw (ping, dispatch_as)
            (ap (λ (t : System platform.World handler.H). t.world) (state-pure _ false _)
              ∙ world-send_pong f.payload bytes s
                  (ap (λ r. r.0) (pong-fits f.payload s.client.factory fits) ∙ made)),
        read,
        op,
        fin,
        same,
        after,
      )

  -- The time between two readings of the clock, the second one after `w`.
  abbrev pub since : ℕ → platform.World → ℕ
  since t w = (platform.clock w).0 - t

  follow-send :
      (r : Result (List ℕ)) (s : System platform.World handler.H)
      → (follow r send s).1.client ≡ s.client
  unfolding send
  follow-send (ok bytes) s = refl
  follow-send (throw x) s = refl

  -- A ping changes the factory alone.
  client-send_ping :
      (s : System platform.World handler.H)
      → (send_ping [] s).1.client
        ≡ record s.client { factory = (FrameFactory.ping true [] s.client.factory).1 }
  unfolding send_ping ◌>>=◌
  client-send_ping s = follow-send _ _

  -- The ping is due, and the client waits for no answer to an earlier one.
  update_ping-sends :
      (s : System platform.World handler.H)
      → s.client.waiting_for_ping ≡ false
      → s.client.ping_every * 1000000 < since s.client.ping_timer s.world
      → let s' = (update_ping s).1 in
        (s'.client.waiting_for_ping ≡ true)
        × (s'.client.ping_timer ≡ (platform.clock (platform.clock s.world).1).0)
        × (s'.client.ping_timeout ≡ s.client.ping_timeout)
        × (s'.client.connection_open ≡ s.client.connection_open)
        × (s'.client.status ≡ s.client.status)
  unfolding update_ping elapsed start_timer ◌>>=◌
  update_ping-sends s idle due =
      let e : exceeds (since s.client.ping_timer s.world) s.client.ping_every ≡ true =
        lt→ltb _ _ due in
      rw (idle, e, client-send_ping) (refl, refl, refl, refl, refl)

  update_ping-expires :
      (s : System platform.World handler.H)
      → s.client.waiting_for_ping ≡ true
      → s.client.ping_timeout * 1000000 < since s.client.ping_timer s.world
      → let s' = (update_ping s).1 in
        (s'.client.connection_open ≡ false)
        × (s'.client.status ≡ ping_timed_out)
        × (s'.world ≡ (platform.clock s.world).1)
  unfolding update_ping elapsed ◌>>=◌
  update_ping-expires s waiting late =
      let e : exceeds (since s.client.ping_timer s.world) s.client.ping_timeout ≡ true =
        lt→ltb _ _ late in
      rw (waiting, e) (refl, refl, refl)

  -- When the client waits for no answer and the ping is due, a first update of the ping leaves
  -- status and connection as they are; a second one on the client that it left, at a time that is
  -- further from the timer's restart than the timeout, closes the connection as timed out and does
  -- nothing to the world but reading the clock.
  pub update_ping-unanswered :
      (s : System platform.World handler.H) (w : platform.World)
      → s.client.waiting_for_ping ≡ false
      → s.client.ping_every * 1000000 < since s.client.ping_timer s.world
      → s.client.ping_timeout * 1000000 < since (platform.clock (platform.clock s.world).1).0 w
      → let pinged = (update_ping s).1 in
        let ended = (update_ping (record pinged { world = w })).1 in
        (pinged.client.connection_open ≡ s.client.connection_open)
        × (pinged.client.status ≡ s.client.status)
        × (ended.client.connection_open ≡ false)
        × (ended.client.status ≡ ping_timed_out)
        × (ended.world ≡ (platform.clock w).1)
  update_ping-unanswered s w idle due late =
      let (waiting, timer, limit, same_open, same_status) = update_ping-sends s idle due in
      let (closed, timed_out, read) =
        update_ping-expires (record (update_ping s).1 { world = w }) waiting
          (rw (limit, timer) late) in
      (same_open, same_status, closed, timed_out, read)
