-- ===== src/Client/Closing/Graceful.antt =====
-- The whole of `close` (include/fastws/fastws.hpp) when the server answers its CLOSE frame.
use fast_websocket_client.Base.{
  ℕ, suc, ◌+◌, ◌*◌, ◌≤◌, ◌≡◌, refl, sym, ap, subst, ◌∙◌, Bool, true, false, not, if◌then◌else◌,
  List, [], ◌∷◌, ◌++◌, append-nil, none, arith, length, length-drop, All, drop, ltb,
}
use fast_websocket_client.Exec.{Result, ok, pure, ◌>>=◌}
use fast_websocket_client.Frame.{Frame, Opcode}
use fast_websocket_client.Frame.Wire.{wire}
use fast_websocket_client.FrameFactory
use fast_websocket_client.FrameFactory.{frame_with}
use fast_websocket_client.FrameFactory.Frames.{control_limit}
use fast_websocket_client.FrameParser.{Machine, FrameParser, clear, update}
use fast_websocket_client.FrameParser.LengthField.{ZeroShifts}
use fast_websocket_client.FrameParser.Abstract.{IsValid}
use fast_websocket_client.FrameParser.Stream.{IsIdle}
use fast_websocket_client.FrameParser.Chunks.{IsSendable, joined, wires}
use fast_websocket_client.FrameParser.Chunks.Owed.{idle-Owes}
use fast_websocket_client.FrameParser.Valid.{clear-IsValid}
use fast_websocket_client.Socket.{Platform, Received}
use fast_websocket_client.Client.{ConnectionStatus, closed_by_client, Event}
use fast_websocket_client.Client.Methods.{next_frame, update_ping, send_close, send}
use fast_websocket_client.Client.Session.{poll, poll_loop, close, close_open}
use fast_websocket_client.Client.Callbacks.{callback_at, run_program}
use fast_websocket_client.Client.Arrivals.{silent-Idle}
use fast_websocket_client.Client.Delivery.{State, Feeds, recorder, first, first-joined}
use fast_websocket_client.Client.Delivery.Dispatch.{update_ping-Returns}
use fast_websocket_client.Client.Closing.{Answers, any_close, await_close-Answered}

clear-IsIdle : (p : FrameParser) → IsIdle (clear p) []
unfolding clear
clear-IsIdle p = refl

-- The connection is closed by the client, and the handler was told once that this succeeded.
pub record Graceful ⦃platform : Platform⦄ (s : State) (r : Result Bool × State) : Type 0 where
  pub returns : r.0 ≡ ok true
  pub told : r.1.handler ≡ s.handler ++ (Event.on_close true ∷ [])
  pub is_closed : r.1.client.connection_open ≡ false
  pub status_is : r.1.client.status ≡ closed_by_client

module _ ⦃platform : Platform⦄ ⦃machine : Machine⦄ (feeds : Feeds platform)
    (answers : Answers feeds) (zeros : ZeroShifts machine) (depth : ℕ) where
  -- No byte comes with the first read.
  record Silent (s s' : State) : Type 0 where
    status : ConnectionStatus
    returns : poll (callback_at (suc depth)) 4 s ≡ (ok status, s')
    unheard : s'.handler ≡ s.handler
    moved : feeds.upcoming s'.world ≡ drop 1 (feeds.upcoming s.world)
    live : feeds.Live s'.world

  next_frame-none :
      (s : State)
      → IsValid s.client.parser
      → IsIdle s.client.parser []
      → feeds.Live s.world
      → first (feeds.upcoming s.world) ≡ []
      → (q : FrameParser) × (next_frame s ≡ (
        ok none,
        record s {
          client = record s.client { parser = q };
          world = (platform.read_into s.client.parser.frame_buffer 1024 s.world).1;
        },
      ))
  unfolding next_frame ◌>>=◌
  next_frame-none s v idle live silent =
      let p = s.client.parser in
      let (told, b, e, (r, came), _, _) =
        feeds.at_read_into p.frame_buffer s.world live v.write_within in
      let no : told ≡ false = r.told ∙ ap (λ xs. ltb 0 (length xs)) (came ∙ silent) in
      let (vq, iq, none_came) =
        silent-Idle p b v idle (subst (λ t. Received p.frame_buffer t b) no r) in
      ((update (record p { frame_buffer = b }) false).0, rw (e, no, none_came))

  poll-next :
      (s t : State)
      → next_frame s ≡ (ok none, t)
      → (update_ping t).0 ≡ ok tt
      → poll (callback_at (suc depth)) 4 s ≡ (ok (update_ping t).1.client.status, (update_ping t).1)
  unfolding poll poll_loop ◌>>=◌
  poll-next s t e f = rw (e, f)

  poll-Silent :
      (s : State)
      → IsValid s.client.parser
      → IsIdle s.client.parser []
      → feeds.Live s.world
      → first (feeds.upcoming s.world) ≡ []
      → (s' : State) × Silent s s'
  poll-Silent s v idle live silent =
      let (q, e) = next_frame-none s v idle live silent in
      let t = record s {
        client = record s.client { parser = q };
        world = (platform.read_into s.client.parser.frame_buffer 1024 s.world).1;
      } in
      let (_, _, _, _, moved, still) =
        feeds.at_read_into s.client.parser.frame_buffer s.world live v.write_within in
      let pings = update_ping-Returns feeds t still in
      (
        (update_ping t).1,
        record {
          status = (update_ping t).1.client.status;
          returns = poll-next s t e pings.returns;
          unheard = pings.tells.told ∙ append-nil s.handler;
          moved = pings.tells.same_chunks ∙ moved;
          live = pings.tells.live;
        },
      )

  close_open-Graceful :
      (timeout : ℕ) (s s₁ : State) (gs : List Frame)
      → Silent s s₁
      → All IsSendable gs
      → any_close gs ≡ true
      → joined (drop 1 (feeds.upcoming s.world)) ≡ wires gs
      → length (drop 1 (feeds.upcoming s.world)) + length gs ≤ timeout * 10
      → Graceful s (close_open (callback_at (suc depth)) timeout s)
  unfolding close_open send_close send ◌>>=◌ callback_at run_program
  close_open-Graceful timeout s s₁ gs quiet fine some_close e enough =
      let f = s₁.client.factory in
      let made = ((control_limit true [] f).1 (omega arith)).2 in
      let bytes = wire (frame_with f true Opcode.close true []) in
      let (sent, same, still) = feeds.at_send bytes s₁.world quiet.live in
      let s₂ = record s₁ {
        client = record s₁.client {
          parser = clear s₁.client.parser;
          factory = (FrameFactory.close true [] f).1;
          status = closed_by_client;
          connection_open = false;
        };
        world = (platform.send bytes s₁.world).1;
      } in
      let came : feeds.upcoming s₂.world ≡ drop 1 (feeds.upcoming s.world) = same ∙ quiet.moved in
      let answered =
        await_close-Answered feeds answers zeros (timeout * 10) s₂ gs fine some_close
          (idle-Owes (clear s₁.client.parser) _ gs (clear-IsValid s₁.client.parser)
            (clear-IsIdle s₁.client.parser) (ap joined came ∙ e))
          still (omega (arith, ap length came, enough)) in
      rw (quiet.returns, made, sent)
        (rw answered.returns (record {
          returns = refl;
          told = ap (λ h. h ++ (Event.on_close true ∷ [])) (answered.unheard ∙ quiet.unheard);
          is_closed = answered.same_open;
          status_is = answered.same_status;
        }))

  -- On an open client whose parser is valid, between two frames and with nothing unread, whose
  -- socket is live, and as long as it is takes what is sent, brings no byte with the first read
  -- and then, one chunk with each read of 1024 bytes or more, the bytes of a sequence of frames in
  -- the RFC's layout, cut anywhere, with opcodes of four bits and payloads below 2 ^ 31 bytes, a
  -- CLOSE frame among them, where chunks and frames together are at most ten for each second of
  -- the timeout, and with a handler that writes down what it is told: close returns true, tells
  -- the handler just once and just that the connection was closed with success, and leaves the
  -- connection closed and the status CLOSED_BY_CLIENT, on a machine that shifts 0 to 0.
  pub close-Graceful :
      (timeout : ℕ) (s : State) (gs : List Frame)
      → s.client.connection_open ≡ true
      → IsValid s.client.parser
      → IsIdle s.client.parser []
      → feeds.Live s.world
      → first (feeds.upcoming s.world) ≡ []
      → All IsSendable gs
      → any_close gs ≡ true
      → joined (feeds.upcoming s.world) ≡ wires gs
      → length (feeds.upcoming s.world) + length gs ≤ timeout * 10
      → Graceful s (close (callback_at (suc depth)) timeout s)
  unfolding close ◌>>=◌
  close-Graceful timeout s gs up v idle live silent fine some_close e enough =
      let (s₁, quiet) = poll-Silent s v idle live silent in
      let u = feeds.upcoming s.world in
      let rest_joined : joined (drop 1 u) ≡ wires gs =
        sym (ap (λ xs. xs ++ joined (drop 1 u)) silent) ∙ sym (first-joined u) ∙ e in
      let step = close_open (callback_at (suc depth)) timeout in
      subst (λ b. Graceful s ((if not b then pure true else step) s)) (sym up)
        (close_open-Graceful timeout s s₁ gs quiet fine some_close rest_joined
          (omega (arith, length-drop 1 u, enough)))
