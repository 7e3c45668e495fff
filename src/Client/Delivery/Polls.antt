-- ===== src/Client/Delivery/Polls.antt =====
-- Polls of a client (include/fastws/fastws.hpp) in a row.
use fast_websocket_client.Base.{
  ℕ, zero, suc, ◌+◌, ◌≤◌, ◌≡◌, refl, sym, ap, subst, ◌∙◌, false, List, [], ◌∷◌, ◌++◌, append-nil,
  Option, none, some, arith, length, All, replicate,
}
use fast_websocket_client.Exec.{ok, ◌>>=◌}
use fast_websocket_client.Frame.{Frame}
use fast_websocket_client.FrameParser.{Machine}
use fast_websocket_client.FrameParser.LengthField.{ZeroShifts}
use fast_websocket_client.FrameParser.Abstract.{IsValid}
use fast_websocket_client.FrameParser.Stream.{IsIdle}
use fast_websocket_client.FrameParser.Chunks.{IsSendable, joined, wires}
use fast_websocket_client.FrameParser.Chunks.Owed.{idle-Owes}
use fast_websocket_client.Socket.{Platform}
use fast_websocket_client.Client.{Call}
use fast_websocket_client.Client.Methods.{next_frame, update_ping}
use fast_websocket_client.Client.Session.{poll, poll_loop}
use fast_websocket_client.Client.Callbacks.{callback_at, call}
use fast_websocket_client.Client.Lifetime.{run_calls}
use fast_websocket_client.Client.Delivery.{State, Feeds, Due, next_frame-Read, recorder, IsPolled}
use fast_websocket_client.Client.Delivery.Dispatch.{
  all_heard, Tells, nothing-Tells, dispatch-Returns, update_ping-Returns,
}
use fast_websocket_client.Client.Delivery.Work.{
  events, AllPolled, Heard, nothing-Heard, then-Heard, weaker-Heard, same-Heard, Read-Heard,
}

module _ ⦃platform : Platform⦄ ⦃machine : Machine⦄ (feeds : Feeds platform)
    (zeros : ZeroShifts machine) (depth : ℕ) where
  -- What the loop of `poll` comes to.
  record Loops (k : ℕ) (s : State) (gs : List Frame) (n : ℕ) : Type 0 where
    last : State
    returns : poll_loop (callback_at (suc depth)) k s ≡ (ok false, last)
    work_done : Heard feeds zeros depth s gs n last

  one_more :
      (k : ℕ) (out : Option Frame) (s s' : State) (gs : List Frame)
      → next_frame s ≡ (ok out, s')
      → feeds.Live s'.world
      → AllPolled out
      → ((t : State) → Tells feeds (all_heard out) s' t → Heard feeds zeros depth s gs 1 t)
      → ((t : State) (hs : List Frame) → Due feeds zeros t hs → Loops k t hs 0)
      → Loops (suc k) s gs 1
  unfolding poll_loop ◌>>=◌
  one_more k none s s' gs e live d w loops = record {
    last = s';
    returns = rw e;
    work_done = w s' (nothing-Tells feeds s' live);
  }
  one_more k (some f) s s' gs e live d w loops =
      let done = dispatch-Returns feeds depth f s' live d in
      let work = w _ done.tells in
      let rest = loops _ work.others work.due in
      record {
        last = rest.last;
        returns = rw (e, done.returns) rest.returns;
        work_done =
            weaker-Heard feeds zeros depth 1 (omega arith)
              (then-Heard feeds zeros depth work rest.work_done);
      }

  first_round :
      (k : ℕ) (s : State) (gs : List Frame)
      → Due feeds zeros s gs
      → ((t : State) (hs : List Frame) → Due feeds zeros t hs → Loops k t hs 0)
      → Loops (suc k) s gs 1
  first_round k s gs due loops =
      let rd = next_frame-Read feeds zeros s gs due.sendable due.owes due.live in
      let (d, w) = Read-Heard feeds zeros depth s gs due rd in
      one_more k rd.out s rd.next gs rd.returns rd.live d w loops

  poll_loop-Loops : (k : ℕ) (s : State) (gs : List Frame) → Due feeds zeros s gs → Loops k s gs 0
  unfolding poll_loop
  poll_loop-Loops zero s gs due = record {
    last = s;
    returns = refl;
    work_done = nothing-Heard feeds zeros depth s gs due;
  }
  poll_loop-Loops (suc k) s gs due =
      let more = first_round k s gs due (poll_loop-Loops k) in
      record {
        last = more.last;
        returns = more.returns;
        work_done = weaker-Heard feeds zeros depth 0 (omega arith) more.work_done;
      }

  poll_left :
      (s s' : State)
      → poll_loop (callback_at (suc depth)) 4 s ≡ (ok false, s')
      → (update_ping s').0 ≡ ok tt
      → (call (callback_at (suc depth)) (Call.poll 4) s).1 ≡ (update_ping s').1
  unfolding poll ◌>>=◌
  poll_left s s' e f = rw (e, f)

  poll-Heard :
      (s : State) (gs : List Frame)
      → Due feeds zeros s gs
      → Heard feeds zeros depth s gs 1 (call (callback_at (suc depth)) (Call.poll 4) s).1
  poll-Heard s gs due =
      let loops = first_round 3 s gs due (poll_loop-Loops 3) in
      let quiet = update_ping-Returns feeds loops.last loops.work_done.due.live in
      subst (Heard feeds zeros depth s gs 1)
        (sym (poll_left s loops.last loops.returns quiet.returns))
        (same-Heard feeds zeros depth loops.work_done quiet.tells)

  run_calls-Heard :
      (n : ℕ) (s : State) (gs : List Frame)
      → Due feeds zeros s gs
      → Heard feeds zeros depth s gs n (run_calls (suc depth) (replicate n (Call.poll 4)) s)
  unfolding run_calls
  run_calls-Heard zero s gs due = nothing-Heard feeds zeros depth s gs due
  run_calls-Heard (suc n) s gs due =
      let one = poll-Heard s gs due in
      weaker-Heard feeds zeros depth (suc n) (omega arith)
        (then-Heard feeds zeros depth one (run_calls-Heard n _ one.others one.due))

  none_left : (gs hs : List Frame) → length hs ≤ 0 → gs ++ hs ≡ gs
  none_left gs [] h = append-nil gs
  none_left gs (x ∷ hs) h = absurd (omega arith)

  -- On a client whose parser is valid, between two frames and with nothing unread, whose socket is
  -- live, and as long as it is brings the bytes of a sequence of frames in the RFC's layout in
  -- chunks that are cut anywhere, one chunk with each read of 1024 bytes, and takes what is sent,
  -- where the frames have opcodes of four bits, but not CLOSE, and payloads below 2 ^ 31 bytes, at
  -- most 125 bytes for a PING, and with a handler that writes down what it is told: after as many
  -- polls as there are chunks and frames together, or more, the handler was told each of the
  -- frames but the PING and PONG frames (masked payloads still masked), once and in order, and
  -- nothing else, on a machine that shifts 0 to 0.
  pub polls-events :
      (n : ℕ) (s : State) (gs : List Frame)
      → IsValid s.client.parser
      → IsIdle s.client.parser []
      → feeds.Live s.world
      → All IsSendable gs
      → All IsPolled gs
      → joined (feeds.upcoming s.world) ≡ wires gs
      → length (feeds.upcoming s.world) + length gs ≤ n
      → (run_calls (suc depth) (replicate n (Call.poll 4)) s).handler ≡ s.handler ++ events gs
  polls-events n s gs v idle live fine polled e enough =
      let all = run_calls-Heard n s gs (record {
        owes = idle-Owes s.client.parser _ gs v idle e;
        sendable = fine;
        polled = polled;
        live = live;
      }) in
      let whole : gs ≡ all.frames =
        all.split ∙ none_left all.frames all.others (omega (arith, all.left)) in
      all.handed ∙ ap (λ hs. s.handler ++ events hs) (sym whole)
