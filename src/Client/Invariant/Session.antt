-- ===== src/Client/Invariant/Session.antt =====
-- `poll`, `close` and the callbacks of a handler keep an invariant.
use fast_websocket_client.Base.{
  ℕ, zero, suc, Bool, true, false, not, [], Option, none, some, if◌then◌else◌,
}
use fast_websocket_client.Exec.{Error, pure, ◌>>=◌, ◌>>◌}
use fast_websocket_client.Exec.Keeps.{Keeps, pure-Keeps, bind-Keeps, if-Keeps, when-Keeps}
use fast_websocket_client.Frame.{Frame, Opcode}
use fast_websocket_client.FrameParser.{Machine}
use fast_websocket_client.Socket.{Platform}
use fast_websocket_client.Client.{
  closed_by_server, closed_by_client, Client, Handler, Event, on_close, on_text, on_binary,
  on_continuation, Call, Program,
}
use fast_websocket_client.Client.Methods.{Method}
use fast_websocket_client.Client.Session.{
  dispatch_as, dispatch, poll_loop, poll, close_open, close, rounds,
}
use fast_websocket_client.Client.Callbacks.{call, run_program, callback_at}
use fast_websocket_client.Client.Invariant.{Holds, Invariant}
use fast_websocket_client.Client.Invariant.Methods.{
  Kept, the_client-Keeps, assign-Keeps, send_pong-Keeps, send_close-Keeps, send_text-Keeps,
  send_binary-Keeps, handle_pong-Keeps, update_ping-Keeps, await_close-Keeps,
}

module _ ⦃platform : Platform⦄ ⦃handler : Handler⦄ ⦃machine : Machine⦄
    {P : Client → platform.World → Type 0} {E : Error → Type 0} (inv : Invariant P E) where
  module _ (callback : Event → Method (Unit {0})) (kept : (e : Event) → Kept inv (callback e)) where
    callback-Keeps : (e : Event) (b : Bool) → Kept inv (callback e >> pure b)
    callback-Keeps e b = bind-Keeps _ _ (kept e) λ _. pure-Keeps b

    dispatch_as-Keeps : (o : Opcode) (f : Frame) → Kept inv (dispatch_as callback o f)
    unfolding dispatch_as
    dispatch_as-Keeps Opcode.text f = callback-Keeps (on_text f) false
    dispatch_as-Keeps Opcode.binary f = callback-Keeps (on_binary f) false
    dispatch_as-Keeps Opcode.ping f = bind-Keeps _ _ (send_pong-Keeps inv _) λ _. pure-Keeps false
    dispatch_as-Keeps Opcode.pong f = bind-Keeps _ _ (handle_pong-Keeps inv) λ _. pure-Keeps false
    dispatch_as-Keeps Opcode.close f =
        bind-Keeps _ _ (assign-Keeps inv _ (λ c w h. inv.at_end c w closed_by_server (λ e. cc) h))
          λ _.
            bind-Keeps _ _ (send_close-Keeps inv [])
              λ _. bind-Keeps _ _ (kept (on_close true)) λ _. pure-Keeps true
    dispatch_as-Keeps _ f = callback-Keeps (on_continuation f) false

    dispatch-Keeps : (f : Frame) → Kept inv (dispatch callback f)
    unfolding dispatch
    dispatch-Keeps f = dispatch_as-Keeps f.opcode f

    pub poll_loop-Keeps : (left : ℕ) → Kept inv (poll_loop callback left)
    unfolding poll_loop
    poll_loop-Keeps zero = pure-Keeps false
    poll_loop-Keeps (suc left) = bind-Keeps _ _ inv.at_next_frame (taken (poll_loop-Keeps left))
      where
        taken :
            Kept inv (poll_loop callback left)
            → (parsed : Option Frame)
            → Keeps {A = Bool} (Holds P) E (elim parsed [
              | none ↦ pure false
              | some frame ↦ dispatch callback frame >>= λ returned.
                  if returned then pure true else poll_loop callback left
            ])
        taken rest none = pure-Keeps false
        taken rest (some frame) =
            bind-Keeps _ _ (dispatch-Keeps frame)
              λ returned. if-Keeps returned _ _ (pure-Keeps true) rest

    pub poll-Keeps : (max_reads : ℕ) → Kept inv (poll callback max_reads)
    unfolding poll
    poll-Keeps max_reads = bind-Keeps _ _ (poll_loop-Keeps (rounds max_reads)) λ returned.
        bind-Keeps _ _ (when-Keeps (not returned) _ (update_ping-Keeps inv))
          λ _. bind-Keeps _ _ (the_client-Keeps inv) λ c. pure-Keeps c.status

    close_open-Keeps : (timeout : ℕ) → Kept inv (close_open callback timeout)
    unfolding close_open
    close_open-Keeps timeout = bind-Keeps _ _ (poll-Keeps 4) λ _.
        bind-Keeps _ _ (assign-Keeps inv _ (λ c w h. inv.at_clear c w h)) λ _.
          bind-Keeps _ _ (send_close-Keeps inv []) λ _.
            bind-Keeps _ _
              (assign-Keeps inv _ (λ c w h. inv.at_end c w closed_by_client (λ e. cc) h))
              λ _.
                bind-Keeps _ _ (await_close-Keeps inv _)
                  λ success. bind-Keeps _ _ (kept (on_close success)) λ _. pure-Keeps success

    pub close-Keeps : (timeout : ℕ) → Kept inv (close callback timeout)
    unfolding close
    close-Keeps timeout =
        bind-Keeps _ _ (the_client-Keeps inv)
          λ c. if-Keeps (not c.connection_open) _ _ (pure-Keeps true) (close_open-Keeps timeout)

    call-Keeps : (c : Call) → Kept inv (call callback c)
    call-Keeps (Call.send_text payload) =
        bind-Keeps _ _ (send_text-Keeps inv payload) λ _. pure-Keeps _
    call-Keeps (Call.send_binary payload) =
        bind-Keeps _ _ (send_binary-Keeps inv payload) λ _. pure-Keeps _
    call-Keeps (Call.close timeout) = bind-Keeps _ _ (close-Keeps timeout) λ b. pure-Keeps _
    call-Keeps (Call.poll max_reads) = bind-Keeps _ _ (poll-Keeps max_reads) λ st. pure-Keeps _

    run_program-Keeps : (p : Program handler.H) → Kept inv (run_program callback p)
    unfolding run_program
    run_program-Keeps (Program.return h) = record { apply = λ s k. (k, tt) }
    run_program-Keeps (Program.invoke h c next) =
        bind-Keeps _ _ (bind-Keeps _ _ (record { apply = λ s k. (k, tt) }) λ _. call-Keeps c)
          λ reply.
            bind-Keeps _ _ (record { apply = λ s k. (k, tt) })
              λ h'. run_program-Keeps (next h' reply)

  pub callback_at-Keeps : (depth : ℕ) (e : Event) → Kept inv (callback_at depth e)
  unfolding callback_at
  callback_at-Keeps zero e = record { apply = λ s k. (k, inv.at_nesting) }
  callback_at-Keeps (suc depth) e = record {
    apply = λ s k.
        (run_program-Keeps (callback_at depth) (callback_at-Keeps depth)
            (handler.react s.handler e)).apply
          s k;
  }

  -- The public methods.
  pub any_call-Keeps : (depth : ℕ) (c : Call) → Kept inv (call (callback_at depth) c)
  any_call-Keeps depth c = call-Keeps (callback_at depth) (callback_at-Keeps depth) c
