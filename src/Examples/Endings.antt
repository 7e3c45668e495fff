-- ===== src/Examples/Endings.antt =====
-- How the programs under examples/ end.
use fast_websocket_client.Base.{
  ℕ, zero, suc, ◌≡◌, sym, subst, ◌∙◌, ◌++◌, Bool, true, List, [], ◌∷◌, replicate,
}
use fast_websocket_client.Exec.{Error, no_progress, ok, ◌>>=◌}
use fast_websocket_client.Exec.Ensures.{
  Ensures, pure-Ensures, any-Ensures, bind-Ensures, if-Ensures,
}
use fast_websocket_client.Frame.{Frame}
use fast_websocket_client.FrameParser.{Machine}
use fast_websocket_client.Socket.{Platform}
use fast_websocket_client.Client.{Client, Handler, Event, Call, Reply, Program, System}
use fast_websocket_client.Client.Session.{poll, close}
use fast_websocket_client.Client.Callbacks.{callback_at, run_program}
use fast_websocket_client.Client.Invariant.Lasting.{lasting-Invariant}
use fast_websocket_client.Client.Invariant.Session.{poll-Keeps, close-Keeps, callback_at-Keeps}
use fast_websocket_client.Client.Invariant.{Invariant}
use fast_websocket_client.Client.Invariant.Methods.{Kept}
use fast_websocket_client.Client.Invariant.Opening.{Opening, construct-Keeps}
use fast_websocket_client.Exec.Keeps.{pure-Keeps, raise-Keeps, bind-Keeps, if-Keeps}
use fast_websocket_client.Client.Lifetime.{State}
use fast_websocket_client.Client.Status.{is_healthy, IsSynced, IsClosed, IsSynced-Lasting}
use fast_websocket_client.Client.Ends.{close_lem, poll_lem}
use fast_websocket_client.Handshake.{codes}
use fast_websocket_client.Examples.{frame_line, poll_while, run_client}
use fast_websocket_client.Examples.Example

module _ ⦃platform : Platform⦄ ⦃handler : Handler⦄ ⦃machine : Machine⦄ (depth : ℕ) where
  close-Ensures :
      {P : State → Type 0} (timeout : ℕ)
      → Ensures P (close (callback_at depth) timeout) (λ _ s. IsClosed s.client)
  close-Ensures timeout = record { apply = λ s b h e. close_lem depth timeout s b e }

  module _ {P : Client → platform.World → Type 0} {E : Error → Type 0} (inv : Invariant P E)
      (opening : Opening P E) (stuck : E no_progress) where
    poll_while-Keeps : (conditions : List Bool) → Kept inv (poll_while depth conditions)
    unfolding poll_while
    poll_while-Keeps [] = raise-Keeps no_progress stuck
    poll_while-Keeps (should_run ∷ later) =
        if-Keeps should_run _ _
          (bind-Keeps _ _ (poll-Keeps inv _ (callback_at-Keeps inv depth) 4)
            λ st. if-Keeps (is_healthy st) _ _ (poll_while-Keeps later) (pure-Keeps tt))
          (pure-Keeps tt)

    -- A program keeps what every step of its client keeps.
    pub run_client-Keeps : (conditions : List Bool) → Kept inv (run_client depth conditions)
    unfolding run_client
    run_client-Keeps conditions =
        bind-Keeps _ _
          (bind-Keeps _ _
            (bind-Keeps _ _ (construct-Keeps inv opening _ (callback_at-Keeps inv depth) 10)
              λ _. poll_while-Keeps conditions)
            λ _. close-Keeps inv _ (callback_at-Keeps inv depth) 10)
          λ success. pure-Keeps tt

  poll-Ensures :
      Ensures
        (λ (s : State). IsSynced s.client)
        (poll (callback_at depth) 4)
        (λ st s. IsSynced s.client × (s.client.connection_open ≡ is_healthy st))
  poll-Ensures = record {
    apply = λ s st h e.
        let kept = lasting-Invariant IsSynced-Lasting in
        (
          ((poll-Keeps kept _ (callback_at-Keeps kept depth) 4).apply s h).0,
          poll_lem depth 4 s st h e,
        );
  }

  poll_while-Ensures :
      (n : ℕ)
      → Ensures
          (λ (s : State). IsSynced s.client)
          (poll_while depth (replicate n true))
          (λ _ s. IsClosed s.client)
  unfolding poll_while
  poll_while-Ensures zero = record { apply = λ s a h e. absurd cc }
  poll_while-Ensures (suc n) = bind-Ensures _ _ poll-Ensures λ st.
      if-Ensures (is_healthy st) _ _
        (λ up. record { apply = λ s a h e. (poll_while-Ensures n).apply s a h.0 e })
        (λ down. pure-Ensures tt (λ s h. h.1 ∙ down))

  close-closed :
      (timeout : ℕ) (s : State)
      → IsClosed s.client
      → close (callback_at depth) timeout s ≡ (ok true, s)
  unfolding close ◌>>=◌
  close-closed timeout s h = rw h

  -- From a client whose connection is open exactly if its status is HEALTHY, where the loop of an
  -- example that does not stop by itself returns, the close of the destructor returns true and
  -- changes nothing: no frame is sent and no callback made.
  pub close-poll_while :
      (n timeout : ℕ) (s : State)
      → IsSynced s.client
      → (poll_while depth (replicate n true) s).0 ≡ ok tt
      → let s' = (poll_while depth (replicate n true) s).1 in
        close (callback_at depth) timeout s' ≡ (ok true, s')
  close-poll_while n timeout s h e = close-closed timeout _ ((poll_while-Ensures n).apply s tt h e)

  -- A callback that closes the connection and returns.
  closing-Ensures :
      {P : State → Type 0} (h : handler.H)
      → Ensures P
          (run_program
            (callback_at depth)
            (Program.invoke h (Call.close 10) (λ h' reply. Program.return h')))
          (λ _ s. IsClosed s.client)
  unfolding run_program
  closing-Ensures h =
      bind-Ensures _ _
        (bind-Ensures _ _ (any-Ensures _)
          λ _. bind-Ensures _ _ (close-Ensures 10) λ b. pure-Ensures (Reply.closed b) (λ s k. k))
        λ reply.
          bind-Ensures {Q = λ _ s. IsClosed s.client} _ _ (record { apply = λ s a k e. k })
            λ h'. record { apply = λ s a k e. k }

on_text-greeting :
    (out : List ℕ) (frame : Frame)
    → frame.payload ≡ Example.greeting
    → Example.on_text out frame
      ≡ Program.invoke
          (out ++ frame_line (codes " > text: ") frame)
          (Call.close 10)
          (λ out' reply. Program.return out')
unfolding Example.on_text
on_text-greeting out frame h = rw h

module _ ⦃platform : Platform⦄ ⦃machine : Machine⦄ (depth : ℕ) where
  -- Where the text callback of examples/example.cpp returns on a frame whose payload is the
  -- greeting, the connection is closed, from whatever state and with every behaviour of the
  -- socket.
  pub greeting-IsClosed :
      (frame : Frame) (s : System platform.World (List ℕ))
      → frame.payload ≡ Example.greeting
      → (callback_at ⦃handler = Example.handler⦄ (suc depth) (Event.on_text frame) s).0 ≡ ok tt
      → IsClosed
          (callback_at ⦃handler = Example.handler⦄ (suc depth) (Event.on_text frame) s).1.client
  unfolding callback_at Example.react
  greeting-IsClosed frame s h =
      subst
        (λ p.
          (run_program ⦃handler = Example.handler⦄ (callback_at ⦃handler = Example.handler⦄ depth) p
              s).0
            ≡ ok tt
          → IsClosed
              (run_program ⦃handler = Example.handler⦄
                (callback_at ⦃handler = Example.handler⦄ depth) p s).1.client)
        (sym (on_text-greeting s.handler frame h))
        ((closing-Ensures ⦃handler = Example.handler⦄ depth {P = λ t. Unit {0}} _).apply s tt tt)
