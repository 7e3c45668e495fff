-- ===== src/Client/Invariant/Methods.antt =====
-- The methods that send and receive one frame, and the ping timer, keep an invariant.
use fast_websocket_client.Base.{ℕ, zero, suc, Bool, true, false, List, [], Option, none, some}
use fast_websocket_client.Exec.{Error, Exec, pure, ◌>>=◌, ◌>>◌}
use fast_websocket_client.Exec.Keeps.{
  Keeps, Yields, result-Keeps, pure-Keeps, bind-Keeps, if-Keeps, when-Keeps,
}
use fast_websocket_client.Frame.{Frame, Opcode}
use fast_websocket_client.FrameParser.{Machine}
use fast_websocket_client.FrameFactory.{FrameFactory}
use fast_websocket_client.Socket.{Platform}
use fast_websocket_client.Client.{ping_timed_out, Client, Handler}
use fast_websocket_client.Client.Methods.{
  Method, on_world, on_factory, assign, the_client, now, sleep, send, send_pong, send_close,
  send_ping, send_text, send_binary, start_timer, elapsed, handle_pong, update_ping,
}
use fast_websocket_client.Client.Session.{await_close}
use fast_websocket_client.Client.Invariant.{Holds, Invariant}

module _ ⦃platform : Platform⦄ ⦃handler : Handler⦄ ⦃machine : Machine⦄
    {P : Client → platform.World → Type 0} {E : Error → Type 0} (inv : Invariant P E) where
  abbrev pub Kept : {A : Type 0} → Method A → Type 0
  Kept m = Keeps (Holds P) E m

  pub on_world-Keeps :
      {A : Type 0} (m : Exec platform.World A)
      → ((c : Client) → Keeps (P c) E m)
      → Kept (on_world m)
  on_world-Keeps m km = record { apply = λ s h. (km s.client).apply s.world h }

  pub the_client-Keeps : Kept the_client
  the_client-Keeps = record { apply = λ s h. (h, tt) }

  pub now-Keeps : Kept now
  now-Keeps = record { apply = λ s h. (inv.at_clock s.client s.world h, tt) }

  pub sleep-Keeps : Kept sleep
  sleep-Keeps = record { apply = λ s h. (inv.at_sleep s.client s.world h, tt) }

  pub assign-Keeps :
      (f : Client → Client)
      → ((c : Client) (w : platform.World) → P c w → P (f c) w)
      → Kept (assign f)
  assign-Keeps f keep = record { apply = λ s h. (keep s.client s.world h, tt) }

  pub send-Keeps : (frame : List ℕ) → inv.goes frame → Kept (send frame)
  unfolding send
  send-Keeps frame good = on_world-Keeps _ (λ c. inv.at_send c frame good)

  pub frame-Keeps :
      (m : Exec FrameFactory (List ℕ))
      → ((f : FrameFactory) → Yields inv.goes E (m f).0)
      → Kept (on_factory m >>= send)
  frame-Keeps m yields =
      result-Keeps _ _ (λ s h. (inv.at_factory s.client s.world _ h, yields s.client.factory))
        send-Keeps

  pub send_ping-Keeps : (payload : List ℕ) → Kept (send_ping payload)
  unfolding send_ping
  send_ping-Keeps payload = frame-Keeps _ (λ f. (inv.at_frame payload f).2)

  pub send_pong-Keeps : (payload : List ℕ) → Kept (send_pong payload)
  unfolding send_pong
  send_pong-Keeps payload = frame-Keeps _ (λ f. (inv.at_frame payload f).3)

  pub send_close-Keeps : (payload : List ℕ) → Kept (send_close payload)
  unfolding send_close
  send_close-Keeps payload = frame-Keeps _ (λ f. (inv.at_frame payload f).4)

  pub send_text-Keeps : (payload : List ℕ) → Kept (send_text payload)
  unfolding send_text
  send_text-Keeps payload = frame-Keeps _ (λ f. (inv.at_frame payload f).0)

  pub send_binary-Keeps : (payload : List ℕ) → Kept (send_binary payload)
  unfolding send_binary
  send_binary-Keeps payload = frame-Keeps _ (λ f. (inv.at_frame payload f).1)

  pub start_timer-Keeps : Kept start_timer
  unfolding start_timer
  start_timer-Keeps = bind-Keeps _ _ now-Keeps (λ t. assign-Keeps _ (λ c w h. inv.at_timer c w t h))

  pub elapsed-Keeps : Kept elapsed
  unfolding elapsed
  elapsed-Keeps =
      bind-Keeps _ _ now-Keeps (λ t. bind-Keeps _ _ the_client-Keeps (λ c. pure-Keeps _))

  pub handle_pong-Keeps : Kept handle_pong
  unfolding handle_pong
  handle_pong-Keeps = bind-Keeps _ _ elapsed-Keeps λ t.
      bind-Keeps _ _ (assign-Keeps _ (λ c w h. inv.at_rtt c w t h)) λ _.
        bind-Keeps _ _ start_timer-Keeps λ _. assign-Keeps _ (λ c w h. inv.at_waiting c w false h)

  pub update_ping-Keeps : Kept update_ping
  unfolding update_ping
  update_ping-Keeps = bind-Keeps _ _ the_client-Keeps λ c. bind-Keeps _ _ elapsed-Keeps λ t.
      if-Keeps c.waiting_for_ping _ _
        (when-Keeps _ _ (assign-Keeps _ (λ c w h. inv.at_end c w ping_timed_out (λ e. cc) h)))
        (when-Keeps _ _ (
          bind-Keeps _ _
            (bind-Keeps _ _ (assign-Keeps _ (λ c w h. inv.at_waiting c w true h))
              λ _. start_timer-Keeps)
            λ _. send_ping-Keeps []))

  pub await_close-Keeps : (left : ℕ) → Kept (await_close left)
  unfolding await_close
  await_close-Keeps zero = pure-Keeps false
  await_close-Keeps (suc left) =
      bind-Keeps _ _ (bind-Keeps _ _ (on_world-Keeps _ (λ c. inv.at_read c 1024)) inv.at_parse_view)
        (awaited (bind-Keeps _ _ sleep-Keeps λ _. await_close-Keeps left))
    where
      answered :
          Kept (sleep >> await_close left)
          → (o : Opcode)
          → Keeps {A = Bool}
              (Holds P)
              E
              (elim o [ Opcode.close ↦ pure true | _ ↦ sleep >> await_close left ])
      answered again Opcode.close = pure-Keeps true
      answered again _ = again

      awaited :
          Kept (sleep >> await_close left)
          → (parsed : Option Frame)
          → Keeps {A = Bool} (Holds P) E (elim parsed [
            | none ↦ sleep >> await_close left
            | some frame ↦ elim frame.opcode [
              | Opcode.close ↦ pure true
              | _ ↦ sleep >> await_close left
            ]
          ])
      awaited again none = again
      awaited again (some frame) = answered again frame.opcode
