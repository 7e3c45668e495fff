-- ===== src/Client/Callbacks.antt =====
-- A handler's callbacks, which may call the client that calls them.
use fast_websocket_client.Base.{ℕ, zero, suc, List, ◌≡◌, refl}
use fast_websocket_client.Exec.{stack_exhausted, ok, Exec, pure, raise, modify, ◌>>=◌, ◌>>◌}
use fast_websocket_client.FrameParser.{Machine}
use fast_websocket_client.Socket.{Platform}
use fast_websocket_client.Client.{Event, Call, Reply, Program, Handler, System}
use fast_websocket_client.Client.Methods.{Method, send_text, send_binary, world-bind}
use fast_websocket_client.Client.Session.{poll, close}

module _ ⦃platform : Platform⦄ ⦃handler : Handler⦄ ⦃machine : Machine⦄ where
  -- What a callback does, given the callbacks that its calls of the client may lead to.
  abbrev pub call : (Event → Method (Unit {0})) → Call → Method Reply
  call callback (Call.send_text payload) = send_text payload >> pure Reply.sent
  call callback (Call.send_binary payload) = send_binary payload >> pure Reply.sent
  call callback (Call.close timeout) = close callback timeout >>= λ b. pure (Reply.closed b)
  call callback (Call.poll max_reads) = poll callback max_reads >>= λ st. pure (Reply.polled st)

  abbrev pub set_handler : handler.H → Method (Unit {0})
  set_handler h = modify (λ s. record s { handler = h })

  abbrev pub the_handler : Method handler.H
  the_handler s = (ok s.handler, s)

  unfoldable pub run_program : (Event → Method (Unit {0})) → Program handler.H → Method (Unit {0})
  run_program callback (Program.return h) = set_handler h
  run_program callback (Program.invoke h c next) = set_handler h >> call callback c >>= λ reply.
      the_handler >>= λ h'. run_program callback (next h' reply)

-- The callbacks of a handler, where the stack holds `depth` of them one within the other.
module _ ⦃platform : Platform⦄ ⦃handler : Handler⦄ ⦃machine : Machine⦄ where
  unfoldable pub callback_at : ℕ → Event → Exec (System platform.World handler.H) (Unit {0})
  callback_at zero event s = raise stack_exhausted s
  callback_at (suc depth) event s =
      run_program (callback_at depth) (handler.react s.handler event) s

module _ ⦃platform : Platform⦄ ⦃handler : Handler⦄ ⦃machine : Machine⦄
    (callback : Event → Method (Unit {0})) where
  -- A callback that makes one call and returns does to the world what the call does.
  pub world-invoke :
      (h : handler.H) (c : Call) (s : System platform.World handler.H)
      → (run_program callback (Program.invoke h c (λ h' reply. Program.return h')) s).1.world
        ≡ (call callback c (record s { handler = h })).1.world
  unfolding run_program ◌>>=◌
  world-invoke h c s =
      world-bind (call callback c) (λ reply. the_handler >>= set_handler) (record s { handler = h })
        (λ reply t. refl)

  pub world-send_text :
      (payload : List ℕ) (s : System platform.World handler.H)
      → (call callback (Call.send_text payload) s).1.world ≡ (send_text payload s).1.world
  world-send_text payload s = world-bind (send_text payload) _ s (λ a t. refl)

  pub world-send_binary :
      (payload : List ℕ) (s : System platform.World handler.H)
      → (call callback (Call.send_binary payload) s).1.world ≡ (send_binary payload s).1.world
  world-send_binary payload s = world-bind (send_binary payload) _ s (λ a t. refl)
