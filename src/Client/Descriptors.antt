-- ===== src/Client/Descriptors.antt =====
-- The descriptors of a client over `SocketWrapper`, from its constructor to its destructor.
use fast_websocket_client.Base.{ℕ, ◌≡◌, ◌≢◌, refl, sym, subst, Bool, List, Option, none, some}
use fast_websocket_client.Exec.{Result, ok, throw, ◌>>=◌}
use fast_websocket_client.Exec.Keeps.{AnyError}
use fast_websocket_client.FrameParser.{Machine}
use fast_websocket_client.Socket.{Platform}
use fast_websocket_client.Os.{Os, Documented, Surroundings}
use fast_websocket_client.SocketWrapper.{Held, disconnect, send}
use fast_websocket_client.SocketWrapper.Descriptors.{Owns, same-Owns, close-Owns}
use fast_websocket_client.SocketWrapper.Assignment.{open_socket-Replaced}
use fast_websocket_client.SocketWrapper.Ownership.{
  HoldsOne, send_loop-Owns, read-Owns, read_into-Owns,
}
use fast_websocket_client.SocketWrapper.Link.{tcp_platform}
use fast_websocket_client.Client.{Handler, System, Call}
use fast_websocket_client.Client.Session.{construct, close}
use fast_websocket_client.Client.Callbacks.{callback_at}
use fast_websocket_client.Client.Invariant.{Invariant}
use fast_websocket_client.Client.Invariant.Opening.{Opening, construct-Keeps}
use fast_websocket_client.Client.Invariant.Session.{callback_at-Keeps, close-Keeps}
use fast_websocket_client.Client.Invariant.Worldly.{Worldly, worldly-Invariant, worldly-Opening}
use fast_websocket_client.Client.Heartbeat.{state-pure}
use fast_websocket_client.Client.Lifetime.{run_calls, lifetime, run_calls-kept, lifetime-kept}

-- The clock, the sleep and the random numbers leave the descriptors alone.
pub record Calm (os : Os) (laws : Documented os) (around : Surroundings os.World) : Type 0 where
  pub at_clock : (w : os.World) (d : ℕ) → laws.is_open (around.clock w).1 d ≡ laws.is_open w d
  pub at_sleep : (w : os.World) (d : ℕ) → laws.is_open (around.sleep w) d ≡ laws.is_open w d
  pub at_random :
      (w : os.World) (d : ℕ) → laws.is_open (around.random_byte w).1 d ≡ laws.is_open w d

-- A client over `SocketWrapper`, from its constructor to its end. `none` is the end of the process: a
-- destructor must not throw.
module _ (os : Os) (around : Surroundings os.World) ⦃handler : Handler⦄ ⦃machine : Machine⦄ where
  abbrev TcpSystem : Type 0
  TcpSystem = System (Held os.World) handler.H

  -- The destructor of the member `m_socket`.
  abbrev pub destroy_socket : TcpSystem → TcpSystem
  destroy_socket s = record s { world = disconnect ⦃os = os⦄ s.world }

  -- What follows `close` in `~WSClient()`.
  unfoldable pub closed_then : Result Bool → TcpSystem → Option (Result (Unit {0})) × TcpSystem
  closed_then (ok success) s = (some (ok tt), destroy_socket s)
  closed_then (throw e) s = (none, s)

  -- `~WSClient()`
  unfoldable pub destroy : ℕ → TcpSystem → Option (Result (Unit {0})) × TcpSystem
  unfolding closed_then
  destroy depth s =
      let (r, s') =
        close ⦃platform = tcp_platform os around⦄
          (callback_at ⦃platform = tcp_platform os around⦄ depth) 10 s in
      closed_then r s'

  -- The calls and the destructor, or, where the constructor threw, the destructors of the members.
  unfoldable pub ended :
      Result (Unit {0}) → ℕ → List Call → TcpSystem → Option (Result (Unit {0})) × TcpSystem
  unfolding destroy
  ended (ok _) depth calls s =
      destroy depth (run_calls ⦃platform = tcp_platform os around⦄ depth calls s)
  ended (throw e) depth calls s = (some (throw e), destroy_socket s)

  unfoldable pub whole_life : ℕ → ℕ → List Call → TcpSystem → Option (Result (Unit {0})) × TcpSystem
  unfolding ended
  whole_life depth timeout calls s =
      let (r, s') =
        construct ⦃platform = tcp_platform os around⦄
          (callback_at ⦃platform = tcp_platform os around⦄ depth) timeout s in
      ended r depth calls s'

module _ (os : Os) (around : Surroundings os.World) (laws : Documented os)
    (calm : Calm os laws around) (base : ℕ → Bool) ⦃handler : Handler⦄ ⦃machine : Machine⦄ where
  abbrev One : Held os.World → Type 0
  One s = HoldsOne ⦃os = os⦄ laws base s

  abbrev Tcp : Platform
  Tcp = tcp_platform os around

  pub send-Owns : (bytes : List ℕ) (s : Held os.World) → One s → One (Tcp.send bytes s).1
  unfolding send ◌>>=◌
  send-Owns bytes s h =
      subst One (sym (state-pure (send ⦃os = os⦄ bytes s).0 tt _))
        (send_loop-Owns ⦃os = os⦄ laws base _ _ 0 s h)

  pub tcp_Worldly : Worldly Tcp One
  tcp_Worldly = record {
    at_open = λ host port s h. (open_socket-Replaced ⦃os = os⦄ laws base host port s h).owned;
    goes = λ bytes. Unit {0};
    at_frame = λ bytes _. tt;
    at_send = λ bytes _. send-Owns bytes;
    at_read = λ n s h. read-Owns ⦃os = os⦄ laws base n s h;
    at_read_into = λ b hint s h. read_into-Owns ⦃os = os⦄ laws base b hint s h;
    at_clock = λ s h. same-Owns ⦃os = os⦄ laws (calm.at_clock s.world) h;
    at_sleep = λ s h. same-Owns ⦃os = os⦄ laws (calm.at_sleep s.world) h;
    at_random = λ s h. same-Owns ⦃os = os⦄ laws (calm.at_random s.world) h;
  }

  abbrev pub opened : Opening ⦃platform = Tcp⦄ (λ c w. One w) AnyError
  opened = worldly-Opening ⦃platform = Tcp⦄ tcp_Worldly (λ c key. send-Owns _)

  -- Over documented system calls, with a clock and random numbers that leave descriptors alone,
  -- from a socket that holds at most one descriptor, with no other open ones than it and those of
  -- `base`, the constructor and then, unless it throws, any public calls end with such a socket,
  -- whatever the handler's callbacks do and though calls throw.
  pub lifetime-Owns :
      (depth timeout : ℕ) (calls : List Call) (s : System (Held os.World) handler.H)
      → Owns ⦃os = os⦄ laws base s.world.wrapper.sockfd s.world.world
      → let s' = lifetime ⦃platform = Tcp⦄ depth timeout calls s in
        Owns ⦃os = os⦄ laws base s'.world.wrapper.sockfd s'.world.world
  lifetime-Owns =
      lifetime-kept ⦃platform = Tcp⦄ (worldly-Invariant ⦃platform = Tcp⦄ tcp_Worldly) opened

  abbrev Freed : Option (Result (Unit {0})) × System (Held os.World) handler.H → Type 0
  Freed (r, s) = r ≢ none → (d : ℕ) → laws.is_open s.world.world d ≡ base d

  destroy_socket-Freed :
      (r : Option (Result (Unit {0}))) (s : System (Held os.World) handler.H)
      → One s.world
      → Freed (r, destroy_socket os around s)
  unfolding disconnect
  destroy_socket-Freed r s h _ d =
      (close-Owns ⦃os = os⦄ laws s.world.wrapper.sockfd s.world.world h).counted d

  closed_then-Freed :
      (r : Result Bool) (s : System (Held os.World) handler.H)
      → One s.world
      → Freed (closed_then os around r s)
  unfolding closed_then
  closed_then-Freed (ok b) s h = destroy_socket-Freed _ s h
  closed_then-Freed (throw x) s h = λ e. absurd (e refl)

  abbrev pub kept : Invariant ⦃platform = Tcp⦄ (λ c w. One w) AnyError
  kept = worldly-Invariant ⦃platform = Tcp⦄ tcp_Worldly

  destroy-Freed :
      (depth : ℕ) (s : System (Held os.World) handler.H)
      → One s.world
      → Freed (destroy os around depth s)
  unfolding destroy
  destroy-Freed depth s h =
      closed_then-Freed _ _
        ((close-Keeps ⦃platform = Tcp⦄ kept _ (callback_at-Keeps ⦃platform = Tcp⦄ kept depth)
            10).apply
          s h).0

  ended-Freed :
      (r : Result (Unit {0})) (depth : ℕ) (calls : List Call) (s : System (Held os.World) handler.H)
      → One s.world
      → Freed (ended os around r depth calls s)
  unfolding ended
  ended-Freed (ok _) depth calls s h =
      destroy-Freed depth _ (run_calls-kept ⦃platform = Tcp⦄ kept depth calls s h)
  ended-Freed (throw x) depth calls s h = destroy_socket-Freed _ s h

  -- Over documented system calls, with a clock and random numbers that leave descriptors alone,
  -- from a wrapper that holds at most one descriptor besides those of `base`: when the
  -- constructor, any calls and the destructor (or, where the constructor threw, the destructor of
  -- the socket alone) are over and the process was not ended by a throw of the destructor, the
  -- open descriptors are exactly those of `base`.
  pub whole_life-Freed :
      (depth timeout : ℕ) (calls : List Call) (s : System (Held os.World) handler.H)
      → Owns ⦃os = os⦄ laws base s.world.wrapper.sockfd s.world.world
      → (whole_life os around depth timeout calls s).0 ≢ none
      → (d : ℕ) → laws.is_open (whole_life os around depth timeout calls s).1.world.world d ≡ base d
  unfolding whole_life
  whole_life-Freed depth timeout calls s h =
      ended-Freed _ depth calls _
        ((construct-Keeps ⦃platform = Tcp⦄ kept opened _
            (callback_at-Keeps ⦃platform = Tcp⦄ kept depth) timeout).apply
          s h).0
