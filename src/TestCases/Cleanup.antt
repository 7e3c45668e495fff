-- ===== src/TestCases/Cleanup.antt =====
-- The descriptors that the clients of tests/test.cpp leave behind.
use fast_websocket_client.Base.{
  ℕ, suc, Bool, List, [], ◌∷◌, replicate, ◌≡◌, refl, if◌then◌else◌, true, false,
}
use fast_websocket_client.Exec.{Result, ok, throw}
use fast_websocket_client.FrameParser.{Machine}
use fast_websocket_client.Os.{Os, Documented, Surroundings}
use fast_websocket_client.SocketWrapper.{Held, disconnect, unconnected}
use fast_websocket_client.SocketWrapper.Descriptors.{close-Owns}
use fast_websocket_client.SocketWrapper.Link.{tcp_platform}
use fast_websocket_client.SocketWrapper.Ownership.{HoldsOne}
use fast_websocket_client.Client.{Event, Program, System}
use fast_websocket_client.Client.Descriptors.{Calm, kept, opened}
use fast_websocket_client.Examples.{client_of}
use fast_websocket_client.Examples.Endings.{run_client-Keeps}
use fast_websocket_client.TestCases.{
  Fresh, Case, handler_of, react_1_1, react_1_2, leave, run_test, run_test_1_1, run_test_1_2,
  run_case, run_cases,
}

module _ (os : Os) (around : Surroundings os.World) (laws : Documented os)
    (calm : Calm os laws around) (base : ℕ → Bool) ⦃machine : Machine⦄ (depth rounds : ℕ) where
  -- Where it returned, just the descriptors of `base` are open.
  abbrev Freed : Result (Unit {0}) × os.World → Type 0
  Freed (r, w) = r ≡ ok tt → (d : ℕ) → laws.is_open w d ≡ base d

  leave-Freed :
      (react : List ℕ → Event → Program (List ℕ))
      (r : Result (Unit {0}) × System (Held os.World) (List ℕ))
      → HoldsOne ⦃os = os⦄ laws base r.1.world
      → Freed (leave os around depth rounds react r)
  unfolding disconnect
  leave-Freed react (ok a, s) h e d =
      (close-Owns ⦃os = os⦄ laws s.world.wrapper.sockfd s.world.world h).counted d
  leave-Freed react (throw x, s) h e d = absurd cc

  run_test-Freed :
      (react : List ℕ → Event → Program (List ℕ)) (message path ip : List ℕ) (port : ℕ)
      (fresh : Fresh) (w : os.World)
      → ((d : ℕ) → laws.is_open w d ≡ base d)
      → Freed (run_test os around depth rounds react message path ip port fresh w)
  unfolding run_test
  run_test-Freed react message path ip port fresh w h =
      let start : System (Held os.World) (List ℕ) = record {
        client = client_of ip path port fresh.timer fresh.factory;
        handler = message;
        world = record { wrapper = unconnected; world = w };
      } in
      leave-Freed react _
        ((run_client-Keeps ⦃platform = tcp_platform os around⦄ ⦃handler = handler_of react⦄ depth
            (kept os around laws calm base ⦃handler = handler_of react⦄)
            (opened os around laws calm base ⦃handler = handler_of react⦄) tt
            (replicate rounds true)).apply
          start (record { counted = h; apart = λ n e. absurd cc })).0

  if-Freed :
      (b : Bool) (x y : Result (Unit {0}) × os.World)
      → Freed x
      → Freed y
      → Freed (if b then x else y)
  if-Freed true x y h k = h
  if-Freed false x y h k = k

  run_case-Freed :
      (c : Case) (fresh : Fresh) (w : os.World)
      → ((d : ℕ) → laws.is_open w d ≡ base d)
      → Freed (run_case os around depth rounds c fresh w)
  unfolding run_case run_test_1_1 run_test_1_2
  run_case-Freed c fresh w h =
      if-Freed c.is_binary _ _ (run_test-Freed react_1_2 _ _ _ _ fresh w h)
        (run_test-Freed react_1_1 _ _ _ _ fresh w h)

  -- Over documented system calls, with a clock and random numbers that leave descriptors alone,
  -- when just the descriptors of `base` are open: where the run of any list of test cases, each
  -- with a client of its own, returns, just those are open again.
  pub run_cases-Freed :
      (cs : List Case) (fresh : ℕ → Fresh) (w : os.World)
      → ((d : ℕ) → laws.is_open w d ≡ base d)
      → (run_cases os around depth rounds cs fresh w).0 ≡ ok tt
      → (d : ℕ) → laws.is_open (run_cases os around depth rounds cs fresh w).1 d ≡ base d
  unfolding run_cases
  run_cases-Freed [] fresh w h = λ e d. h d
  run_cases-Freed (c ∷ cs) fresh w h =
      let (r, w') = run_case os around depth rounds c (fresh 0) w in
      onward r w' (λ h'. run_cases-Freed cs (λ n. fresh (suc n)) w' h')
        (run_case-Freed c (fresh 0) w h)
    where
      onward :
          (r : Result (Unit {0})) (w' : os.World)
          → (((d : ℕ) → laws.is_open w' d ≡ base d)
              → Freed (run_cases os around depth rounds cs (λ n. fresh (suc n)) w'))
          → Freed (r, w')
          → Freed (elim r [
            | ok _ ↦ run_cases os around depth rounds cs (λ n. fresh (suc n)) w'
            | throw e ↦ (throw e, w')
          ])
      onward (ok a) w' rest k = rest (k refl)
      onward (throw x) w' rest k = λ e. absurd cc
