-- ===== src/TestCases.antt =====
-- tests/test.cpp: the cases of a test server that sends back the message of a client. The program catches
-- no exception: one ends it.
pub mod Messages
pub mod Cleanup
use fast_websocket_client.Base.{
  ℕ, zero, suc, Bool, true, false, List, [], ◌∷◌, ◌++◌, if◌then◌else◌, replicate,
}
use fast_websocket_client.Exec.{Result, ok, throw}
use fast_websocket_client.FrameFactory.{FrameFactory}
use fast_websocket_client.FrameParser.{Machine}
use fast_websocket_client.Handshake.{codes}
use fast_websocket_client.Os.{Os, Surroundings}
use fast_websocket_client.SocketWrapper.{Held, unconnected}
use fast_websocket_client.SocketWrapper.Link.{tcp_platform}
use fast_websocket_client.Client.{Event, Call, Program, Handler, System}
use fast_websocket_client.Client.Session.{decimal}
use fast_websocket_client.Client.Descriptors.{destroy_socket}
use fast_websocket_client.Examples.{client_of, run_client}

-- The loop that makes the message of a character, for a number of rounds.
unfoldable pub initial_message : ℕ → ℕ → List ℕ
initial_message character zero = []
initial_message character (suc n) = initial_message character n ++ (character ∷ [])

-- The callbacks of `FrameHandler1_1` and of `FrameHandler1_2`, whose state is the message.
unfoldable pub react_1_1 : List ℕ → Event → Program (List ℕ)
react_1_1 message Event.on_open =
    Program.invoke message (Call.send_text message) (λ message' reply. Program.return message')
react_1_1 message other = Program.return message

unfoldable pub react_1_2 : List ℕ → Event → Program (List ℕ)
react_1_2 message Event.on_open =
    Program.invoke message (Call.send_binary message) (λ message' reply. Program.return message')
react_1_2 message other = Program.return message

abbrev pub handler_of : (List ℕ → Event → Program (List ℕ)) → Handler
handler_of react = record { H = List ℕ; react = react }

-- What a client starts with that the program does not give it: the timer that was not started, and a
-- factory with random seeds.
pub record Fresh : Type 0 where
  pub timer : ℕ
  pub factory : FrameFactory

-- A case by its number, the length of its message, and whether this is binary.
pub record Case : Type 0 where
  pub is_binary : Bool
  pub number : ℕ
  pub message_len : ℕ

abbrev pub case_of : Bool → ℕ → ℕ → Case
case_of is_binary number message_len = record {
  is_binary = is_binary;
  number = number;
  message_len = message_len;
}

abbrev pub path_of : ℕ → List ℕ
path_of number = codes "/runCase?case=" ++ decimal 20 number ++ codes "&agent=myagent"

abbrev pub local_ip : List ℕ
local_ip = codes "127.0.0.1"

-- `test_1_1_1` to `test_1_1_7` and `test_1_2_1` to `test_1_2_7`, as `main` calls them.
abbrev pub test_cases : List Case
test_cases =
    case_of false 1 0
    ∷ case_of false 2 125
    ∷ case_of false 3 126
    ∷ case_of false 4 127
    ∷ case_of false 5 128
    ∷ case_of false 6 65535
    ∷ case_of false 7 65536
    ∷ case_of true 9 0
    ∷ case_of true 10 125
    ∷ case_of true 11 126
    ∷ case_of true 12 127
    ∷ case_of true 13 128
    ∷ case_of true 14 65535
    ∷ case_of true 15 65536
    ∷ []

module _ (os : Os) (around : Surroundings os.World) ⦃machine : Machine⦄ (depth rounds : ℕ) where
  -- The end of the client's scope, where it is reached.
  abbrev pub leave :
      (react : List ℕ → Event → Program (List ℕ))
      → Result (Unit {0}) × System (Held os.World) (List ℕ)
      → Result (Unit {0}) × os.World
  leave react (ok _, s) =
      (ok tt, (destroy_socket os around ⦃handler = handler_of react⦄ s).world.world)
  leave react (throw e, s) = (throw e, s.world.world)

  -- A client that is polled for a number of rounds at most, and destroyed.
  unfoldable pub run_test :
      (List ℕ → Event → Program (List ℕ))
      → List ℕ
      → List ℕ
      → List ℕ
      → ℕ
      → Fresh
      → os.World
      → Result (Unit {0}) × os.World
  run_test react message path ip port fresh w = leave react (
      run_client ⦃platform = tcp_platform os around⦄ ⦃handler = handler_of react⦄ depth
        (replicate rounds true)
        (record {
          client = client_of ip path port fresh.timer fresh.factory;
          handler = message;
          world = record { wrapper = unconnected; world = w };
        }))

  unfoldable pub run_test_1_1 :
      ℕ → List ℕ → List ℕ → ℕ → Fresh → os.World → Result (Unit {0}) × os.World
  unfolding run_test
  run_test_1_1 message_len path ip port fresh w =
      run_test react_1_1 (initial_message 42 message_len) path ip port fresh w

  unfoldable pub run_test_1_2 :
      ℕ → List ℕ → List ℕ → ℕ → Fresh → os.World → Result (Unit {0}) × os.World
  unfolding run_test
  run_test_1_2 message_len path ip port fresh w =
      run_test react_1_2 (initial_message 254 message_len) path ip port fresh w

  unfoldable pub run_case : Case → Fresh → os.World → Result (Unit {0}) × os.World
  unfolding run_test_1_1 run_test_1_2
  run_case c fresh w =
      if c.is_binary
      then run_test_1_2 c.message_len (path_of c.number) local_ip 9001 fresh w
      else run_test_1_1 c.message_len (path_of c.number) local_ip 9001 fresh w

  -- The calls of `main` that are left, each with a client of its own.
  unfoldable pub run_cases : List Case → (ℕ → Fresh) → os.World → Result (Unit {0}) × os.World
  unfolding run_case
  run_cases [] fresh w = (ok tt, w)
  run_cases (c ∷ cs) fresh w =
      let (r, w') = run_case c (fresh 0) w in
      let rest = run_cases cs (λ n. fresh (suc n)) w' in
      elim r [ ok _ ↦ rest | throw e ↦ (throw e, w') ]

  unfoldable pub main : (ℕ → Fresh) → os.World → Result (Unit {0}) × os.World
  unfolding run_cases
  main fresh w = run_cases test_cases fresh w
