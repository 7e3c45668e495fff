-- ===== src/Benchmark/Echo.antt =====
-- benchmark/echo_test/fastws_benchmark.cpp: it sends a message again each time that it comes back, and
-- closes the connection after enough of them. The times that it takes and prints, its wait for a command
-- and its threads' priority are left out.
use fast_websocket_client.Base.{ℕ, ◌+◌, true, List, replicate, if◌then◌else◌, leb}
use fast_websocket_client.Exec.{Result}
use fast_websocket_client.Frame.{Frame}
use fast_websocket_client.FrameFactory.{FrameFactory}
use fast_websocket_client.FrameParser.{Machine}
use fast_websocket_client.Handshake.{codes}
use fast_websocket_client.Os.{Os, Surroundings}
use fast_websocket_client.SocketWrapper.{Held}
use fast_websocket_client.SocketWrapper.Link.{tcp_platform}
use fast_websocket_client.Client.{Event, Call, Program, Handler, System}
use fast_websocket_client.Examples.{client_of, run_client}
use fast_websocket_client.Examples.Example.{same_text}

abbrev pub message : List ℕ
message = codes "ping"

-- `NSENDS`
abbrev pub nsends : ℕ
nsends = 10000

-- The members of the handler but the two times.
pub record Count : Type 0 where
  pub count : ℕ
  pub max_count : ℕ

unfoldable pub on_open : Count → Program Count
on_open c = Program.invoke c (Call.send_text message) (λ c' reply. Program.return c')

unfoldable pub on_text : Count → Frame → Program Count
on_text c frame =
    let c₁ = record c { count = c.count + 1 } in
    if same_text frame.payload message
    then if leb c.max_count (c.count + 1)
      then Program.invoke c₁ (Call.close 10) (λ c' reply. Program.return c')
      else Program.invoke c₁ (Call.send_text message) (λ c' reply. Program.return c')
    else Program.return c

unfoldable pub react : Count → Event → Program Count
unfolding on_open on_text
react c Event.on_open = on_open c
react c (Event.on_text frame) = on_text c frame
react c other = Program.return c

abbrev pub handler : Handler
handler = record { H = Count; react = react }

-- The client and the loop of `main`, for a number of rounds.
unfoldable pub main :
    (os : Os) (around : Surroundings os.World) ⦃machine : Machine⦄ (depth : ℕ) (rounds : ℕ)
    (timer : ℕ) (factory : FrameFactory) (world : Held os.World)
    → Result (Unit {0}) × System (Held os.World) Count
unfolding run_client
main os around depth rounds timer factory world =
    run_client ⦃platform = tcp_platform os around⦄ ⦃handler = handler⦄ depth (replicate rounds true)
      (record {
        client = client_of (codes "127.0.0.1") (codes "/") 9001 timer factory;
        handler = record { count = 0; max_count = nsends };
        world = world;
      })
