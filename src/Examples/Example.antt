-- ===== src/Examples/Example.antt =====
-- examples/example.cpp: it closes the connection once its greeting comes back.
use fast_websocket_client.Base.{
  ℕ, Bool, true, false, ◌&&◌, List, [], ◌∷◌, ◌++◌, ◌==◌, if◌then◌else◌, replicate,
}
use fast_websocket_client.Frame.{Frame}
use fast_websocket_client.FrameFactory.{FrameFactory}
use fast_websocket_client.FrameParser.{Machine}
use fast_websocket_client.Handshake.{codes}
use fast_websocket_client.Exec.{Result}
use fast_websocket_client.Os.{Surroundings}
use fast_websocket_client.SslSocketWrapper.{Tls, Held}
use fast_websocket_client.SslSocketWrapper.Link.{tls_platform}
use fast_websocket_client.Client.{Event, Call, Program, Handler, System}
use fast_websocket_client.Examples.{Output, endl, closed_line, frame_line, client_of, run_client}

abbrev pub greeting : List ℕ
greeting = codes "Hello, World!"

unfoldable pub on_open : Output → Program Output
on_open out =
    Program.invoke (out ++ (codes "Connection Opened!" ++ endl)) (Call.send_text greeting)
      (λ out' reply. Program.return out')

unfoldable pub on_close : Output → Bool → Program Output
on_close out success = Program.return (out ++ closed_line success)

-- `==` of a `std::string_view` and a string.
abbrev pub same_text : List ℕ → List ℕ → Bool
same_text [] [] = true
same_text (x ∷ xs) (y ∷ ys) = x == y && same_text xs ys
same_text xs ys = false

unfoldable pub on_text : Output → Frame → Program Output
on_text out frame =
    let printed = out ++ frame_line (codes " > text: ") frame in
    if same_text frame.payload greeting
    then Program.invoke printed (Call.close 10) (λ out' reply. Program.return out')
    else Program.return printed

unfoldable pub on_binary : Output → Frame → Program Output
on_binary out frame = Program.return (out ++ frame_line (codes " > binary: ") frame)

unfoldable pub on_continuation : Output → Frame → Program Output
on_continuation out frame = Program.return (out ++ frame_line (codes " > continuation: ") frame)

unfoldable pub react : Output → Event → Program Output
unfolding on_open on_close on_text on_binary on_continuation
react out Event.on_open = on_open out
react out (Event.on_close success) = on_close out success
react out (Event.on_text frame) = on_text out frame
react out (Event.on_binary frame) = on_binary out frame
react out (Event.on_continuation frame) = on_continuation out frame

abbrev pub handler : Handler
handler = record { H = Output; react = react }

-- `main` for a number of rounds.
unfoldable pub main :
    (tls : Tls) (around : Surroundings tls.os.World) ⦃machine : Machine⦄ (depth : ℕ) (rounds : ℕ)
    (timer : ℕ) (factory : FrameFactory) (world : Held ⦃tls = tls⦄)
    → Result (Unit {0}) × System (Held ⦃tls = tls⦄) Output
unfolding run_client
main tls around depth rounds timer factory world =
    run_client ⦃platform = tls_platform tls around⦄ ⦃handler = handler⦄ depth
      (replicate rounds true)
      (record {
        client = client_of (codes "echo.websocket.org") (codes "/") 443 timer factory;
        handler = [];
        world = world;
      })
