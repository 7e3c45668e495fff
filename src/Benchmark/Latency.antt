-- ===== src/Benchmark/Latency.antt =====
-- benchmark/latency/fastws_latency.cpp: it sends back every text. Its threads' priority is left out.
use fast_websocket_client.Base.{ℕ, suc, ◌^◌, ◌<◌, true, List, [], length, replicate}
use fast_websocket_client.Exec.{Result}
use fast_websocket_client.Frame.{Frame, Opcode}
use fast_websocket_client.FrameFactory.{FrameFactory}
use fast_websocket_client.FrameParser.{Machine, FrameParser}
use fast_websocket_client.FrameParser.Abstract.{IsValid}
use fast_websocket_client.FrameParser.LengthField.{ZeroShifts}
use fast_websocket_client.FrameParser.Stream.{IsIdle}
use fast_websocket_client.Handshake.{codes}
use fast_websocket_client.Os.{Os, Surroundings}
use fast_websocket_client.Socket.{Platform}
use fast_websocket_client.SocketWrapper.{Held}
use fast_websocket_client.SocketWrapper.Link.{tcp_platform}
use fast_websocket_client.Client.{Event, Call, Program, Handler, System}
use fast_websocket_client.Client.Callbacks.{callback_at}
use fast_websocket_client.Client.Sent.{Log, logging}
use fast_websocket_client.Client.Sent.ReadBack.{ReadBack, invoke_text-ReadBack}
use fast_websocket_client.Examples.{client_of, run_client}

abbrev pub sends : List ℕ → Program (Unit {0})
sends payload = Program.invoke tt (Call.send_text payload) (λ h reply. Program.return h)

unfoldable pub react : Unit {0} → Event → Program (Unit {0})
react h Event.on_open = sends (codes "fastws")
react h (Event.on_text frame) = sends frame.payload
react h other = Program.return h

abbrev pub handler : Handler
handler = record { H = Unit {0}; react = react }

-- `main` for a number of rounds, behind `set_max_priority`.
unfoldable pub main :
    (os : Os) (around : Surroundings os.World) ⦃machine : Machine⦄ (depth : ℕ) (rounds : ℕ)
    (timer : ℕ) (factory : FrameFactory) (world : Held os.World)
    → Result (Unit {0}) × System (Held os.World) (Unit {0})
unfolding run_client
main os around depth rounds timer factory world =
    run_client ⦃platform = tcp_platform os around⦄ ⦃handler = handler⦄ depth (replicate rounds true)
      (record {
        client = client_of (codes "127.0.0.1") (codes "/") 8765 timer factory;
        handler = tt;
        world = world;
      })

module _ (p : Platform) ⦃machine : Machine⦄ (zeros : ZeroShifts machine) (depth : ℕ) where
  -- On a text frame with a payload below 2 ^ 31 bytes, the callback of the latency benchmark, on
  -- any platform with a socket that also writes down what it is given to send, gives the socket
  -- exactly one more string of bytes; a valid parser between two frames that is given it, with any
  -- bytes behind it, returns a final TEXT frame whose payload, once unmasked, is the payload that
  -- came, and is then between two frames with just the bytes behind unread, on a machine that
  -- shifts 0 to 0.
  pub on_text-ReadBack :
      (frame : Frame) (rest : List ℕ) (q : FrameParser) (s : System (Log p.World) (Unit {0}))
      → IsValid q
      → IsIdle q []
      → length frame.payload < 2 ^ 31
      → ReadBack Opcode.text frame.payload rest q s.world.sent
          (callback_at ⦃platform = logging p⦄ ⦃handler = handler⦄
            (suc depth)
            (Event.on_text frame)
            s).1.world.sent
  unfolding callback_at react
  on_text-ReadBack frame rest q s v idle small =
      invoke_text-ReadBack p ⦃handler = handler⦄ zeros
        (callback_at ⦃platform = logging p⦄ ⦃handler = handler⦄ depth) tt frame.payload rest q s v
        idle small
