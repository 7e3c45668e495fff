-- ===== src/Tests/Cases.antt =====
-- The test cases (tests/test.cpp), the benchmarks (benchmark/), and what a client (include/fastws/fastws.hpp)
-- sends, at concrete inputs.
use fast_websocket_client.Base.{
  All, drop, ◌<◌, ◌^◌, ℕ, ◌≡◌, ◌⊎◌, ◌≤◌, refl, true, false, List, [], ◌∷◌, ◌++◌, arith, length,
  length-take, take, replicate,
}
use fast_websocket_client.Exec.{ok, ◌>>=◌}
use fast_websocket_client.Frame.{Frame, Opcode, empty_frame}
use fast_websocket_client.Benchmark.Echo.{Count, message}
use fast_websocket_client.Benchmark.Counting.{Counted, hear, hear-Counted}
use fast_websocket_client.Examples.{run_client, poll_while}
use fast_websocket_client.FrameParser.{initial}
use fast_websocket_client.FrameParser.Valid.{initial-IsValid}
use fast_websocket_client.Os.{Os, Documented, Receipt}
use fast_websocket_client.Client.{Event, Call, System}
use fast_websocket_client.Client.Callbacks.{callback_at, run_program}
use fast_websocket_client.Client.Session.{switching, blank_line, connect}
use fast_websocket_client.Client.Sent.{Log, logging, Requested}
use fast_websocket_client.Client.Sent.Life.{Refused, lifetime-Requested}
use fast_websocket_client.Client.Lifetime.{lifetime, run_calls}
use fast_websocket_client.Client.Sent.Receipt.{ReadAll, lifetime-ReadAll}
use fast_websocket_client.Client.Delivery.{first}
use fast_websocket_client.Client.Descriptors.{Calm}
use fast_websocket_client.Client.Sent.ReadBack.{ReadBack}
use fast_websocket_client.Client
use fast_websocket_client.Frame
use fast_websocket_client.FrameBuffer
use fast_websocket_client.FrameFactory
use fast_websocket_client.FrameParser
use fast_websocket_client.Handshake
use fast_websocket_client.Client.Methods
use fast_websocket_client.Random
use fast_websocket_client.Client.Session
use fast_websocket_client.SocketWrapper
use fast_websocket_client.TestCases.{
  Fresh, Case, case_of, initial_message, handler_of, react_1_1, react_1_2, run_cases,
}
use fast_websocket_client.TestCases.Messages.{on_open-ReadBack}
use fast_websocket_client.TestCases.Cleanup.{run_cases-Freed}
use fast_websocket_client.Tests.Frames.{register, register-ZeroShifts, initial-IsIdle, some_factory}
use fast_websocket_client.Tests.Connection.{accepting, fresh}
use fast_websocket_client.Tests.Sockets.{kernel_os, kernel_os-Documented, booted, base}
use fast_websocket_client.Tests.Descriptors.{around}

-- A CLOSE frame, and then the response of the handshake: what comes with every read.
abbrev answer : List ℕ
answer = (0x88 ∷ 0 ∷ []) ++ (switching ++ blank_line)

instance abbrev answering_os : Os
answering_os = record kernel_os { recv = λ fd n w. (Receipt.came (take n answer), w) }

answering_os-Documented : Documented answering_os
answering_os-Documented = record {
  is_open = kernel_os-Documented.is_open;
  stream = kernel_os-Documented.stream;
  at_getaddrinfo = kernel_os-Documented.at_getaddrinfo;
  at_freeaddrinfo = kernel_os-Documented.at_freeaddrinfo;
  at_set_nodelay = kernel_os-Documented.at_set_nodelay;
  at_set_nonblocking = kernel_os-Documented.at_set_nonblocking;
  at_connect = kernel_os-Documented.at_connect;
  at_socket_none = kernel_os-Documented.at_socket_none;
  at_socket = kernel_os-Documented.at_socket;
  at_close = kernel_os-Documented.at_close;
  at_send = kernel_os-Documented.at_send;
  at_send_blocked = kernel_os-Documented.at_send_blocked;
  at_send_refused = kernel_os-Documented.at_send_refused;
  at_send_open = kernel_os-Documented.at_send_open;
  at_recv_open = λ fd n w d. refl;
  at_recv = λ fd n w bytes e. within bytes n e;
}
  where
    within :
        (bytes : List ℕ) (n : ℕ)
        → Receipt.came (take n answer) ≡ Receipt.came bytes
        → length bytes ≤ n
    within bytes n e =
        let same : take n answer ≡ bytes = cc in rw (← same) (omega (arith, length-take n answer))

answering_os-Calm : Calm answering_os answering_os-Documented around
answering_os-Calm = record {
  at_clock = λ w d. refl;
  at_sleep = λ w d. refl;
  at_random = λ w d. refl;
}

abbrev some_fresh : ℕ → Fresh
some_fresh n = record { timer = n; factory = some_factory }

abbrev one_case : List Case
one_case = case_of false 1 0 ∷ []

one_case_returns : (run_cases answering_os around 2 1 one_case some_fresh booted.world).0 ≡ ok tt
unfolding run_cases initial_message Client.new_client Session.decimal SocketWrapper.open_socket
    SocketWrapper.send SocketWrapper.read SocketWrapper.received SocketWrapper.store_out
    SocketWrapper.read_into SocketWrapper.disconnect Handshake.build_websocket_handshake_request
    run_client poll_while Session.construct Session.connect Session.await_response Session.conclude
    Methods.start_timer Methods.send_ping Methods.send_text FrameFactory.text FrameFactory.ping
    Handshake.generate_sec_websocket_key ◌>>=◌ Session.close Session.close_open Session.poll
    Session.poll_loop Session.await_close Methods.next_frame Methods.update_ping Methods.elapsed
    Methods.send_close Methods.send Methods.parse_view Methods.parsed callback_at run_program
    react_1_1 FrameFactory.close FrameFactory.construct Frame.construct FrameBuffer.push_back
    FrameBuffer.ensure_fit FrameBuffer.copy_in FrameBuffer.push_back_view Frame.mask_from
    Random.next_key FrameParser.clear FrameParser.update FrameParser.update_view FrameParser.parse
    FrameParser.check_fin_bit FrameParser.check_opcode FrameParser.check_mask_bit
    FrameParser.check_payload_len FrameParser.check_extended_payload_len_16
    FrameParser.check_extended_payload_len_64 FrameParser.check_masking_key
    FrameParser.check_payload_data FrameParser.reset Frame.opcode_of FrameParser.top_bit
    FrameBuffer.receive_at_tail Session.dispatch
one_case_returns = refl

run_cases-Freed_example :
    answering_os-Documented.is_open
      (run_cases answering_os around 2 1 one_case some_fresh booted.world).1
      1
    ≡ base 1
unfolding answering_os-Documented
run_cases-Freed_example =
    run_cases-Freed answering_os around answering_os-Documented answering_os-Calm base 2 1 one_case
      some_fresh booted.world (λ d. refl) one_case_returns 1

abbrev noted : System (Log ℕ) (List ℕ)
noted = record { client = fresh; handler = []; world = record { sent = []; world = 0 } }

on_open-ReadBack_example :
    ReadBack Opcode.text
      (replicate 130 42)
      []
      initial
      []
      (callback_at ⦃platform = logging accepting⦄ ⦃handler = handler_of react_1_1⦄ 2 Event.on_open
        (record noted { handler = initial_message 42 130 })).1.world.sent
    × ReadBack Opcode.binary
        (replicate 130 254)
        []
        initial
        []
        (callback_at ⦃platform = logging accepting⦄ ⦃handler = handler_of react_1_2⦄ 2 Event.on_open
          (record noted { handler = initial_message 254 130 })).1.world.sent
on_open-ReadBack_example =
    on_open-ReadBack accepting register-ZeroShifts 1 130 [] initial noted initial-IsValid
      initial-IsIdle (omega arith)

lifetime-Requested_example :
    let s' =
      lifetime ⦃platform = logging accepting⦄ ⦃handler = handler_of react_1_1⦄ 2 1
        (Call.poll 4 ∷ [])
        noted in
    (Refused accepting ⦃handler = handler_of react_1_1⦄ noted × (s'.world.sent ≡ []))
    ⊎ Requested accepting 0 fresh [] s'.world.sent
lifetime-Requested_example =
    lifetime-Requested accepting ⦃handler = handler_of react_1_1⦄ 2 1 (Call.poll 4 ∷ []) noted

abbrev echoed : Frame
echoed = record empty_frame { fin = true; opcode = Opcode.text; payload = message }

-- Two of the frames bring the message.
abbrev echoed_frames : List Frame
echoed_frames = echoed ∷ record echoed { payload = [] } ∷ echoed ∷ []

abbrev counting : System (Log ℕ) Count
counting = record {
  client = fresh;
  handler = record { count = 3; max_count = 6 };
  world = noted.world;
}

hear-Counted_example : Counted accepting 2 counting (hear accepting 2 echoed_frames counting)
hear-Counted_example =
    hear-Counted accepting (λ bytes w. refl) 1 echoed_frames counting (omega arith)

-- What is sent on a life with one more text.
abbrev log_of : List Call → List (List ℕ)
log_of calls =
    (lifetime ⦃platform = logging accepting⦄ ⦃handler = handler_of react_1_1⦄ 2 1 calls
      noted).world.sent

abbrev one_text : List Call
one_text = Call.send_text (104 ∷ 105 ∷ []) ∷ []

requested : log_of one_text ≡ [] ++ (first (log_of one_text) ∷ drop 1 (log_of one_text))
unfolding lifetime run_calls Session.decimal Handshake.build_websocket_handshake_request
    Session.construct Session.connect Session.await_response Session.conclude Methods.start_timer
    Methods.send_ping Methods.send_text FrameFactory.text FrameFactory.ping
    Handshake.generate_sec_websocket_key ◌>>=◌ Session.close Session.close_open Session.poll
    Session.poll_loop Session.await_close Methods.next_frame Methods.update_ping Methods.elapsed
    Methods.send_close Methods.send Methods.parse_view Methods.parsed callback_at run_program
    react_1_1 FrameFactory.close FrameFactory.construct Frame.construct FrameBuffer.push_back
    FrameBuffer.ensure_fit FrameBuffer.copy_in FrameBuffer.push_back_view Frame.mask_from
    Random.next_key FrameParser.clear FrameParser.update FrameParser.update_view FrameParser.parse
    FrameParser.check_fin_bit FrameParser.check_opcode FrameParser.check_mask_bit
    FrameParser.check_payload_len FrameParser.check_extended_payload_len_16
    FrameParser.check_extended_payload_len_64 FrameParser.check_masking_key
    FrameParser.check_payload_data FrameParser.reset Frame.opcode_of FrameParser.top_bit
    FrameBuffer.receive_at_tail Session.dispatch
requested = refl

short : All (λ b. length b < 2 ^ 31) (drop 1 (log_of one_text))
unfolding lifetime run_calls Session.decimal Handshake.build_websocket_handshake_request
    Session.construct Session.connect Session.await_response Session.conclude Methods.start_timer
    Methods.send_ping Methods.send_text FrameFactory.text FrameFactory.ping
    Handshake.generate_sec_websocket_key ◌>>=◌ Session.close Session.close_open Session.poll
    Session.poll_loop Session.await_close Methods.next_frame Methods.update_ping Methods.elapsed
    Methods.send_close Methods.send Methods.parse_view Methods.parsed callback_at run_program
    react_1_1 FrameFactory.close FrameFactory.construct Frame.construct FrameBuffer.push_back
    FrameBuffer.ensure_fit FrameBuffer.copy_in FrameBuffer.push_back_view Frame.mask_from
    Random.next_key FrameParser.clear FrameParser.update FrameParser.update_view FrameParser.parse
    FrameParser.check_fin_bit FrameParser.check_opcode FrameParser.check_mask_bit
    FrameParser.check_payload_len FrameParser.check_extended_payload_len_16
    FrameParser.check_extended_payload_len_64 FrameParser.check_masking_key
    FrameParser.check_payload_data FrameParser.reset Frame.opcode_of FrameParser.top_bit
    FrameBuffer.receive_at_tail Session.dispatch
short = (omega arith, (omega arith, (omega arith, tt)))

lifetime-ReadAll_example : ReadAll (drop 1 (log_of one_text)) (drop 1 (log_of one_text)) initial
lifetime-ReadAll_example =
    lifetime-ReadAll accepting ⦃handler = handler_of react_1_1⦄ register-ZeroShifts 2 1 one_text
      noted (first (log_of one_text)) (drop 1 (log_of one_text)) (drop 1 (log_of one_text)) initial
      requested short refl initial-IsValid initial-IsIdle
