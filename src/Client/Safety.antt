-- ===== src/Client/Safety.antt =====
-- The parser of a client (include/fastws/fastws.hpp) over its life, and the errors of its methods.
use fast_websocket_client.Base.{ℕ, Bool, List, arith}
use fast_websocket_client.Exec.{Result, ok, throw, follow, ◌>>=◌}
use fast_websocket_client.Exec.Keeps.{Keeps, Allowed}
use fast_websocket_client.FrameBuffer.{FrameBuffer}
use fast_websocket_client.FrameParser.{Machine, update}
use fast_websocket_client.FrameParser.Abstract.{IsValid}
use fast_websocket_client.FrameParser.Beyond.{IsBlind, valid-IsBlind}
use fast_websocket_client.FrameParser.Valid.{clear-IsValid}
use fast_websocket_client.FrameParser.Total.{update-IsValid, update_view-Updated}
use fast_websocket_client.Socket.{Platform, NoFault, Filled, Reliable}
use fast_websocket_client.Client.{Client, Handler, Call}
use fast_websocket_client.Client.Methods.{next_frame, parsed, parse_view}
use fast_websocket_client.Client.Session.{construct}
use fast_websocket_client.Client.Callbacks.{call, callback_at}
use fast_websocket_client.Client.Invariant.{Holds, Invariant}
use fast_websocket_client.Client.Invariant.Frames.{client_frames}
use fast_websocket_client.Client.Invariant.Opening.{Opening}
use fast_websocket_client.Client.Lifetime.{
  State, lifetime, lifetime-kept, construct-Allowed, call-Allowed,
}

module _ ⦃platform : Platform⦄ ⦃handler : Handler⦄ ⦃machine : Machine⦄
    (reliable : Reliable platform) where
  abbrev Parses : Client → platform.World → Type 0
  Parses c w = IsValid c.parser

  Filled-Keeps :
      (r : Result (Bool × FrameBuffer)) (s : State)
      → IsValid s.client.parser
      → Filled s.client.parser.frame_buffer r
      → let m =
          follow r
            (λ got t.
              let step = update (record s.client.parser { frame_buffer = got.1 }) got.0 in
              (ok step.1, record t { client = record t.client { parser = step.0 } }))
            s in
        Holds Parses m.1 × Allowed NoFault m.0
  Filled-Keeps (ok (told, b)) s v got =
      let p = record s.client.parser { frame_buffer = b } in
      let valid : IsValid p = record {
        read_within = omega (arith, got.moved);
        write_within = got.within;
      } in
      (update-IsValid p told valid, tt)
  Filled-Keeps (throw e) s v got = (v, got)

  next_frame-Keeps : Keeps (Holds Parses) NoFault next_frame
  unfolding next_frame ◌>>=◌
  next_frame-Keeps = record {
    apply = λ s v.
        let b = s.client.parser.frame_buffer in
        let got = platform.read_into b 1024 s.world in
        Filled-Keeps got.0 (record s { world = got.1 }) v
          (reliable.at_read_into b 1024 s.world v.write_within);
  }

  parse_view-Keeps : (view : List ℕ) → Keeps (Holds Parses) NoFault (parse_view view)
  unfolding parse_view parsed ◌>>=◌
  parse_view-Keeps view = record {
    apply = λ s v.
        let done = update_view-Updated s.client.parser view v in rw done.returns (done.valid, tt);
  }

  safe_Invariant : Invariant Parses NoFault
  safe_Invariant = record {
    at_factory = λ c w f h. h;
    at_timer = λ c w t h. h;
    at_waiting = λ c w b h. h;
    at_rtt = λ c w t h. h;
    at_end = λ c w st e h. h;
    at_clear = λ c w h. clear-IsValid c.parser;
    at_clock = λ c w h. h;
    at_sleep = λ c w h. h;
    goes = λ bytes. Unit {0};
    at_send = λ c bytes _. record { apply = λ w h. (h, reliable.at_send bytes w) };
    at_read = λ c n. record { apply = λ w h. (h, reliable.at_read n w) };
    at_next_frame = next_frame-Keeps;
    at_parse_view = parse_view-Keeps;
    at_frame = client_frames NoFault (λ bytes _. tt) (λ e. cc) (λ e. cc) (λ e. cc);
    at_nesting = λ e. cc;
  }

  safe_Opening : Opening Parses NoFault
  safe_Opening = record {
    at_open = λ c host port. record { apply = λ w h. (h, reliable.at_open host port w) };
    at_random = λ c w h. h;
    at_conclusion = λ c w b h. h;
    at_request = λ c d key. record { apply = λ w h. (h, reliable.at_send _ w) };
    at_refusal = λ e. cc;
  }

  -- With a socket that never stores outside a vector and whose reads store behind the bytes of the
  -- buffer, from a client whose parser is valid, the constructor and then any public calls keep
  -- the parser valid; an update of the parser that they leave returns the same frame, and leaves
  -- the same stage, frame so far, payload length and unread bytes, whatever its vector holds
  -- behind the bytes written and however far it goes; and neither the constructor nor any further
  -- call stores outside a vector, whatever the handler's callbacks do and though calls throw.
  pub lifetime-NoFault :
      (depth timeout : ℕ) (calls : List Call) (c : Call) (s : State)
      → IsValid s.client.parser
      → IsValid (lifetime depth timeout calls s).client.parser
        × IsBlind (lifetime depth timeout calls s).client.parser
        × Allowed NoFault (construct (callback_at depth) timeout s).0
        × Allowed NoFault (call (callback_at depth) c (lifetime depth timeout calls s)).0
  lifetime-NoFault depth timeout calls c s v = (
    lifetime-kept safe_Invariant safe_Opening depth timeout calls s v,
    valid-IsBlind _ (lifetime-kept safe_Invariant safe_Opening depth timeout calls s v),
    construct-Allowed safe_Invariant safe_Opening depth timeout s v,
    call-Allowed safe_Invariant safe_Opening depth timeout calls c s v,
  )
