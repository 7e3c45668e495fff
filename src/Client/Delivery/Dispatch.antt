-- ===== src/Client/Delivery/Dispatch.antt =====
-- What the client does with one frame that arrived (`poll` in include/fastws/fastws.hpp), and with its
-- ping, when the socket takes whatever is sent and the handler writes down what it is told.
use fast_websocket_client.Base.{
  ℕ, suc, ◌-◌, ◌≤◌, ◌≡◌, refl, sym, ◌∙◌, Bool, true, false, List, [], ◌++◌, append-nil, Option,
  none, some, arith, length, if◌then◌else◌,
}
use fast_websocket_client.Exec.{Result, ok, throw, pure, follow, when, ◌>>=◌, ◌>>◌}
use fast_websocket_client.Frame.{Frame, Opcode}
use fast_websocket_client.FrameParser.{Machine}
use fast_websocket_client.FrameFactory.Frames.{control_limit}
use fast_websocket_client.Socket.{Platform}
use fast_websocket_client.Client.{Event, ping_timed_out}
use fast_websocket_client.Client.Methods.{
  assign, update_ping, elapsed, exceeds, start_timer, send_ping, send_pong, send, handle_pong,
}
use fast_websocket_client.Client.Session.{dispatch, dispatch_as}
use fast_websocket_client.Client.Callbacks.{callback_at, run_program}
use fast_websocket_client.Client.Delivery.{
  State, Feeds, recorder, IsTaken, IsPolled, heard_as, heard,
}

abbrev pub all_heard : Option Frame → List Event
all_heard none = []
all_heard (some f) = heard f

module _ ⦃platform : Platform⦄ ⦃machine : Machine⦄ (feeds : Feeds platform) where
  -- The handler is told `es`, and neither the parser nor the chunks are touched.
  pub record Tells (es : List Event) (s s' : State) : Type 0 where
    pub told : s'.handler ≡ s.handler ++ es
    pub same_parser : s'.client.parser ≡ s.client.parser
    pub same_chunks : feeds.upcoming s'.world ≡ feeds.upcoming s.world
    pub live : feeds.Live s'.world

  pub record Returns {A : Type 0} (a : A) (es : List Event) (s : State) (r : Result A × State)
      : Type 0 where
    pub returns : r.0 ≡ ok a
    pub tells : Tells es s r.1

  pub nothing-Tells : (s : State) → feeds.Live s.world → Tells [] s s
  nothing-Tells s live = record {
    live = live;
    told = sym (append-nil s.handler);
    same_parser = refl;
    same_chunks = refl;
  }

  pub send_ping-Returns : (s : State) → feeds.Live s.world → Returns tt [] s (send_ping [] s)
  unfolding send_ping send ◌>>=◌
  send_ping-Returns s live =
      let made = ((control_limit true [] s.client.factory).1 (omega arith)).0 in
      let (sent, same, still) = feeds.at_send _ s.world live in
      rw made record {
        returns = sent;
        tells = record {
          told = sym (append-nil s.handler);
          same_parser = refl;
          same_chunks = same;
          live = still;
        };
      }

  send_pong-Returns :
      (payload : List ℕ) (s : State)
      → feeds.Live s.world
      → length payload ≤ 125
      → Returns tt [] s (send_pong payload s)
  unfolding send_pong send ◌>>=◌
  send_pong-Returns payload s live fits =
      let made = ((control_limit true payload s.client.factory).1 fits).1 in
      let (sent, same, still) = feeds.at_send _ s.world live in
      rw made record {
        returns = sent;
        tells = record {
          told = sym (append-nil s.handler);
          same_parser = refl;
          same_chunks = same;
          live = still;
        };
      }

  handle_pong-Returns : (s : State) → feeds.Live s.world → Returns tt [] s (handle_pong s)
  unfolding handle_pong elapsed start_timer ◌>>=◌
  handle_pong-Returns s live =
      let (same, once) = feeds.at_clock s.world live in
      let (same', twice) = feeds.at_clock (platform.clock s.world).1 once in
      record {
        returns = refl;
        tells = record {
          told = sym (append-nil s.handler);
          same_parser = refl;
          same_chunks = same' ∙ same;
          live = twice;
        };
      }

  -- A body of the loop that goes on with the next frame.
  goes_on :
      (r : Result (Unit {0}) × State) (s : State)
      → Returns tt [] s r
      → Returns false [] s (follow r.0 (λ _. pure false) r.1)
  goes_on (ok a, t) s h = record { returns = refl; tells = h.tells }
  goes_on (throw e, t) s h = absurd (let e = h.returns in cc)

  dispatch_as-Returns :
      (depth : ℕ) (o : Opcode) (f : Frame) (s : State)
      → feeds.Live s.world
      → IsTaken o (length f.payload)
      → Returns false (heard_as o f) s (dispatch_as (callback_at (suc depth)) o f s)
  unfolding dispatch_as ◌>>=◌ callback_at run_program
  dispatch_as-Returns depth Opcode.text f s live h = record {
    returns = refl;
    tells = record { told = refl; same_parser = refl; same_chunks = refl; live = live };
  }
  dispatch_as-Returns depth Opcode.binary f s live h = record {
    returns = refl;
    tells = record { told = refl; same_parser = refl; same_chunks = refl; live = live };
  }
  dispatch_as-Returns depth Opcode.continuation f s live h = record {
    returns = refl;
    tells = record { told = refl; same_parser = refl; same_chunks = refl; live = live };
  }
  dispatch_as-Returns depth Opcode.unknown f s live h = record {
    returns = refl;
    tells = record { told = refl; same_parser = refl; same_chunks = refl; live = live };
  }
  dispatch_as-Returns depth (Opcode.unnamed n) f s live h = record {
    returns = refl;
    tells = record { told = refl; same_parser = refl; same_chunks = refl; live = live };
  }
  dispatch_as-Returns depth Opcode.ping f s live h =
      goes_on _ s (send_pong-Returns f.payload s live h)
  dispatch_as-Returns depth Opcode.pong f s live h = goes_on _ s (handle_pong-Returns s live)
  dispatch_as-Returns depth Opcode.close f s live h = absurd h

  -- A frame that is taken is told to the handler if it is no control frame, and the loop goes on.
  pub dispatch-Returns :
      (depth : ℕ) (f : Frame) (s : State)
      → feeds.Live s.world
      → IsPolled f
      → Returns false (heard f) s (dispatch (callback_at (suc depth)) f s)
  unfolding dispatch
  dispatch-Returns depth f s live h = dispatch_as-Returns depth f.opcode f s live h

  reads_clock :
      (s t : State)
      → feeds.Live s.world
      → t.handler ≡ s.handler
      → t.client.parser ≡ s.client.parser
      → Returns tt [] s (ok tt, record t { world = (platform.clock s.world).1 })
  reads_clock s t live e f = record {
    returns = refl;
    tells = record {
      told = e ∙ sym (append-nil s.handler);
      same_parser = f;
      same_chunks = (feeds.at_clock s.world live).0;
      live = (feeds.at_clock s.world live).1;
    };
  }

  -- The last step of `update_ping`, whatever its tests come to.
  tested-Returns :
      (waiting late due : Bool) (s : State)
      → feeds.Live s.world
      → Returns tt [] s (
          (if waiting
              then when late
                  (assign (λ c. record c { connection_open = false; status = ping_timed_out }))
              else when due (
                  assign (λ c. record c { waiting_for_ping = true })
                  >> start_timer
                  >> send_ping []))
            (record s { world = (platform.clock s.world).1 }))
  unfolding start_timer ◌>>=◌
  tested-Returns true true due s live =
      reads_clock s
        (record s { client = record s.client { connection_open = false; status = ping_timed_out } })
        live refl refl
  tested-Returns true false due s live = reads_clock s s live refl refl
  tested-Returns false late false s live = reads_clock s s live refl refl
  tested-Returns false late true s live =
      let w = (platform.clock s.world).1 in
      let (same, once) = feeds.at_clock s.world live in
      let (same', twice) = feeds.at_clock w once in
      let pings =
        send_ping-Returns
          (record s {
            client = record s.client { waiting_for_ping = true; ping_timer = (platform.clock w).0 };
            world = (platform.clock w).1;
          })
          twice in
      record {
        returns = pings.returns;
        tells = record {
          told = pings.tells.told;
          same_parser = pings.tells.same_parser;
          same_chunks = pings.tells.same_chunks ∙ same' ∙ same;
          live = pings.tells.live;
        };
      }

  pub update_ping-Returns : (s : State) → feeds.Live s.world → Returns tt [] s (update_ping s)
  unfolding update_ping elapsed ◌>>=◌
  update_ping-Returns s live =
      let t = (platform.clock s.world).0 - s.client.ping_timer in
      tested-Returns s.client.waiting_for_ping (exceeds t s.client.ping_timeout)
        (exceeds t s.client.ping_every) s live
