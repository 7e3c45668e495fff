-- ===== src/Client/Invariant/Worldly.antt =====
-- Facts about the world alone: the client keeps what its socket, the clock and the random numbers keep.
use fast_websocket_client.Base.{ℕ, List, Option, none, some, ◌≡◌, refl, sym, ◌∙◌, subst}
use fast_websocket_client.Exec.{pure, ◌>>=◌, ◌>>◌}
use fast_websocket_client.Exec.Keeps.{AnyError, any-Allowed}
use fast_websocket_client.Frame.{Frame}
use fast_websocket_client.FrameBuffer.{FrameBuffer}
use fast_websocket_client.FrameParser.{Machine, FrameParser, update}
use fast_websocket_client.Socket.{Platform}
use fast_websocket_client.Client.{Client, Handler, System}
use fast_websocket_client.Client.Methods.{
  Method, assign, on_world, the_client, next_frame, parsed, parse_view, world-bind,
}
use fast_websocket_client.Client.Session.{request_of}
use fast_websocket_client.Client.Invariant.{Invariant}
use fast_websocket_client.Client.Invariant.Frames.{IsClientFrame, client_frames}
use fast_websocket_client.Client.Invariant.Opening.{Opening}

pub record Worldly (p : Platform) (Q : p.World → Type 0) : Type 1 where
  -- What is said of the bytes of a frame that goes to the socket.
  pub goes : List ℕ → Type 0
  pub at_frame : (bytes : List ℕ) → IsClientFrame bytes → goes bytes
  pub at_open : (host : List ℕ) (port : ℕ) (w : p.World) → Q w → Q (p.open_socket host port w).1
  pub at_send : (bytes : List ℕ) → goes bytes → (w : p.World) → Q w → Q (p.send bytes w).1
  pub at_read : (n : ℕ) (w : p.World) → Q w → Q (p.read n w).1
  pub at_read_into : (b : FrameBuffer) (hint : ℕ) (w : p.World) → Q w → Q (p.read_into b hint w).1
  pub at_clock : (w : p.World) → Q w → Q (p.clock w).1
  pub at_sleep : (w : p.World) → Q w → Q (p.sleep w)
  pub at_random : (w : p.World) → Q w → Q (p.random_byte w).1

module _ ⦃platform : Platform⦄ ⦃handler : Handler⦄ ⦃machine : Machine⦄ {Q : platform.World → Type 0}
    (worldly : Worldly platform Q) where
  abbrev pub OfWorld : Client → platform.World → Type 0
  OfWorld c w = Q w

  world-next_frame :
      (s : System platform.World handler.H)
      → (next_frame s).1.world ≡ (platform.read_into s.client.parser.frame_buffer 1024 s.world).1
  unfolding next_frame
  world-next_frame s =
      at_client
        (λ c. on_world (platform.read_into c.parser.frame_buffer 1024) >>= λ got.
          let step = update (record c.parser { frame_buffer = got.1 }) got.0 in
          assign (λ c. record c { parser = step.0 }) >> pure step.1)
        s
      ∙ world-bind (on_world (platform.read_into s.client.parser.frame_buffer 1024)) _ s
          (λ got t. stored _ _ t)
    where
      at_client :
          {A : Type 0} (k : Client → Method A) (t : System platform.World handler.H)
          → ((the_client >>= k) t).1.world ≡ (k t.client t).1.world
      at_client k t = unfold ◌>>=◌ in refl

      stored :
          (p : FrameParser) (out : Option Frame) (t : System platform.World handler.H)
          → ((assign (λ c. record c { parser = p }) >> pure out) t).1.world ≡ t.world
      stored p out t = unfold ◌>>=◌ in refl

  world-parsed :
      (o : Option (FrameParser × Option Frame)) (s : System platform.World handler.H)
      → (parsed o s).1.world ≡ s.world
  unfolding parsed ◌>>=◌
  world-parsed none s = refl
  world-parsed (some (p, out)) s = refl

  world-parse_view :
      (view : List ℕ) (s : System platform.World handler.H) → (parse_view view s).1.world ≡ s.world
  unfolding parse_view ◌>>=◌
  world-parse_view view s = world-parsed _ s

  pub worldly-Invariant : Invariant OfWorld AnyError
  worldly-Invariant = record {
    at_factory = λ c w f h. h;
    at_timer = λ c w t h. h;
    at_waiting = λ c w b h. h;
    at_rtt = λ c w t h. h;
    at_end = λ c w st e h. h;
    at_clear = λ c w h. h;
    at_clock = λ c w h. worldly.at_clock w h;
    at_sleep = λ c w h. worldly.at_sleep w h;
    goes = worldly.goes;
    at_send =
        λ c bytes good. record { apply = λ w h. (worldly.at_send bytes good w h, any-Allowed _) };
    at_read = λ c n. record { apply = λ w h. (worldly.at_read n w h, any-Allowed _) };
    at_next_frame = record {
      apply = λ s h. (
        subst Q (sym (world-next_frame s))
            (worldly.at_read_into s.client.parser.frame_buffer 1024 s.world h),
        any-Allowed _,
      );
    };
    at_parse_view = λ view. record {
      apply = λ s h. (subst Q (sym (world-parse_view view s)) h, any-Allowed _);
    };
    at_frame = client_frames AnyError worldly.at_frame tt tt tt;
    at_nesting = tt;
  }

  pub worldly-Opening :
      ((c : Client) (key : List ℕ) (w : platform.World)
        → Q w
        → Q (platform.send (request_of c key) w).1)
      → Opening OfWorld AnyError
  worldly-Opening requested = record {
    at_open =
        λ c host port. record { apply = λ w h. (worldly.at_open host port w h, any-Allowed _) };
    at_random = λ c w h. worldly.at_random w h;
    at_conclusion = λ c w b h. h;
    at_request = λ c d key. record { apply = λ w h. (requested c key w h, any-Allowed _) };
    at_refusal = tt;
  }
