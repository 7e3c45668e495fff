-- ===== src/Benchmark/Counting.antt =====
-- How the echo benchmark (benchmark/echo_test/fastws_benchmark.cpp) counts the messages that come back.
use fast_websocket_client.Base.{
  ℕ, suc, ◌+◌, ◌<◌, ◌≡◌, refl, ◌∙◌, true, false, Bool-cases, inl, inr, List, [], ◌∷◌, arith, length,
  length-append, if◌then◌else◌, leb,
}
use fast_websocket_client.Exec.{Result, ok, throw, follow, Exec, pure, ◌>>=◌, ◌>>◌}
use fast_websocket_client.Frame.{Frame, Opcode}
use fast_websocket_client.Frame.Wire.{wire}
use fast_websocket_client.FrameFactory
use fast_websocket_client.FrameFactory.{frame_with}
use fast_websocket_client.FrameFactory.Frames.{construct-returns}
use fast_websocket_client.FrameParser.{Machine}
use fast_websocket_client.Socket.{Platform}
use fast_websocket_client.Client.{Event, System}
use fast_websocket_client.Client.Methods.{send, send_text}
use fast_websocket_client.Client.Callbacks.{callback_at, run_program}
use fast_websocket_client.Client.Sent.{Log, logging}
use fast_websocket_client.Examples.Example.{same_text}
use fast_websocket_client.Benchmark.Echo.{Count, message, handler, react, on_text}

-- How many of the frames bring the message.
abbrev pub echoes : List Frame → ℕ
echoes [] = 0
echoes (f ∷ fs) = if same_text f.payload message then suc (echoes fs) else echoes fs

module _ (p : Platform) ⦃machine : Machine⦄ where
  abbrev State : Type 0
  State = System (Log p.World) Count

  -- The callbacks for texts that come one after the other.
  unfoldable pub hear : ℕ → List Frame → Exec (System (Log p.World) Count) (Unit {0})
  hear depth [] = pure tt
  hear depth (f ∷ fs) =
      callback_at ⦃platform = logging p⦄ ⦃handler = handler⦄ depth (Event.on_text f)
      >> hear depth fs

  -- `n` messages came back, and as many were sent again.
  pub record Counted (n : ℕ) (s : System (Log p.World) Count)
      (r : Result (Unit {0}) × System (Log p.World) Count) : Type 0 where
    pub returns : r.0 ≡ ok tt
    pub counted : r.1.handler.count ≡ s.handler.count + n
    pub same_max : r.1.handler.max_count ≡ s.handler.max_count
    pub answered : length r.1.world.sent ≡ length s.world.sent + n

  module _ (sends : (bytes : List ℕ) (w : p.World) → (p.send bytes w).0 ≡ ok tt) (depth : ℕ) where
    again-Counted :
        (f : Frame) (s : State)
        → same_text f.payload message ≡ true
        → s.handler.count + 1 < s.handler.max_count
        → Counted 1 s
            (callback_at ⦃platform = logging p⦄ ⦃handler = handler⦄ (suc depth) (Event.on_text f) s)
    unfolding callback_at react on_text run_program send_text send FrameFactory.text ◌>>=◌
    again-Counted f s echo below =
        let more : leb s.handler.max_count (s.handler.count + 1) ≡ false = ground arith in
        let bytes = wire (frame_with s.client.factory true Opcode.text true message) in
        rw
          (
            echo,
            more,
            (construct-returns true Opcode.text true message s.client.factory).0,
            sends bytes s.world.world,
          )
          (record {
            returns = refl;
            counted = refl;
            same_max = refl;
            answered = omega (arith, length-append s.world.sent (bytes ∷ []));
          })

    other-Counted :
        (f : Frame) (s : State)
        → same_text f.payload message ≡ false
        → Counted 0 s
            (callback_at ⦃platform = logging p⦄ ⦃handler = handler⦄ (suc depth) (Event.on_text f) s)
    unfolding callback_at react on_text run_program
    other-Counted f s other =
        rw other (record {
          returns = refl;
          counted = omega arith;
          same_max = refl;
          answered = omega arith;
        })

    one-Counted :
        (f : Frame) (s : State)
        → s.handler.count + echoes (f ∷ []) < s.handler.max_count
        → Counted
            (echoes (f ∷ []))
            s
            (callback_at ⦃platform = logging p⦄ ⦃handler = handler⦄ (suc depth) (Event.on_text f) s)
    one-Counted f s below = elim (Bool-cases (same_text f.payload message)) [
      | inl echo ↦ rw echo (again-Counted f s echo (rw echo at below))
      | inr other ↦ rw other (other-Counted f s other)
    ]

    echoes-cons : (f : Frame) (fs : List Frame) → echoes (f ∷ fs) ≡ echoes (f ∷ []) + echoes fs
    echoes-cons f fs = ground arith

    then-Counted :
        (n m k : ℕ) (s : State) (fs : List Frame) (r : Result (Unit {0}) × State)
        → n ≡ m + k
        → Counted m s r
        → Counted k r.1 (hear (suc depth) fs r.1)
        → Counted n s (follow r.0 (λ _. hear (suc depth) fs) r.1)
    then-Counted n m k s fs (throw e, t) sum a b = absurd (let bad = a.returns in cc)
    then-Counted n m k s fs (ok u, t) sum a b = record {
      returns = b.returns;
      counted = omega (arith, a.counted, b.counted, sum);
      same_max = b.same_max ∙ a.same_max;
      answered = omega (arith, a.answered, b.answered, sum);
    }

    -- On any platform whose socket takes whatever is sent, when texts come one after the other and
    -- those that bring the message of the echo benchmark, counted on from its count, stay below
    -- its maximum: no callback throws, the count is raised by their number, and as many frames are
    -- given to the socket.
    pub hear-Counted :
        (fs : List Frame) (s : System (Log p.World) Count)
        → s.handler.count + echoes fs < s.handler.max_count
        → Counted (echoes fs) s (hear (suc depth) fs s)
    unfolding hear ◌>>=◌
    hear-Counted [] s below = record {
      returns = refl;
      counted = omega arith;
      same_max = refl;
      answered = omega arith;
    }
    hear-Counted (f ∷ fs) s below =
        let sum = echoes-cons f fs in
        let one = one-Counted f s (omega (arith, sum, below)) in
        then-Counted (echoes (f ∷ fs)) (echoes (f ∷ [])) (echoes fs) s fs _ sum one
          (hear-Counted fs _ (omega (arith, sum, one.counted, one.same_max, below)))
