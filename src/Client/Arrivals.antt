-- ===== src/Client/Arrivals.antt =====
-- The bytes that a read of `poll` brings, and the frame that it finds (include/fastws/fastws.hpp).
use fast_websocket_client.Base.{
  ℕ, ◌<◌, ◌≡◌, refl, ap, subst, sym, append-nil, ◌∙◌, Bool, true, false, List, [], ◌∷◌, ◌++◌,
  Option, none, arith, length, length-append, ltb,
}
use fast_websocket_client.Exec.{ok, ◌>>=◌}
use fast_websocket_client.Frame.{Frame, empty_frame}
use fast_websocket_client.FrameBuffer.{FrameBuffer}
use fast_websocket_client.FrameParser.{Machine, FrameParser, update, fin_bit, is_stage}
use fast_websocket_client.FrameParser.Abstract.{
  Reading, at, IsValid, reading, pending_of, run_from, run,
}
use fast_websocket_client.FrameParser.Abstract.Resume.{feed}
use mathlib.Core.Option.{some-injective}
use fast_websocket_client.FrameParser.Chunks.{Rests, chunk-Outcome}
use fast_websocket_client.FrameParser.Updates.{
  update-false-eq-update_nil, settle, frame_of, Outcome, update-false-Outcome, update-true-Outcome,
  pending_of-append,
}
use fast_websocket_client.FrameParser.Stream.{IsIdle}
use fast_websocket_client.Socket.{Platform, Received}
use fast_websocket_client.Client.{Handler, System}
use fast_websocket_client.Client.Methods.{next_frame}

feed-settle : (r : Reading) (xs : List ℕ) → settle (feed r xs) ≡ feed (settle r) xs
feed-settle r xs = ground arith

positive : (n : ℕ) → true ≡ ltb 0 n → 0 < n
positive n e = ground arith

pub nothing : (xs : List ℕ) → false ≡ ltb 0 (length xs) → xs ≡ []
nothing [] e = refl
nothing (x ∷ xs) e = ground arith

-- A buffer that got no byte.
pub unmoved :
    (p : FrameParser) (b : FrameBuffer)
    → IsValid p
    → Received p.frame_buffer false b
    → (reading (record p { frame_buffer = b }) ≡ reading p)
      × IsValid (record p { frame_buffer = b })
unmoved p b v r = (
  ap (λ xs. record (reading p) { pending = xs })
      (pending_of-append p b r.came v r.appended
        ∙ ap (λ xs. pending_of p ++ xs) (nothing r.came r.told)
        ∙ append-nil (pending_of p)),
  record { read_within = omega (arith, r.moved); write_within = r.within },
)

module _ ⦃machine : Machine⦄ where
  -- The parser on the buffer that the socket filled.
  arrived-Outcome :
      (p : FrameParser) (b : FrameBuffer)
      → IsValid p
      → (r : Received p.frame_buffer true b)
      → let p' = record p { frame_buffer = b } in
        Outcome (run (feed (settle (reading p)) r.came)) (update p' true).0 (update p' true).1
  arrived-Outcome p b v r =
      let p' = record p { frame_buffer = b } in
      let pos : 0 < length r.came = positive _ r.told in
      let v' : IsValid p' = record {
        read_within = omega (arith, r.moved);
        write_within = r.within;
      } in
      let shows : pending_of p' ≡ pending_of p ++ r.came =
        pending_of-append p b r.came v r.appended in
      let reads : reading p' ≡ feed (reading p) r.came =
        ap (λ xs. record (reading p) { pending = xs }) shows in
      subst (λ t. Outcome (run t) (update p' true).0 (update p' true).1)
        (ap settle reads ∙ feed-settle (reading p) r.came)
        (update-true-Outcome p' v'
          (omega (arith, ap length shows, length-append (pending_of p) r.came)))

  -- The parser on the buffer that the socket left, whether it brought bytes or not.
  pub arrival-Outcome :
      (p : FrameParser) (b : FrameBuffer) (told : Bool)
      → IsValid p
      → Rests (reading p)
      → (r : Received p.frame_buffer told b)
      → let p' = record p { frame_buffer = b } in
        Outcome (run (feed (settle (reading p)) r.came)) (update p' told).0 (update p' told).1
  arrival-Outcome p b true v rests r = arrived-Outcome p b v r
  arrival-Outcome p b false v rests r =
      let p' = record p { frame_buffer = b } in
      let (same, v') = unmoved p b v r in
      let (q, out, returned, got) = chunk-Outcome p' [] v' (subst Rests (sym same) rests) in
      let made : (q, out) ≡ update p' false =
        some-injective _ _ (sym returned ∙ update-false-eq-update_nil p') in
      subst (λ t. Outcome (run t) (update p' false).0 (update p' false).1)
        (ap (λ t. feed (settle t) []) same
          ∙ ap (feed (settle (reading p))) (sym (nothing r.came r.told)))
        (subst (λ t. Outcome (run (feed (settle (reading p')) [])) t.0 t.1) made got)

module _ ⦃platform : Platform⦄ ⦃handler : Handler⦄ ⦃machine : Machine⦄ where
  -- When the parser is valid and the socket's read brings bytes behind those in the parser's
  -- buffer, the read and update of poll return, and what they return and leave is what one pass
  -- over the unread bytes and the new ones gives, from the stage that was reached, or from the
  -- start if a frame was complete: the frame if one is complete, and a valid parser with just that
  -- pass's stage, frame, length and unread bytes.
  pub next_frame-Outcome :
      (s : System platform.World handler.H) (b : FrameBuffer)
      → IsValid s.client.parser
      → (platform.read_into s.client.parser.frame_buffer 1024 s.world).0 ≡ ok (true, b)
      → (r : Received s.client.parser.frame_buffer true b)
      → (out : Option Frame) × ((next_frame s).0 ≡ ok out)
        × Outcome
            (run (feed (settle (reading s.client.parser)) r.came))
            (next_frame s).1.client.parser
            out
  unfolding next_frame ◌>>=◌
  next_frame-Outcome s b v e r =
      let p' = record s.client.parser { frame_buffer = b } in
      rw e ((update p' true).1, refl, arrived-Outcome s.client.parser b v r)

module _ ⦃machine : Machine⦄ where
  -- The parser on a buffer that got no byte.
  pub silent-Idle :
      (p : FrameParser) (b : FrameBuffer)
      → IsValid p
      → IsIdle p []
      → Received p.frame_buffer false b
      → let (q, out) = update (record p { frame_buffer = b }) false in
        IsValid q × IsIdle q [] × (out ≡ none)
  unfolding run_from
  silent-Idle p b v idle r =
      let p' = record p { frame_buffer = b } in
      let (same, v') = unmoved p b v r in
      let idle' : settle (reading p') ≡ at fin_bit empty_frame 0 [] = ap settle same ∙ idle in
      let got = update-false-Outcome p' v' (ap (λ t. is_stage t.stage fin_bit) idle') in
      let left : reading (update p' false).0 ≡ at fin_bit empty_frame 0 [] =
        got.reads ∙ ap run idle' in
      (got.valid, ap settle left, got.returns ∙ ap (λ t. frame_of (run t)) idle')
