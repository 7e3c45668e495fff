-- ===== src/FrameParser/Stream.antt =====
-- The updates of a parser (single_header/fastws.hpp) between two frames or within one.
use mathlib.Core.Option.{some-injective}
use fast_websocket_client.Base.{
  ℕ, ◌^◌, ◌<◌, ◌≡◌, sym, ap, subst, ◌∙◌, false, List, [], ◌++◌, append_assoc, Option, none, some,
  arith, length, length-append,
}
use fast_websocket_client.Frame.{Frame, empty_frame}
use fast_websocket_client.Frame.Wire.{wire}
use fast_websocket_client.FrameParser.{
  Machine, fin_bit, done, is_stage, FrameParser, update_view, update,
}
use fast_websocket_client.FrameParser.LengthField.{ZeroShifts}
use fast_websocket_client.FrameParser.Abstract.{Reading, at, reading, IsValid, run_from, run}
use fast_websocket_client.FrameParser.Abstract.Resume.{feed, run-feed}
use fast_websocket_client.FrameParser.RoundTrip.{IsWireOpcode, received, decode-wire}
use fast_websocket_client.FrameParser.Updates.{
  settle, frame_of, Outcome, update_view-Outcome, update-false-Outcome,
}

settle-id : (r : Reading) → frame_of r ≡ none → settle r ≡ r
settle-id r e = ground arith

-- The parser is between two frames and holds `pending`.
abbrev pub IsIdle : FrameParser → List ℕ → Type 0
IsIdle p pending = settle (reading p) ≡ at fin_bit empty_frame 0 pending

module _ ⦃m : Machine⦄ where
  feed-feed :
      (r : Reading) (xs ys : List ℕ)
      → frame_of (run (feed r xs)) ≡ none
      → run (feed (settle (run (feed r xs))) ys) ≡ run (feed r (xs ++ ys))
  feed-feed r xs ys e =
      ap (λ s. run (feed s ys)) (settle-id (run (feed r xs)) e)
      ∙ run-feed (feed r xs) ys
      ∙ ap (λ zs. run (record r { pending = zs })) (append_assoc r.pending xs ys)

  -- On a valid parser, when a first non-empty chunk completes no frame, updating with a second
  -- non-empty chunk does not fault, nor does one update with both chunks as one: both return the
  -- same, and leave the parser in the same stage, with the same frame so far, the same payload
  -- length and the same unread bytes.
  pub update_view-append :
      (p : FrameParser) (xs ys : List ℕ) {q : FrameParser}
      → IsValid p
      → 0 < length xs
      → 0 < length ys
      → update_view p xs ≡ some (q, none)
      → (q₁ q₂ : FrameParser) × (out : Option Frame) × (update_view q ys ≡ some (q₁, out))
        × (update_view p (xs ++ ys) ≡ some (q₂, out))
        × (reading q₁ ≡ reading q₂)
  update_view-append p xs ys {q} v px py e =
      let (q', out', returned, first) = update_view-Outcome p xs v px in
      let same : Outcome (run (feed (settle (reading p)) xs)) q none =
        subst (λ t. Outcome (run (feed (settle (reading p)) xs)) t.0 t.1)
          (some-injective _ _ (sym returned ∙ e)) first in
      let (q₁, out, second, done₁) = update_view-Outcome q ys same.valid py in
      let (q₂, out₂, both, done₂) =
        update_view-Outcome p (xs ++ ys) v (omega (arith, length-append xs ys)) in
      let r = feed (settle (reading p)) xs in
      let joined : run (feed (settle (reading q)) ys) ≡ run (feed (settle (reading p)) (xs ++ ys)) =
        ap (λ s. run (feed (settle s) ys)) same.reads
        ∙ feed-feed (settle (reading p)) xs ys (sym same.returns) in
      let agree : out ≡ out₂ = done₁.returns ∙ ap frame_of joined ∙ sym done₂.returns in
      (q₁, q₂, out, second, rw agree both, done₁.reads ∙ joined ∙ sym done₂.reads)

  -- A valid parser that is between two frames and holds no unread byte, given the bytes of a frame
  -- in the RFC's layout with an opcode of four bits and a payload below 2 ^ 31 bytes, and any
  -- bytes behind it, returns that frame (a masked payload still masked), stays valid, and is
  -- between two frames again with just the bytes behind it unread, on a machine that shifts 0 to
  -- 0.
  pub update_view-wire :
      (p : FrameParser) (f : Frame) (rest : List ℕ)
      → ZeroShifts m
      → IsValid p
      → IsIdle p []
      → IsWireOpcode f.opcode
      → length f.payload < 2 ^ 31
      → (q : FrameParser) × (update_view p (wire f ++ rest) ≡ some (q, some (received f)))
        × IsIdle q rest
        × IsValid q
  unfolding run_from
  update_view-wire p f rest zeros v idle named small =
      let (q, out, returned, got) = update_view-Outcome p (wire f ++ rest) v (omega arith) in
      let reads : run (feed (settle (reading p)) (wire f ++ rest))
          ≡ at done (received f) (length f.payload) rest =
        ap (λ s. run (feed s (wire f ++ rest))) idle ∙ decode-wire zeros f rest named small in
      let out_is : out ≡ some (received f) = got.returns ∙ ap frame_of reads in
      (q, rw (← out_is) returned, ap settle (got.reads ∙ reads), got.valid)

  -- A valid parser that is between two frames and whose buffer holds the bytes of a frame in the
  -- RFC's layout unread, with an opcode of four bits and a payload below 2 ^ 31 bytes, and any
  -- bytes behind it, returns on `update(false)` that frame (a masked payload still masked), stays
  -- valid, and is between two frames again with just the bytes behind it unread, on a machine that
  -- shifts 0 to 0.
  pub update-false-wire :
      (p : FrameParser) (f : Frame) (rest : List ℕ)
      → ZeroShifts m
      → IsValid p
      → IsIdle p (wire f ++ rest)
      → IsWireOpcode f.opcode
      → length f.payload < 2 ^ 31
      → ((update p false).1 ≡ some (received f))
        × IsIdle (update p false).0 rest
        × IsValid (update p false).0
  unfolding run_from
  update-false-wire p f rest zeros v idle named small =
      let got = update-false-Outcome p v (ap (λ s. is_stage s.stage fin_bit) idle) in
      let reads : run (settle (reading p)) ≡ at done (received f) (length f.payload) rest =
        ap run idle ∙ decode-wire zeros f rest named small in
      (got.returns ∙ ap frame_of reads, ap settle (got.reads ∙ reads), got.valid)
