-- ===== src/FrameParser/Chunks.antt =====
-- `FrameParser::update` (single_header/fastws.hpp) on several frames in a row, whose bytes arrive cut into
-- chunks anywhere, empty ones included.
pub mod Owed
pub mod Delivery
use mathlib.Core.List.{map}
use fast_websocket_client.Base.{
  ℕ, zero, suc, ◌+◌, ◌^◌, ◌≤◌, ◌<◌, ◌≡◌, refl, sym, ap, subst, ◌∙◌, ◌⊎◌, inl, inr, Bool, true,
  false, Bool-cases, List, [], ◌∷◌, ◌++◌, append_assoc, append-nil, Option, none, some,
  Option-cases, ◌>>=◌, arith, if◌then◌else◌, length, replicate, All,
}
use fast_websocket_client.Frame.{Frame, empty_frame}
use fast_websocket_client.Frame.Wire.{wire}
use fast_websocket_client.FrameParser.{
  Machine, fin_bit, done, is_stage, FrameParser, update_view, update, reset_if_done,
}
use fast_websocket_client.FrameParser.LengthField.{ZeroShifts}
use fast_websocket_client.FrameParser.Abstract.{Reading, at, reading, IsValid, run_from, run}
use fast_websocket_client.FrameParser.Abstract.Resume.{feed, run-feed}
use fast_websocket_client.FrameParser.RoundTrip.{IsWireOpcode, received, decode-wire}
use fast_websocket_client.FrameParser.Updates.{
  settle, frame_of, Outcome, update_view-Outcome, update-false-Outcome, update-false-waits,
  update-false-eq-update_nil, reset_if_done-IsValid, reset_if_done-reading,
}
use fast_websocket_client.FrameParser.Stream.{IsIdle}

-- A frame that can be written and read back.
pub record IsSendable (f : Frame) : Type 0 where
  pub named : IsWireOpcode f.opcode
  pub small : length f.payload < 2 ^ 31

abbrev pub listed : Option Frame → List Frame
listed none = []
listed (some f) = f ∷ []

abbrev pub joined : List (List ℕ) → List ℕ
joined [] = []
joined (c ∷ cs) = c ++ joined cs

-- The bytes of a sequence of frames.
abbrev pub wires : List Frame → List ℕ
wires gs = joined (map wire gs)

module _ ⦃m : Machine⦄ where
  -- One update for each chunk: the frames that were returned, and the parser that is left.
  unfoldable pub updates : FrameParser → List (List ℕ) → Option (List Frame × FrameParser)
  updates p [] = some ([], p)
  updates p (c ∷ cs) =
      update_view p c >>= λ got. updates got.0 cs >>= λ more. some (listed got.1 ++ more.0, more.1)

  abbrev pub Rests : Reading → Type 0
  Rests r = (is_stage (settle r).stage fin_bit ≡ true) ⊎ (run (settle r) ≡ settle r)

  feed-nil : (r : Reading) → feed r [] ≡ r
  feed-nil r = ap (λ xs. record r { pending = xs }) (append-nil r.pending)

  run-run : (r : Reading) → run (run r) ≡ run r
  run-run r = ap run (sym (feed-nil (run r))) ∙ run-feed r [] ∙ ap run (feed-nil r)

  settle_done :
      (r : Reading) → is_stage r.stage done ≡ true → is_stage (settle r).stage fin_bit ≡ true
  settle_done r e = rw e

  pub settle_other : (r : Reading) → is_stage r.stage done ≡ false → settle r ≡ r
  settle_other r e = rw e

  run-Rests : (r : Reading) → Rests (run r)
  run-Rests r = elim (Bool-cases (is_stage (run r).stage done)) [
    | inl over ↦ inl (settle_done (run r) over)
    | inr going ↦ let same = settle_other (run r) going in inr (ap run same ∙ run-run r ∙ sym same)
  ]

  frame_of-settle : (r : Reading) → none ≡ frame_of (settle r)
  frame_of-settle r = ground arith

  -- Every update does what the pass over the bytes not yet read and the chunk does.
  pub chunk-Outcome :
      (p : FrameParser) (c : List ℕ)
      → IsValid p
      → Rests (reading p)
      → (q : FrameParser) × (out : Option Frame) × (update_view p c ≡ some (q, out))
        × Outcome (run (feed (settle (reading p)) c)) q out
  chunk-Outcome p (x ∷ xs) v rests = update_view-Outcome p (x ∷ xs) v (omega arith)
  chunk-Outcome p [] v rests = elim (Bool-cases (is_stage (settle (reading p)).stage fin_bit)) [
    | inl start ↦ (
      (update p false).0,
      (update p false).1,
      update-false-eq-update_nil p,
      subst (λ r. Outcome (run r) (update p false).0 (update p false).1)
          (sym (feed-nil (settle (reading p)))) (update-false-Outcome p v start),
    )
    | inr middle ↦
        let stays : run (settle (reading p)) ≡ settle (reading p) = elim rests [
          | inl start ↦ absurd cc
          | inr same ↦ same
        ] in
        let waits =
          update-false-waits p
            (ap (λ r. is_stage r.stage fin_bit) (reset_if_done-reading p v) ∙ middle) in
        (
          reset_if_done p,
          none,
          update-false-eq-update_nil p ∙ ap some waits,
          record {
            valid = reset_if_done-IsValid p v;
            reads =
                reset_if_done-reading p v ∙ sym (ap run (feed-nil (settle (reading p))) ∙ stays);
            returns =
                frame_of-settle (reading p)
                ∙ ap frame_of (sym (ap run (feed-nil (settle (reading p))) ∙ stays));
          },
        )
  ]
