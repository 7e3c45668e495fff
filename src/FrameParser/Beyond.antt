-- ===== src/FrameParser/Beyond.antt =====
-- `update` (single_header/fastws.hpp) on buffers that agree on the bytes written, and may differ in what
-- the vector holds beyond them.
use fast_websocket_client.Base.{
  ℕ, ◌≤◌, ◌≡◌, refl, sym, ap, ◌∙◌, inl, inr, Bool, false, not, ◌&&◌, List, [], ◌∷◌, Option, some,
  arith, ◌==◌, Bool-cases, length, take, drop,
}
use fast_websocket_client.FrameBuffer.{view}
use fast_websocket_client.Frame.{Frame}
use fast_websocket_client.FrameParser.{
  Machine, fin_bit, is_stage, FrameParser, remaining, parse_remaining, reset_if_done, update_view,
  update,
}
use fast_websocket_client.FrameParser.Abstract.{reading, IsValid, run}
use fast_websocket_client.FrameParser.Abstract.Resume.{feed}
use fast_websocket_client.FrameParser.Updates.{
  settle, frame_of, reset_if_done-reading, reset_if_done-IsValid, length-pending_of, parsed-Outcome,
  update_view-Outcome, update-false-eq-update_nil,
}

-- Two outcomes that tell the same: the frame returned, and all that the parser knows.
pub record Same (a b : FrameParser × Option Frame) : Type 0 where
  pub same_frame : a.1 ≡ b.1
  pub same_reading : reading a.0 ≡ reading b.0

-- The parser with other contents of the vector.
abbrev pub with_vector : FrameParser → List ℕ → FrameParser
with_vector p bytes = record p { frame_buffer = record p.frame_buffer { buf = bytes } }

module _ ⦃m : Machine⦄ where
  parse_remaining-Same :
      (p q : FrameParser)
      → IsValid p
      → IsValid q
      → reading p ≡ reading q
      → Same (parse_remaining p) (parse_remaining q)
  unfolding parse_remaining
  parse_remaining-Same p q vp vq e =
      let left : remaining p ≡ remaining q =
        sym (length-pending_of p vp) ∙ ap (λ r. length r.pending) e ∙ length-pending_of q vq in
      elim (Bool-cases (remaining q == 0)) [
        | inl nothing ↦ rw (left, nothing) (record { same_frame = refl; same_reading = e })
        | inr more ↦
            let here = parsed-Outcome p vp in
            let there = parsed-Outcome q vq in
            rw (left, more)
              (record {
                same_frame = here.returns ∙ ap (λ r. frame_of (run r)) e ∙ sym there.returns;
                same_reading = here.reads ∙ ap run e ∙ sym there.reads;
              })
      ]

  pub update-Same :
      (p q : FrameParser) (new_data : Bool)
      → IsValid p
      → IsValid q
      → reading p ≡ reading q
      → Same (update p new_data) (update q new_data)
  unfolding update
  update-Same p q new_data vp vq e =
      let p' = reset_if_done p in
      let q' = reset_if_done q in
      let same : reading p' ≡ reading q' =
        reset_if_done-reading p vp ∙ ap settle e ∙ sym (reset_if_done-reading q vq) in
      let stages : is_stage p'.stage fin_bit ≡ is_stage q'.stage fin_bit =
        ap (λ r. is_stage r.stage fin_bit) same in
      let vp' = reset_if_done-IsValid p vp in
      let vq' = reset_if_done-IsValid q vq in
      elim (Bool-cases (not new_data && not (is_stage q'.stage fin_bit))) [
        | inl waits ↦ rw (stages, waits) (record { same_frame = refl; same_reading = same })
        | inr goes ↦ rw (stages, goes) (parse_remaining-Same p' q' vp' vq' same)
      ]

  -- What `update` of a view makes of two parsers.
  pub record Alike (a b : Option (FrameParser × Option Frame)) : Type 0 where
    pub one : FrameParser × Option Frame
    pub other : FrameParser × Option Frame
    pub one_returns : a ≡ some one
    pub other_returns : b ≡ some other
    pub same : Same one other

  pub update_view-Alike :
      (p q : FrameParser) (bytes : List ℕ)
      → IsValid p
      → IsValid q
      → reading p ≡ reading q
      → Alike (update_view p bytes) (update_view q bytes)
  update_view-Alike p q [] vp vq e = record {
    one = update p false;
    other = update q false;
    one_returns = update-false-eq-update_nil p;
    other_returns = update-false-eq-update_nil q;
    same = update-Same p q false vp vq e;
  }
  update_view-Alike p q (x ∷ xs) vp vq e =
      let (p', a, ea, here) = update_view-Outcome p (x ∷ xs) vp (omega arith) in
      let (q', b, eb, there) = update_view-Outcome q (x ∷ xs) vq (omega arith) in
      record {
        one = (p', a);
        other = (q', b);
        one_returns = ea;
        other_returns = eb;
        same = record {
          same_frame =
              here.returns
              ∙ ap (λ r. frame_of (run (feed (settle r) (x ∷ xs)))) e
              ∙ sym there.returns;
          same_reading = here.reads ∙ ap (λ r. run (feed (settle r) (x ∷ xs))) e ∙ sym there.reads;
        };
      }

  -- Whatever a vector holds beyond the bytes written, the updates of `p` do the same.
  pub record IsBlind (p : FrameParser) : Type 0 where
    pub at_update :
        (bytes : List ℕ) (new_data : Bool)
        → p.frame_buffer.ptr ≤ length bytes
        → take p.frame_buffer.ptr bytes ≡ view p.frame_buffer
        → Same (update (with_vector p bytes) new_data) (update p new_data)
    pub at_update_view :
        (bytes new : List ℕ)
        → p.frame_buffer.ptr ≤ length bytes
        → take p.frame_buffer.ptr bytes ≡ view p.frame_buffer
        → Alike (update_view (with_vector p bytes) new) (update_view p new)

  vector-IsValid :
      (p : FrameParser) (bytes : List ℕ)
      → IsValid p
      → p.frame_buffer.ptr ≤ length bytes
      → IsValid (with_vector p bytes)
  vector-IsValid p bytes v h = record { read_within = v.read_within; write_within = h }

  vector-reading :
      (p : FrameParser) (bytes : List ℕ)
      → take p.frame_buffer.ptr bytes ≡ view p.frame_buffer
      → reading (with_vector p bytes) ≡ reading p
  vector-reading p bytes e = ap (λ xs. record (reading p) { pending = drop p.ptr xs }) e

  pub valid-IsBlind : (p : FrameParser) → IsValid p → IsBlind p
  valid-IsBlind p v = record {
    at_update = λ bytes new_data h e.
        update-Same (with_vector p bytes) p new_data (vector-IsValid p bytes v h) v
          (vector-reading p bytes e);
    at_update_view = λ bytes new h e.
        update_view-Alike (with_vector p bytes) p new (vector-IsValid p bytes v h) v
          (vector-reading p bytes e);
  }
