-- ===== src/FrameParser/Total.antt =====
-- `update` (single_header/fastws.hpp) of a valid parser.
use fast_websocket_client.Base.{
  ◌≡◌, Bool, false, not, ◌&&◌, List, [], ◌∷◌, ℕ, Option, some, arith, ◌==◌, Bool-cases, inl, inr,
}
use fast_websocket_client.Frame.{Frame}
use fast_websocket_client.FrameParser.{
  Machine, FrameParser, fin_bit, is_stage, remaining, parse_remaining, reset_if_done, update_view,
  update,
}
use fast_websocket_client.FrameParser.Abstract.{IsValid}
use fast_websocket_client.FrameParser.Valid.{parse-IsValid}
use fast_websocket_client.FrameParser.Updates.{
  reset_if_done-IsValid, update_view-Outcome, update-false-eq-update_nil,
}

module _ ⦃m : Machine⦄ where
  parse_remaining-IsValid : (p : FrameParser) → IsValid p → IsValid (parse_remaining p).0
  unfolding parse_remaining
  parse_remaining-IsValid p v = elim (Bool-cases (remaining p == 0)) [
    | inl nothing ↦ rw nothing v
    | inr more ↦ rw more (parse-IsValid v)
  ]

  pub update-IsValid :
      (p : FrameParser) (new_data : Bool) → IsValid p → IsValid (update p new_data).0
  unfolding update
  update-IsValid p new_data v =
      let q = reset_if_done p in
      let vq : IsValid q = reset_if_done-IsValid p v in
      elim (Bool-cases (not new_data && not (is_stage q.stage fin_bit))) [
        | inl waits ↦ rw waits vq
        | inr goes ↦ rw goes (parse_remaining-IsValid q vq)
      ]

  -- What `update` of a view returns.
  pub record Updated (r : Option (FrameParser × Option Frame)) : Type 0 where
    pub parser : FrameParser
    pub frame : Option Frame
    pub returns : r ≡ some (parser, frame)
    pub valid : IsValid parser

  pub update_view-Updated :
      (p : FrameParser) (view : List ℕ) → IsValid p → Updated (update_view p view)
  update_view-Updated p [] v = record {
    parser = (update p false).0;
    frame = (update p false).1;
    returns = update-false-eq-update_nil p;
    valid = update-IsValid p false v;
  }
  update_view-Updated p (x ∷ xs) v =
      let (q, out, returned, got) = update_view-Outcome p (x ∷ xs) v (omega arith) in
      record { parser = q; frame = out; returns = returned; valid = got.valid }
