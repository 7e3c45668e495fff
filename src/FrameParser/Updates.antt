-- ===== src/FrameParser/Updates.antt =====
-- `update` on the bytes not yet read: what it returns, and what it leaves.
use fast_websocket_client.Base.{
  ℕ, ◌+◌, ◌<◌, ◌≡◌, refl, ap, ◌∙◌, inl, inr, true, false, List, [], ◌∷◌, ◌++◌, Option, none, some,
  arith, if◌then◌else◌, ltb, ◌==◌, Bool-cases, length, take, drop, length-take, length-drop,
  drop-append_le, take-splice, ◌⊎◌, subst, ==_iff, take-drop, splice, ◌⊎◌, subst, ==_iff,
}
use fast_websocket_client.FrameBuffer.{FrameBuffer, view}
use fast_websocket_client.FrameBuffer.Writes.{push_back_view_lem}
use fast_websocket_client.Frame.{Frame, empty_frame}
use fast_websocket_client.FrameParser.{
  Machine, ParseStage, fin_bit, done, is_stage, FrameParser, remaining, parse, result, reset,
  reset_if_done, is_done, parse_remaining, update_view, update,
}
use fast_websocket_client.FrameParser.Abstract.{
  Reading, at, pending_of, reading, IsValid, run_from, run,
}
use fast_websocket_client.FrameParser.Abstract.Refine.{parse-run}
use fast_websocket_client.FrameParser.Abstract.Resume.{feed}
use fast_websocket_client.FrameParser.Valid.{parse-IsValid, reset-IsValid}

-- After a frame the next one starts, on the bytes that are left.
abbrev pub settle : Reading → Reading
settle r = if is_stage r.stage done then at fin_bit empty_frame 0 r.pending else r

abbrev pub frame_of : Reading → Option Frame
frame_of r = if is_stage r.stage done then some r.frame else none

-- What `reset` keeps is what was not read.
kept-eq-pending :
    (p : FrameParser) → pending_of p ≡ take (remaining p) (drop p.ptr p.frame_buffer.buf)
kept-eq-pending p = take-drop p.ptr p.frame_buffer.ptr p.frame_buffer.buf

reset-pending : (p : FrameParser) → IsValid p → pending_of (reset p) ≡ pending_of p
unfolding reset
reset-pending p v = elim (Bool-cases (ltb 0 (remaining p))) [
  | inl more ↦
      let kept = take (remaining p) (drop p.ptr p.frame_buffer.buf) in
      let whole : length kept ≡ remaining p = omega (
        arith,
        length-take (remaining p) (drop p.ptr p.frame_buffer.buf),
        length-drop p.ptr p.frame_buffer.buf,
      ) in
      let placed : take (0 + length kept) (splice p.frame_buffer.buf 0 kept) ≡ kept =
        take-splice p.frame_buffer.buf 0 kept (omega arith) in
      rw (more, kept-eq-pending p) (rw whole at placed)
  | inr nothing ↦
      let none_left : remaining p ≡ 0 = ground arith in rw (nothing, kept-eq-pending p, none_left)
]

reset-reading :
    (p : FrameParser) → IsValid p → reading (reset p) ≡ at fin_bit empty_frame 0 (pending_of p)
unfolding reset
reset-reading p v = ap (at fin_bit empty_frame 0) (reset-pending p v)

pub reset_if_done-reading :
    (p : FrameParser) → IsValid p → reading (reset_if_done p) ≡ settle (reading p)
reset_if_done-reading p v = elim (Bool-cases (is_done p)) [
  | inl over ↦ rw over (reset-reading p v)
  | inr going ↦ rw going
]

pub reset_if_done-IsValid : (p : FrameParser) → IsValid p → IsValid (reset_if_done p)
reset_if_done-IsValid p v = elim (Bool-cases (is_done p)) [
  | inl over ↦ rw over (reset-IsValid v)
  | inr going ↦ rw going v
]

pub pending_of-append :
    (p : FrameParser) (b : FrameBuffer) (bytes : List ℕ)
    → IsValid p
    → view b ≡ view p.frame_buffer ++ bytes
    → drop p.ptr (view b) ≡ pending_of p ++ bytes
pending_of-append p b bytes v e = rw e (
    drop-append_le p.ptr (view p.frame_buffer) bytes
      (omega (arith, length-take p.frame_buffer.ptr p.frame_buffer.buf)))

pub length-pending_of : (p : FrameParser) → IsValid p → length (pending_of p) ≡ remaining p
length-pending_of p v = omega (
  arith,
  length-drop p.ptr (view p.frame_buffer),
  length-take p.frame_buffer.ptr p.frame_buffer.buf,
)

nil_of_length : (xs : List ℕ) → length xs ≡ 0 → xs ≡ []
nil_of_length [] h = refl
nil_of_length (x ∷ xs) h = absurd (omega arith)

is_fin_bit : (s : ParseStage) → is_stage s fin_bit ≡ true → s ≡ fin_bit
is_fin_bit s e = ground arith

length-settle : (r : Reading) → length (settle r).pending ≡ length r.pending
length-settle r = ground arith

-- The outcome of an `update`: a valid parser in the reading `r`, and the frame that is complete.
pub record Outcome (r : Reading) (q : FrameParser) (out : Option Frame) : Type 0 where
  pub valid : IsValid q
  pub reads : reading q ≡ r
  pub returns : out ≡ frame_of r

module _ ⦃m : Machine⦄ where
  frame_of-run : (p : FrameParser) → IsValid p → result (parse p) ≡ frame_of (run (reading p))
  frame_of-run p v = ap frame_of (parse-run p v)

  pub parsed-Outcome :
      (p : FrameParser) → IsValid p → Outcome (run (reading p)) (parse p) (result (parse p))
  parsed-Outcome p v = record {
    valid = parse-IsValid v;
    reads = parse-run p v;
    returns = frame_of-run p v;
  }

  fin_bit-nil : (r : Reading) → r.stage ≡ fin_bit → r.pending ≡ [] → run r ≡ r
  unfolding run_from
  fin_bit-nil r at_start nothing = rw (at_start, nothing)

  -- The guard `remaining() == 0` of `update` returns what `parse` would.
  parse_remaining-Outcome :
      (p : FrameParser)
      → IsValid p
      → (p.stage ≡ fin_bit) ⊎ (0 < remaining p)
      → Outcome (run (reading p)) (parse_remaining p).0 (parse_remaining p).1
  unfolding parse_remaining
  parse_remaining-Outcome p v busy = elim (Bool-cases (remaining p == 0)) [
    | inl nothing ↦
        let at_start : p.stage ≡ fin_bit = ground arith in
        let none_left : pending_of p ≡ [] =
          nil_of_length (pending_of p)
            (omega (arith, length-pending_of p v, (==_iff _ _).0 nothing)) in
        rw (nothing, fin_bit-nil (reading p) at_start none_left)
          (record { valid = v; reads = refl; returns = rw at_start })
    | inr more ↦ rw more (parsed-Outcome p v)
  ]

  -- `update` on a view that is not empty: the pass goes on over the bytes that were left and the
  -- new ones.
  pub update_view-Outcome :
      (p : FrameParser) (bytes : List ℕ)
      → IsValid p
      → 0 < length bytes
      → (q : FrameParser) × (out : Option Frame) × (update_view p bytes ≡ some (q, out))
        × Outcome (run (feed (settle (reading p)) bytes)) q out
  unfolding update_view
  update_view-Outcome p bytes v pos =
      let q = reset_if_done p in
      let vq : IsValid q = reset_if_done-IsValid p v in
      let (b, written, shows, moved, within) =
        push_back_view_lem q.frame_buffer bytes vq.write_within pos in
      let q' = record q { frame_buffer = b } in
      let v' : IsValid q' = record { read_within = omega arith; write_within = within } in
      let some_bytes : (length bytes == 0) ≡ false = ground arith in
      let reads : reading q' ≡ feed (settle (reading p)) bytes =
        ap (λ xs. record (reading q) { pending = xs }) (pending_of-append q b bytes vq shows)
        ∙ ap (λ r. feed r bytes) (reset_if_done-reading p v) in
      (
        (parse_remaining q').0,
        (parse_remaining q').1,
        rw (some_bytes, written),
        subst (λ r. Outcome (run r) (parse_remaining q').0 (parse_remaining q').1) reads
            (parse_remaining-Outcome q' v' (inr (omega arith))),
      )

  settled-Outcome :
      (p : FrameParser)
      → IsValid p
      → ((reset_if_done p).stage ≡ fin_bit) ⊎ (0 < remaining (reset_if_done p))
      → Outcome
          (run (settle (reading p)))
          (parse_remaining (reset_if_done p)).0
          (parse_remaining (reset_if_done p)).1
  settled-Outcome p v busy =
      subst
        (λ r.
          Outcome (run r) (parse_remaining (reset_if_done p)).0
            (parse_remaining (reset_if_done p)).1)
        (reset_if_done-reading p v)
        (parse_remaining-Outcome (reset_if_done p) (reset_if_done-IsValid p v) busy)

  -- `update(true)`, with the new bytes in the buffer.
  pub update-true-Outcome :
      (p : FrameParser)
      → IsValid p
      → 0 < length (pending_of p)
      → Outcome (run (settle (reading p))) (update p true).0 (update p true).1
  unfolding update
  update-true-Outcome p v pos = settled-Outcome p v (
      inr (
        omega (
          arith,
          length-pending_of (reset_if_done p) (reset_if_done-IsValid p v),
          ap (λ r. length r.pending) (reset_if_done-reading p v),
          length-settle (reading p),
        )))

  -- An update with an empty view does not fault, and does and returns what `update(false)` does
  -- and returns, on every parser.
  pub update-false-eq-update_nil : (p : FrameParser) → update_view p [] ≡ some (update p false)
  unfolding update update_view
  update-false-eq-update_nil p = ground arith

  pub update-false-waits :
      (p : FrameParser)
      → is_stage (reset_if_done p).stage fin_bit ≡ false
      → update p false ≡ (reset_if_done p, none)
  unfolding update
  update-false-waits p e = rw e

  pub update-false-Outcome :
      (p : FrameParser)
      → IsValid p
      → is_stage (settle (reading p)).stage fin_bit ≡ true
      → Outcome (run (settle (reading p))) (update p false).0 (update p false).1
  unfolding update
  update-false-Outcome p v e =
      let at_start : is_stage (reset_if_done p).stage fin_bit ≡ true =
        ap (λ r. is_stage r.stage fin_bit) (reset_if_done-reading p v) ∙ e in
      rw at_start (settled-Outcome p v (inl (is_fin_bit _ at_start)))
