-- ===== src/FrameParser/Chunks/Owed.antt =====
-- What a parser still owes: the frames whose bytes it has not read yet, and what one update does about it.
use mathlib.Core.List.{map, map-append}
use fast_websocket_client.Base.{
  ℕ, ◌-◌, ◌≤◌, ◌≡◌, refl, sym, ap, subst, ◌∙◌, inl, inr, true, false, Bool-cases, List, [], ◌∷◌,
  ◌++◌, append_assoc, length-append, length-map, Option, none, some, arith, length, All,
}
use fast_websocket_client.Frame.{Frame, empty_frame}
use fast_websocket_client.FrameParser.{Machine, fin_bit, done, is_stage, FrameParser, update_view}
use fast_websocket_client.FrameParser.LengthField.{ZeroShifts}
use fast_websocket_client.FrameParser.Abstract.{Reading, at, reading, IsValid, run_from, run}
use fast_websocket_client.FrameParser.Abstract.Resume.{feed, run-feed}
use fast_websocket_client.FrameParser.Stream.{IsIdle}
use fast_websocket_client.FrameParser.RoundTrip.{received, decode-wire}
use fast_websocket_client.FrameParser.Updates.{settle, frame_of, Outcome}
use fast_websocket_client.FrameParser.Chunks.{
  IsSendable, listed, wires, Rests, chunk-Outcome, run-Rests, settle_other,
}

module _ ⦃m : Machine⦄ where
  -- The parser `p` owes the frames `gs` once the bytes `later` have come.
  pub record Owes (p : FrameParser) (later : List ℕ) (gs : List Frame) : Type 0 where
    pub valid : IsValid p
    pub rests : Rests (reading p)
    pub due : run (feed (settle (reading p)) later) ≡ run (at fin_bit empty_frame 0 (wires gs))

  -- A parser between two frames owes the frames whose bytes are to come.
  pub idle-Owes :
      (p : FrameParser) (later : List ℕ) (gs : List Frame)
      → IsValid p
      → IsIdle p []
      → later ≡ wires gs
      → Owes p later gs
  idle-Owes p later gs v idle e = record {
    valid = v;
    rests = inl (ap (λ r. is_stage r.stage fin_bit) idle);
    due = ap (λ s. run (feed s later)) idle ∙ ap (λ xs. run (at fin_bit empty_frame 0 xs)) e;
  }

  feed-append : (r : Reading) (xs ys : List ℕ) → feed (feed r xs) ys ≡ feed r (xs ++ ys)
  feed-append r xs ys = ap (λ zs. record r { pending = zs }) (append_assoc r.pending xs ys)

  run-feed-append :
      (r : Reading) (c later : List ℕ)
      → run (feed (run (feed r c)) later) ≡ run (feed r (c ++ later))
  run-feed-append r c later = run-feed (feed r c) later ∙ ap run (feed-append r c later)

  pub Outcome-Rests :
      (r : Reading) {q : FrameParser} {out : Option Frame}
      → Outcome (run r) q out
      → Rests (reading q)
  Outcome-Rests r got = subst Rests (sym got.reads) (run-Rests r)

  -- No frame is complete: the same frames are due.
  waits-Owes :
      {p q : FrameParser} {out : Option Frame} (c later : List ℕ) (gs : List Frame)
      → Owes p (c ++ later) gs
      → Outcome (run (feed (settle (reading p)) c)) q out
      → is_stage (run (feed (settle (reading p)) c)).stage done ≡ false
      → Owes q later gs
  waits-Owes {p} c later gs owes got going = record {
    valid = got.valid;
    rests = Outcome-Rests _ got;
    due =
        ap (λ r. run (feed (settle r) later)) got.reads
        ∙ ap (λ r. run (feed r later)) (settle_other _ going)
        ∙ run-feed-append (settle (reading p)) c later
        ∙ owes.due;
  }

  run_done : (r : Reading) → is_stage r.stage done ≡ true → run r ≡ r
  unfolding run_from
  run_done r e =
      let over : r.stage ≡ done = ground arith in
      ap (λ t. run_from t r.frame r.payload_length r.pending) over
      ∙ ap (λ t. at t r.frame r.payload_length r.pending) (sym over)

  -- A frame is complete: it is the first one due.
  record Takes (r : Reading) (later : List ℕ) (gs : List Frame) : Type 0 where
    frame : Frame
    others : List Frame
    split : gs ≡ frame ∷ others
    taken : r.frame ≡ received frame
    left : r.pending ++ later ≡ wires others

  takes :
      (zeros : ZeroShifts m) (r : Reading) (later : List ℕ) (gs : List Frame)
      → All IsSendable gs
      → is_stage r.stage done ≡ true
      → feed r later ≡ run (at fin_bit empty_frame 0 (wires gs))
      → Takes r later gs
  unfolding run_from
  takes zeros r later [] sendable over e =
      let bad : false ≡ true = sym (ap (λ t. is_stage t.stage done) e) ∙ over in absurd cc
  takes zeros r later (g ∷ gs) sendable over e =
      let reads = decode-wire zeros g (wires gs) sendable.0.named sendable.0.small in
      record {
        frame = g;
        others = gs;
        split = refl;
        taken = ap (λ s. s.frame) (e ∙ reads);
        left = ap (λ s. s.pending) (e ∙ reads);
      }

  frame_of_done : (r : Reading) → is_stage r.stage done ≡ true → frame_of r ≡ some r.frame
  frame_of_done r over = rw over

  frame_of_other : (r : Reading) → is_stage r.stage done ≡ false → frame_of r ≡ none
  frame_of_other r going = rw going

  settle-over :
      (r : Reading) → is_stage r.stage done ≡ true → settle r ≡ at fin_bit empty_frame 0 r.pending
  settle-over r over = rw over

  pub takes-Owes :
      (r : Reading) {q : FrameParser} {out : Option Frame} (later : List ℕ) (others : List Frame)
      → Outcome (run r) q out
      → is_stage (run r).stage done ≡ true
      → (run r).pending ++ later ≡ wires others
      → Owes q later others
  takes-Owes r later others got over left = record {
    valid = got.valid;
    rests = Outcome-Rests r got;
    due =
        ap (λ t. run (feed (settle t) later)) got.reads
        ∙ ap (λ t. run (feed t later)) (settle-over (run r) over)
        ∙ ap (λ xs. run (at fin_bit empty_frame 0 xs)) left;
  }

  -- What an update returned of the frames that were due, and those that still are.
  pub record Taken (q : FrameParser) (out : Option Frame) (later : List ℕ) (gs : List Frame)
      : Type 0 where
    pub sent : List Frame
    pub others : List Frame
    pub split : gs ≡ sent ++ others
    pub shown : listed out ≡ map received sent
    pub sendable : All IsSendable others
    pub owes : Owes q later others

  pub update-Taken :
      (zeros : ZeroShifts m) {p q : FrameParser} {out : Option Frame} (c later : List ℕ)
      (gs : List Frame)
      → All IsSendable gs
      → Owes p (c ++ later) gs
      → Outcome (run (feed (settle (reading p)) c)) q out
      → Taken q out later gs
  update-Taken zeros {p} c later gs fine owes got =
      let r = run (feed (settle (reading p)) c) in
      elim (Bool-cases (is_stage r.stage done)) [
        | inl over ↦
            let first = takes zeros r later gs fine over (
              sym (run_done (feed r later) over)
              ∙ run-feed-append (settle (reading p)) c later
              ∙ owes.due) in
            record {
              sent = first.frame ∷ [];
              others = first.others;
              split = first.split;
              shown = ap listed (got.returns ∙ frame_of_done r over ∙ ap some first.taken);
              sendable = (subst (All IsSendable) first.split fine).1;
              owes = takes-Owes _ later first.others got over first.left;
            }
        | inr going ↦ record {
          sent = [];
          others = gs;
          split = refl;
          shown = ap listed (got.returns ∙ frame_of_other r going);
          sendable = fine;
          owes = waits-Owes c later gs owes got going;
        }
      ]

  -- Where no byte came and none will, one of the frames that are due was returned, if there is any.
  pub Taken-moves :
      (zeros : ZeroShifts m) {p q : FrameParser} {out : Option Frame} {later : List ℕ}
      (gs : List Frame)
      → All IsSendable gs
      → Owes p [] gs
      → Outcome (run (feed (settle (reading p)) [])) q out
      → (t : Taken q out later gs) → length t.others ≤ length gs - 1
  unfolding run_from
  Taken-moves zeros [] fine owes got t =
      omega (arith, ap length t.split, length-append t.sent t.others)
  Taken-moves zeros {out = out} (g ∷ gs) fine owes got t =
      let one : out ≡ some (received g) =
        got.returns
        ∙ ap frame_of (owes.due ∙ decode-wire zeros g (wires gs) fine.0.named fine.0.small) in
      omega (
        arith,
        ap length t.split,
        length-append t.sent t.others,
        ap length (ap listed (sym one) ∙ t.shown),
        length-map received t.sent,
      )

  -- What one more chunk does.
  pub record Steps (p : FrameParser) (c later : List ℕ) (gs : List Frame) : Type 0 where
    pub parser : FrameParser
    pub out : Option Frame
    pub others : List Frame
    pub returns : update_view p c ≡ some (parser, out)
    pub split : map received gs ≡ listed out ++ map received others
    pub sendable : All IsSendable others
    pub owes : Owes parser later others
    pub fewer : length others ≤ length gs

  pub steps :
      (zeros : ZeroShifts m) (p : FrameParser) (c later : List ℕ) (gs : List Frame)
      → All IsSendable gs
      → Owes p (c ++ later) gs
      → Steps p c later gs
  steps zeros p c later gs fine owes =
      let (q, out, returned, got) = chunk-Outcome p c owes.valid owes.rests in
      let t = update-Taken zeros c later gs fine owes got in
      record {
        parser = q;
        out = out;
        others = t.others;
        returns = returned;
        split =
            ap (map received) t.split
            ∙ map-append received t.sent t.others
            ∙ ap (λ fs. fs ++ map received t.others) (sym t.shown);
        sendable = t.sendable;
        owes = t.owes;
        fewer = omega (arith, ap length t.split, length-append t.sent t.others);
      }
