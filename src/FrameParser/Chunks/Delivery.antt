-- ===== src/FrameParser/Chunks/Delivery.antt =====
-- Updates (single_header/fastws.hpp) with the chunks of several frames.
use mathlib.Core.List.{map}
use fast_websocket_client.Base.{
  ℕ, zero, suc, ◌≤◌, ◌≡◌, refl, sym, ap, ◌∙◌, List, [], ◌∷◌, ◌++◌, append_assoc, append-nil, Option,
  none, some, arith, length, replicate, All,
}
use fast_websocket_client.Frame.{Frame, empty_frame}
use fast_websocket_client.FrameParser.{Machine, fin_bit, done, is_stage, FrameParser, update_view}
use fast_websocket_client.FrameParser.LengthField.{ZeroShifts}
use fast_websocket_client.FrameParser.Abstract.{at, reading, IsValid, run_from, run}
use fast_websocket_client.FrameParser.Abstract.Resume.{feed}
use fast_websocket_client.FrameParser.RoundTrip.{received, decode-wire}
use fast_websocket_client.FrameParser.Updates.{settle, frame_of, Outcome}
use fast_websocket_client.FrameParser.Stream.{IsIdle}
use fast_websocket_client.FrameParser.Chunks.{
  IsSendable, listed, joined, wires, updates, chunk-Outcome,
}
use fast_websocket_client.FrameParser.Chunks.Owed.{
  idle-Owes, Owes, steps, takes-Owes, Outcome-Rests,
}

module _ ⦃m : Machine⦄ where
  updates-step :
      (p : FrameParser) {q : FrameParser} {out : Option Frame} (c : List ℕ) (cs : List (List ℕ))
      (fs : List Frame) {q' : FrameParser}
      → update_view p c ≡ some (q, out)
      → updates q cs ≡ some (fs, q')
      → updates p (c ∷ cs) ≡ some (listed out ++ fs, q')
  unfolding updates
  updates-step p c cs fs e rest = rw (e, rest)

  -- The chunks that bring all the bytes, and then the frames that are still due.
  record Delivered (p : FrameParser) (cs : List (List ℕ)) (gs : List Frame) : Type 0 where
    frames : List Frame
    parser : FrameParser
    others : List Frame
    returns :
        (ds : List (List ℕ)) (fs : List Frame) (q : FrameParser)
        → updates parser ds ≡ some (fs, q)
        → updates p (cs ++ ds) ≡ some (frames ++ fs, q)
    split : map received gs ≡ frames ++ map received others
    sendable : All IsSendable others
    owes : Owes parser [] others
    fewer : length others ≤ length gs

  delivers :
      (zeros : ZeroShifts m) (p : FrameParser) (cs : List (List ℕ)) (gs : List Frame)
      → All IsSendable gs
      → Owes p (joined cs) gs
      → Delivered p cs gs
  unfolding updates
  delivers zeros p [] gs fine owes = record {
    frames = [];
    parser = p;
    others = gs;
    returns = λ ds fs q e. e;
    split = refl;
    sendable = fine;
    owes = owes;
    fewer = omega arith;
  }
  delivers zeros p (c ∷ cs) gs fine owes =
      let one = steps zeros p c (joined cs) gs fine owes in
      let rest = delivers zeros one.parser cs one.others one.sendable one.owes in
      record {
        frames = listed one.out ++ rest.frames;
        parser = rest.parser;
        others = rest.others;
        returns = λ ds fs q e.
            updates-step p c (cs ++ ds) (rest.frames ++ fs) one.returns (rest.returns ds fs q e)
            ∙ ap (λ gs. some (gs, q)) (sym (append_assoc (listed one.out) rest.frames fs));
        split =
            one.split
            ∙ ap (λ fs. listed one.out ++ fs) rest.split
            ∙ sym (append_assoc (listed one.out) rest.frames (map received rest.others));
        sendable = rest.sendable;
        owes = rest.owes;
        fewer = omega (arith, one.fewer, rest.fewer);
      }

  -- Empty updates return the frames that are due, one each.
  record Drained (p : FrameParser) (k : ℕ) (gs : List Frame) : Type 0 where
    parser : FrameParser
    returns : updates p (replicate (suc k) []) ≡ some (map received gs, parser)
    idle : reading parser ≡ at fin_bit empty_frame 0 []
    valid : IsValid parser

  nothing-Owes :
      {p q : FrameParser} {out : Option Frame}
      → Owes p [] []
      → Outcome (run (feed (settle (reading p)) [])) q out
      → (reading q ≡ at fin_bit empty_frame 0 []) × (out ≡ none) × Owes q [] []
  unfolding run_from
  nothing-Owes {p} owes got =
      let reads = got.reads ∙ owes.due in
      (
        reads,
        got.returns ∙ ap frame_of owes.due,
        record {
          valid = got.valid;
          rests = Outcome-Rests (feed (settle (reading p)) []) got;
          due = ap (λ t. run (feed (settle t) [])) reads;
        },
      )

  some-Owes :
      (zeros : ZeroShifts m) {p q : FrameParser} {out : Option Frame} (g : Frame) (gs : List Frame)
      → All IsSendable (g ∷ gs)
      → Owes p [] (g ∷ gs)
      → Outcome (run (feed (settle (reading p)) [])) q out
      → (out ≡ some (received g)) × Owes q [] gs
  unfolding run_from
  some-Owes zeros {p} g gs fine owes got =
      let reads : run (feed (settle (reading p)) [])
          ≡ at done (received g) (length g.payload) (wires gs) =
        owes.due ∙ decode-wire zeros g (wires gs) fine.0.named fine.0.small in
      (
        got.returns ∙ ap frame_of reads,
        takes-Owes (feed (settle (reading p)) []) [] gs got (ap (λ t. is_stage t.stage done) reads)
            (append-nil _ ∙ ap (λ t. t.pending) reads),
      )

  drains :
      (zeros : ZeroShifts m) (k : ℕ) (p : FrameParser) (gs : List Frame)
      → All IsSendable gs
      → Owes p [] gs
      → length gs ≤ k
      → Drained p k gs
  unfolding updates
  drains zeros zero p [] fine owes h =
      let (q, out, returned, got) = chunk-Outcome p [] owes.valid owes.rests in
      let (idle, nothing, later) = nothing-Owes owes got in
      record {
        parser = q;
        returns =
            updates-step p [] [] [] returned refl ∙ ap (λ o. some (listed o ++ [], q)) nothing;
        idle = idle;
        valid = later.valid;
      }
  drains zeros zero p (g ∷ gs) fine owes h = absurd (omega arith)
  drains zeros (suc k) p [] fine owes h =
      let (q, out, returned, got) = chunk-Outcome p [] owes.valid owes.rests in
      let (idle, nothing, later) = nothing-Owes owes got in
      let rest = drains zeros k q [] fine later (omega arith) in
      record {
        parser = rest.parser;
        returns =
            updates-step p [] (replicate (suc k) []) [] returned rest.returns
            ∙ ap (λ o. some (listed o ++ [], rest.parser)) nothing;
        idle = rest.idle;
        valid = rest.valid;
      }
  drains zeros (suc k) p (g ∷ gs) fine owes h =
      let (q, out, returned, got) = chunk-Outcome p [] owes.valid owes.rests in
      let (first, later) = some-Owes zeros g gs fine owes got in
      let rest = drains zeros k q gs fine.1 later (omega arith) in
      record {
        parser = rest.parser;
        returns =
            updates-step p [] (replicate (suc k) []) (map received gs) returned rest.returns
            ∙ ap (λ o. some (listed o ++ map received gs, rest.parser)) first;
        idle = rest.idle;
        valid = rest.valid;
      }

  -- A valid parser that is between two frames and holds no unread byte, given the bytes of any
  -- sequence of frames in the RFC's layout, with opcodes of four bits and payloads below 2 ^ 31
  -- bytes, in chunks that are cut anywhere, some of them empty, and then one more empty chunk than
  -- there are frames, never faults: the frames that its updates return are those frames (masked
  -- payloads still masked), each once and in order, and it ends valid, between two frames and with
  -- no byte unread, on a machine that shifts 0 to 0.
  pub updates-wires :
      (zeros : ZeroShifts m) (p : FrameParser) (cs : List (List ℕ)) (gs : List Frame)
      → IsValid p
      → IsIdle p []
      → All IsSendable gs
      → joined cs ≡ wires gs
      → (q : FrameParser) × (updates p (cs ++ replicate (suc (length gs)) [])
          ≡ some (map received gs, q))
        × IsValid q
        × IsIdle q []
  updates-wires zeros p cs gs v idle fine e =
      let owes = idle-Owes p (joined cs) gs v idle e in
      let first = delivers zeros p cs gs fine owes in
      let rest =
        drains zeros (length gs) first.parser first.others first.sendable first.owes first.fewer in
      (
        rest.parser,
        first.returns (replicate (suc (length gs)) []) (map received first.others) rest.parser
              rest.returns
            ∙ ap (λ fs. some (fs, rest.parser)) (sym first.split),
        rest.valid,
        ap settle rest.idle,
      )
