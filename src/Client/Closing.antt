-- ===== src/Client/Closing.antt =====
-- `close` of an open client (include/fastws/fastws.hpp) when the server answers its CLOSE frame.
pub mod Graceful
use mathlib.Core.List.{map}
use fast_websocket_client.Base.{
  ℕ, zero, suc, ◌+◌, ◌-◌, ◌*◌, ◌≤◌, ◌≡◌, refl, sym, ap, subst, ◌∙◌, Bool, true, false, Bool-cases,
  inl, inr, not, ◌||◌, List, [], ◌∷◌, ◌++◌, Option, none, some, arith, length, length-append, All,
  drop,
}
use fast_websocket_client.Exec.{Result, ok, pure, ◌>>=◌, ◌>>◌}
use fast_websocket_client.Frame.{Frame, Opcode}
use fast_websocket_client.FrameParser.{Machine, FrameParser, update_view}
use fast_websocket_client.FrameParser.LengthField.{ZeroShifts}
use fast_websocket_client.FrameParser.Chunks.{IsSendable, joined, wires, listed, chunk-Outcome}
use fast_websocket_client.FrameParser.Chunks.Owed.{Owes, Taken, update-Taken, Taken-moves}
use fast_websocket_client.FrameParser.Abstract.{reading, run}
use fast_websocket_client.FrameParser.Abstract.Resume.{feed}
use fast_websocket_client.FrameParser.Updates.{settle, Outcome}
use fast_websocket_client.FrameParser.RoundTrip.{received}
use fast_websocket_client.Socket.{Platform}
use fast_websocket_client.Client.Methods.{Method, parse_view, parsed, sleep}
use fast_websocket_client.Client.Session.{await_close}
use fast_websocket_client.Client.Delivery.{State, Feeds, recorder, first, first-joined}
use fast_websocket_client.Client.Delivery.Work.{shorter}

-- The chunks come with the reads of `connect` and `close`, too, which take 4096 and 1024 bytes.
pub record Answers {platform : Platform} (feeds : Feeds platform) : Type 0 where
  pub at_read :
      (n : ℕ) (w : platform.World)
      → 1024 ≤ n
      → feeds.Live w
      → ((platform.read n w).0 ≡ ok (first (feeds.upcoming w)))
        × (feeds.upcoming (platform.read n w).1 ≡ drop 1 (feeds.upcoming w))
        × feeds.Live (platform.read n w).1
  pub at_sleep :
      (w : platform.World)
      → feeds.Live w
      → (feeds.upcoming (platform.sleep w) ≡ feeds.upcoming w) × feeds.Live (platform.sleep w)

abbrev is_close : Opcode → Bool
is_close Opcode.close = true
is_close other = false

abbrev pub any_close : List Frame → Bool
any_close [] = false
any_close (g ∷ gs) = is_close g.opcode || any_close gs

abbrev ends : Option Frame → Bool
ends none = false
ends (some f) = is_close f.opcode

-- A CLOSE frame that was not returned is still due.
still_due :
    (out : Option Frame) (sent others : List Frame)
    → listed out ≡ map received sent
    → ends out ≡ false
    → any_close (sent ++ others) ≡ true
    → any_close others ≡ true
still_due none [] others e going h = h
still_due none (g ∷ gs) others e going h = absurd cc
still_due (some f) [] others e going h = absurd cc
still_due (some f) (g ∷ []) others e going h =
    let same : f ≡ received g = cc in
    let no : is_close g.opcode ≡ false = sym (ap (λ t. is_close t.opcode) same) ∙ going in
    rw no at h
still_due (some f) (g ∷ k ∷ gs) others e going h = absurd cc

module _ ⦃platform : Platform⦄ ⦃machine : Machine⦄ (feeds : Feeds platform)
    (answers : Answers feeds) (zeros : ZeroShifts machine) where
  -- What the loop of `close` comes to: nothing else of the client changes.
  pub record Answered (s : State) (r : Result Bool × State) : Type 0 where
    pub returns : r.0 ≡ ok true
    pub unheard : r.1.handler ≡ s.handler
    pub same_status : r.1.client.status ≡ s.client.status
    pub same_open : r.1.client.connection_open ≡ s.client.connection_open

  -- One read and update of the loop.
  record Round (s : State) (gs : List Frame) : Type 0 where
    parser : FrameParser
    out : Option Frame
    returns : update_view s.client.parser (first (feeds.upcoming s.world)) ≡ some (parser, out)
    taken : Taken parser out (joined (drop 1 (feeds.upcoming s.world))) gs
    fewer :
        length (drop 1 (feeds.upcoming s.world)) + length taken.others
        ≤ length (feeds.upcoming s.world) + length gs - 1

  await-Round :
      (s : State) (gs : List Frame)
      → All IsSendable gs
      → Owes s.client.parser (joined (feeds.upcoming s.world)) gs
      → Round s gs
  await-Round s gs fine owes =
      let u = feeds.upcoming s.world in
      let (q, out, returned, got) = chunk-Outcome s.client.parser (first u) owes.valid owes.rests in
      let t =
        update-Taken zeros (first u) (joined (drop 1 u)) gs fine
          (subst (λ xs. Owes s.client.parser xs gs) (first-joined u) owes) got in
      record {
        parser = q;
        out = out;
        returns = returned;
        taken = t;
        fewer =
            shorter u _ _ (omega (arith, ap length t.split, length-append t.sent t.others))
              (λ none_left.
                Taken-moves zeros gs fine
                  (subst (λ cs. Owes s.client.parser (joined cs) gs) none_left owes)
                  (subst
                    (λ cs. Outcome (run (feed (settle (reading s.client.parser)) (first cs))) q out)
                    none_left got)
                  t);
      }

  -- A part of the loop's body.
  abbrev decide_as : ℕ → Opcode → Method ⦃handler = recorder⦄ Bool
  decide_as left o = elim o [ Opcode.close ↦ pure true | _ ↦ sleep >> await_close left ]

  abbrev decide : ℕ → Option Frame → Method ⦃handler = recorder⦄ Bool
  decide left parsed = elim parsed [
    | none ↦ sleep >> await_close left
    | some frame ↦ decide_as left frame.opcode
  ]

  decide-ends :
      (left : ℕ) (out : Option Frame) (s : State)
      → ends out ≡ true
      → decide left out s ≡ (ok true, s)
  decide-ends left none s h = absurd cc
  decide-ends left (some f) s h = at_opcode f.opcode h
    where
      at_opcode : (o : Opcode) → is_close o ≡ true → decide_as left o s ≡ (ok true, s)
      at_opcode Opcode.close h = refl
      at_opcode _ h = absurd cc

  decide-goes :
      (left : ℕ) (out : Option Frame) (s : State)
      → ends out ≡ false
      → decide left out s ≡ await_close left (record s { world = platform.sleep s.world })
  unfolding ◌>>=◌
  decide-goes left none s h = refl
  decide-goes left (some f) s h = at_opcode f.opcode h
    where
      at_opcode :
          (o : Opcode)
          → is_close o ≡ false
          → decide_as left o s ≡ await_close left (record s { world = platform.sleep s.world })
      at_opcode Opcode.close h = absurd cc
      at_opcode _ h = refl

  await_close-suc :
      (left : ℕ) (s : State) (q : FrameParser) (out : Option Frame)
      → feeds.Live s.world
      → update_view s.client.parser (first (feeds.upcoming s.world)) ≡ some (q, out)
      → await_close (suc left) s
        ≡ decide left out (record s {
          client = record s.client { parser = q };
          world = (platform.read 1024 s.world).1;
        })
  unfolding await_close parse_view parsed ◌>>=◌
  await_close-suc left s q out live e = rw ((answers.at_read 1024 s.world (omega arith) live).0, e)

  pub await_close-Answered :
      (left : ℕ) (s : State) (gs : List Frame)
      → All IsSendable gs
      → any_close gs ≡ true
      → Owes s.client.parser (joined (feeds.upcoming s.world)) gs
      → feeds.Live s.world
      → length (feeds.upcoming s.world) + length gs ≤ left
      → Answered s (await_close left s)
  await_close-Answered zero s [] fine some_close owes live enough = absurd cc
  await_close-Answered zero s (g ∷ gs) fine some_close owes live enough = absurd (omega arith)
  await_close-Answered (suc left) s gs fine some_close owes live enough =
      let (_, moved, still) = answers.at_read 1024 s.world (omega arith) live in
      let r = await-Round s gs fine owes in
      let mid = record s {
        client = record s.client { parser = r.parser };
        world = (platform.read 1024 s.world).1;
      } in
      subst (Answered s) (sym (await_close-suc left s r.parser r.out live r.returns))
        (elim (Bool-cases (ends r.out)) [
          | inl over ↦
              subst (Answered s) (sym (decide-ends left r.out mid over))
                (record { returns = refl; unheard = refl; same_status = refl; same_open = refl })
          | inr going ↦
              let same : feeds.upcoming (platform.sleep mid.world)
                  ≡ drop 1 (feeds.upcoming s.world) =
                (answers.at_sleep mid.world still).0 ∙ moved in
              let rest =
                await_close-Answered left (record mid { world = platform.sleep mid.world })
                  r.taken.others r.taken.sendable
                  (still_due r.out r.taken.sent r.taken.others r.taken.shown going
                    (ap any_close (sym r.taken.split) ∙ some_close))
                  (subst (λ cs. Owes r.parser (joined cs) r.taken.others) (sym same) r.taken.owes)
                  (answers.at_sleep mid.world still).1
                  (omega (arith, ap length same, r.fewer, enough)) in
              subst (Answered s) (sym (decide-goes left r.out mid going)) (record {
                returns = rest.returns;
                unheard = rest.unheard;
                same_status = rest.same_status;
                same_open = rest.same_open;
              })
        ])
