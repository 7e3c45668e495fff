-- ===== src/Client/Delivery/Work.antt =====
-- How much of what is on its way a step of the client hands to its handler.
use mathlib.Core.List.{map}
use fast_websocket_client.Base.{
  ℕ, ◌+◌, ◌-◌, ◌≤◌, ◌≡◌, refl, sym, ap, ap₂, subst, ◌∙◌, Bool, true, false, if◌then◌else◌, List, [],
  ◌∷◌, ◌++◌, append_assoc, append-nil, Option, none, some, arith, length, length-append, All, drop,
}
use fast_websocket_client.Frame.{Frame, mask_from}
use fast_websocket_client.Frame.Wire.{length-mask_from}
use fast_websocket_client.FrameParser.{Machine}
use fast_websocket_client.FrameParser.LengthField.{ZeroShifts}
use fast_websocket_client.FrameParser.RoundTrip.{received}
use fast_websocket_client.FrameParser.Chunks.{listed}
use fast_websocket_client.Socket.{Platform}
use fast_websocket_client.Client.{Event}
use fast_websocket_client.Client.Delivery.{
  State, Feeds, Due, Read, recorder, IsTaken, IsPolled, heard,
}
use fast_websocket_client.Client.Delivery.Dispatch.{all_heard, Tells}

-- The events of a sequence of frames.
abbrev pub events : List Frame → List Event
events [] = []
events (g ∷ gs) = heard (received g) ++ events gs

events-append : (fs gs : List Frame) → events (fs ++ gs) ≡ events fs ++ events gs
events-append [] gs = refl
events-append (f ∷ fs) gs =
    ap (λ es. heard (received f) ++ es) (events-append fs gs)
    ∙ sym (append_assoc (heard (received f)) (events fs) (events gs))

abbrev pub AllPolled : Option Frame → Type 0
AllPolled none = Unit {0}
AllPolled (some f) = IsPolled f

received-IsPolled : (g : Frame) → IsPolled g → IsPolled (received g)
received-IsPolled g h = subst (IsTaken g.opcode) (sym (length-payload g.mask)) h
  where
    length-payload :
        (b : Bool)
        → length (if b then mask_from g.masking_key 0 g.payload else g.payload) ≡ length g.payload
    length-payload true = length-mask_from g.masking_key 0 g.payload
    length-payload false = refl

-- A frame that was returned is the one that was sent.
told :
    (out : Option Frame) (sent others : List Frame)
    → All IsPolled (sent ++ others)
    → listed out ≡ map received sent
    → AllPolled out × (all_heard out ≡ events sent) × All IsPolled others
told none [] others h e = (tt, refl, h)
told none (g ∷ gs) others h e = absurd cc
told (some f) [] others h e = absurd cc
told (some f) (g ∷ []) others h e =
    let same : f ≡ received g = cc in
    (
      subst IsPolled (sym same) (received-IsPolled g h.0),
      ap heard same ∙ sym (append-nil (heard (received g))),
      h.1,
    )
told (some f) (g ∷ k ∷ gs) others h e = absurd cc

pub shorter :
    (u : List (List ℕ)) (a b : ℕ)
    → a ≤ b
    → (u ≡ [] → a ≤ b - 1)
    → length (drop 1 u) + a ≤ length u + b - 1
shorter [] a b h k = omega (arith, k refl)
shorter (c ∷ cs) a b h k = omega arith

module _ ⦃platform : Platform⦄ ⦃machine : Machine⦄ (feeds : Feeds platform)
    (zeros : ZeroShifts machine) (depth : ℕ) where
  abbrev pub work : State → List Frame → ℕ
  work s gs = length (feeds.upcoming s.world) + length gs

  -- From `s` to `s'`, some of the frames went to the handler, and `n` units of work or more were done.
  pub record Heard (s : State) (gs : List Frame) (n : ℕ) (s' : State) : Type 0 where
    pub frames : List Frame
    pub others : List Frame
    pub split : gs ≡ frames ++ others
    pub handed : s'.handler ≡ s.handler ++ events frames
    pub due : Due feeds zeros s' others
    pub left : work s' others ≤ work s gs - n

  pub nothing-Heard : (s : State) (gs : List Frame) → Due feeds zeros s gs → Heard s gs 0 s
  nothing-Heard s gs due = record {
    frames = [];
    others = gs;
    split = refl;
    handed = sym (append-nil s.handler);
    due = due;
    left = omega arith;
  }

  pub then-Heard :
      {s t u : State} {gs : List Frame} {n m : ℕ} (a : Heard s gs n t)
      → Heard t a.others m u
      → Heard s gs (n + m) u
  then-Heard {s = s} a b = record {
    frames = a.frames ++ b.frames;
    others = b.others;
    split =
        a.split ∙ ap (λ hs. a.frames ++ hs) b.split ∙ sym (append_assoc a.frames b.frames b.others);
    handed =
        b.handed
        ∙ ap (λ es. es ++ events b.frames) a.handed
        ∙ append_assoc s.handler (events a.frames) (events b.frames)
        ∙ ap (λ es. s.handler ++ es) (sym (events-append a.frames b.frames));
    due = b.due;
    left = omega (arith, a.left, b.left);
  }

  pub weaker-Heard :
      {s t : State} {gs : List Frame} {n : ℕ} (m : ℕ) → m ≤ n → Heard s gs n t → Heard s gs m t
  weaker-Heard m h a = record {
    frames = a.frames;
    others = a.others;
    split = a.split;
    handed = a.handed;
    due = a.due;
    left = omega (arith, a.left);
  }

  -- What tells the handler nothing.
  pub same-Heard :
      {s t u : State} {gs : List Frame} {n : ℕ}
      → Heard s gs n t
      → Tells feeds [] t u
      → Heard s gs n u
  same-Heard {s = s} {t = t} a tells = record {
    frames = a.frames;
    others = a.others;
    split = a.split;
    handed = tells.told ∙ append-nil t.handler ∙ a.handed;
    due = record {
      owes = rw (tells.same_parser, tells.same_chunks) a.due.owes;
      sendable = a.due.sendable;
      polled = a.due.polled;
      live = tells.live;
    };
    left = rw tells.same_chunks a.left;
  }

  -- A read and update, and what the body of the loop then does.
  pub Read-Heard :
      (s : State) (gs : List Frame) (due : Due feeds zeros s gs)
      → (rd : Read feeds zeros s gs)
      → AllPolled rd.out
        × ((s' : State) → Tells feeds (all_heard rd.out) rd.next s' → Heard s gs 1 s')
  Read-Heard s gs due rd =
      let t = rd.taken in
      let (polled_out, hands, polled) =
        told rd.out t.sent t.others (subst (All IsPolled) t.split due.polled) t.shown in
      let fewer : length t.others ≤ length gs =
        omega (arith, ap length t.split, length-append t.sent t.others) in
      (
        polled_out,
        λ s' tells. record {
          frames = t.sent;
          others = t.others;
          split = t.split;
          handed = tells.told ∙ ap₂ (λ h es. h ++ es) rd.unheard hands;
          due = record {
            owes = rw (tells.same_parser, tells.same_chunks) t.owes;
            sendable = t.sendable;
            polled = polled;
            live = tells.live;
          };
          left =
              rw (tells.same_chunks, rd.moved)
                (shorter (feeds.upcoming s.world) _ _ fewer rd.drains);
        },
      )
