-- ===== src/Client/Delivery.antt =====
-- What the polls of a client (include/fastws/fastws.hpp) hand to its handler, where the socket brings the
-- bytes of frames.
pub mod Dispatch
pub mod Work
pub mod Polls
pub mod Tcp
use mathlib.Core.List.{map}
use fast_websocket_client.Base.{
  ℕ, suc, ◌+◌, ◌-◌, ◌≤◌, ◌≡◌, refl, sym, ap, subst, ◌∙◌, Bool, true, false, List, [], ◌∷◌, ◌++◌,
  Option, none, some, arith, length, length-append, All, drop,
}
use fast_websocket_client.Exec.{ok, ◌>>=◌}
use fast_websocket_client.Frame.{Frame, Opcode}
use fast_websocket_client.FrameBuffer.{FrameBuffer, capacity}
use fast_websocket_client.FrameParser.{Machine, FrameParser, update}
use fast_websocket_client.FrameParser.LengthField.{ZeroShifts}
use fast_websocket_client.FrameParser.Abstract.{reading, run}
use fast_websocket_client.FrameParser.Abstract.Resume.{feed}
use fast_websocket_client.FrameParser.Updates.{settle, Outcome}
use fast_websocket_client.FrameParser.Chunks.{IsSendable, joined}
use fast_websocket_client.FrameParser.Chunks.Owed.{Owes, Taken, update-Taken, Taken-moves}
use fast_websocket_client.Socket.{Platform, Received}
use fast_websocket_client.Client.{Client, Event, Program, Handler, System}
use fast_websocket_client.Client.Methods.{next_frame}
use fast_websocket_client.Client.Session.{dispatch, dispatch_as}
use fast_websocket_client.Client.Callbacks.{callback_at, run_program}
use fast_websocket_client.Client.Arrivals.{arrival-Outcome}

abbrev pub first : List (List ℕ) → List ℕ
first [] = []
first (c ∷ cs) = c

pub first-joined : (cs : List (List ℕ)) → joined cs ≡ first cs ++ joined (drop 1 cs)
first-joined [] = refl
first-joined (c ∷ cs) = refl

-- A socket that, as long as it is `Live`, brings one chunk with each read of `poll` while there are some,
-- and takes what is sent.
pub record Feeds (platform : Platform) : Type 1 where
  pub upcoming : platform.World → List (List ℕ)
  pub Live : platform.World → Type 0
  pub at_read_into :
      (b : FrameBuffer) (w : platform.World)
      → Live w
      → b.ptr ≤ capacity b
      → (told : Bool) × (b' : FrameBuffer) × ((platform.read_into b 1024 w).0 ≡ ok (told, b'))
        × ((r : Received b told b') × (r.came ≡ first (upcoming w)))
        × (upcoming (platform.read_into b 1024 w).1 ≡ drop 1 (upcoming w))
        × Live (platform.read_into b 1024 w).1
  pub at_clock :
      (w : platform.World)
      → Live w
      → (upcoming (platform.clock w).1 ≡ upcoming w) × Live (platform.clock w).1
  pub at_send :
      (bytes : List ℕ) (w : platform.World)
      → Live w
      → ((platform.send bytes w).0 ≡ ok tt)
        × (upcoming (platform.send bytes w).1 ≡ upcoming w)
        × Live (platform.send bytes w).1

-- A handler that writes down what it is told.
instance abbrev pub recorder : Handler
recorder = record { H = List Event; react = λ told event. Program.return (told ++ (event ∷ [])) }

-- What the body of the loop takes without an end of the connection or a throw.
abbrev pub IsTaken : Opcode → ℕ → Type 0
IsTaken Opcode.ping n = n ≤ 125
IsTaken Opcode.close n = ⊥
IsTaken other n = Unit

abbrev pub IsPolled : Frame → Type 0
IsPolled f = IsTaken f.opcode (length f.payload)

-- The callbacks for a frame.
abbrev pub heard_as : Opcode → Frame → List Event
heard_as Opcode.text f = Event.on_text f ∷ []
heard_as Opcode.binary f = Event.on_binary f ∷ []
heard_as Opcode.ping f = []
heard_as Opcode.pong f = []
heard_as Opcode.close f = []
heard_as other f = Event.on_continuation f ∷ []

abbrev pub heard : Frame → List Event
heard f = heard_as f.opcode f

module _ ⦃platform : Platform⦄ where
  abbrev pub State : Type 0
  State = System platform.World (List Event)

module _ ⦃platform : Platform⦄ ⦃machine : Machine⦄ where
  module _ (feeds : Feeds platform) (zeros : ZeroShifts machine) where
    -- The frames `gs` are on their way to the client.
    pub record Due (s : State) (gs : List Frame) : Type 0 where
      pub owes : Owes s.client.parser (joined (feeds.upcoming s.world)) gs
      pub sendable : All IsSendable gs
      pub polled : All IsPolled gs
      pub live : feeds.Live s.world

    -- What one read and update does.
    pub record Read (s : State) (gs : List Frame) : Type 0 where
      pub out : Option Frame
      pub next : State
      pub returns : next_frame s ≡ (ok out, next)
      pub taken : Taken next.client.parser out (joined (feeds.upcoming next.world)) gs
      pub moved : feeds.upcoming next.world ≡ drop 1 (feeds.upcoming s.world)
      pub unheard : next.handler ≡ s.handler
      pub live : feeds.Live next.world
      pub drains : feeds.upcoming s.world ≡ [] → length taken.others ≤ length gs - 1

    pub next_frame-Read :
        (s : State) (gs : List Frame)
        → All IsSendable gs
        → Owes s.client.parser (joined (feeds.upcoming s.world)) gs
        → feeds.Live s.world
        → Read s gs
    unfolding next_frame ◌>>=◌
    next_frame-Read s gs fine owes live =
        let p = s.client.parser in
        let (told, b, e, (r, came), moved, still) =
          feeds.at_read_into p.frame_buffer s.world live owes.valid.write_within in
        let w = (platform.read_into p.frame_buffer 1024 s.world).1 in
        let step = update (record p { frame_buffer = b }) told in
        let all : joined (feeds.upcoming s.world) ≡ r.came ++ joined (feeds.upcoming w) =
          first-joined (feeds.upcoming s.world)
          ∙ ap (λ xs. xs ++ joined (drop 1 (feeds.upcoming s.world))) (sym came)
          ∙ ap (λ cs. r.came ++ joined cs) (sym moved) in
        let got = arrival-Outcome p b told owes.valid owes.rests r in
        let taken =
          update-Taken zeros r.came (joined (feeds.upcoming w)) gs fine
            (subst (λ xs. Owes p xs gs) all owes) got in
        record {
          out = step.1;
          next = record s { client = record s.client { parser = step.0 }; world = w };
          returns = rw e;
          taken = taken;
          moved = moved;
          unheard = refl;
          live = still;
          drains = λ none_left.
              Taken-moves zeros gs fine (subst (λ cs. Owes p (joined cs) gs) none_left owes)
                (subst (λ xs. Outcome (run (feed (settle (reading p)) xs)) step.0 step.1)
                  (came ∙ ap first none_left) got)
                taken;
        }
