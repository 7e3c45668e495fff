-- ===== src/Client/Lifetime.antt =====
-- The life of a client: the constructor, and then calls of public methods.
use fast_websocket_client.Base.{ℕ, List, [], ◌∷◌}
use fast_websocket_client.Exec.{Error, Result, ok, throw}
use fast_websocket_client.Exec.Keeps.{Allowed}
use fast_websocket_client.FrameParser.{Machine}
use fast_websocket_client.Socket.{Platform}
use fast_websocket_client.Client.{Client, Handler, System, Call}
use fast_websocket_client.Client.Session.{construct}
use fast_websocket_client.Client.Callbacks.{call, callback_at}
use fast_websocket_client.Client.Invariant.{Holds, Invariant}
use fast_websocket_client.Client.Invariant.Session.{callback_at-Keeps, any_call-Keeps}
use fast_websocket_client.Client.Invariant.Opening.{Opening, construct-Keeps}

module _ ⦃platform : Platform⦄ ⦃handler : Handler⦄ ⦃machine : Machine⦄ where
  abbrev pub State : Type 0
  State = System platform.World handler.H

  -- The calls that a program makes of a client, one after the other, whatever they return or throw.
  unfoldable pub run_calls : ℕ → List Call → State → State
  run_calls depth [] s = s
  run_calls depth (c ∷ cs) s = run_calls depth cs (call (callback_at depth) c s).1

  -- The calls after the constructor, unless it threw.
  unfoldable pub after : Result (Unit {0}) → ℕ → List Call → State → State
  unfolding run_calls
  after (ok _) depth calls s = run_calls depth calls s
  after (throw e) depth calls s = s

  unfoldable pub lifetime : ℕ → ℕ → List Call → State → State
  unfolding after
  lifetime depth timeout calls s =
      let (r, s') = construct (callback_at depth) timeout s in after r depth calls s'

module _ ⦃platform : Platform⦄ ⦃handler : Handler⦄ ⦃machine : Machine⦄
    {P : Client → platform.World → Type 0} {E : Error → Type 0} (inv : Invariant P E) where
  pub run_calls-kept :
      (depth : ℕ) (calls : List Call) (s : State) → Holds P s → Holds P (run_calls depth calls s)
  unfolding run_calls
  run_calls-kept depth [] s h = h
  run_calls-kept depth (c ∷ cs) s h =
      run_calls-kept depth cs _ ((any_call-Keeps inv depth c).apply s h).0

  after-kept :
      (r : Result (Unit {0})) (depth : ℕ) (calls : List Call) (s : State)
      → Holds P s
      → Holds P (after r depth calls s)
  unfolding after
  after-kept (ok a) depth calls s h = run_calls-kept depth calls s h
  after-kept (throw e) depth calls s h = h

  module _ (opening : Opening P E) where
    -- What the constructor may throw.
    pub construct-Allowed :
        (depth timeout : ℕ) (s : State)
        → Holds P s
        → Allowed E (construct (callback_at depth) timeout s).0
    construct-Allowed depth timeout s h =
        ((construct-Keeps inv opening _ (callback_at-Keeps inv depth) timeout).apply s h).1

    pub lifetime-kept :
        (depth timeout : ℕ) (calls : List Call) (s : State)
        → Holds P s
        → Holds P (lifetime depth timeout calls s)
    unfolding lifetime
    lifetime-kept depth timeout calls s h =
        after-kept _ depth calls _
          ((construct-Keeps inv opening _ (callback_at-Keeps inv depth) timeout).apply s h).0

    -- What a call may throw at any point of a client's life.
    pub call-Allowed :
        (depth timeout : ℕ) (calls : List Call) (c : Call) (s : State)
        → Holds P s
        → Allowed E (call (callback_at depth) c (lifetime depth timeout calls s)).0
    call-Allowed depth timeout calls c s h =
        ((any_call-Keeps inv depth c).apply _ (lifetime-kept depth timeout calls s h)).1
