-- ===== src/Client/Sent/Life.antt =====
-- What a client (include/fastws/fastws.hpp) hands to its socket over its life: the request of the
-- handshake, and then frames.
use fast_websocket_client.Base.{
  ℕ, zero, suc, ◌*◌, ◌≡◌, refl, sym, ap, subst, ◌∙◌, ◌⊎◌, inl, inr, Bool, List, [], ◌∷◌, ◌++◌,
  append_assoc, length,
}
use fast_websocket_client.Exec.{Error, Result, ok, throw, follow, ◌>>=◌}
use fast_websocket_client.Exec.Keeps.{AnyError, bind-Keeps}
use fast_websocket_client.FrameParser.{Machine}
use fast_websocket_client.Handshake.{random_bytes, generate_sec_websocket_key}
use fast_websocket_client.Socket.{Platform}
use fast_websocket_client.Client.{Client, Handler, System, Call}
use fast_websocket_client.Client.Methods.{Method, send}
use fast_websocket_client.Client.Session.{
  request_of, new_key, await_response, conclude, connect, greet, construct,
}
use fast_websocket_client.Client.Callbacks.{callback_at}
use fast_websocket_client.Client.Invariant.{Invariant}
use fast_websocket_client.Client.Invariant.Frames.{IsClientFrame}
use fast_websocket_client.Client.Invariant.Methods.{Kept}
use fast_websocket_client.Client.Invariant.Opening.{
  await_response-Keeps, conclude-Keeps, greet-Keeps,
}
use fast_websocket_client.Client.Invariant.Session.{callback_at-Keeps}
use fast_websocket_client.Client.Invariant.Worldly.{Worldly, worldly-Invariant}
use fast_websocket_client.Client.Lifetime.{after, lifetime, run_calls-kept}
use fast_websocket_client.Client.Sent.{
  Log, logging, Framed, nothing-Framed, All-append, one_more-Framed, Requested, Drawn, none_drawn,
  one_drawn,
}

module _ (p : Platform) ⦃handler : Handler⦄ ⦃machine : Machine⦄ where
  abbrev Logging : Platform
  Logging = logging p

  abbrev State : Type 0
  State = System (Log p.World) handler.H

  abbrev FramedFrom : List (List ℕ) → Log p.World → Type 0
  FramedFrom base l = Framed base l.sent

  framed_Worldly : (base : List (List ℕ)) → Worldly Logging (FramedFrom base)
  framed_Worldly base = record {
    goes = IsClientFrame;
    at_frame = λ bytes h. h;
    at_open = λ host port w h. h;
    at_send = λ bytes good w h. one_more-Framed bytes good h;
    at_read = λ n w h. h;
    at_read_into = λ b hint w h. h;
    at_clock = λ w h. h;
    at_sleep = λ w h. h;
    at_random = λ w h. h;
  }

  abbrev kept :
      (base : List (List ℕ)) → Invariant ⦃platform = Logging⦄ (λ c w. FramedFrom base w) AnyError
  kept base = worldly-Invariant ⦃platform = Logging⦄ (framed_Worldly base)

  random_bytes-sent :
      (n : ℕ) (w : Log p.World)
      → ((random_bytes Logging.random_byte n w).1.sent ≡ w.sent)
        × (length (random_bytes Logging.random_byte n w).0 ≡ n)
        × Drawn p w.world
            (random_bytes Logging.random_byte n w).0
            (random_bytes Logging.random_byte n w).1.world
  unfolding random_bytes
  random_bytes-sent zero w = (refl, refl, none_drawn w.world)
  random_bytes-sent (suc n) w =
      let (same, many, drawn) = random_bytes-sent n (Logging.random_byte w).1 in
      (same, ap suc many, one_drawn w.world drawn)

  -- The socket cannot be opened.
  abbrev pub Refused : System (Log p.World) handler.H → Type 0
  Refused s = (e : Error) × ((p.open_socket s.client.host s.client.port s.world.world).0 ≡ throw e)

  -- Where the key is drawn: the world that the opening of the socket leaves.
  abbrev pub drawing : System (Log p.World) handler.H → p.World
  drawing s = (p.open_socket s.client.host s.client.port s.world.world).1

  -- What a part of the life comes to that starts before the request: a throw may come before it.
  abbrev Sends :
      {A : Type 0} → Type 0 → p.World → Client → List (List ℕ) → Result A × State → Type 0
  Sends U w c base (ok a, s) = Requested p w c base s.world.sent
  Sends U w c base (throw e, s) = (U × (s.world.sent ≡ base)) ⊎ Requested p w c base s.world.sent

  either-Sends :
      {A : Type 0} (U : Type 0) (w : p.World) (c : Client) (base : List (List ℕ))
      (r : Result A × State)
      → Requested p w c base r.1.world.sent
      → Sends U w c base r
  either-Sends U w c base (ok a, s) h = h
  either-Sends U w c base (throw e, s) h = inr h

  Framed-Requested :
      (w later : p.World) (c : Client) (base log : List (List ℕ)) (bytes : List ℕ)
      → length bytes ≡ 16
      → Drawn p w bytes later
      → Framed (base ++ (request_of c (p.base64 bytes) ∷ [])) log
      → Requested p w c base log
  Framed-Requested w later c base log bytes sixteen drawn f = record {
    later = later;
    drawn = drawn;
    bytes = bytes;
    sixteen = sixteen;
    frames = f.frames;
    behind = f.behind ∙ append_assoc base (request_of c (p.base64 bytes) ∷ []) f.frames;
    framed = f.framed;
  }

  -- Whatever follows the request and only sends frames.
  requested-Sends :
      {A : Type 0} (U : Type 0) (c : Client) (rest : Method ⦃platform = Logging⦄ A) (s : State)
      → ((base : List (List ℕ)) → Kept ⦃platform = Logging⦄ (kept base) rest)
      → Sends U s.world.world c s.world.sent (
          (new_key ⦃platform = Logging⦄ >>= λ key.
          send ⦃platform = Logging⦄ (request_of c key) >>= λ _. rest)
            s)
  unfolding ◌>>=◌ send generate_sec_websocket_key
  requested-Sends U c rest s keeps =
      let (bytes, w) = random_bytes Logging.random_byte 16 s.world in
      let (same, sixteen, drawn) = random_bytes-sent 16 s.world in
      let request = request_of c (p.base64 bytes) in
      let (r, l) = Logging.send request w in
      let t = record s { world = l } in
      let start : Framed (s.world.sent ++ (request ∷ [])) l.sent =
        subst (λ log. Framed (s.world.sent ++ (request ∷ [])) (log ++ (request ∷ []))) (sym same)
          (nothing-Framed _) in
      either-Sends U s.world.world c s.world.sent _ (
        Framed-Requested s.world.world w.world c s.world.sent _ bytes sixteen drawn
          (followed _ r t start))
    where
      followed :
          (base : List (List ℕ)) (r : Result (Unit {0})) (t : State)
          → Framed base t.world.sent
          → Framed base (follow r (λ _. rest) t).1.world.sent
      followed base (ok a) t h = ((keeps base).apply t h).0
      followed base (throw e) t h = h

  connect-Sends :
      (depth timeout : ℕ) (s : State)
      → Sends
          (Refused s)
          (drawing s)
          s.client
          s.world.sent
          (connect ⦃platform = Logging⦄ (callback_at ⦃platform = Logging⦄ depth) timeout s)
  unfolding connect ◌>>=◌
  connect-Sends depth timeout s =
      let (r, w) = Logging.open_socket s.client.host s.client.port s.world in
      opened r (record s { world = w }) (λ e h. (e, h))
    where
      rest : Method ⦃platform = Logging⦄ Bool
      rest =
          await_response ⦃platform = Logging⦄ (timeout * 10) []
          >>= conclude ⦃platform = Logging⦄ (callback_at ⦃platform = Logging⦄ depth)

      keeps : (base : List (List ℕ)) → Kept ⦃platform = Logging⦄ (kept base) rest
      keeps base = bind-Keeps _ _ (await_response-Keeps ⦃platform = Logging⦄ (kept base) _ _) (
          conclude-Keeps ⦃platform = Logging⦄ (kept base) (λ c w b h. h) _
            (callback_at-Keeps ⦃platform = Logging⦄ (kept base) depth))

      opened :
          (r : Result (Unit {0})) (t : State)
          → ((e : Error) → r ≡ throw e → Refused s)
          → Sends (Refused s) t.world.world s.client t.world.sent (
              follow r
                (λ _. new_key ⦃platform = Logging⦄ >>= λ key.
                  send ⦃platform = Logging⦄ (request_of s.client key) >>= λ _. rest)
                t)
      opened (ok a) t h = requested-Sends (Refused s) s.client rest t keeps
      opened (throw e) t h = inl (h e refl, refl)

  -- Frames behind a request.
  more-Requested :
      {w : p.World} {c : Client} {base log : List (List ℕ)} (r : Requested p w c base log)
      {log' : List (List ℕ)}
      → Framed log log'
      → Requested p w c base log'
  more-Requested {c = c} {base = base} r f = record {
    later = r.later;
    drawn = r.drawn;
    bytes = r.bytes;
    sixteen = r.sixteen;
    frames = r.frames ++ f.frames;
    behind =
        f.behind
        ∙ ap (λ l. l ++ f.frames) r.behind
        ∙ append_assoc base (request_of c (p.base64 r.bytes) ∷ r.frames) f.frames;
    framed = All-append IsClientFrame r.frames f.frames r.framed f.framed;
  }

  -- Whatever follows and only sends frames.
  then-Sends :
      {A B : Type 0} (U : Type 0) (w : p.World) (c : Client) (base : List (List ℕ))
      (r : Result A × State) (rest : A → Method ⦃platform = Logging⦄ B)
      → Sends U w c base r
      → ((a : A) (sent : List (List ℕ)) → Kept ⦃platform = Logging⦄ (kept sent) (rest a))
      → Sends U w c base (follow r.0 rest r.1)
  then-Sends U w c base (ok a, t) rest h keeps =
      either-Sends U w c base _
        (more-Requested h ((keeps a t.world.sent).apply t (nothing-Framed t.world.sent)).0)
  then-Sends U w c base (throw e, t) rest h keeps = h

  construct-Sends :
      (depth timeout : ℕ) (s : State)
      → Sends
          (Refused s)
          (drawing s)
          s.client
          s.world.sent
          (construct ⦃platform = Logging⦄ (callback_at ⦃platform = Logging⦄ depth) timeout s)
  unfolding construct ◌>>=◌
  construct-Sends depth timeout s =
      then-Sends (Refused s) (drawing s) s.client s.world.sent _ (greet ⦃platform = Logging⦄)
        (connect-Sends depth timeout s)
        (λ b sent. greet-Keeps ⦃platform = Logging⦄ (kept sent) tt b)

  -- Over any platform, with a socket that also writes down what it is given to send, after the
  -- constructor and then, unless it threw, any public calls, whatever the handler's callbacks do
  -- and though calls throw: either the socket could not be opened and nothing was given to it, or
  -- it was given the request of the handshake, with a key that is Base64 of 16 bytes, each the
  -- answer of the platform's source of random bytes, asked for one after the other from when the
  -- socket was open, and behind it nothing but the bytes of whole frames in the RFC's layout, each
  -- final and masked, a text, a binary or, with a payload of at most 125 bytes, a ping, a pong or
  -- a close frame.
  pub lifetime-Requested :
      (depth timeout : ℕ) (calls : List Call) (s : System (Log p.World) handler.H)
      → let s' = lifetime ⦃platform = logging p⦄ depth timeout calls s in
        (Refused s × (s'.world.sent ≡ s.world.sent))
        ⊎ Requested p (drawing s) s.client s.world.sent s'.world.sent
  unfolding lifetime after
  lifetime-Requested depth timeout calls s = afterwards _ _ (construct-Sends depth timeout s)
    where
      afterwards :
          (r : Result (Unit {0})) (t : State)
          → Sends (Refused s) (drawing s) s.client s.world.sent (r, t)
          → let s' = after ⦃platform = Logging⦄ r depth calls t in
            (Refused s × (s'.world.sent ≡ s.world.sent))
            ⊎ Requested p (drawing s) s.client s.world.sent s'.world.sent
      afterwards (ok a) t h = inr (
          more-Requested h (
            run_calls-kept ⦃platform = Logging⦄ (kept t.world.sent) depth calls t
              (nothing-Framed t.world.sent)))
      afterwards (throw e) t h = h
