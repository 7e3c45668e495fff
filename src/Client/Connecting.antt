-- ===== src/Client/Connecting.antt =====
-- `connect` (include/fastws/fastws.hpp) on a socket that opens and brings the chunks of a response.
pub mod Conversation
use fast_websocket_client.Base.{
  ℕ, zero, suc, ◌*◌, ◌≤◌, ◌<◌, ◌≡◌, refl, sym, ap, subst, ◌∙◌, ◌⊎◌, inl, inr, Bool, true, false,
  Bool-cases, List, [], ◌∷◌, ◌++◌, append_assoc, append-nil, arith, if◌then◌else◌, take, drop,
}
use fast_websocket_client.Exec.{Result, ok, ◌>>=◌}
use fast_websocket_client.FrameParser.{Machine}
use fast_websocket_client.FrameParser.Chunks.{joined}
use fast_websocket_client.Handshake.{random_bytes, generate_sec_websocket_key}
use fast_websocket_client.Socket.{Platform}
use fast_websocket_client.Client.{healthy, failed, Event}
use fast_websocket_client.Client.Methods.{send}
use fast_websocket_client.Client.Session.{
  blank_line, switching, contains, await_response, conclude, connect, request_of,
}
use fast_websocket_client.Client.Callbacks.{callback_at, run_program}
use fast_websocket_client.Client.Delivery.{State, Feeds, recorder, first}
use fast_websocket_client.Client.Closing.{Answers}

-- A socket that is `Ready` opens, and neither this nor a random byte takes a chunk away.
pub record Opens {platform : Platform} (feeds : Feeds platform) : Type 1 where
  pub Ready : platform.World → Type 0
  pub at_open :
      (host : List ℕ) (port : ℕ) (w : platform.World)
      → Ready w
      → ((platform.open_socket host port w).0 ≡ ok tt)
        × (feeds.upcoming (platform.open_socket host port w).1 ≡ feeds.upcoming w)
        × feeds.Live (platform.open_socket host port w).1
  pub at_random :
      (w : platform.World)
      → feeds.Live w
      → (feeds.upcoming (platform.random_byte w).1 ≡ feeds.upcoming w)
        × feeds.Live (platform.random_byte w).1

-- How many of the chunks make the response, behind the bytes `acc`: fewer hold no blank line, and these
-- hold one, or all rounds are used up.
pub record Complete (rounds : ℕ) (acc : List ℕ) (chunks : List (List ℕ)) (used : ℕ) : Type 0 where
  pub within : used ≤ rounds
  pub shortest : (k : ℕ) → k < used → contains blank_line (acc ++ joined (take k chunks)) ≡ false
  pub stopped : (contains blank_line (acc ++ joined (take used chunks)) ≡ true) ⊎ (used ≡ rounds)

joined-take :
    (k : ℕ) (cs : List (List ℕ))
    → joined (take (suc k) cs) ≡ first cs ++ joined (take k (drop 1 cs))
joined-take zero [] = refl
joined-take (suc k) [] = refl
joined-take k (c ∷ cs) = refl

drop-rest : (n : ℕ) (cs : List (List ℕ)) → drop n (drop 1 cs) ≡ drop (suc n) cs
drop-rest zero [] = refl
drop-rest (suc n) [] = refl
drop-rest n (c ∷ cs) = refl

joined-behind :
    (acc : List ℕ) (k : ℕ) (cs : List (List ℕ))
    → acc ++ joined (take (suc k) cs) ≡ (acc ++ first cs) ++ joined (take k (drop 1 cs))
joined-behind acc k cs =
    ap (λ xs. acc ++ xs) (joined-take k cs)
    ∙ sym (append_assoc acc (first cs) (joined (take k (drop 1 cs))))

joined-one : (acc : List ℕ) (cs : List (List ℕ)) → acc ++ joined (take 1 cs) ≡ acc ++ first cs
joined-one acc cs = joined-behind acc 0 cs ∙ append-nil (acc ++ first cs)

found-Complete :
    (rounds : ℕ) (acc : List ℕ) (cs : List (List ℕ))
    → contains blank_line acc ≡ false
    → contains blank_line (acc ++ first cs) ≡ true
    → Complete (suc rounds) acc cs 1
found-Complete rounds acc cs none_yet found = record {
  within = omega arith;
  shortest = fewer;
  stopped = inl (ap (contains blank_line) (joined-one acc cs) ∙ found);
}
  where
    fewer : (k : ℕ) → k < 1 → contains blank_line (acc ++ joined (take k cs)) ≡ false
    fewer zero h = ap (contains blank_line) (append-nil acc) ∙ none_yet
    fewer (suc k) h = absurd (omega arith)

again-Complete :
    (rounds used : ℕ) (acc : List ℕ) (cs : List (List ℕ))
    → contains blank_line acc ≡ false
    → Complete rounds (acc ++ first cs) (drop 1 cs) used
    → Complete (suc rounds) acc cs (suc used)
again-Complete rounds used acc cs none_yet c = record {
  within = omega (arith, c.within);
  shortest = shorter;
  stopped = elim c.stopped [
    | inl found ↦ inl (ap (contains blank_line) (joined-behind acc used cs) ∙ found)
    | inr all ↦ inr (ap suc all)
  ];
}
  where
    shorter : (k : ℕ) → k < suc used → contains blank_line (acc ++ joined (take k cs)) ≡ false
    shorter zero h = ap (contains blank_line) (append-nil acc) ∙ none_yet
    shorter (suc k) h =
        ap (contains blank_line) (joined-behind acc k cs) ∙ c.shortest k (omega arith)

module _ ⦃platform : Platform⦄ ⦃machine : Machine⦄ (feeds : Feeds platform)
    (answers : Answers feeds) (opens : Opens feeds) where
  -- What the loop of `connect` comes to.
  record Reads (rounds : ℕ) (acc : List ℕ) (s : State) : Type 0 where
    used : ℕ
    last : platform.World
    complete : Complete rounds acc (feeds.upcoming s.world) used
    returns :
        await_response rounds acc s
        ≡ (ok (acc ++ joined (take used (feeds.upcoming s.world))), record s { world = last })
    left_over : feeds.upcoming last ≡ drop used (feeds.upcoming s.world)
    live : feeds.Live last

  await_response-Reads :
      (rounds : ℕ) (acc : List ℕ) (s : State)
      → feeds.Live s.world
      → contains blank_line acc ≡ false
      → Reads rounds acc s
  unfolding await_response ◌>>=◌
  await_response-Reads zero acc s live none_yet = record {
    used = 0;
    last = s.world;
    complete = record {
      within = omega arith;
      shortest = λ k h. absurd (omega arith);
      stopped = inr refl;
    };
    returns = rw (append-nil acc) refl;
    left_over = refl;
    live = live;
  }
  await_response-Reads (suc rounds) acc s live none_yet =
      let u = feeds.upcoming s.world in
      let (got, moved, still) = answers.at_read 4096 s.world (omega arith) live in
      elim (Bool-cases (contains blank_line (acc ++ first u))) [
        | inl found ↦ record {
          used = 1;
          last = (platform.read 4096 s.world).1;
          complete = found-Complete rounds acc u none_yet found;
          returns =
              rw (got, found)
                (ap (λ xs. (ok xs, record s { world = (platform.read 4096 s.world).1 }))
                  (sym (joined-one acc u)));
          left_over = moved;
          live = still;
        }
        | inr more ↦
            let w = platform.sleep (platform.read 4096 s.world).1 in
            let kept : feeds.upcoming w ≡ drop 1 u = (answers.at_sleep _ still).0 ∙ moved in
            let rest =
              await_response-Reads rounds (acc ++ first u) (record s { world = w })
                (answers.at_sleep _ still).1 more in
            record {
              used = suc rest.used;
              last = rest.last;
              complete =
                  again-Complete rounds rest.used acc u none_yet (
                    subst (λ cs. Complete rounds (acc ++ first u) cs rest.used) kept rest.complete);
              returns =
                  rw (got, more)
                    (rest.returns
                      ∙ ap
                          (λ cs. (
                            ok ((acc ++ first u) ++ joined (take rest.used cs)),
                            record s { world = rest.last },
                          ))
                          kept
                      ∙ ap (λ xs. (ok xs, record s { world = rest.last }))
                          (sym (joined-behind acc rest.used u)));
              left_over = rest.left_over ∙ ap (drop rest.used) kept ∙ drop-rest rest.used u;
              live = rest.live;
            }
      ]

  -- What `connect` comes to, with the bytes of the response.
  pub record Concludes (timeout : ℕ) (s : State) (r : Result Bool × State) : Type 0 where
    pub used : ℕ
    pub complete : Complete (timeout * 10) [] (feeds.upcoming s.world) used
    pub returns : r.0 ≡ ok (contains switching (joined (take used (feeds.upcoming s.world))))
    pub status_is : r.1.client.status ≡ (
        if contains switching (joined (take used (feeds.upcoming s.world)))
        then healthy
        else failed)
    pub is_open :
        r.1.client.connection_open
        ≡ contains switching (joined (take used (feeds.upcoming s.world)))
    pub told :
        r.1.handler
        ≡ s.handler
          ++ (if contains switching (joined (take used (feeds.upcoming s.world)))
              then Event.on_open ∷ []
              else [])
    pub same_parser : r.1.client.parser ≡ s.client.parser
    pub left_over : feeds.upcoming r.1.world ≡ drop used (feeds.upcoming s.world)
    pub live : feeds.Live r.1.world

  random_bytes-upcoming :
      (n : ℕ) (w : platform.World)
      → feeds.Live w
      → (feeds.upcoming (random_bytes platform.random_byte n w).1 ≡ feeds.upcoming w)
        × feeds.Live (random_bytes platform.random_byte n w).1
  unfolding random_bytes
  random_bytes-upcoming zero w live = (refl, live)
  random_bytes-upcoming (suc n) w live =
      let (same, still) = opens.at_random w live in
      let (later, last) = random_bytes-upcoming n _ still in (later ∙ same, last)

  -- On a socket that is ready to open, and once open is live, takes what is sent and brings one
  -- chunk with each read of 1024 bytes or more, and with a handler that writes down what it is
  -- told: connect takes the fewest chunks that together hold a blank line, or as many as ten for
  -- each second of the timeout if none do; it returns whether these hold the status line HTTP/1.1
  -- 101, sets the status to HEALTHY or FAILED and the connection to open or not accordingly, tells
  -- the handler of the opening exactly if they do, leaves the later chunks with the socket, and
  -- the parser as it was, whatever follows the blank line in the last chunk.
  pub connect-Concludes :
      (depth timeout : ℕ) (s : State)
      → opens.Ready s.world
      → Concludes timeout s (connect (callback_at (suc depth)) timeout s)
  unfolding connect conclude send generate_sec_websocket_key ◌>>=◌ callback_at run_program
  connect-Concludes depth timeout s ready =
      let (open_ok, open_same, opened) = opens.at_open s.client.host s.client.port s.world ready in
      let w₁ = (platform.open_socket s.client.host s.client.port s.world).1 in
      let (bytes, w₂) = random_bytes platform.random_byte 16 w₁ in
      let request = request_of s.client (platform.base64 bytes) in
      let (drawn_same, drawn) = random_bytes-upcoming 16 w₁ opened in
      let (sent, sent_same, still) = feeds.at_send request w₂ drawn in
      let w₃ = (platform.send request w₂).1 in
      let same : feeds.upcoming w₃ ≡ feeds.upcoming s.world = sent_same ∙ drawn_same ∙ open_same in
      let r = await_response-Reads (timeout * 10) [] (record s { world = w₃ }) still refl in
      let left : feeds.upcoming r.last ≡ drop r.used (feeds.upcoming s.world) =
        r.left_over ∙ ap (drop r.used) same in
      let complete = subst (λ cs. Complete (timeout * 10) [] cs r.used) same r.complete in
      let response : joined (take r.used (feeds.upcoming w₃))
          ≡ joined (take r.used (feeds.upcoming s.world)) =
        ap (λ cs. joined (take r.used cs)) same in
      elim (Bool-cases (contains switching (joined (take r.used (feeds.upcoming s.world))))) [
        | inl agrees ↦
            rw (open_ok, sent, r.returns, response, agrees)
              (record {
                used = r.used;
                complete = complete;
                returns = ap ok (sym agrees);
                status_is = rw agrees refl;
                is_open = sym agrees;
                told = rw agrees refl;
                same_parser = refl;
                left_over = left;
                live = r.live;
              })
        | inr differs ↦
            rw (open_ok, sent, r.returns, response, differs)
              (record {
                used = r.used;
                complete = complete;
                returns = ap ok (sym differs);
                status_is = rw differs refl;
                is_open = sym differs;
                told = rw differs (sym (append-nil s.handler));
                same_parser = refl;
                left_over = left;
                live = r.live;
              })
      ]
