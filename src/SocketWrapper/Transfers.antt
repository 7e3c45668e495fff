-- ===== src/SocketWrapper/Transfers.antt =====
-- The bytes that `SocketWrapper` sends and receives.
use fast_websocket_client.Base.{
  ℕ, zero, suc, ◌+◌, ◌^◌, ◌≤◌, ◌<◌, ◌≡◌, refl, sym, ap, subst, ◌∙◌, ◌⊎◌, inl, inr, Bool, true,
  false, List, [], ◌∷◌, ◌++◌, append_assoc, append-nil, Option, some, arith, ltb, lt→ltb,
  if◌then◌else◌, length, length-drop, take, drop, take-all, splice, take-splice,
}
use fast_websocket_client.Exec.{socket_error, Result, ok, throw}
use fast_websocket_client.FrameBuffer.{FrameBuffer, capacity, view, ensure_extra_space, claim_space}
use fast_websocket_client.FrameBuffer.Writes.{ensure_fit-view, ptr-ensure_fit, capacity-ensure_fit}
use fast_websocket_client.FrameBuffer.Reads.{Stores, receive_at_tail-Stores}
use fast_websocket_client.Socket.{Received}
use fast_websocket_client.Os.{Os, Documented, Sent, Receipt}
use fast_websocket_client.SocketWrapper.{
  Held, send_loop, send, stored, read_into, positive_int, store_out, received,
}

pub Sent-cases :
    (r : Sent) → ((n : ℕ) × (r ≡ Sent.accepted n)) ⊎ ((r ≡ Sent.blocked) ⊎ (r ≡ Sent.refused))
Sent-cases (Sent.accepted n) = inl (n, refl)
Sent-cases Sent.blocked = inr (inl refl)
Sent-cases Sent.refused = inr (inr refl)

pub Receipt-cases :
    (r : Receipt)
    → ((bytes : List ℕ) × (r ≡ Receipt.came bytes))
      ⊎ ((r ≡ Receipt.blocked) ⊎ (r ≡ Receipt.refused))
Receipt-cases (Receipt.came bytes) = inl (bytes, refl)
Receipt-cases Receipt.blocked = inr (inl refl)
Receipt-cases Receipt.refused = inr (inr refl)

-- What fits in `m_out` is at its front.
pub store_out-fits :
    (out came : List ℕ)
    → length came ≤ length out
    → (stored : List ℕ) × (store_out out came ≡ some stored) × (take (length came) stored ≡ came)
unfolding store_out
store_out-fits out came h = (
  splice out 0 came,
  ground arith,
  ap (λ n. take n (splice out 0 came)) (omega arith) ∙ take-splice out 0 came (omega arith),
)

pub positive_int-small : (n : ℕ) → n < 2 ^ 31 → positive_int n ≡ n
positive_int-small n h = ground arith

module _ ⦃os : Os⦄ where
  pub received-keeps :
      (bytes : List ℕ) (s : Held os.World)
      → length bytes ≤ length s.wrapper.out
      → received bytes s ≡ (ok bytes, record s { wrapper = record s.wrapper { out = bytes } })
  unfolding received
  received-keeps bytes s h =
      let (stored, e, front) = store_out-fits s.wrapper.out bytes h in rw (e, received, front)

  -- The bytes that came stand behind those of the buffer.
  pub stored-Received :
      (b : FrameBuffer) (hint : ℕ) (bytes : List ℕ) (s : Held os.World)
      → b.ptr ≤ capacity b
      → length bytes ≤ hint
      → (told : Bool) × (b' : FrameBuffer) × (stored (ensure_extra_space b hint) bytes s
          ≡ (ok (told, b'), s))
        × ((r : Received b told b') × (r.came ≡ bytes))
  unfolding stored
  stored-Received b hint bytes s h fits =
      let done = receive_at_tail-Stores b hint bytes h fits in
      let (told, b', e, got) = claimed bytes done in
      rw (done.returns, stored) (told, b', ap (λ t. (ok t, s)) e, got)
    where
      claimed :
          {r : Option FrameBuffer} (bytes : List ℕ) (done : Stores b bytes r)
          → (told : Bool) × (b' : FrameBuffer) × (◌≡◌ {A = Bool × FrameBuffer}
              (if ltb 0 (length bytes)
                then (true, claim_space done.out (length bytes))
                else (false, done.out))
              (told, b'))
            × ((r : Received b told b') × (r.came ≡ bytes))
      claimed [] done = (
        false,
        done.out,
        refl,
        (
          record {
            came = [];
            appended = subst (λ p. take p done.out.buf ≡ view b ++ []) (omega arith) done.appended;
            moved = omega (arith, done.moved);
            within = omega (arith, done.within);
            told = refl;
          },
          refl,
        ),
      )
      claimed (x ∷ xs) done =
          let pos : ltb 0 (length (x ∷ xs)) ≡ true = lt→ltb _ _ (omega arith) in
          (
            true,
            claim_space done.out (length (x ∷ xs)),
            rw pos,
            (
              record {
                came = x ∷ xs;
                appended = done.appended;
                moved = omega (arith, done.moved);
                within = done.within;
                told = sym pos;
              },
              refl,
            ),
          )

  -- No byte came, and the buffer has grown.
  pub grown-Received :
      (b : FrameBuffer) (hint : ℕ)
      → b.ptr ≤ capacity b
      → (r : Received b false (ensure_extra_space b hint)) × (r.came ≡ [])
  grown-Received b hint h = (
    record {
      came = [];
      appended = ensure_fit-view b (b.ptr + hint) h ∙ sym (append-nil _);
      moved = omega (arith, ptr-ensure_fit b (b.ptr + hint));
      within = omega (arith, ptr-ensure_fit b (b.ptr + hint), capacity-ensure_fit b (b.ptr + hint));
      told = refl;
    },
    refl,
  )

module _ ⦃os : Os⦄ (laws : Documented os) where
  -- `r` sent the first bytes of `bytes`, in order: all of them if it returns, and it returns or throws
  -- the exception of the wrapper.
  pub record Delivers (bytes : List ℕ) (total : ℕ) (w : os.World) (r : Result ℕ × Held os.World)
      : Type 0 where
    pub count : ℕ
    pub streamed : laws.stream r.1.world ≡ laws.stream w ++ take count bytes
    pub ended :
        ((r.0 ≡ ok (total + length bytes)) × (count ≡ length bytes)) ⊎ (r.0 ≡ throw socket_error)

  stopped :
      (bytes : List ℕ) (total : ℕ) (w : os.World) (r : Result ℕ × Held os.World)
      → laws.stream r.1.world ≡ laws.stream w
      → r.0 ≡ throw socket_error
      → Delivers bytes total w r
  stopped bytes total w r same e = record {
    count = 0;
    streamed = same ∙ sym (append-nil _);
    ended = inr e;
  }

  more :
      (n k : ℕ) (bytes : List ℕ)
      → n ≤ length bytes
      → take (n + k) bytes ≡ take n bytes ++ take k (drop n bytes)
  more zero k bytes h = ap (λ m. take m bytes) (omega arith)
  more (suc n) k [] h = absurd (omega arith)
  more (suc n) k (x ∷ xs) h =
      let shift : suc n + k ≡ suc (n + k) = omega arith in
      ap (λ m. take m (x ∷ xs)) shift ∙ ap (λ l. x ∷ l) (more n k xs (omega arith))

  -- The rest of the loop, after `n` of the bytes.
  continued :
      (bytes : List ℕ) (total n : ℕ) (w w' : os.World) (r : Result ℕ × Held os.World)
      → n ≤ length bytes
      → laws.stream w' ≡ laws.stream w ++ take n bytes
      → Delivers (drop n bytes) (total + n) w' r
      → Delivers bytes total w r
  continued bytes total n w w' r fits sent rest = record {
    count = n + rest.count;
    streamed =
        rest.streamed
        ∙ ap (λ l. l ++ take rest.count (drop n bytes)) sent
        ∙ append_assoc (laws.stream w) _ _
        ∙ ap (λ l. laws.stream w ++ l) (sym (more n rest.count bytes fits));
    ended = elim rest.ended [
      | inl (e, all) ↦
          inl (
            e ∙ ap ok (omega (arith, length-drop n bytes)),
            omega (arith, all, length-drop n bytes),
          )
      | inr e ↦ inr e
    ];
  }

  send_loop-Delivers :
      (fuel : ℕ) (bytes : List ℕ) (total : ℕ) (s : Held os.World)
      → length bytes ≤ fuel
      → Delivers bytes total s.world (send_loop fuel bytes total s)
  unfolding send_loop
  send_loop-Delivers fuel [] total s h = record {
    count = 0;
    streamed = sym (append-nil _);
    ended = inl (ap ok (omega arith), refl);
  }
  send_loop-Delivers zero (x ∷ xs) total s h = absurd (omega arith)
  send_loop-Delivers (suc fuel) (x ∷ xs) total s h =
      let fd = s.wrapper.sockfd in
      elim (Sent-cases (os.send fd (x ∷ xs) s.world).0) [
        | inl (n, e) ↦
            let (pos, fits, sent) = laws.at_send fd (x ∷ xs) s.world n (omega arith) e in
            rw (e, send_loop)
              (continued (x ∷ xs) total n s.world _ _ fits sent (
                send_loop-Delivers fuel (drop n (x ∷ xs)) (total + n) _
                  (omega (arith, length-drop n (x ∷ xs)))))
        | inr (inl e) ↦
            rw (e, send_loop) (stopped _ _ _ _ (laws.at_send_blocked fd (x ∷ xs) s.world e) refl)
        | inr (inr e) ↦
            rw (e, send_loop) (stopped _ _ _ _ (laws.at_send_refused fd (x ∷ xs) s.world e) refl)
      ]

  -- Over documented system calls, sending a request below 2 ^ 31 bytes ends without running out of
  -- rounds: the kernel has taken a prefix of the request, in order, and either the method returns
  -- the length of the request and the prefix is all of it, or it throws the wrapper's exception.
  pub send-Delivers :
      (req : List ℕ) (s : Held os.World) → length req < 2 ^ 31 → Delivers req 0 s.world (send req s)
  unfolding send
  send-Delivers req s h =
      rw (positive_int-small (length req) h, take-all (length req) req (omega arith))
        (send_loop-Delivers (length req) req 0 s (omega arith))

  -- `r` is the throw of the wrapper, or a buffer with the bytes that came behind the others.
  pub record Fills (b : FrameBuffer) (r : Result (Bool × FrameBuffer) × Held os.World)
      : Type 0 where
    pub ended :
        ((told : Bool) × (b' : FrameBuffer) × (r.0 ≡ ok (told, b')) × Received b told b')
        ⊎ (r.0 ≡ throw socket_error)

  stored-Fills :
      (b : FrameBuffer) (hint : ℕ) (bytes : List ℕ) (s : Held os.World)
      → b.ptr ≤ capacity b
      → length bytes ≤ hint
      → Fills b (stored (ensure_extra_space b hint) bytes s)
  stored-Fills b hint bytes s h fits =
      let (told, b', e, (r, _)) = stored-Received b hint bytes s h fits in
      rw e record { ended = inl (told, b', refl, r) }

  -- Over documented system calls, reading into a buffer whose position is within its vector never
  -- stores outside the vector: it throws the wrapper's exception, or leaves a buffer with the
  -- bytes that came behind the others and the position behind them, and tells whether any came.
  pub read_into-Fills :
      (b : FrameBuffer) (hint : ℕ) (s : Held os.World)
      → b.ptr ≤ capacity b
      → Fills b (read_into b hint s)
  unfolding read_into
  read_into-Fills b hint s h =
      let fd = s.wrapper.sockfd in
      elim (Receipt-cases (os.recv fd hint s.world).0) [
        | inl (bytes, e) ↦
            rw (e, read_into) (stored-Fills b hint bytes _ h (laws.at_recv fd hint s.world bytes e))
        | inr (inl e) ↦
            rw (e, read_into)
              record {
                ended = inl (false, ensure_extra_space b hint, refl, (grown-Received b hint h).0);
              }
        | inr (inr e) ↦ rw (e, read_into) record { ended = inr refl }
      ]
