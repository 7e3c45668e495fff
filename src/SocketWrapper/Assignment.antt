-- ===== src/SocketWrapper/Assignment.antt =====
-- The assignment of a new wrapper to one that may hold a descriptor.
use fast_websocket_client.Base.{
  ℕ, Bool, true, false, ◌||◌, List, Option, none, some, ◌≡◌, refl, sym, ap, subst, ◌∙◌, ◌⊎◌, inl,
  inr, ◌==◌, ==_iff, Bool-cases,
}
use fast_websocket_client.Exec.{Result, ok, throw, socket_error}
use fast_websocket_client.Os.{Os, Documented}
use fast_websocket_client.SocketWrapper.{
  Held, disconnect, move_assign, assigned, open_socket, close_fd,
}
use fast_websocket_client.SocketWrapper.Descriptors.{
  mine, Owns, close-Owns, Opened, construct-Opened,
}

module _ ⦃os : Os⦄ (laws : Documented os) where
  or_swap : (a b c : Bool) → a || (b || c) ≡ b || (a || c)
  or_swap true true c = refl
  or_swap true false c = refl
  or_swap false b c = refl

  or_false : (a b : Bool) → a || b ≡ false → (a ≡ false) × (b ≡ false)
  or_false true b e = absurd cc
  or_false false b e = (refl, e)

  mine_self : (n : ℕ) → mine (some n) n ≡ true
  mine_self n = (==_iff n n).1 refl

  -- The roles of two descriptors, one of them part of the base, change places.
  swap-apart :
      (base : ℕ → Bool) (a b : Option ℕ)
      → ((n : ℕ) → a ≡ some n → base n ≡ false)
      → ((n : ℕ) → b ≡ some n → mine a n || base n ≡ false)
      → (n : ℕ) → a ≡ some n
      → mine b n || base n ≡ false
  swap-apart base a none apart_a apart_b n e = apart_a n e
  swap-apart base a (some k) apart_a apart_b n e = elim (Bool-cases (n == k)) [
    | inl same ↦
        let n_is_k = (==_iff n k).0 same in
        let held : mine a k ≡ true =
          subst (λ x. mine x k ≡ true) (sym (e ∙ ap some n_is_k)) (mine_self k) in
        let not_held : mine a k ≡ false = (or_false _ _ (apart_b k refl)).0 in absurd cc
    | inr other ↦ rw other (apart_a n e)
  ]

  pub swap-Owns :
      (base : ℕ → Bool) (a b : Option ℕ) (w : os.World)
      → ((n : ℕ) → a ≡ some n → base n ≡ false)
      → Owns laws (λ d. mine a d || base d) b w
      → Owns laws (λ d. mine b d || base d) a w
  swap-Owns base a b w apart own = record {
    counted = λ d. own.counted d ∙ or_swap (mine b d) (mine a d) (base d);
    apart = swap-apart base a b apart own.apart;
  }

  -- The old descriptor is closed, and the new one stays.
  pub replace-Owns :
      (base : ℕ → Bool) (old new : Option ℕ) (w : os.World)
      → ((n : ℕ) → old ≡ some n → base n ≡ false)
      → Owns laws (λ d. mine old d || base d) new w
      → Owns laws base new (close_fd old w)
  replace-Owns base old new w apart own =
      let closed = close-Owns laws old w (swap-Owns base old new w apart own) in
      record { counted = closed.counted; apart = λ n e. (or_false _ _ (own.apart n e)).1 }

  -- What `socket = SocketWrapper(host, port)` leaves, from `s`.
  pub record Replaced (base : ℕ → Bool) (host : List ℕ) (port : ℕ) (s : Held os.World)
      (r : Result (Unit {0}) × Held os.World) : Type 0 where
    pub owned : Owns laws base r.1.wrapper.sockfd r.1.world
    pub told :
        ((d : ℕ) × (r.0 ≡ ok tt) × (r.1.wrapper.sockfd ≡ some d))
        ⊎ ((r.0 ≡ throw socket_error) × (r.1.wrapper ≡ s.wrapper))

  assigned-Replaced :
      (base : ℕ → Bool) (host : List ℕ) (port : ℕ) (s : Held os.World) (r : Result (Unit {0}))
      (made : Held os.World)
      → Owns laws base s.wrapper.sockfd s.world
      → Opened laws (λ d. mine s.wrapper.sockfd d || base d) (r, made)
      → Replaced base host port s (assigned made.wrapper r (record s { world = made.world }))
  unfolding assigned move_assign disconnect
  assigned-Replaced base host port s (ok _) made own opened = record {
    owned =
        replace-Owns base s.wrapper.sockfd made.wrapper.sockfd made.world own.apart opened.owned;
    told = elim opened.told [ inl (d, r, fd) ↦ inl (d, refl, fd) | inr (r, fd) ↦ absurd cc ];
  }
  assigned-Replaced base host port s (throw x) made own opened = elim opened.told [
    | inl (d, r, fd) ↦ absurd cc
    | inr (r, fd) ↦
        let kept =
          subst (λ f. Owns laws (λ d. mine s.wrapper.sockfd d || base d) f made.world) fd
            opened.owned in
        record {
          owned = record { counted = kept.counted; apart = own.apart };
          told = inr (r, refl);
        }
  ]

  -- Over documented system calls, from a wrapper that holds at most one descriptor besides those
  -- of `base`, assigning a new wrapper made for a host and a port either returns and leaves the
  -- wrapper with a descriptor of its own, the old one closed, or throws and leaves the wrapper as
  -- it was; in both cases the open descriptors are exactly those of `base` and the wrapper's.
  pub open_socket-Replaced :
      (base : ℕ → Bool) (host : List ℕ) (port : ℕ) (s : Held os.World)
      → Owns laws base s.wrapper.sockfd s.world
      → Replaced base host port s (open_socket host port s)
  unfolding open_socket
  open_socket-Replaced base host port s own =
      assigned-Replaced base host port s _ _ own (
        construct-Opened laws (λ d. mine s.wrapper.sockfd d || base d) host port s.world
          own.counted)
