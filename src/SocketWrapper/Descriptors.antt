-- ===== src/SocketWrapper/Descriptors.antt =====
-- The descriptor of a `SocketWrapper` (include/fastws/socket_wrapper.hpp), among those of the process.
use fast_websocket_client.Base.{
  ℕ, Bool, true, false, not, ◌&&◌, ◌||◌, List, [], ◌∷◌, Option, none, some, Option-cases,
  Bool-cases, ◌≡◌, refl, sym, ap, subst, ◌∙◌, ◌⊎◌, inl, inr, ◌==◌, ==_iff,
}
use fast_websocket_client.Exec.{Result, ok, throw, socket_error, follow, ◌>>=◌}
use fast_websocket_client.Os.{Os, Documented}
use fast_websocket_client.SocketWrapper.{
  Held, connect_each, connected_or_throw, connect_to, connect, construct, close_fd,
}

abbrev pub mine : Option ℕ → ℕ → Bool
mine none d = false
mine (some n) d = d == n

module _ ⦃os : Os⦄ (laws : Documented os) where
  -- The open descriptors are those of `base` and the wrapper's, which is none of `base`.
  pub record Owns (base : ℕ → Bool) (fd : Option ℕ) (w : os.World) : Type 0 where
    pub counted : (d : ℕ) → laws.is_open w d ≡ mine fd d || base d
    pub apart : (n : ℕ) → fd ≡ some n → base n ≡ false

  -- What does not change a descriptor.
  pub same-Owns :
      {base : ℕ → Bool} {fd : Option ℕ} {w w' : os.World}
      → ((d : ℕ) → laws.is_open w' d ≡ laws.is_open w d)
      → Owns base fd w
      → Owns base fd w'
  same-Owns same own = record { counted = λ d. same d ∙ own.counted d; apart = own.apart }

  some_inj : {n m : ℕ} → some n ≡ some m → n ≡ m
  some_inj same = cc

  pub socket-Owns :
      {base : ℕ → Bool} (a : os.Address) (w : os.World) (n : ℕ)
      → (os.socket a w).0 ≡ some n
      → Owns base none w
      → Owns base (some n) (os.socket a w).1
  socket-Owns {base = base} a w n e own = record {
    counted = λ d. (laws.at_socket a w n d e).1 ∙ ap (λ b. d == n || b) (own.counted d);
    apart = λ m same.
        subst (λ x. base x ≡ false) (some_inj same)
          (sym (own.counted n) ∙ (laws.at_socket a w n n e).0);
  }

  closed_bit :
      (mine_d base_d : Bool)
      → (mine_d ≡ true → base_d ≡ false)
      → not mine_d && (mine_d || base_d) ≡ base_d
  closed_bit true b h = sym (h refl)
  closed_bit false b h = refl

  pub close-Owns :
      {base : ℕ → Bool} (fd : Option ℕ) (w : os.World)
      → Owns base fd w
      → Owns base none (close_fd fd w)
  close-Owns none w own = own
  close-Owns {base = base} (some n) w own = record {
    counted = λ d.
        laws.at_close n w d
        ∙ ap (λ b. not (d == n) && b) (own.counted d)
        ∙ closed_bit (d == n) (base d)
            (λ e. subst (λ x. base x ≡ false) (sym ((==_iff d n).0 e)) (own.apart n refl));
    apart = λ m e. absurd cc;
  }

  -- What the loop leaves: a descriptor, and `true`, or none.
  pub record Attempted (base : ℕ → Bool) (r : Result Bool × Held os.World) : Type 0 where
    pub owned : Owns base r.1.wrapper.sockfd r.1.world
    pub told :
        ((d : ℕ) × (r.0 ≡ ok true) × (r.1.wrapper.sockfd ≡ some d))
        ⊎ ((r.0 ≡ ok false) × (r.1.wrapper.sockfd ≡ none))

  connect_each-Attempted :
      (base : ℕ → Bool) (addresses : List os.Address) (s : Held os.World)
      → s.wrapper.sockfd ≡ none
      → Owns base none s.world
      → Attempted base (connect_each addresses s)
  unfolding connect_each
  connect_each-Attempted base [] s e own = record {
    owned = subst (λ fd. Owns base fd s.world) (sym e) own;
    told = inr (refl, e);
  }
  connect_each-Attempted base (a ∷ others) s e own = elim (Option-cases (os.socket a s.world).0) [
    | inl nothing ↦
        rw (nothing, connect_each)
          (connect_each-Attempted base others _ refl
            (same-Owns (λ d. laws.at_socket_none a s.world d nothing) own))
    | inr (d, got) ↦
        let opened = socket-Owns a s.world d got own in
        let w = os.set_nodelay d (os.socket a s.world).1 in
        let tried : Owns base (some d) (os.connect d a w).1 =
          same-Owns (λ x. laws.at_connect d a w x ∙ laws.at_set_nodelay d _ x) opened in
        elim (Bool-cases (os.connect d a w).0) [
          | inl up ↦ rw (got, up, connect_each) record { owned = tried; told = inl (d, refl, refl) }
          | inr down ↦
              rw (got, down, connect_each)
                (connect_each-Attempted base others _ refl (close-Owns (some d) _ tried))
        ]
  ]

  -- What a constructor leaves: a descriptor of its own, or a throw and none.
  pub record Opened (base : ℕ → Bool) (r : Result (Unit {0}) × Held os.World) : Type 0 where
    pub owned : Owns base r.1.wrapper.sockfd r.1.world
    pub told :
        ((d : ℕ) × (r.0 ≡ ok tt) × (r.1.wrapper.sockfd ≡ some d))
        ⊎ ((r.0 ≡ throw socket_error) × (r.1.wrapper.sockfd ≡ none))

  -- What the loop tells of its result and the descriptor.
  abbrev Told : Bool → Option ℕ → Type 0
  Told connected fd =
      ((d : ℕ) × (connected ≡ true) × (fd ≡ some d)) ⊎ ((connected ≡ false) × (fd ≡ none))

  connected_or_throw-Opened :
      (base : ℕ → Bool) (connected : Bool) (fd : Option ℕ) (s : Held os.World)
      → s.wrapper.sockfd ≡ fd
      → Owns base s.wrapper.sockfd s.world
      → Told connected fd
      → Opened base (connected_or_throw connected fd s)
  unfolding connected_or_throw
  connected_or_throw-Opened base true (some d) s e own told = record {
    owned = same-Owns (λ x. laws.at_set_nonblocking d _ x ∙ laws.at_freeaddrinfo s.world x) own;
    told = inl (d, refl, e);
  }
  connected_or_throw-Opened base true none s e own told = elim told [
    | inl (d, up, some_fd) ↦ absurd cc
    | inr (down, no_fd) ↦ absurd cc
  ]
  connected_or_throw-Opened base false (some d) s e own told = elim told [
    | inl (d, up, some_fd) ↦ absurd cc
    | inr (down, no_fd) ↦ absurd cc
  ]
  connected_or_throw-Opened base false none s e own told = record {
    owned = same-Owns (laws.at_freeaddrinfo s.world) own;
    told = inr (refl, e);
  }

  followed-Opened :
      (base : ℕ → Bool) (r : Result Bool) (s : Held os.World)
      → Attempted base (r, s)
      → Opened base (follow r (λ connected t. connected_or_throw connected t.wrapper.sockfd t) s)
  followed-Opened base (ok connected) s tried =
      connected_or_throw-Opened base connected _ s refl tried.owned (elim tried.told [
        | inl (d, r, fd) ↦ inl (d, ok_inj r, fd)
        | inr (r, fd) ↦ inr (ok_inj r, fd)
      ])
    where
      ok_inj : {a b : Bool} → ok a ≡ ok b → a ≡ b
      ok_inj e = cc
  followed-Opened base (throw x) s tried = elim tried.told [
    | inl (d, r, fd) ↦ absurd cc
    | inr (r, fd) ↦ absurd cc
  ]

  connect_to-Opened :
      (base : ℕ → Bool) (addresses : Option (List os.Address)) (s : Held os.World)
      → s.wrapper.sockfd ≡ none
      → Owns base none s.world
      → Opened base (connect_to addresses s)
  unfolding connect_to ◌>>=◌
  connect_to-Opened base none s e own = record {
    owned = subst (λ fd. Owns base fd s.world) (sym e) own;
    told = inr (refl, e);
  }
  connect_to-Opened base (some addresses) s e own =
      followed-Opened base _ _ (connect_each-Attempted base addresses s e own)

  pub construct-Opened :
      (base : ℕ → Bool) (host : List ℕ) (port : ℕ) (w : os.World)
      → ((d : ℕ) → laws.is_open w d ≡ base d)
      → Opened base (construct host port w)
  unfolding construct connect
  construct-Opened base host port w h = connect_to-Opened base _ _ refl record {
    counted = λ d. laws.at_getaddrinfo host (some port) w d ∙ h d;
    apart = λ n e. absurd cc;
  }
