-- ===== src/SslSocketWrapper/Descriptors.antt =====
-- The descriptors of an `SSLSocketWrapper` (include/fastws/socket_wrapper.hpp).
use fast_websocket_client.Base.{
  ℕ, Bool, Bool-cases, List, [], ◌∷◌, ◌||◌, Option, none, some, Option-cases, ◌≡◌, refl, sym, subst,
  ◌∙◌, ◌⊎◌, inl, inr,
}
use fast_websocket_client.Exec.{socket_error, Result, ok, throw}
use fast_websocket_client.Os.{Documented}
use fast_websocket_client.SocketWrapper.Descriptors.{mine, Owns, same-Owns, socket-Owns, close-Owns}
use fast_websocket_client.SocketWrapper.Assignment.{swap-Owns, replace-Owns}
use fast_websocket_client.SslSocketWrapper.{
  SslSocketWrapper, Tls, World, Held, connect_each, handshake, secure, connect_to, connect,
  construct, free_ctx, free_ssl, disconnect, move_assign, assigned, open_socket,
}

module _ ⦃tls : Tls⦄ (laws : Documented tls.os) where
  -- OpenSSL opens and closes no descriptor: `SSL_set_fd` leaves it to the caller to close.
  pub record Silent : Type 0 where
    pub at_ctx_new : (w : World) (d : ℕ) → laws.is_open (tls.ctx_new w).1 d ≡ laws.is_open w d
    pub at_ctx_free :
        (c : tls.Ctx) (w : World) (d : ℕ) → laws.is_open (tls.ctx_free c w) d ≡ laws.is_open w d
    pub at_ssl_new :
        (c : Option tls.Ctx) (w : World) (d : ℕ)
        → laws.is_open (tls.ssl_new c w).1 d ≡ laws.is_open w d
    pub at_ssl_free :
        (l : tls.Ssl) (w : World) (d : ℕ) → laws.is_open (tls.ssl_free l w) d ≡ laws.is_open w d
    pub at_host_name :
        (l : tls.Ssl) (h : List ℕ) (w : World) (d : ℕ)
        → laws.is_open (tls.set_tlsext_host_name l h w) d ≡ laws.is_open w d
    pub at_set_fd :
        (l : tls.Ssl) (n : ℕ) (w : World) (d : ℕ)
        → laws.is_open (tls.set_fd l n w) d ≡ laws.is_open w d
    pub at_ssl_connect :
        (l : tls.Ssl) (w : World) (d : ℕ)
        → laws.is_open (tls.ssl_connect l w).1 d ≡ laws.is_open w d
    pub at_clear_errors :
        (w : World) (d : ℕ) → laws.is_open (tls.clear_errors w) d ≡ laws.is_open w d
    pub at_shutdown :
        (l : tls.Ssl) (w : World) (d : ℕ) → laws.is_open (tls.shutdown l w) d ≡ laws.is_open w d

  -- The open descriptors are those of `base` and this one.
  abbrev pub Own : (ℕ → Bool) → Option ℕ → World → Type 0
  Own base fd w = Owns ⦃os = tls.os⦄ laws base fd w

  module _ (silent : Silent) where
    connect_each-Owns :
        {base : ℕ → Bool} (addresses : List tls.os.Address) (s : Held)
        → s.wrapper.sockfd ≡ none
        → Own base none s.world
        → let s' = connect_each addresses s in Own base s'.wrapper.sockfd s'.world
    unfolding connect_each
    connect_each-Owns {base = base} [] s e own = subst (λ fd. Own base fd s.world) (sym e) own
    connect_each-Owns (a ∷ others) s e own = elim (Option-cases (tls.os.socket a s.world).0) [
      | inl nothing ↦
          rw (nothing, connect_each)
            (same-Owns ⦃os = tls.os⦄ laws (λ d. laws.at_socket_none a s.world d nothing) own)
      | inr (d, got) ↦
          let opened = socket-Owns ⦃os = tls.os⦄ laws a s.world d got own in
          let w = tls.os.set_nodelay d (tls.os.socket a s.world).1 in
          let tried =
            same-Owns ⦃os = tls.os⦄ laws
              (λ x. laws.at_connect d a w x ∙ laws.at_set_nodelay d (tls.os.socket a s.world).1 x)
              opened in
          elim (Bool-cases (tls.os.connect d a w).0) [
            | inl up ↦ rw (got, up, connect_each) tried
            | inr down ↦
                rw (got, down, connect_each)
                  (connect_each-Owns others _ refl (close-Owns ⦃os = tls.os⦄ laws (some d) _ tried))
          ]
    ]

    -- What the constructor leaves: its descriptor is the one new open descriptor, whether it returns or
    -- throws.
    record Opened (base : ℕ → Bool) (r : Result (Unit {0}) × Held) : Type 0 where
      owned : Own base r.1.wrapper.sockfd r.1.world
      pub told :
          ((d : ℕ) × (r.0 ≡ ok tt) × (r.1.wrapper.sockfd ≡ some d)) ⊎ (r.0 ≡ throw socket_error)

    handshake-Opened :
        (base : ℕ → Bool) (d : ℕ) (session : tls.Ssl) (s : Held)
        → s.wrapper.sockfd ≡ some d
        → Own base s.wrapper.sockfd s.world
        → Opened base (handshake d session s)
    unfolding handshake
    handshake-Opened base d session s e own =
        let named = tls.set_tlsext_host_name session s.wrapper.host s.world in
        let tried : (x : ℕ)
            → laws.is_open (tls.ssl_connect session (tls.set_fd session d named)).1 x
              ≡ laws.is_open s.world x =
          λ x.
            silent.at_ssl_connect session (tls.set_fd session d named) x
            ∙ silent.at_set_fd session d named x
            ∙ silent.at_host_name session s.wrapper.host s.world x in
        let w = (tls.ssl_connect session (tls.set_fd session d named)).1 in
        elim (Bool-cases (tls.ssl_connect session (tls.set_fd session d named)).0) [
          | inl up ↦
              rw (up, handshake)
                record {
                  owned =
                      same-Owns ⦃os = tls.os⦄ laws
                        (λ x.
                          laws.at_set_nonblocking d (tls.os.freeaddrinfo w) x
                          ∙ laws.at_freeaddrinfo w x
                          ∙ tried x)
                        own;
                  told = inl (d, refl, e);
                }
          | inr down ↦
              rw (down, handshake)
                record {
                  owned =
                      same-Owns ⦃os = tls.os⦄ laws (λ x. silent.at_clear_errors w x ∙ tried x) own;
                  told = inr refl;
                }
        ]

    secure-Opened :
        (base : ℕ → Bool) (fd : Option ℕ) (s : Held)
        → s.wrapper.sockfd ≡ fd
        → Own base s.wrapper.sockfd s.world
        → Opened base (secure fd s)
    unfolding secure
    secure-Opened base none s e own = record { owned = own; told = inr refl }
    secure-Opened base (some d) s e own =
        let (ctx, w) = tls.ctx_new s.world in
        let started : Own base s.wrapper.sockfd (tls.ssl_new ctx w).1 =
          same-Owns ⦃os = tls.os⦄ laws
            (λ x. silent.at_ssl_new ctx w x ∙ silent.at_ctx_new s.world x) own in
        elim (Option-cases (tls.ssl_new ctx w).0) [
          | inl nothing ↦ rw (nothing, secure) record { owned = started; told = inr refl }
          | inr (session, made) ↦
              rw (made, secure)
                (handshake-Opened base d session
                  (record s {
                    wrapper = record s.wrapper { ctx = ctx; ssl = (tls.ssl_new ctx w).0 };
                    world = (tls.ssl_new ctx w).1;
                  })
                  e started)
        ]

    connect_to-Opened :
        (base : ℕ → Bool) (addresses : Option (List tls.os.Address)) (s : Held)
        → s.wrapper.sockfd ≡ none
        → Own base none s.world
        → Opened base (connect_to addresses s)
    unfolding connect_to
    connect_to-Opened base none s e own = record {
      owned = subst (λ fd. Own base fd s.world) (sym e) own;
      told = inr refl;
    }
    connect_to-Opened base (some addresses) s e own =
        secure-Opened base _ _ refl (connect_each-Owns addresses s e own)

    construct-Opened :
        (base : ℕ → Bool) (host : List ℕ) (port : ℕ) (w : World)
        → ((d : ℕ) → laws.is_open w d ≡ base d)
        → Opened base (construct host port w)
    unfolding construct connect
    construct-Opened base host port w h = connect_to-Opened base _ _ refl record {
      counted = λ d. laws.at_getaddrinfo host (some port) w d ∙ h d;
      apart = λ n e. absurd cc;
    }

    free_ctx-Owns :
        {base : ℕ → Bool} {fd : Option ℕ} (ctx : Option tls.Ctx) (w : World)
        → Own base fd w
        → Own base fd (free_ctx ctx w)
    free_ctx-Owns none w own = own
    free_ctx-Owns (some c) w own = same-Owns ⦃os = tls.os⦄ laws (silent.at_ctx_free c w) own

    free_ssl-Owns :
        {base : ℕ → Bool} {fd : Option ℕ} (ssl : Option tls.Ssl) (w : World)
        → Own base fd w
        → Own base fd (free_ssl ssl w)
    free_ssl-Owns none w own = own
    free_ssl-Owns (some l) w own =
        same-Owns ⦃os = tls.os⦄ laws
          (λ d. silent.at_ssl_free l (tls.shutdown l w) d ∙ silent.at_shutdown l w d) own

    -- What `socket = SSLSocketWrapper(host, port)` leaves, from `s`, where the temporary is `made`.
    pub record Reopened (base : ℕ → Bool) (s : Held) (made : SslSocketWrapper)
        (r : Result (Unit {0}) × Held) : Type 0 where
      pub leaked : Option ℕ
      pub owned : Own (λ d. mine leaked d || base d) r.1.wrapper.sockfd r.1.world
      pub told :
          ((d : ℕ) × (r.0 ≡ ok tt) × (r.1.wrapper.sockfd ≡ some d) × (leaked ≡ none))
          ⊎ ((r.0 ≡ throw socket_error) × (r.1.wrapper ≡ s.wrapper) × (leaked ≡ made.sockfd))

    assigned-Reopened :
        (base : ℕ → Bool) (s : Held) (r : Result (Unit {0})) (made : Held)
        → Own base s.wrapper.sockfd s.world
        → Opened (λ d. mine s.wrapper.sockfd d || base d) (r, made)
        → Reopened base s made.wrapper (assigned made.wrapper r (record s { world = made.world }))
    unfolding assigned move_assign disconnect
    assigned-Reopened base s (ok _) made own opened = record {
      leaked = none;
      owned = free_ssl-Owns s.wrapper.ssl _ (
          free_ctx-Owns s.wrapper.ctx _ (
            replace-Owns ⦃os = tls.os⦄ laws base s.wrapper.sockfd made.wrapper.sockfd made.world
              own.apart opened.owned));
      told = elim opened.told [ inl (d, r, fd) ↦ inl (d, refl, fd, refl) | inr e ↦ absurd cc ];
    }
    assigned-Reopened base s (throw x) made own opened = elim opened.told [
      | inl (d, r, fd) ↦ absurd cc
      | inr e ↦ record {
        leaked = made.wrapper.sockfd;
        owned =
            swap-Owns ⦃os = tls.os⦄ laws base s.wrapper.sockfd made.wrapper.sockfd made.world
              own.apart opened.owned;
        told = inr (e, refl, refl);
      }
    ]

    -- Over documented system calls and an OpenSSL that opens and closes no descriptor, from a
    -- wrapper that holds at most one descriptor besides those of `base`, assigning a new TLS
    -- wrapper made for a host and a port either returns, and the open descriptors are those of
    -- `base` and the new one, or throws, leaves the wrapper as it was, and the open descriptors
    -- are those of `base`, the wrapper's and, if it has one, that of the temporary whose
    -- constructor threw.
    pub open_socket-Reopened :
        (base : ℕ → Bool) (host : List ℕ) (port : ℕ) (s : Held)
        → Own base s.wrapper.sockfd s.world
        → Reopened base s (construct host port s.world).1.wrapper (open_socket host port s)
    unfolding open_socket
    open_socket-Reopened base host port s own =
        assigned-Reopened base s _ _ own
          (construct-Opened (λ d. mine s.wrapper.sockfd d || base d) host port s.world own.counted)
