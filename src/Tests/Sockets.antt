-- ===== src/Tests/Sockets.antt =====
-- The sockets (include/fastws/socket_wrapper.hpp) over a small kernel.
use fast_websocket_client.Base.{
  ℕ, ◌+◌, ◌≤◌, ◌≡◌, refl, ap, Bool, true, false, not, ◌&&◌, ◌||◌, List, [], ◌∷◌, ◌++◌, none, some,
  Bool-cases, inl, inr, arith, ltb, lt→ltb, le→ltb_false, ◌==◌, ==_iff, length, take-all,
}
use fast_websocket_client.Exec.{throw, no_progress}
use fast_websocket_client.Os.{Os, Documented, Sent, Receipt}
use fast_websocket_client.SocketWrapper.{Held, unconnected, open_socket, send}
use fast_websocket_client.SocketWrapper.Descriptors.{Owns}
use fast_websocket_client.SocketWrapper.Assignment.{Replaced, open_socket-Replaced}
use fast_websocket_client.SocketWrapper.Transfers.{Delivers, send-Delivers}
use fast_websocket_client.SslSocketWrapper.{Tls}
use fast_websocket_client.SslSocketWrapper
use fast_websocket_client.SslSocketWrapper.Transfers.{send_loop-spins}

-- The descriptors below `count` were given out, and `shut` tells those that were closed.
pub record Kernel : Type 0 where
  pub count : ℕ
  pub shut : ℕ → Bool
  pub taken : List ℕ

instance abbrev pub kernel_os : Os
kernel_os = record {
  World = Kernel;
  Address = Unit {0};
  getaddrinfo = λ host port w. (some (tt ∷ []), w);
  freeaddrinfo = λ w. w;
  socket = λ a w.
      (some w.count, record w { count = w.count + 1; shut = λ d. w.shut d && not (d == w.count) });
  set_nodelay = λ d w. w;
  connect = λ d a w. (true, w);
  set_nonblocking = λ d w. w;
  close = λ n w. record w { shut = λ d. w.shut d || (d == n) };
  send = λ fd bytes w. (Sent.accepted (length bytes), record w { taken = w.taken ++ bytes });
  recv = λ fd n w. (Receipt.came [], w);
  moved_from = λ text. [];
}

abbrev holds : Kernel → ℕ → Bool
holds w d = ltb d w.count && not (w.shut d)

new_one : (s : Bool) → not (s && false) ≡ true
new_one true = refl
new_one false = refl

old_one : (s : Bool) → s && true ≡ s
old_one true = refl
old_one false = refl

given_out : (w : Kernel) (d : ℕ) → holds (kernel_os.socket tt w).1 d ≡ (d == w.count) || holds w d
given_out w d = elim (Bool-cases (d == w.count)) [
  | inl new ↦
      let below : ltb d (w.count + 1) ≡ true =
        lt→ltb _ _ (omega (arith, (==_iff d w.count).0 new)) in
      rw (new, below) (new_one (w.shut d))
  | inr other ↦
      let same : ltb d (w.count + 1) ≡ ltb d w.count = ground arith in
      rw (other, same) (ap (λ s. ltb d w.count && not s) (old_one (w.shut d)))
]

shut_one : (b s e : Bool) → b && not (s || e) ≡ not e && (b && not s)
shut_one false s true = refl
shut_one false s false = refl
shut_one true true true = refl
shut_one true true false = refl
shut_one true false true = refl
shut_one true false false = refl

pub kernel_os-Documented : Documented kernel_os
kernel_os-Documented = record {
  is_open = holds;
  stream = λ w. w.taken;
  at_getaddrinfo = λ h p w d. refl;
  at_freeaddrinfo = λ w d. refl;
  at_set_nodelay = λ n w d. refl;
  at_set_nonblocking = λ n w d. refl;
  at_connect = λ n a w d. refl;
  at_socket_none = λ a w d e. absurd cc;
  at_socket = λ a w n d e.
      let same : w.count ≡ n = count_is w n e in
      (rw (← same) (fresh w), rw (← same) (given_out w d));
  at_close = λ n w d. shut_one (ltb d w.count) (w.shut d) (d == n);
  at_send = λ fd bytes w n pos e.
      let all : length bytes ≡ n = all_taken bytes n e in
      (omega arith, omega arith, rw (← all, take-all (length bytes) bytes (omega arith)));
  at_send_blocked = λ fd bytes w e. absurd cc;
  at_send_refused = λ fd bytes w e. absurd cc;
  at_send_open = λ fd bytes w d. refl;
  at_recv_open = λ fd n w d. refl;
  at_recv = λ fd n w bytes e. nothing_came bytes n e;
}
  where
    count_is : (w : Kernel) (n : ℕ) → some w.count ≡ some n → w.count ≡ n
    count_is w n e = cc

    fresh : (w : Kernel) → holds w w.count ≡ false
    fresh w = let over : ltb w.count w.count ≡ false = le→ltb_false _ _ (omega arith) in rw over

    all_taken :
        (bytes : List ℕ) (n : ℕ) → Sent.accepted (length bytes) ≡ Sent.accepted n → length bytes ≡ n
    all_taken bytes n e = cc

    nothing_came :
        (bytes : List ℕ) (n : ℕ) → Receipt.came [] ≡ Receipt.came bytes → length bytes ≤ n
    nothing_came bytes n e = let same : [] ≡ bytes = cc in rw (← same) (omega arith)

-- The process has one descriptor, 0, which is no wrapper's.
abbrev pub booted : Held Kernel
booted = record {
  wrapper = unconnected;
  world = record { count = 1; shut = λ d. false; taken = [] };
}

abbrev pub base : ℕ → Bool
base d = kernel_os-Documented.is_open booted.world d

pub booted-Owns : Owns kernel_os-Documented base booted.wrapper.sockfd booted.world
booted-Owns = record { counted = λ d. refl; apart = λ n e. absurd cc }

open_socket-Replaced_example :
    Replaced kernel_os-Documented base (49 ∷ []) 80 booted (open_socket (49 ∷ []) 80 booted)
open_socket-Replaced_example =
    open_socket-Replaced kernel_os-Documented base (49 ∷ []) 80 booted booted-Owns

send-Delivers_example :
    Delivers kernel_os-Documented (1 ∷ 2 ∷ []) 0 booted.world (send (1 ∷ 2 ∷ []) booted)
send-Delivers_example = send-Delivers kernel_os-Documented (1 ∷ 2 ∷ []) booted (omega arith)

-- An OpenSSL whose writes answer 0, and whose reads give one byte.
instance abbrev pub idle_tls : Tls
idle_tls = record {
  os = kernel_os;
  Ctx = Unit {0};
  Ssl = Unit {0};
  ctx_new = λ w. (some tt, w);
  ctx_free = λ ctx w. w;
  ssl_new = λ ctx w. (some tt, w);
  ssl_free = λ ssl w. w;
  set_tlsext_host_name = λ ssl host w. w;
  get_fd = λ ssl w. none;
  set_fd = λ ssl fd w. w;
  ssl_connect = λ ssl w. (true, w);
  clear_errors = λ w. w;
  shutdown = λ ssl w. w;
  write = λ ssl bytes w. (Sent.accepted 0, w);
  read_ex = λ ssl n w. (7 ∷ [], w);
}

abbrev ssl_booted : SslSocketWrapper.Held
ssl_booted = record { wrapper = SslSocketWrapper.unconnected; world = booted.world }

send_loop-spins_example :
    (SslSocketWrapper.send_loop 9 (1 ∷ 2 ∷ []) 0 ssl_booted).0 ≡ throw no_progress
send_loop-spins_example = send_loop-spins 9 1 (2 ∷ []) 0 ssl_booted (λ ssl bytes w. refl)
