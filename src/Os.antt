-- ===== src/Os.antt =====
-- The system calls that `SocketWrapper` (include/fastws/socket_wrapper.hpp) makes, as a parameter. A
-- descriptor of -1 is `none`.
use fast_websocket_client.Base.{
  ℕ, ◌≤◌, ◌<◌, ◌≡◌, Bool, false, not, ◌&&◌, ◌||◌, List, ◌++◌, Option, none, some, length, take,
  ◌==◌,
}

pub data Sent : Type 0 where
  accepted : ℕ → Sent
  blocked refused : Sent

-- `recv` stores the bytes of `came` and returns their number.
pub data Receipt : Type 0 where
  came : List ℕ → Receipt
  blocked refused : Receipt

pub record Os : Type 1 where
  pub World : Type 0
  pub Address : Type 0
  -- `none` is an error code.
  pub getaddrinfo : List ℕ → Option ℕ → World → Option (List Address) × World
  pub freeaddrinfo : World → World
  pub socket : Address → World → Option ℕ × World
  -- The result of `setsockopt` is only printed.
  pub set_nodelay : ℕ → World → World
  pub connect : ℕ → Address → World → Bool × World
  pub set_nonblocking : ℕ → World → World
  pub close : ℕ → World → World
  pub send : Option ℕ → List ℕ → World → Sent × World
  pub recv : Option ℕ → ℕ → World → Receipt × World
  -- What a string holds that was moved from.
  pub moved_from : List ℕ → List ℕ

-- What the code relies on. `is_open` tells the descriptors that the process holds, and `stream` the
-- bytes that the kernel took.
pub record Documented (os : Os) : Type 0 where
  pub is_open : os.World → ℕ → Bool
  pub stream : os.World → List ℕ
  pub at_getaddrinfo :
      (h : List ℕ) (p : Option ℕ) (w : os.World) (d : ℕ)
      → is_open (os.getaddrinfo h p w).1 d ≡ is_open w d
  pub at_freeaddrinfo : (w : os.World) (d : ℕ) → is_open (os.freeaddrinfo w) d ≡ is_open w d
  pub at_set_nodelay : (n : ℕ) (w : os.World) (d : ℕ) → is_open (os.set_nodelay n w) d ≡ is_open w d
  pub at_set_nonblocking :
      (n : ℕ) (w : os.World) (d : ℕ) → is_open (os.set_nonblocking n w) d ≡ is_open w d
  pub at_connect :
      (n : ℕ) (a : os.Address) (w : os.World) (d : ℕ) → is_open (os.connect n a w).1 d ≡ is_open w d
  -- `socket` gives a descriptor that was not open.
  pub at_socket_none :
      (a : os.Address) (w : os.World) (d : ℕ)
      → (os.socket a w).0 ≡ none
      → is_open (os.socket a w).1 d ≡ is_open w d
  pub at_socket :
      (a : os.Address) (w : os.World) (n d : ℕ)
      → (os.socket a w).0 ≡ some n
      → (is_open w n ≡ false) × (is_open (os.socket a w).1 d ≡ (d == n) || is_open w d)
  pub at_close :
      (n : ℕ) (w : os.World) (d : ℕ) → is_open (os.close n w) d ≡ not (d == n) && is_open w d
  -- `send` takes at least one byte where it takes any.
  pub at_send :
      (fd : Option ℕ) (bytes : List ℕ) (w : os.World) (n : ℕ)
      → 0 < length bytes
      → (os.send fd bytes w).0 ≡ Sent.accepted n
      → (0 < n) × (n ≤ length bytes) × (stream (os.send fd bytes w).1 ≡ stream w ++ take n bytes)
  pub at_send_blocked :
      (fd : Option ℕ) (bytes : List ℕ) (w : os.World)
      → (os.send fd bytes w).0 ≡ Sent.blocked
      → stream (os.send fd bytes w).1 ≡ stream w
  pub at_send_refused :
      (fd : Option ℕ) (bytes : List ℕ) (w : os.World)
      → (os.send fd bytes w).0 ≡ Sent.refused
      → stream (os.send fd bytes w).1 ≡ stream w
  pub at_recv :
      (fd : Option ℕ) (n : ℕ) (w : os.World) (bytes : List ℕ)
      → (os.recv fd n w).0 ≡ Receipt.came bytes
      → length bytes ≤ n
  -- `send` and `recv` open and close nothing.
  pub at_send_open :
      (fd : Option ℕ) (bytes : List ℕ) (w : os.World) (d : ℕ)
      → is_open (os.send fd bytes w).1 d ≡ is_open w d
  pub at_recv_open :
      (fd : Option ℕ) (n : ℕ) (w : os.World) (d : ℕ) → is_open (os.recv fd n w).1 d ≡ is_open w d

-- What the client uses besides its socket: the clock, the sleep of 100 milliseconds, the random numbers
-- and Base64.
pub record Surroundings (W : Type 0) : Type 0 where
  pub clock : W → ℕ × W
  pub sleep : W → W
  pub random_byte : W → ℕ × W
  pub base64 : List ℕ → List ℕ
