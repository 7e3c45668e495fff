-- ===== src/Socket.antt =====
-- What `WSClient` asks of its template argument `SocketType<false>` (include/fastws/fastws.hpp), and of
-- the clock, the timer, `sleep_for`, OpenSSL and the random numbers. `World` is all of their state.
use fast_websocket_client.Base.{ℕ, ◌+◌, ◌≤◌, ◌≡◌, ◌≢◌, ◌≤◌, Bool, List, ◌++◌, length, ltb}
use fast_websocket_client.Exec.{Error, fault, Result, ok, throw, Exec}
use fast_websocket_client.Exec.Keeps.{Allowed}
use fast_websocket_client.FrameBuffer.{FrameBuffer, view, capacity}

pub record Platform : Type 1 where
  pub World : Type 0
  -- `m_socket = SocketType<false>(host, port)`
  pub open_socket : List ℕ → ℕ → Exec World (Unit {0})
  pub send : List ℕ → Exec World (Unit {0})
  -- The bytes of the `std::string_view` that `read(n)` returns.
  pub read : ℕ → Exec World (List ℕ)
  -- `read_into(frame_buffer, chunk_size_hint)`, with the buffer that it leaves.
  pub read_into : FrameBuffer → ℕ → Exec World (Bool × FrameBuffer)
  -- A reading of the clock of `plf::nanotimer`, in nanoseconds.
  pub clock : World → ℕ × World
  -- 100 milliseconds pass.
  pub sleep : World → World
  pub random_byte : World → ℕ × World
  pub base64 : List ℕ → List ℕ

-- What `read_into` leaves of a buffer: the bytes that came are behind the others, and `true` means that
-- there are some.
pub record Received (b : FrameBuffer) (new_data : Bool) (b' : FrameBuffer) : Type 0 where
  pub came : List ℕ
  pub appended : view b' ≡ view b ++ came
  pub moved : b'.ptr ≡ b.ptr + length came
  pub within : b'.ptr ≤ capacity b'
  pub told : new_data ≡ ltb 0 (length came)

abbrev pub NoFault : Error → Type 0
NoFault e = e ≢ fault

-- What `read_into` may do to a buffer.
abbrev pub Filled : FrameBuffer → Result (Bool × FrameBuffer) → Type 0
Filled b (ok (new_data, b')) = Received b new_data b'
Filled b (throw e) = NoFault e

-- A socket that never stores outside a vector, and whose `read_into` stores behind the bytes of the
-- buffer. `SocketWrapper` and `SSLSocketWrapper` are such.
pub record Reliable (p : Platform) : Type 0 where
  pub at_open :
      (host : List ℕ) (port : ℕ) (w : p.World) → Allowed NoFault (p.open_socket host port w).0
  pub at_send : (bytes : List ℕ) (w : p.World) → Allowed NoFault (p.send bytes w).0
  pub at_read : (n : ℕ) (w : p.World) → Allowed NoFault (p.read n w).0
  pub at_read_into :
      (b : FrameBuffer) (hint : ℕ) (w : p.World)
      → b.ptr ≤ capacity b
      → Filled b (p.read_into b hint w).0
