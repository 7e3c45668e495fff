-- ===== src/FrameBuffer.antt =====
-- `wsframe::FrameBuffer` (single_header/fastws.hpp): a growing byte vector and a write position.
-- `none` is an access outside the vector, which the unchecked writes of the code leave undefined.
-- Sizes are numbers of bytes of live objects, so a sum of two of them does not wrap.
pub mod Writes
pub mod Reads
use fast_websocket_client.Base.{
  ℕ, ◌+◌, ◌-◌, List, [], ◌∷◌, ◌++◌, Option, none, some, ◌>>=◌, if◌then◌else◌, ltb, leb, length,
  take, drop, set, replicate, splice,
}

-- `m_buf` with its `size()` elements, and `m_ptr`.
pub record FrameBuffer : Type 0 where
  pub buf : List ℕ
  pub ptr : ℕ

-- The constructor: `m_buf(initial_capacity)` is that many zeros.
abbrev pub initial : ℕ → FrameBuffer
initial capacity = record { buf = replicate capacity 0; ptr = 0 }

abbrev pub capacity : FrameBuffer → ℕ
capacity b = length b.buf

abbrev pub size : FrameBuffer → ℕ
size b = b.ptr

abbrev pub reset : FrameBuffer → FrameBuffer
reset b = record b { ptr = 0 }

-- `m_buf.resize(sz)` to a greater size appends zeros.
unfoldable pub ensure_fit : FrameBuffer → ℕ → FrameBuffer
ensure_fit b sz =
    if ltb (capacity b) sz then record b { buf = b.buf ++ replicate (sz - capacity b) 0 } else b

abbrev pub ensure_extra_space : FrameBuffer → ℕ → FrameBuffer
ensure_extra_space b extra = ensure_fit b (b.ptr + extra)

unfoldable pub push_back : FrameBuffer → ℕ → Option FrameBuffer
push_back b byte =
    if ltb b.ptr (capacity b)
    then some (record b { buf = set b.buf b.ptr byte; ptr = b.ptr + 1 })
    else none

-- The index that `&m_buf[m_ptr]` points to, and the buffer with `sz` bytes claimed.
unfoldable pub get_space : FrameBuffer → ℕ → Option (ℕ × FrameBuffer)
get_space b sz =
    if ltb b.ptr (capacity b) then some (b.ptr, record b { ptr = b.ptr + sz }) else none

abbrev pub claim_space : FrameBuffer → ℕ → FrameBuffer
claim_space b sz = record b { ptr = b.ptr + sz }

-- `std::memcpy` of a whole array to an index of the vector.
unfoldable pub memcpy : FrameBuffer → ℕ → List ℕ → Option FrameBuffer
memcpy b at src =
    if leb (at + length src) (capacity b)
    then some (record b { buf = splice b.buf at src })
    else none

-- `memcpy(get_space(n), src, n)`, as `push_back` of a view and `Frame::construct` write it.
unfoldable pub copy_in : FrameBuffer → List ℕ → Option FrameBuffer
unfolding get_space memcpy
copy_in b src = get_space b (length src) >>= λ claimed. memcpy claimed.1 claimed.0 src

-- `push_back` of a `View` and of a `std::string_view`; the two bodies differ in their casts alone.
unfoldable pub push_back_view : FrameBuffer → List ℕ → Option FrameBuffer
unfolding copy_in ensure_fit
push_back_view b view = copy_in (ensure_extra_space b (length view)) view

-- `view()`: the bytes written.
abbrev pub view : FrameBuffer → List ℕ
view b = take b.ptr b.buf

-- What `recv` or `SSL_read_ex` do at `tail()`: store the bytes that came at `&m_buf[m_ptr]`.
unfoldable pub receive_at_tail : FrameBuffer → List ℕ → Option FrameBuffer
unfolding memcpy
receive_at_tail b came = memcpy b b.ptr came
