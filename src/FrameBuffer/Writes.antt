-- ===== src/FrameBuffer/Writes.antt =====
-- Writes to a buffer (single_header/fastws.hpp) that has the space for them.
use fast_websocket_client.Base.{
  ℕ, ◌+◌, ◌-◌, ◌≤◌, ◌<◌, ◌≡◌, refl, ap, ◌∙◌, List, [], ◌∷◌, ◌++◌, append_assoc, Option, some, ◌>>=◌,
  arith, length, length-append, length-splice, length-set, set-eq-splice, take-splice,
  length-replicate, ltb, Bool-cases, zero, set, replicate, inl, inr, take-append_le,
}
use fast_websocket_client.FrameBuffer.{
  FrameBuffer, capacity, view, push_back, copy_in, ensure_fit, push_back_view,
}

-- `r` is a normal return that appended `bytes` to the view and kept the vector's size.
pub record Appends (b : FrameBuffer) (bytes : List ℕ) (r : Option FrameBuffer) : Type 0 where
  pub out : FrameBuffer
  pub returns : r ≡ some out
  pub appended : view out ≡ view b ++ bytes
  pub moved : out.ptr ≡ b.ptr + length bytes
  pub kept : capacity out ≡ capacity b

-- `op` appends `bytes` wherever they fit with a byte to spare.
abbrev pub Writes : (FrameBuffer → Option FrameBuffer) → List ℕ → Type 0
Writes op bytes = (b : FrameBuffer) → b.ptr + length bytes < capacity b → Appends b bytes (op b)

pub copy_in-Appends :
    (bytes : List ℕ) (b : FrameBuffer)
    → b.ptr < capacity b
    → b.ptr + length bytes ≤ capacity b
    → Appends b bytes (copy_in b bytes)
unfolding copy_in
copy_in-Appends bytes b pos fits = record {
  out = _;
  returns = ground arith;
  appended = take-splice b.buf b.ptr bytes fits;
  moved = refl;
  kept = length-splice b.buf b.ptr bytes;
}

pub copy_in-Writes : (bytes : List ℕ) → Writes (λ b. copy_in b bytes) bytes
copy_in-Writes bytes b room = copy_in-Appends bytes b (omega arith) (omega arith)

pub push_back-Writes : (byte : ℕ) → Writes (λ b. push_back b byte) (byte ∷ [])
unfolding push_back
push_back-Writes byte b room = record {
  out = record b { buf = set b.buf b.ptr byte; ptr = b.ptr + 1 };
  returns = ground arith;
  appended =
      rw (set-eq-splice b.buf b.ptr byte) (take-splice b.buf b.ptr (byte ∷ []) (omega arith));
  moved = refl;
  kept = length-set b.buf b.ptr byte;
}

-- One write after the other.
pub Writes-then :
    (f g : FrameBuffer → Option FrameBuffer) (xs ys : List ℕ)
    → Writes f xs
    → Writes g ys
    → Writes (λ b. f b >>= g) (xs ++ ys)
Writes-then f g xs ys wf wg b room =
    let first = wf b (omega (arith, length-append xs ys)) in
    let second = wg first.out (omega (arith, length-append xs ys, first.moved, first.kept)) in
    record {
      out = second.out;
      returns = rw first.returns second.returns;
      appended = second.appended ∙ ap (λ v. v ++ ys) first.appended ∙ append_assoc (view b) xs ys;
      moved = omega (arith, first.moved, second.moved, length-append xs ys);
      kept = second.kept ∙ first.kept;
    }

-- Growing the vector leaves what was written alone, and gives the space asked for.
pub ensure_fit-view :
    (b : FrameBuffer) (sz : ℕ) → b.ptr ≤ capacity b → view (ensure_fit b sz) ≡ view b
unfolding ensure_fit
ensure_fit-view b sz h = elim (Bool-cases (ltb (capacity b) sz)) [
  | inl small ↦ rw small (take-append_le b.ptr b.buf _ h)
  | inr large ↦ rw large
]

pub capacity-ensure_fit : (b : FrameBuffer) (sz : ℕ) → sz ≤ capacity (ensure_fit b sz)
unfolding ensure_fit
capacity-ensure_fit b sz = elim (Bool-cases (ltb (capacity b) sz)) [
  | inl small ↦ rw small (
      omega (
        arith,
        length-append b.buf (replicate (sz - capacity b) 0),
        length-replicate (sz - capacity b) (zero),
      ))
  | inr large ↦ rw large (ground arith)
]

pub capacity-ensure_fit_mono : (b : FrameBuffer) (sz : ℕ) → capacity b ≤ capacity (ensure_fit b sz)
unfolding ensure_fit
capacity-ensure_fit_mono b sz = elim (Bool-cases (ltb (capacity b) sz)) [
  | inl small ↦ rw small (omega (arith, length-append b.buf (replicate (sz - capacity b) 0)))
  | inr large ↦ rw large (omega arith)
]

pub ptr-ensure_fit : (b : FrameBuffer) (sz : ℕ) → (ensure_fit b sz).ptr ≡ b.ptr
unfolding ensure_fit
ptr-ensure_fit b sz = ground arith

-- A view that is not empty is appended whole, in a vector that grows as needed.
pub push_back_view_lem :
    (b : FrameBuffer) (bytes : List ℕ)
    → b.ptr ≤ capacity b
    → 0 < length bytes
    → (out : FrameBuffer) × (push_back_view b bytes ≡ some out)
      × (view out ≡ view b ++ bytes)
      × (out.ptr ≡ b.ptr + length bytes)
      × (out.ptr ≤ capacity out)
unfolding push_back_view
push_back_view_lem b bytes h pos =
    let roomy = ensure_fit b (b.ptr + length bytes) in
    let room : b.ptr + length bytes ≤ capacity roomy =
      capacity-ensure_fit b (b.ptr + length bytes) in
    let same : roomy.ptr ≡ b.ptr = ptr-ensure_fit b (b.ptr + length bytes) in
    let done = copy_in-Appends bytes roomy (omega arith) (omega arith) in
    (
      done.out,
      done.returns,
      done.appended ∙ ap (λ v. v ++ bytes) (ensure_fit-view b (b.ptr + length bytes) h),
      omega (arith, done.moved),
      omega (arith, done.moved, done.kept),
    )
