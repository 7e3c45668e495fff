-- ===== src/FrameBuffer/Reads.antt =====
-- Bytes that a socket stores behind those of a buffer (single_header/fastws.hpp).
use fast_websocket_client.Base.{
  ℕ, ◌+◌, ◌≤◌, ◌≡◌, ap, ◌∙◌, List, ◌++◌, Option, some, arith, length, length-splice, take-splice,
  splice,
}
use fast_websocket_client.FrameBuffer.{
  FrameBuffer, capacity, view, ensure_extra_space, claim_space, receive_at_tail,
}
use fast_websocket_client.FrameBuffer.Writes.{ensure_fit-view, capacity-ensure_fit, ptr-ensure_fit}

-- `r` holds the buffer that has the bytes that came, once they are claimed.
pub record Stores (b : FrameBuffer) (came : List ℕ) (r : Option FrameBuffer) : Type 0 where
  pub out : FrameBuffer
  pub returns : r ≡ some out
  pub appended : view (claim_space out (length came)) ≡ view b ++ came
  pub moved : out.ptr ≡ b.ptr
  pub within : out.ptr + length came ≤ capacity out

pub receive_at_tail-Stores :
    (b : FrameBuffer) (hint : ℕ) (came : List ℕ)
    → b.ptr ≤ capacity b
    → length came ≤ hint
    → Stores b came (receive_at_tail (ensure_extra_space b hint) came)
unfolding receive_at_tail
receive_at_tail-Stores b hint came h fits =
    let roomy = ensure_extra_space b hint in
    let room : b.ptr + hint ≤ capacity roomy = capacity-ensure_fit b (b.ptr + hint) in
    let same : roomy.ptr ≡ b.ptr = ptr-ensure_fit b (b.ptr + hint) in
    record {
      out = record roomy { buf = splice roomy.buf roomy.ptr came };
      returns = ground arith;
      appended =
          take-splice roomy.buf roomy.ptr came (omega arith)
          ∙ ap (λ v. v ++ came) (ensure_fit-view b (b.ptr + hint) h);
      moved = same;
      within = omega (arith, length-splice roomy.buf roomy.ptr came);
    }
