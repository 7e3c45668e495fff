-- ===== src/FrameParser/Abstract/Window.antt =====
-- The bytes not yet read, as the buffer and as a list show them, and the stages behind the length: the
-- masking key and the payload.
use fast_websocket_client.Base.{
  ℕ, ◌+◌, ◌-◌, ◌≤◌, ◌<◌, ◌≡◌, refl, sym, ap, ◌∙◌, inl, inr, Bool, true, false, List, arith,
  if◌then◌else◌, ltb, leb, ◌==◌, Bool-cases, length, take, drop, get_or, length-take, length-drop,
  take-drop, take-take_le, get_or-take, get_or-drop, drop-drop,
}
use fast_websocket_client.FrameBuffer.{FrameBuffer, capacity, view}
use fast_websocket_client.Frame.{Frame}
use fast_websocket_client.FrameParser.{
  ParseStage, masking_key, payload_data, FrameParser, check_masking_key, check_payload_data,
}
use fast_websocket_client.FrameParser.Abstract.Shape.{head, key_from_more, key_from_wait}
use fast_websocket_client.FrameParser.Abstract.{reading, data_from, key_from}

-- A parser's state, field by field.
abbrev pub state : ParseStage → Frame → FrameBuffer → ℕ → ℕ → FrameParser
state s f b n i = record { stage = s; frame = f; frame_buffer = b; payload_length = n; ptr = i }

abbrev pub rest : FrameBuffer → ℕ → List ℕ
rest b i = drop i (view b)

-- The checks from one stage on.
abbrev pub after_key : FrameParser → FrameParser
after_key p = check_payload_data (check_masking_key p)

-- What the parser sees of a buffer is what the list of the bytes not yet read shows.
module _ (b : FrameBuffer) (fits : b.ptr ≤ capacity b) where
  pub length-rest : (i : ℕ) → length (rest b i) ≡ b.ptr - i
  length-rest i = omega (arith, length-drop i (view b), length-take b.ptr b.buf)

  pub head-rest : (i : ℕ) → i < b.ptr → get_or b.buf i 0 ≡ head (rest b i)
  head-rest i h = sym (get_or-drop i (view b) 0 ∙ get_or-take i b.ptr b.buf 0 h)

  pub rest-add : (i n : ℕ) → rest b (i + n) ≡ drop n (rest b i)
  rest-add i n = sym (drop-drop n i (view b))

  take-rest : (i n : ℕ) → n ≤ b.ptr - i → take n (drop i b.buf) ≡ take n (rest b i)
  take-rest i n h = sym (rw (take-drop i b.ptr b.buf) (take-take_le n (b.ptr - i) (drop i b.buf) h))

  pub data-refines :
      (f : Frame) (n i : ℕ)
      → reading (check_payload_data (state payload_data f b n i)) ≡ data_from f n (rest b i)
  unfolding check_payload_data data_from
  data-refines f n i = elim (Bool-cases (leb n (b.ptr - i))) [
    | inl enough ↦
        let there : ltb (length (rest b i)) n ≡ false = ground (arith, length-rest i) in
        elim (Bool-cases (n == 0)) [
          | inl nothing ↦ rw (enough, there, nothing)
          | inr some_bytes ↦
              rw (enough, there, some_bytes, take-rest i n (ground arith), rest-add i n)
        ]
    | inr short ↦
        let there : ltb (length (rest b i)) n ≡ true = ground (arith, length-rest i) in
        rw (short, there)
  ]

  pub head-rest_at :
      (i j k : ℕ) → j ≡ i + k → j < b.ptr → get_or b.buf j 0 ≡ head (drop k (rest b i))
  head-rest_at i j k e h = head-rest j h ∙ ap head (ap (rest b) e ∙ rest-add i k)

  pub rest_at : (i j k : ℕ) → j ≡ i + k → rest b j ≡ drop k (rest b i)
  rest_at i j k e = ap (rest b) e ∙ rest-add i k

  pub key-refines :
      (f : Frame) (n i : ℕ)
      → reading (after_key (state masking_key f b n i)) ≡ key_from f n (rest b i)
  unfolding check_masking_key
  key-refines f n i = elim (Bool-cases (leb 4 (b.ptr - i))) [
    | inl enough ↦
        let shape = key_from_more f n (rest b i) (ground (arith, length-rest i)) in
        rw
          (
            enough,
            shape,
            head-rest_at i i 0 (omega arith) (ground arith),
            head-rest_at i (i + 1) 1 (omega arith) (ground arith),
            head-rest_at i (i + 1 + 1) 2 (omega arith) (ground arith),
            head-rest_at i (i + 1 + 1 + 1) 3 (omega arith) (ground arith),
            ← rest_at i (i + 1 + 1 + 1 + 1) 4 (omega arith),
          )
          (data-refines _ n (i + 1 + 1 + 1 + 1))
    | inr short ↦
        rw (short, key_from_wait f n (rest b i) (ground (arith, length-rest i)))
          (unfold check_payload_data in refl)
  ]

  pub choice-refines :
      (mask : Bool) (f : Frame) (n i : ℕ)
      → reading (after_key (state (if mask then masking_key else payload_data) f b n i))
        ≡ (if mask then key_from f n (rest b i) else data_from f n (rest b i))
  unfolding check_masking_key
  choice-refines true f n i = key-refines f n i
  choice-refines false f n i = data-refines f n i
