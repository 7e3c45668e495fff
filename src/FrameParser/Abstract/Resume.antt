-- ===== src/FrameParser/Abstract/Resume.antt =====
-- The pass over bytes that come in two parts.
use fast_websocket_client.Base.{
  ℕ, zero, suc, bit_and, ◌≤◌, ◌≡◌, refl, inl, inr, Bool, true, false, List, [], ◌∷◌, ◌++◌, arith,
  if◌then◌else◌, ltb, ◌==◌, Bool-cases, length, length-append, drop, take-append_le, drop-append_le,
}
use fast_websocket_client.Frame.{Frame}
use fast_websocket_client.FrameParser.{
  Machine, ParseStage, fin_bit, opcode, mask_bit, payload_len, extended_payload_len_16,
  extended_payload_len_64, masking_key, payload_data, done, top_bit,
}
use fast_websocket_client.FrameParser.Abstract.{
  Reading, data_from, key_from, body_from, length_16_from, gather, length_64_from, length_from,
  mask_from, opcode_from, fin_from, run_from, run,
}

-- More bytes at the end of those that wait.
abbrev pub feed : Reading → List ℕ → Reading
feed r ys = record r { pending = r.pending ++ ys }

-- Where `s` is the pass over `xs` and `t` the pass over `xs ++ ys`.
abbrev Resumes : ⦃m : Machine⦄ → Reading → List ℕ → Reading → Type 0
Resumes s ys t = run (feed s ys) ≡ t

module _ ⦃m : Machine⦄ where
  choice-Resumes :
      (b : Bool) (ys : List ℕ) (s s' t t' : Reading)
      → Resumes s ys t
      → Resumes s' ys t'
      → Resumes (if b then s else s') ys (if b then t else t')
  choice-Resumes true ys s s' t t' h h' = h
  choice-Resumes false ys s s' t t' h h' = h'

  -- A frame that is complete is the same with more bytes behind it.
  data_from-Resumes :
      (f : Frame) (n : ℕ) (xs ys : List ℕ)
      → Resumes (data_from f n xs) ys (data_from f n (xs ++ ys))
  unfolding data_from run_from
  data_from-Resumes f n xs ys =
      ground (arith, length-append xs ys, take-append_le n xs ys, drop-append_le n xs ys)

  key_from-Resumes :
      (f : Frame) (n : ℕ) (xs ys : List ℕ) → Resumes (key_from f n xs) ys (key_from f n (xs ++ ys))
  unfolding key_from run_from
  key_from-Resumes f n [] ys = refl
  key_from-Resumes f n (a ∷ []) ys = refl
  key_from-Resumes f n (a ∷ b ∷ []) ys = refl
  key_from-Resumes f n (a ∷ b ∷ c ∷ []) ys = refl
  key_from-Resumes f n (a ∷ b ∷ c ∷ d ∷ xs) ys = data_from-Resumes _ n xs ys

  body_from-Resumes :
      (f : Frame) (n : ℕ) (xs ys : List ℕ)
      → Resumes (body_from f n xs) ys (body_from f n (xs ++ ys))
  body_from-Resumes f n xs ys =
      choice-Resumes f.mask ys _ _ _ _ (key_from-Resumes f n xs ys) (data_from-Resumes f n xs ys)

  length_16_from-Resumes :
      (f : Frame) (n : ℕ) (xs ys : List ℕ)
      → Resumes (length_16_from f n xs) ys (length_16_from f n (xs ++ ys))
  unfolding length_16_from run_from
  length_16_from-Resumes f n [] ys = refl
  length_16_from-Resumes f n (a ∷ []) ys = refl
  length_16_from-Resumes f n (a ∷ b ∷ xs) ys = body_from-Resumes f _ xs ys

  pub gather-append :
      (i acc : ℕ) (xs ys : List ℕ) → i ≤ length xs → gather i acc (xs ++ ys) ≡ gather i acc xs
  gather-append zero acc xs ys h = refl
  gather-append (suc i) acc [] ys h = absurd (omega arith)
  gather-append (suc i) acc (x ∷ xs) ys h = gather-append i _ xs ys (omega arith)

  length_64_from-Resumes :
      (f : Frame) (n : ℕ) (xs ys : List ℕ)
      → Resumes (length_64_from f n xs) ys (length_64_from f n (xs ++ ys))
  unfolding length_64_from run_from
  length_64_from-Resumes f n xs ys = elim (Bool-cases (ltb (length xs) 8)) [
    | inl short ↦ rw short refl
    | inr enough ↦
        let more : ltb (length (xs ++ ys)) 8 ≡ false = ground (arith, length-append xs ys) in
        rw
          (
            enough,
            more,
            gather-append 8 0 xs ys (ground arith),
            drop-append_le 8 xs ys (ground arith),
          )
          (body_from-Resumes f _ (drop 8 xs) ys)
  ]

  length_from-Resumes :
      (f : Frame) (n : ℕ) (xs ys : List ℕ)
      → Resumes (length_from f n xs) ys (length_from f n (xs ++ ys))
  unfolding length_from run_from
  length_from-Resumes f n [] ys = refl
  length_from-Resumes f n (x ∷ xs) ys =
      choice-Resumes (bit_and x 0x7f == 126) ys _ _ _ _ (length_16_from-Resumes f n xs ys) (
        choice-Resumes (bit_and x 0x7f == 127) ys _ _ _ _ (length_64_from-Resumes f n xs ys)
          (body_from-Resumes f (bit_and x 0x7f) xs ys))

  mask_from-Resumes :
      (f : Frame) (n : ℕ) (xs ys : List ℕ)
      → Resumes (mask_from f n xs) ys (mask_from f n (xs ++ ys))
  unfolding mask_from run_from
  mask_from-Resumes f n [] ys = refl
  mask_from-Resumes f n (x ∷ xs) ys = length_from-Resumes _ n (x ∷ xs) ys

  opcode_from-Resumes :
      (f : Frame) (n : ℕ) (xs ys : List ℕ)
      → Resumes (opcode_from f n xs) ys (opcode_from f n (xs ++ ys))
  unfolding opcode_from run_from
  opcode_from-Resumes f n [] ys = refl
  opcode_from-Resumes f n (x ∷ xs) ys = mask_from-Resumes _ n xs ys

  fin_from-Resumes :
      (f : Frame) (n : ℕ) (xs ys : List ℕ) → Resumes (fin_from f n xs) ys (fin_from f n (xs ++ ys))
  unfolding fin_from run_from
  fin_from-Resumes f n [] ys = refl
  fin_from-Resumes f n (x ∷ xs) ys =
      opcode_from-Resumes (record f { fin = top_bit x }) n (x ∷ xs) ys

  run_from-Resumes :
      (s : ParseStage) (f : Frame) (n : ℕ) (xs ys : List ℕ)
      → Resumes (run_from s f n xs) ys (run_from s f n (xs ++ ys))
  unfolding run_from
  run_from-Resumes fin_bit f n xs ys = fin_from-Resumes f n xs ys
  run_from-Resumes opcode f n xs ys = opcode_from-Resumes f n xs ys
  run_from-Resumes mask_bit f n xs ys = mask_from-Resumes f n xs ys
  run_from-Resumes payload_len f n xs ys = length_from-Resumes f n xs ys
  run_from-Resumes extended_payload_len_16 f n xs ys = length_16_from-Resumes f n xs ys
  run_from-Resumes extended_payload_len_64 f n xs ys = length_64_from-Resumes f n xs ys
  run_from-Resumes masking_key f n xs ys = key_from-Resumes f n xs ys
  run_from-Resumes payload_data f n xs ys = data_from-Resumes f n xs ys
  run_from-Resumes done f n xs ys = refl

  -- A pass over the bytes that are there, and another when more have come, end where one pass over
  -- all of them ends.
  pub run-feed : (r : Reading) (ys : List ℕ) → run (feed (run r) ys) ≡ run (feed r ys)
  run-feed r ys = run_from-Resumes r.stage r.frame r.payload_length r.pending ys
