-- ===== src/FrameParser/Abstract/Shape.antt =====
-- What each stage of the pass does with enough bytes, and with too few.
use fast_websocket_client.Base.{
  ℕ, ◌*◌, ◌≤◌, ◌<◌, bit_and, bit_or, ◌≡◌, refl, List, [], ◌∷◌, arith, if◌then◌else◌, ◌==◌, length,
  drop, get_or,
}
use fast_websocket_client.Frame.{Frame, MaskingKey, opcode_of}
use fast_websocket_client.FrameParser.{
  Machine, fin_bit, opcode, mask_bit, payload_len, extended_payload_len_16, masking_key, top_bit,
}
use fast_websocket_client.FrameParser.Abstract.{
  at, data_from, key_from, body_from, length_16_from, length_64_from, length_from, mask_from,
  opcode_from, fin_from,
}

abbrev pub head : List ℕ → ℕ
head xs = get_or xs 0 0

-- Lists of bytes with enough elements, taken apart as the parser does.
pub fin_from_more :
    ⦃m : Machine⦄ (f : Frame) (n : ℕ) (xs : List ℕ)
    → 1 ≤ length xs
    → fin_from f n xs ≡ opcode_from (record f { fin = top_bit (head xs) }) n xs
unfolding fin_from
fin_from_more f n [] h = absurd (omega arith)
fin_from_more f n (x ∷ xs) h = refl

pub opcode_from_more :
    ⦃m : Machine⦄ (f : Frame) (n : ℕ) (xs : List ℕ)
    → 1 ≤ length xs
    → opcode_from f n xs
      ≡ mask_from (record f { opcode = opcode_of (bit_and (head xs) 0x0f) }) n (drop 1 xs)
unfolding opcode_from
opcode_from_more f n [] h = absurd (omega arith)
opcode_from_more f n (x ∷ xs) h = refl

pub mask_from_more :
    ⦃m : Machine⦄ (f : Frame) (n : ℕ) (xs : List ℕ)
    → 1 ≤ length xs
    → mask_from f n xs ≡ length_from (record f { mask = top_bit (head xs) }) n xs
unfolding mask_from
mask_from_more f n [] h = absurd (omega arith)
mask_from_more f n (x ∷ xs) h = refl

pub length_from_more :
    ⦃m : Machine⦄ (f : Frame) (n : ℕ) (xs : List ℕ)
    → 1 ≤ length xs
    → length_from f n xs ≡ (
        if bit_and (head xs) 0x7f == 126
        then length_16_from f n (drop 1 xs)
        else if bit_and (head xs) 0x7f == 127
        then length_64_from f n (drop 1 xs)
        else body_from f (bit_and (head xs) 0x7f) (drop 1 xs))
unfolding length_from
length_from_more f n [] h = absurd (omega arith)
length_from_more f n (x ∷ xs) h = refl

pub length_16_from_more :
    (f : Frame) (n : ℕ) (xs : List ℕ)
    → 2 ≤ length xs
    → length_16_from f n xs ≡ body_from f (bit_or (head xs * 256) (head (drop 1 xs))) (drop 2 xs)
unfolding length_16_from
length_16_from_more f n [] h = absurd (omega arith)
length_16_from_more f n (x ∷ []) h = absurd (omega arith)
length_16_from_more f n (x ∷ y ∷ xs) h = refl

abbrev pub key_of : List ℕ → MaskingKey
key_of xs = record {
  k0 = head xs;
  k1 = head (drop 1 xs);
  k2 = head (drop 2 xs);
  k3 = head (drop 3 xs);
}

pub key_from_more :
    (f : Frame) (n : ℕ) (xs : List ℕ)
    → 4 ≤ length xs
    → key_from f n xs ≡ data_from (record f { masking_key = key_of xs }) n (drop 4 xs)
unfolding key_from
key_from_more f n [] h = absurd (omega arith)
key_from_more f n (a ∷ []) h = absurd (omega arith)
key_from_more f n (a ∷ b ∷ []) h = absurd (omega arith)
key_from_more f n (a ∷ b ∷ c ∷ []) h = absurd (omega arith)
key_from_more f n (a ∷ b ∷ c ∷ d ∷ xs) h = refl

-- And with too few, where it waits.
pub key_from_wait :
    (f : Frame) (n : ℕ) (xs : List ℕ) → length xs < 4 → key_from f n xs ≡ at masking_key f n xs
unfolding key_from
key_from_wait f n [] h = refl
key_from_wait f n (a ∷ []) h = refl
key_from_wait f n (a ∷ b ∷ []) h = refl
key_from_wait f n (a ∷ b ∷ c ∷ []) h = refl
key_from_wait f n (a ∷ b ∷ c ∷ d ∷ xs) h = absurd (omega arith)

pub length_16_from_wait :
    (f : Frame) (n : ℕ) (xs : List ℕ)
    → length xs < 2
    → length_16_from f n xs ≡ at extended_payload_len_16 f n xs
unfolding length_16_from
length_16_from_wait f n [] h = refl
length_16_from_wait f n (a ∷ []) h = refl
length_16_from_wait f n (a ∷ b ∷ xs) h = absurd (omega arith)

pub fin_from_wait :
    ⦃m : Machine⦄ (f : Frame) (n : ℕ) (xs : List ℕ)
    → length xs < 1
    → fin_from f n xs ≡ at fin_bit f n xs
unfolding fin_from
fin_from_wait f n [] h = refl
fin_from_wait f n (x ∷ xs) h = absurd (omega arith)

pub opcode_from_wait :
    ⦃m : Machine⦄ (f : Frame) (n : ℕ) (xs : List ℕ)
    → length xs < 1
    → opcode_from f n xs ≡ at opcode f n xs
unfolding opcode_from
opcode_from_wait f n [] h = refl
opcode_from_wait f n (x ∷ xs) h = absurd (omega arith)

pub mask_from_wait :
    ⦃m : Machine⦄ (f : Frame) (n : ℕ) (xs : List ℕ)
    → length xs < 1
    → mask_from f n xs ≡ at mask_bit f n xs
unfolding mask_from
mask_from_wait f n [] h = refl
mask_from_wait f n (x ∷ xs) h = absurd (omega arith)

pub length_from_wait :
    ⦃m : Machine⦄ (f : Frame) (n : ℕ) (xs : List ℕ)
    → length xs < 1
    → length_from f n xs ≡ at payload_len f n xs
unfolding length_from
length_from_wait f n [] h = refl
length_from_wait f n (x ∷ xs) h = absurd (omega arith)
