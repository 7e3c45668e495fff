-- ===== src/FrameParser/LengthField.antt =====
-- The parser's reading of the bytes that `Frame::construct` writes for the flags and the length.
use fast_websocket_client.Base.{
  ℕ, zero, suc, ◌+◌, ◌-◌, ◌*◌, ◌/◌, ◌%◌, ◌^◌, ◌≤◌, ◌<◌, bit_and, bit_or, ◌≡◌, refl, ◌∙◌, Bool, true,
  false, not, ◌&&◌, List, ◌∷◌, arith, lt→ltb, ◌==◌,
}
use fast_websocket_client.Bits.{bit_or_fields, bit_and_mask}
use fast_websocket_client.Frame.Wire.{flagged}
use fast_websocket_client.FrameParser.{Machine, top_bit, shift_int}
use fast_websocket_client.FrameParser.Abstract.{gather}

-- Checks a test at every number below a bound, by evaluation.
every_below : ℕ → (ℕ → Bool) → Bool
every_below zero test = true
every_below (suc n) test = test n && every_below n test

every_below-holds :
    (n : ℕ) (test : ℕ → Bool) (x : ℕ) → every_below n test ≡ true → x < n → test x ≡ true
unfolding every_below
every_below-holds zero test x h below = absurd (omega arith)
every_below-holds (suc n) test x h below = ground (arith, every_below-holds n test x)

pub top_bit-flagged : (b : Bool) (low : ℕ) → low < 128 → top_bit (flagged b low) ≡ b
unfolding top_bit every_below
top_bit-flagged true low h =
    every_below-holds 128 (λ x. not (bit_and (128 + x) 0x80 == 0)) low refl h
top_bit-flagged false low h =
    let clear = every_below-holds 128 (λ x. bit_and x 0x80 == 0) low refl h in rw clear

-- The bits below the flag.
pub low_seven : (b : Bool) (low : ℕ) → low < 128 → bit_and (flagged b low) 0x7f ≡ low
low_seven true low h = omega (arith, bit_and_mask 7 (128 + low))
low_seven false low h = omega (arith, bit_and_mask 7 low)

pub low_four : (b : Bool) (low : ℕ) → low < 16 → bit_and (flagged b low) 0x0f ≡ low
low_four true low h = omega (arith, bit_and_mask 4 (128 + low))
low_four false low h = omega (arith, bit_and_mask 4 low)

pub two_bytes : (n : ℕ) → bit_or (n / 256 * 256) (n % 256) ≡ n
two_bytes n = omega (arith, bit_or_fields 8 (n / 256) (n % 256) (omega arith))

-- The bytes of a 64-bit length, highest first.
abbrev pub eight_bytes : ℕ → List ℕ → List ℕ
eight_bytes n rest =
    n / 2 ^ 56 % 256
    ∷ n / 2 ^ 48 % 256
    ∷ n / 2 ^ 40 % 256
    ∷ n / 2 ^ 32 % 256
    ∷ n / 2 ^ 24 % 256
    ∷ n / 2 ^ 16 % 256
    ∷ n / 2 ^ 8 % 256
    ∷ n % 256
    ∷ rest

-- On this machine a shift of the byte 0 gives 0, however wide.
abbrev pub ZeroShifts : Machine → Type 0
ZeroShifts m = (k : ℕ) → m.wide_shift 0 k ≡ 0

zero-bit_or : (x : ℕ) → x < 2 ^ 64 → bit_or 0 x ≡ x
zero-bit_or x h = omega (arith, bit_or_fields 64 0 x h)

-- Three more bytes under a value whose low 24 bits are clear.
low_three :
    (t b c d : ℕ)
    → b < 256
    → c < 256
    → d < 256
    → bit_or (bit_or (bit_or (t * 2 ^ 24) (b * 2 ^ 16)) (c * 2 ^ 8)) (d * 2 ^ 0)
      ≡ t * 2 ^ 24 + b * 2 ^ 16 + c * 2 ^ 8 + d
low_three t b c d hb hc hd =
    let first : bit_or (t * 2 ^ 24) (b * 2 ^ 16) ≡ (t * 256 + b) * 2 ^ 16 =
      omega (arith, bit_or_fields 24 t (b * 2 ^ 16) (omega arith)) in
    let second : bit_or ((t * 256 + b) * 2 ^ 16) (c * 2 ^ 8) ≡ (t * 65536 + b * 256 + c) * 2 ^ 8 =
      omega (arith, bit_or_fields 16 (t * 256 + b) (c * 2 ^ 8) (omega arith)) in
    rw (first, second)
      (omega (arith, bit_or_fields 8 (t * 65536 + b * 256 + c) (d * 2 ^ 0) (omega arith)))

module _ ⦃m : Machine⦄ (zeros : ZeroShifts m) where
  shift_int-low : (byte k : ℕ) → k < 24 → shift_int byte k ≡ byte * 2 ^ k
  unfolding shift_int
  shift_int-low byte k h = rw (lt→ltb k 24 h)

  shift_int-zero : (byte k : ℕ) → byte ≡ 0 → 24 < k → shift_int byte k ≡ 0
  unfolding shift_int
  shift_int-zero byte k e h = rw e (ground (arith, zeros k))

  -- With four high bytes of 0, the rest is what the byte at 24 bits and the three below it make.
  gather-low :
      (n t : ℕ) (rest : List ℕ)
      → n < 2 ^ 32
      → shift_int (n / 2 ^ 24 % 256) 24 ≡ t * 2 ^ 24
      → t < 2 ^ 40
      → gather 8 0 (eight_bytes n rest) ≡ t * 2 ^ 24 + n % 2 ^ 24
  gather-low n t rest h e ht =
      rw
        (
          shift_int-zero (n / 2 ^ 56 % 256) 56 (omega arith) (omega arith),
          shift_int-zero (n / 2 ^ 48 % 256) 48 (omega arith) (omega arith),
          shift_int-zero (n / 2 ^ 40 % 256) 40 (omega arith) (omega arith),
          shift_int-zero (n / 2 ^ 32 % 256) 32 (omega arith) (omega arith),
          e,
          shift_int-low (n / 2 ^ 16 % 256) 16 (omega arith),
          shift_int-low (n / 2 ^ 8 % 256) 8 (omega arith),
          shift_int-low (n % 256) 0 (omega arith),
          zero-bit_or (t * 2 ^ 24) (omega arith),
        )
        (low_three t (n / 2 ^ 16 % 256) (n / 2 ^ 8 % 256) (n % 256) (omega arith) (omega arith)
            (omega arith)
          ∙ omega arith)

  pub gather-network : (n : ℕ) (rest : List ℕ) → n < 2 ^ 31 → gather 8 0 (eight_bytes n rest) ≡ n
  unfolding shift_int
  gather-network n rest h =
      gather-low n (n / 2 ^ 24) rest (omega arith) (ground arith) (omega arith) ∙ omega arith

  -- From 2 ^ 31 on the sign of the `int` is extended into the high half.
  pub gather-sign_extended :
      (n : ℕ) (rest : List ℕ)
      → 2 ^ 31 ≤ n
      → n < 2 ^ 32
      → gather 8 0 (eight_bytes n rest) ≡ n + (2 ^ 64 - 2 ^ 32)
  unfolding shift_int
  gather-sign_extended n rest lo hi =
      gather-low n (n / 2 ^ 24 + (2 ^ 40 - 2 ^ 8)) rest (omega arith) (ground arith) (omega arith)
      ∙ omega arith
