-- ===== src/Bits.antt =====
-- What the library needs of `|`, `&` and `^` on unsigned integers, as arithmetic.
mod Digits
use fast_websocket_client.Base.{
  ℕ, zero, suc, ◌+◌, ◌-◌, ◌*◌, ◌/◌, ◌%◌, ◌^◌, ◌≤◌, ◌<◌, bit_and, bit_or, bit_xor, ◌≡◌, refl, ap,
  arith,
}
use native.Mathlib.Nat.{pow-suc, one-le-pow}
use Digits.{or-digit, and-digit, xor-digit}

-- Halving as a measure: a property that passes from `a / 2` to `a` holds of every number.
by_halves {ℓ} :
    (P : ℕ → Type ℓ) → P 0 → ((a : ℕ) → P ((suc a) / 2) → P (suc a)) → (fuel a : ℕ) → a ≤ fuel → P a
by_halves P base up fuel zero h = base
by_halves P base up zero (suc a) h = absurd (omega arith)
by_halves P base up (suc fuel) (suc a) h = up a (by_halves P base up fuel (suc a / 2) (omega arith))

bit_or-zero : (a : ℕ) → bit_or a 0 ≡ a
bit_or-zero a =
    by_halves (λ n. bit_or n 0 ≡ n) refl (λ n ih. omega (arith, or-digit (suc n) 0)) a a
      (omega arith)

bit_and-zero : (a : ℕ) → bit_and a 0 ≡ 0
bit_and-zero a =
    by_halves (λ n. bit_and n 0 ≡ 0) refl (λ n ih. omega (arith, and-digit (suc n) 0)) a a
      (omega arith)

-- Bits that overlap in no place add up.
pub bit_or_fields : (k high low : ℕ) → low < 2 ^ k → bit_or (high * 2 ^ k) low ≡ high * 2 ^ k + low
bit_or_fields zero high low h = ground (arith, bit_or-zero high)
bit_or_fields (suc k) high low h = ground (
  arith,
  or-digit (high * 2 ^ suc k) low,
  pow-suc 2 k,
  ap (λ (t : ℕ). high * t) (pow-suc 2 k),
  bit_or_fields k high (low / 2) (omega (arith, pow-suc 2 k)),
)

-- Masking with `k` ones keeps the remainder by `2 ^ k`.
bit_and_split : (k high low : ℕ) → low < 2 ^ k → bit_and (high * 2 ^ k + low) (2 ^ k - 1) ≡ low
bit_and_split zero high low h = ground (arith, bit_and-zero (high * 1 + low))
bit_and_split (suc k) high low h = ground (
  arith,
  and-digit (high * 2 ^ suc k + low) (2 ^ suc k - 1),
  pow-suc 2 k,
  one-le-pow k 2,
  ap (λ (t : ℕ). high * t) (pow-suc 2 k),
  bit_and_split k high (low / 2) (omega (arith, pow-suc 2 k)),
)

pub bit_and_mask : (k a : ℕ) → bit_and a (2 ^ k - 1) ≡ a % 2 ^ k
bit_and_mask k a = ground (arith, one-le-pow k 2, bit_and_split k (a / 2 ^ k) (a % 2 ^ k))

xor_twice_below : (fuel a k : ℕ) → a ≤ fuel → k ≤ fuel → bit_xor (bit_xor a k) k ≡ a
xor_twice_below zero zero zero ha hk = refl
xor_twice_below zero zero (suc k) ha hk = absurd (omega arith)
xor_twice_below zero (suc a) k ha hk = absurd (omega arith)
xor_twice_below (suc fuel) a k ha hk =
    let e : bit_xor a k / 2 ≡ bit_xor (a / 2) (k / 2) = omega (arith, xor-digit a k) in
    let ih : bit_xor (bit_xor a k / 2) (k / 2) ≡ a / 2 =
      rw e (xor_twice_below fuel (a / 2) (k / 2) (omega arith) (omega arith)) in
    omega (arith, xor-digit (bit_xor a k) k, xor-digit a k)

-- Applying the same mask twice gives the number back.
pub bit_xor_twice : (a k : ℕ) → bit_xor (bit_xor a k) k ≡ a
bit_xor_twice a k = xor_twice_below (a + k) a k (omega arith) (omega arith)

-- Exclusive or stays within the width of its arguments.
pub bit_xor-lt : (w a k : ℕ) → a < 2 ^ w → k < 2 ^ w → bit_xor a k < 2 ^ w
bit_xor-lt zero zero zero ha hk = omega arith
bit_xor-lt zero zero (suc k) ha hk = absurd (omega arith)
bit_xor-lt zero (suc a) k ha hk = absurd (omega arith)
bit_xor-lt (suc w) a k ha hk = omega (
  arith,
  xor-digit a k,
  pow-suc 2 w,
  bit_xor-lt w (a / 2) (k / 2) (omega (arith, pow-suc 2 w)) (omega (arith, pow-suc 2 w)),
)
