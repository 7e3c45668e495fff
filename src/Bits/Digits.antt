-- ===== src/Bits/Digits.antt =====
-- The native bit operations, one binary digit at a time.
use Prim.Native.Nat.{max, digits, bitwise, differ, bit_and-bitwise, bit_or-bitwise, bit_xor-bitwise}
use fast_websocket_client.Base.{
  ℕ, zero, suc, ◌+◌, ◌*◌, ◌/◌, ◌%◌, ◌≤◌, ◌<◌, min, bit_and, bit_or, bit_xor, ◌≡◌, refl, arith,
}

module _ (end : ℕ → ℕ) (digit : ℕ → ℕ → ℕ) where
  -- Any fuel that bounds the first number gives the same digits.
  digits-fuel : (m n a b : ℕ) → a ≤ m → a ≤ n → digits end digit m a b ≡ digits end digit n a b
  digits-fuel zero zero zero b hm hn = refl
  digits-fuel zero (suc n) zero b hm hn = refl
  digits-fuel (suc m) zero zero b hm hn = refl
  digits-fuel (suc m) (suc n) zero b hm hn = refl
  digits-fuel zero n (suc a) b hm hn = absurd (omega arith)
  digits-fuel (suc m) zero (suc a) b hm hn = absurd (omega arith)
  digits-fuel (suc m) (suc n) (suc a) b hm hn =
      rw (digits-fuel m n (suc a / 2) (b / 2) (omega arith) (omega arith))

  peel :
      (a b : ℕ)
      → bitwise end digit (suc a) b
        ≡ bitwise end digit (suc a / 2) (b / 2) * 2 + digit (suc a % 2) (b % 2)
  peel a b = rw (digits-fuel a (suc a / 2) (suc a / 2) (b / 2) (omega arith) (omega arith))

pub or-digit : (a b : ℕ) → bit_or a b ≡ bit_or (a / 2) (b / 2) * 2 + max (a % 2) (b % 2)
or-digit zero b = simp bit_or-bitwise (omega arith)
or-digit (suc a) b = simp bit_or-bitwise (peel (λ y. y) max a b)

pub and-digit : (a b : ℕ) → bit_and a b ≡ bit_and (a / 2) (b / 2) * 2 + min (a % 2) (b % 2)
and-digit zero b = simp bit_and-bitwise (omega arith)
and-digit (suc a) b = simp bit_and-bitwise (peel (λ y. 0) min a b)

differ-mod : (x y : ℕ) → x < 2 → y < 2 → differ x y ≡ (x + y) % 2
differ-mod zero y hx hy = omega arith
differ-mod (suc zero) zero hx hy = refl
differ-mod (suc zero) (suc zero) hx hy = refl
differ-mod (suc zero) (suc (suc y)) hx hy = absurd (omega arith)
differ-mod (suc (suc x)) y hx hy = absurd (omega arith)

pub xor-digit : (a b : ℕ) → bit_xor a b ≡ bit_xor (a / 2) (b / 2) * 2 + (a % 2 + b % 2) % 2
xor-digit zero b = simp bit_xor-bitwise (omega arith)
xor-digit (suc a) b =
    simp bit_xor-bitwise
      (rw (← differ-mod (suc a % 2) (b % 2) (omega arith) (omega arith)) (peel (λ y. y) differ a b))
