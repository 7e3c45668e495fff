-- ===== src/Base/Segments.antt =====
-- Overwriting a run of a list.
use Prim.Native.Nat.{ℕ, zero, suc, ◌+◌, ◌≤◌}
use mathlib.Core.Path.{◌≡◌, refl, ap}
use mathlib.Core.List.{List, [], ◌∷◌, ◌++◌, append-nil}
use native.Mathlib.Nat.{zero-add, suc-add, add-zero}
use native.Mathlib.Omega.{arith}
use fast_websocket_client.Base.Lists.{length, set, take}

module _ {ℓ} {A : Type ℓ} where
  -- `std::memcpy` of `src` to index `i` of `dst`; what does not fit is cut off.
  abbrev pub splice : List A → ℕ → List A → List A
  splice dst i [] = dst
  splice [] i (y ∷ src) = []
  splice (x ∷ dst) zero (y ∷ src) = y ∷ splice dst zero src
  splice (x ∷ dst) (suc i) (y ∷ src) = x ∷ splice dst i (y ∷ src)

  pub length-splice : (dst : List A) (i : ℕ) (src : List A) → length (splice dst i src) ≡ length dst
  length-splice dst i [] = refl
  length-splice [] i (y ∷ src) = refl
  length-splice (x ∷ dst) zero (y ∷ src) = ap suc (length-splice dst zero src)
  length-splice (x ∷ dst) (suc i) (y ∷ src) = ap suc (length-splice dst i (y ∷ src))

  pub set-eq-splice : (dst : List A) (i : ℕ) (v : A) → set dst i v ≡ splice dst i (v ∷ [])
  set-eq-splice [] i v = refl
  set-eq-splice (x ∷ dst) zero v = refl
  set-eq-splice (x ∷ dst) (suc i) v = ap (λ t. x ∷ t) (set-eq-splice dst i v)

  -- The list up to the end of a run that was written within it.
  pub take-splice :
      (dst : List A) (i : ℕ) (src : List A)
      → i + length src ≤ length dst
      → take (i + length src) (splice dst i src) ≡ take i dst ++ src
  take-splice dst i [] h = rw (add-zero, append-nil)
  take-splice [] i (y ∷ src) h = absurd (omega arith)
  take-splice (x ∷ dst) zero (y ∷ src) h =
      rw zero-add (ap (λ t. y ∷ t) (rw zero-add at (take-splice dst zero src (omega arith))))
  take-splice (x ∷ dst) (suc i) (y ∷ src) h =
      rw suc-add (ap (λ t. x ∷ t) (take-splice dst i (y ∷ src) (omega arith)))
