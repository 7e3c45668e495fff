-- ===== src/Exec/Throws.antt =====
-- Methods that end in a throw.
use fast_websocket_client.Base.{◌≡◌, refl}
use fast_websocket_client.Exec.{Error, Result, ok, throw, Exec, follow, ◌>>=◌}

-- `m` throws from every state.
pub record Throws {S A : Type 0} (m : Exec S A) : Type 0 where
  pub apply : (s : S) → (e : Error) × ((m s).0 ≡ throw e)

module _ {S A B : Type 0} where
  follow-Throws :
      (r : Result A) (f : A → Exec S B) (s : S)
      → ((a : A) → Throws (f a))
      → (e : Error) × ((follow r f s).0 ≡ throw e)
  follow-Throws (ok a) f s kf = (kf a).apply s
  follow-Throws (throw x) f s kf = (x, refl)

  -- What follows throws, if the method does not.
  pub then-Throws : (m : Exec S A) (f : A → Exec S B) → ((a : A) → Throws (f a)) → Throws (m >>= f)
  unfolding ◌>>=◌
  then-Throws m f kf = record { apply = λ s. follow-Throws (m s).0 f (m s).1 kf }

  first_throws :
      (r : Result A) (f : A → Exec S B) (s : S) (e : Error)
      → r ≡ throw e
      → (follow r f s).0 ≡ throw e
  first_throws r f s e h = rw h

  pub first-Throws : (m : Exec S A) (f : A → Exec S B) → Throws m → Throws (m >>= f)
  unfolding ◌>>=◌
  first-Throws m f km = record {
    apply = λ s. let (e, h) = km.apply s in (e, first_throws (m s).0 f (m s).1 e h);
  }
