-- ===== src/Exec/Keeps.antt =====
-- Invariants of methods, kept on a normal return and on a throw, and the errors that they throw.
use fast_websocket_client.Base.{Bool, true, false, if◌then◌else◌}
use fast_websocket_client.Exec.{
  Error, Result, ok, throw, Exec, pure, raise, modify, follow, ◌>>=◌, when,
}

abbrev pub AnyError : Error → Type 0
AnyError e = Unit

-- A value, or one of the errors in `E`.
abbrev pub Allowed : (Error → Type 0) → {A : Type 0} → Result A → Type 0
Allowed E (ok a) = Unit
Allowed E (throw e) = E e

pub any-Allowed : {A : Type 0} (r : Result A) → Allowed AnyError r
any-Allowed (ok a) = tt
any-Allowed (throw e) = tt

-- A value of which `G` holds, or one of the errors in `E`.
abbrev pub Yields : {A : Type 0} → (A → Type 0) → (Error → Type 0) → Result A → Type 0
Yields G E (ok a) = G a
Yields G E (throw e) = E e

-- `m` ends in `P` when it starts in `P`, however it ends, and then throws only the errors in `E`.
pub record Keeps {S A : Type 0} (P : S → Type 0) (E : Error → Type 0) (m : Exec S A) : Type 0 where
  pub apply : (s : S) → P s → P (m s).1 × Allowed E (m s).0

module _ {S : Type 0} {P : S → Type 0} {E : Error → Type 0} where
  pub pure-Keeps : {A : Type 0} (a : A) → Keeps P E (pure a)
  pure-Keeps a = record { apply = λ s h. (h, tt) }

  pub raise-Keeps : {A : Type 0} (e : Error) → E e → Keeps P E (raise {A = A} e)
  raise-Keeps e allowed = record { apply = λ s h. (h, allowed) }

  pub modify-Keeps : (f : S → S) → ((s : S) → P s → P (f s)) → Keeps P E (modify f)
  modify-Keeps f keep = record { apply = λ s h. (keep s h, tt) }

  follow-Keeps :
      {A B : Type 0} (r : Result A) (f : A → Exec S B)
      → ((a : A) → Keeps P E (f a))
      → (s : S) → P s
      → Allowed E r
      → P (follow r f s).1 × Allowed E (follow r f s).0
  follow-Keeps (ok a) f kf s h allowed = (kf a).apply s h
  follow-Keeps (throw e) f kf s h allowed = (h, allowed)

  pub bind-Keeps :
      {A B : Type 0} (m : Exec S A) (f : A → Exec S B)
      → Keeps P E m
      → ((a : A) → Keeps P E (f a))
      → Keeps P E (m >>= f)
  unfolding ◌>>=◌
  bind-Keeps m f km kf = record {
    apply = λ s h. let (h', allowed) = km.apply s h in follow-Keeps (m s).0 f kf (m s).1 h' allowed;
  }

  -- What follows only runs on a value of which `G` holds.
  pub result-Keeps :
      {A B : Type 0} {G : A → Type 0} (m : Exec S A) (f : A → Exec S B)
      → ((s : S) → P s → P (m s).1 × Yields G E (m s).0)
      → ((a : A) → G a → Keeps P E (f a))
      → Keeps P E (m >>= f)
  unfolding ◌>>=◌
  result-Keeps {A = A} {G = G} m f km kf = record {
    apply = λ s h. let (h', yields) = km s h in followed (m s).0 (m s).1 h' yields;
  }
    where
      followed :
          (r : Result A) (s : S)
          → P s
          → Yields G E r
          → P (follow r f s).1 × Allowed E (follow r f s).0
      followed (ok a) s h g = (kf a g).apply s h
      followed (throw e) s h g = (h, g)

  pub if-Keeps :
      {A : Type 0} (b : Bool) (m n : Exec S A)
      → Keeps P E m
      → Keeps P E n
      → Keeps P E (if b then m else n)
  if-Keeps true m n km kn = km
  if-Keeps false m n km kn = kn

  pub when-Keeps : (b : Bool) (m : Exec S (Unit {0})) → Keeps P E m → Keeps P E (when b m)
  when-Keeps true m km = km
  when-Keeps false m km = pure-Keeps tt
