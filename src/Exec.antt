-- ===== src/Exec.antt =====
-- Methods that change an object and may throw: what was changed before the throw stays changed.
pub mod Keeps
pub mod Ensures
pub mod Throws
use fast_websocket_client.Base.{ℕ, Bool, true, false, if◌then◌else◌, ◌≡◌, refl}

-- What can end a method early. `fault` is no exception of the code: it stands for an access
-- outside a vector, which C++ leaves undefined.
pub data Error : Type 0 where
  -- `std::runtime_error` of `FrameFactory`, with the kind of frame whose payload is too long.
  ping_payload pong_payload close_payload : Error
  -- `SocketWrapperException` and `SSLSocketWrapperException`.
  socket_error : Error
  -- `std::runtime_error` of the constructor of `WSClient`.
  failed_to_connect : Error
  -- The stack holds no further nested callback.
  stack_exhausted : Error
  -- Not an exception either: a loop whose rounds are used up before its work is.
  no_progress : Error
  fault : Error

pub data Result {ℓ} (A : Type ℓ) : Type ℓ where
  ok : A → Result A
  throw : Error → Result A

abbrev pub Exec : Type 0 → Type 0 → Type 0
Exec S A = S → Result A × S

module _ {S : Type 0} where
  abbrev pub pure : {A : Type 0} → A → Exec S A
  pure a s = (ok a, s)

  abbrev pub raise : {A : Type 0} → Error → Exec S A
  raise e s = (throw e, s)

  abbrev pub get : Exec S S
  get s = (ok s, s)

  abbrev pub modify : (S → S) → Exec S (Unit {0})
  modify f s = (ok tt, f s)

  -- What follows a result.
  abbrev pub follow : {A B : Type 0} → Result A → (A → Exec S B) → Exec S B
  follow (ok a) f s = f a s
  follow (throw e) f s = (throw e, s)

  infixl 5 ◌>>=◌ ◌>>◌
  unfoldable pub ◌>>=◌ : {A B : Type 0} → Exec S A → (A → Exec S B) → Exec S B
  ◌>>=◌ m f s = follow (m s).0 f (m s).1

  abbrev pub ◌>>◌ : {A B : Type 0} → Exec S A → Exec S B → Exec S B
  m >> n = m >>= λ _. n

  abbrev pub when : Bool → Exec S (Unit {0}) → Exec S (Unit {0})
  when true m = m
  when false m = pure tt
