-- ===== src/Exec/Ensures.antt =====
-- What holds where a method returns.
use fast_websocket_client.Base.{Bool, true, false, if◌then◌else◌, ◌≡◌, refl, subst}
use fast_websocket_client.Exec.{Error, Result, ok, throw, Exec, pure, follow, ◌>>=◌}
use fast_websocket_client.Exec.Keeps.{Keeps}

-- `m` ends in `Q` when it starts in `P` and returns.
pub record Ensures {S A : Type 0} (P : S → Type 0) (m : Exec S A) (Q : A → S → Type 0)
    : Type 0 where
  pub apply : (s : S) (a : A) → P s → (m s).0 ≡ ok a → Q a (m s).1

module _ {S : Type 0} where
  pub pure-Ensures :
      {A : Type 0} {P : S → Type 0} {Q : A → S → Type 0} (a : A)
      → ((s : S) → P s → Q a s)
      → Ensures P (pure a) Q
  pure-Ensures {Q = Q} a keep = record {
    apply = λ s b h e. subst (λ x. Q x s) (ok_inj a b e) (keep s h);
  }
    where
      ok_inj : {A : Type 0} (a b : A) → ok a ≡ ok b → a ≡ b
      ok_inj a b e = cc

  pub keeps-Ensures :
      {A : Type 0} {P : S → Type 0} {E : Error → Type 0} (m : Exec S A)
      → Keeps P E m
      → Ensures P m (λ _. P)
  keeps-Ensures m km = record { apply = λ s a h e. (km.apply s h).0 }

  -- A method that changes nothing of what holds, whatever it starts in.
  pub any-Ensures : {A : Type 0} {P : S → Type 0} (m : Exec S A) → Ensures P m (λ _ _. Unit {0})
  any-Ensures m = record { apply = λ s a h e. tt }

  follow-Ensures :
      {A B : Type 0} {Q : A → S → Type 0} {R : B → S → Type 0} (r : Result A) (f : A → Exec S B)
      (s : S)
      → ((a : A) → Ensures (Q a) (f a) R)
      → ((a : A) → r ≡ ok a → Q a s)
      → (b : B) → (follow r f s).0 ≡ ok b
      → R b (follow r f s).1
  follow-Ensures (ok a) f s kf q b e = (kf a).apply s b (q a refl) e
  follow-Ensures (throw x) f s kf q b e = absurd cc

  pub bind-Ensures :
      {A B : Type 0} {P : S → Type 0} {Q : A → S → Type 0} {R : B → S → Type 0} (m : Exec S A)
      (f : A → Exec S B)
      → Ensures P m Q
      → ((a : A) → Ensures (Q a) (f a) R)
      → Ensures P (m >>= f) R
  unfolding ◌>>=◌
  bind-Ensures m f km kf = record {
    apply = λ s b h e. follow-Ensures (m s).0 f (m s).1 kf (λ a r. km.apply s a h r) b e;
  }

  pub if-Ensures :
      {A : Type 0} {P : S → Type 0} {Q : A → S → Type 0} (b : Bool) (m n : Exec S A)
      → (b ≡ true → Ensures P m Q)
      → (b ≡ false → Ensures P n Q)
      → Ensures P (if b then m else n) Q
  if-Ensures true m n km kn = km refl
  if-Ensures false m n km kn = kn refl
