-- ===== src/Golf/GameStore/Keeps.antt =====
-- What a chain of calls leaves as it is, whatever they return.
use moon_base.Absl.{StatusOr, ok, err, fault}
use moon_base.Golf.GameStore.{Action, ◌>>=◌, attempt}

module _ {S : Type 0} (J : S → Type 0) where
  pub >>=-keeps :
      {A B : Type 0} (m : Action S A) (f : A → Action S B) (s : S)
      → J (m s).1
      → ((a : A) (t : S) → J t → J (f a t).1)
      → J ((m >>= f) s).1
  >>=-keeps {A} {B} m f s h k = go (m s) h
    where
      go : (x : StatusOr A × S) → J x.1 → J (((λ _. x) >>= f) s).1
      go (ok a, t) i = k a t i
      go (err e, t) i = i
      go (fault b, t) i = i

  pub attempt-keeps :
      {A B : Type 0} (m : Action S A) (f : StatusOr A → Action S B) (s : S)
      → J (m s).1
      → ((r : StatusOr A) (t : S) → J t → J (f r t).1)
      → J (attempt m f s).1
  attempt-keeps {A} {B} m f s h k = go (m s) h
    where
      go : (x : StatusOr A × S) → J x.1 → J (attempt (λ _. x) f s).1
      go (ok a, t) i = k (ok a) t i
      go (err e, t) i = k (err e) t i
      go (fault b, t) i = i
