-- ===== src/World/Ensures.antt =====
-- Actions that leave the state in a certain way whenever they succeed.
use nautilus_memwal_relayer.Prelude.{◌≡◌, refl, Result, ok, err}
use nautilus_memwal_relayer.World.State.{World}
use nautilus_memwal_relayer.World.Action.{Action, resume, ◌>>=◌}

module _ {B : Type 0} (P : B → World → Type 0) where
  abbrev pub Ensures : {E : Type 0} → Action E B → Type 0
  Ensures m = (w : World) (b : B) → (m w).0 ≡ ok b → P b (m w).1

  Ensures-resume :
      {E A : Type 0} (r : Result E A) (f : A → Action E B)
      → ((a : A) → r ≡ ok a → Ensures (f a))
      → Ensures (resume r f)
  Ensures-resume (ok a) f h = h a refl
  Ensures-resume (err e) f h = λ w b p. cc

  -- It is enough that the last action leaves it so, for what the first one gave.
  pub Ensures-bind :
      {E A : Type 0} (m : Action E A) (f : A → Action E B)
      → ((a : A) (w : World) → (m w).0 ≡ ok a → Ensures (f a))
      → Ensures (m >>= f)
  Ensures-bind m f h w = Ensures-resume (m w).0 f (λ a. h a w) (m w).1
