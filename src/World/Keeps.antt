-- ===== src/World/Keeps.antt =====
-- Actions that leave some view of the state as it was.
use nautilus_memwal_relayer.Prelude.{◌≡◌, refl, ◌∙◌, Result, ok, err, List, [], ◌∷◌}
use nautilus_memwal_relayer.World.State.{World}
use nautilus_memwal_relayer.World.Action.{Action, resume, ◌>>=◌, for_each, pure}

module _ {S : Type 0} (view : World → S) where
  abbrev pub Keeps : {E A : Type 0} → Action E A → Type 0
  Keeps m = (w : World) → view (m w).1 ≡ view w

  pub Keeps-resume :
      {E A B : Type 0} (r : Result E A) (f : A → Action E B)
      → ((a : A) → Keeps (f a))
      → Keeps (resume r f)
  Keeps-resume (ok a) f h w = h a w
  Keeps-resume (err e) f h w = refl

  pub Keeps-bind :
      {E A B : Type 0} (m : Action E A) (f : A → Action E B)
      → Keeps m
      → ((a : A) → Keeps (f a))
      → Keeps (m >>= f)
  Keeps-bind m f hm hf w = Keeps-resume (m w).0 f hf (m w).1 ∙ hm w

  pub Keeps-for_each :
      {E A B : Type 0} (f : A → Action E B)
      → ((a : A) → Keeps (f a))
      → (entries : List A) → Keeps (for_each f entries)
  unfolding for_each
  Keeps-for_each f h [] = λ w. refl
  Keeps-for_each f h (a ∷ rest) =
      Keeps-bind (f a) (λ b. for_each f rest >>= (λ bs. pure (b ∷ bs))) (h a)
        (λ b.
          Keeps-bind (for_each f rest) (λ bs. pure (b ∷ bs)) (Keeps-for_each f h rest)
            (λ bs w. refl))

  -- An action that leaves the view as it was whenever it fails.
  abbrev pub KeepsOnFailure : {E A : Type 0} → Action E A → Type 0
  KeepsOnFailure {E} m = (w : World) (e : E) → (m w).0 ≡ err e → view (m w).1 ≡ view w

  KeepsOnFailure-resume :
      {E A B : Type 0} (r : Result E A) (f : A → Action E B)
      → ((a : A) → KeepsOnFailure (f a))
      → KeepsOnFailure (resume r f)
  KeepsOnFailure-resume (ok a) f h = h a
  KeepsOnFailure-resume (err e) f h = λ w e' p. refl

  pub KeepsOnFailure-bind :
      {E A B : Type 0} (m : Action E A) (f : A → Action E B)
      → Keeps m
      → ((a : A) → KeepsOnFailure (f a))
      → KeepsOnFailure (m >>= f)
  KeepsOnFailure-bind m f hm hf w e p = KeepsOnFailure-resume (m w).0 f hf (m w).1 e p ∙ hm w
