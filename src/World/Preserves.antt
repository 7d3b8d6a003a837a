-- ===== src/World/Preserves.antt =====
-- Actions that preserve a property of the state, however they end.
use nautilus_memwal_relayer.Prelude.{◌≡◌, refl, Result, ok, err, List, [], ◌∷◌, All}
use nautilus_memwal_relayer.World.State.{World}
use nautilus_memwal_relayer.World.Action.{Action, resume, ◌>>=◌, for_each, pure}

module _ (P : World → Type 0) where
  abbrev pub Preserves : {E A : Type 0} → Action E A → Type 0
  Preserves m = (w : World) → P w → P (m w).1

  Preserves-resume :
      {E A B : Type 0} (r : Result E A) (f : A → Action E B)
      → ((a : A) → r ≡ ok a → Preserves (f a))
      → Preserves (resume r f)
  Preserves-resume (ok a) f h w p = h a refl w p
  Preserves-resume (err e) f h w p = p

  -- The rest is needed for what the first action can give.
  pub Preserves-bind :
      {E A B : Type 0} (m : Action E A) (f : A → Action E B)
      → Preserves m
      → ((a : A) (w : World) → (m w).0 ≡ ok a → Preserves (f a))
      → Preserves (m >>= f)
  Preserves-bind m f hm hf w p = Preserves-resume (m w).0 f (λ a e. hf a w e) (m w).1 (hm w p)

  pub Preserves-for_each {κ} :
      {E A B : Type 0} (Q : A → Type κ) (f : A → Action E B)
      → ((a : A) → Q a → Preserves (f a))
      → (entries : List A) → All Q entries
      → Preserves (for_each f entries)
  unfolding for_each
  Preserves-for_each Q f h [] q = λ w p. p
  Preserves-for_each Q f h (a ∷ rest) q =
      Preserves-bind (f a) (λ b. for_each f rest >>= (λ bs. pure (b ∷ bs))) (h a q.0)
        (λ b _ _.
          Preserves-bind (for_each f rest) (λ bs. pure (b ∷ bs)) (Preserves-for_each Q f h rest q.1)
            (λ bs _ _ w p. p))
