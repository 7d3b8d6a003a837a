-- ===== src/World/Action.antt =====
-- Actions: functions that read and change the state and may fail. What was changed before a failure
-- stays changed, so the state comes back beside the error too.
use nautilus_memwal_relayer.Prelude.{Result, ok, err, map_err, List, [], ◌∷◌}
use nautilus_memwal_relayer.World.State.{World}

abbrev pub Action : Type 0 → Type 0 → Type 0
Action E A = World → Result E A × World

module _ {E A : Type 0} where
  abbrev pub pure : A → Action E A
  pure a w = (ok a, w)

  abbrev pub fail : E → Action E A
  fail e w = (err e, w)

  -- A pure result, as with `?` on a value.
  abbrev pub lift : Result E A → Action E A
  lift r w = (r, w)

  abbrev pub gets : (World → A) → Action E A
  gets f w = (ok (f w), w)

module _ {E A B : Type 0} where
  abbrev pub resume : Result E A → (A → Action E B) → Action E B
  resume (ok a) f w = f a w
  resume (err e) f w = (err e, w)

  infixl 10 ◌>>=◌ ◌>>◌
  abbrev pub ◌>>=◌ : Action E A → (A → Action E B) → Action E B
  ◌>>=◌ m f w = resume (m w).0 f (m w).1

  abbrev pub ◌>>◌ : Action E A → Action E B → Action E B
  ◌>>◌ m n w = resume (m w).0 (λ _. n) (m w).1

-- The result as a value, for a `match` on it; `let _ =` drops it.
abbrev pub attempt : {E F A : Type 0} → Action E A → Action F (Result E A)
attempt m w = (ok (m w).0, (m w).1)

-- `map_err(…)?`
abbrev pub mapping_err : {E F A : Type 0} → (E → F) → Action E A → Action F A
mapping_err f m w = (map_err f (m w).0, (m w).1)

-- An action for every entry, in order: the first failure ends it.
unfoldable pub for_each : {E A B : Type 0} → (A → Action E B) → List A → Action E (List B)
for_each f [] = pure []
for_each f (a ∷ rest) = do b ← f a; bs ← for_each f rest; pure (b ∷ bs)
