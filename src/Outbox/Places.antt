-- ===== src/Outbox/Places.antt =====
-- What the outbox promises about order: one list of places, each an effect or the request whose
-- effect is being built.
use sans_effort.Shared.{ℕ, List, [], ◌∷◌, ◌++◌, map, Option, none, some, if◌then◌else◌}
use sans_effort.Batch.{as_slice}
use sans_effort.Outbox.{Held, ready, reserved, Inner, is_reserved}

module _ {E : Type 0} where
  abbrev pub behind : Option ℕ → List (Held E) → List (Held E)
  behind none hs = hs
  behind (some id) hs = reserved id ∷ hs

  -- Everything recorded and not yet drained.
  abbrev pub places : Inner E → List (Held E)
  places s = map ready (as_slice s.effects) ++ behind s.building s.held

  -- The effects before the first request that is being built.
  unfoldable pub ready_front : List (Held E) → List E
  ready_front [] = []
  ready_front (reserved _ ∷ _) = []
  ready_front (ready effect ∷ held) = effect ∷ ready_front held

  -- The places from the first request that is being built on.
  unfoldable pub waiting : List (Held E) → List (Held E)
  waiting [] = []
  waiting (reserved id ∷ held) = reserved id ∷ held
  waiting (ready _ ∷ held) = waiting held

  -- The effect put in the first place of its request.
  unfoldable pub fill : ℕ → E → List (Held E) → List (Held E)
  fill id effect [] = []
  fill id effect (place ∷ held) =
      let rest = fill id effect held in
      if is_reserved id place then ready effect ∷ held else place ∷ rest

  -- `building` is set only while `held` is empty, and `held` does not start with an effect that
  -- could have been released.
  abbrev pub Waits : Option ℕ → List (Held E) → Type 0
  Waits building [] = Unit
  Waits none (reserved _ ∷ _) = Unit
  Waits _ _ = ⊥

  abbrev pub IsOrdered : Inner E → Type 0
  IsOrdered s = Waits s.building s.held
