-- ===== src/Batch.antt =====
-- sans-effort-core/src/driver/batch.rs: the effects of one yield, up to two of them held inline.
-- `Batch` is the newtype and its `Inline` in one; the arrays of one and two are constructor fields.
pub mod Order
pub mod Iter
mod Tests
use sans_effort.Shared.{List, [], ◌∷◌, ◌++◌, map as list_map}

pub data Batch {ℓ} (T : Type ℓ) : Type ℓ where
  empty : Batch T
  one : T → Batch T
  two : T → T → Batch T
  many : List T → Batch T

module _ {ℓ} {T : Type ℓ} where
  unfoldable pub new : Batch T
  new = empty

  unfoldable pub as_slice : Batch T → List T
  as_slice empty = []
  as_slice (one first) = first ∷ []
  as_slice (two first second) = first ∷ second ∷ []
  as_slice (many effects) = effects

  unfoldable pub push : Batch T → T → Batch T
  push (many effects) effect = many (effects ++ effect ∷ [])
  push empty effect = one effect
  push (one first) effect = two first effect
  push (two first second) effect = many (first ∷ second ∷ effect ∷ [])

  push_all : Batch T → List T → Batch T
  push_all b [] = b
  push_all b (effect ∷ effects) = push_all (push b effect) effects

  -- `From<Vec<T>> for Batch<T>`.
  unfoldable pub from_vec : List T → Batch T
  unfolding push_all new
  from_vec effects = push_all new effects

  -- `From<Batch<T>> for Vec<T>`.
  unfoldable pub into_vec : Batch T → List T
  into_vec empty = []
  into_vec (one first) = first ∷ []
  into_vec (two first second) = first ∷ second ∷ []
  into_vec (many effects) = effects

module _ {ℓ κ} {T : Type ℓ} {U : Type κ} where
  unfoldable pub map : (T → U) → Batch T → Batch U
  map f empty = empty
  map f (one first) = one (f first)
  map f (two first second) = two (f first) (f second)
  map f (many effects) = many (list_map f effects)
