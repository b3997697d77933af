-- ===== src/Batch/Iter.antt =====
-- Iterating over a batch by value, from either end: `IntoIter` and its `Draining`.
use sans_effort.Shared.{◌≡◌, refl, ap, List, [], ◌∷◌, ◌++◌, Option, none, some}
use sans_effort.Batch.{Batch, as_slice}

-- What is left of the array or vector that the iterator walks. An array iterator of one or two is
-- the list of what it has left.
pub data Draining {ℓ} (T : Type ℓ) : Type ℓ where
  one : List T → Draining T
  two : List T → Draining T
  many : List T → Draining T

module _ {ℓ} {T : Type ℓ} where
  pub into_iter : Batch T → Draining T
  into_iter Batch.empty = Draining.many []
  into_iter (Batch.one first) = Draining.one (first ∷ [])
  into_iter (Batch.two first second) = Draining.two (first ∷ second ∷ [])
  into_iter (Batch.many effects) = Draining.many effects

  -- `next` of an array or vector iterator.
  take_first : (List T → Draining T) → List T → Option T × Draining T
  take_first back [] = (none, back [])
  take_first back (x ∷ xs) = (some x, back xs)

  pub next : Draining T → Option T × Draining T
  unfolding take_first
  next (Draining.one left) = take_first Draining.one left
  next (Draining.two left) = take_first Draining.two left
  next (Draining.many left) = take_first Draining.many left

  put_before : T → Option (List T × T) → Option (List T × T)
  put_before x none = some ([], x)
  put_before x (some (front, y)) = some (x ∷ front, y)

  -- `next_back` of an array or vector iterator.
  split_last : List T → Option (List T × T)
  split_last [] = none
  split_last (x ∷ xs) = put_before x (split_last xs)

  put_back : (List T → Draining T) → Option (List T × T) → Option T × Draining T
  put_back back none = (none, back [])
  put_back back (some (front, y)) = (some y, back front)

  take_last : (List T → Draining T) → List T → Option T × Draining T
  unfolding split_last put_back
  take_last back xs = put_back back (split_last xs)

  pub next_back : Draining T → Option T × Draining T
  unfolding take_last
  next_back (Draining.one left) = take_last Draining.one left
  next_back (Draining.two left) = take_last Draining.two left
  next_back (Draining.many left) = take_last Draining.many left

  -- What the iterator has yet to yield, in order.
  pub rest : Draining T → List T
  rest (Draining.one left) = left
  rest (Draining.two left) = left
  rest (Draining.many left) = left

  pub rest-into_iter : (b : Batch T) → rest (into_iter b) ≡ as_slice b
  unfolding rest into_iter as_slice
  rest-into_iter Batch.empty = refl
  rest-into_iter _ = refl

  -- A step from either end: nothing is left and nothing is yielded, or an effect comes off.
  abbrev pub StepsFront : List T → Option T × Draining T → Type ℓ
  StepsFront xs (none, d) = (xs ≡ []) × (rest d ≡ [])
  StepsFront xs (some x, d) = xs ≡ x ∷ rest d

  abbrev pub StepsBack : List T → Option T × Draining T → Type ℓ
  StepsBack xs (none, d) = (xs ≡ []) × (rest d ≡ [])
  StepsBack xs (some x, d) = xs ≡ rest d ++ x ∷ []

  pub next-StepsFront : (d : Draining T) → StepsFront (rest d) (next d)
  unfolding next rest
  next-StepsFront (Draining.one []) = (refl, refl)
  next-StepsFront (Draining.one (x ∷ xs)) = refl
  next-StepsFront (Draining.two []) = (refl, refl)
  next-StepsFront (Draining.two (x ∷ xs)) = refl
  next-StepsFront (Draining.many []) = (refl, refl)
  next-StepsFront (Draining.many (x ∷ xs)) = refl

  abbrev Splits : List T → Option (List T × T) → Type ℓ
  Splits xs none = xs ≡ []
  Splits xs (some (front, y)) = xs ≡ front ++ y ∷ []

  put_before-Splits :
      (x : T) (xs : List T) (r : Option (List T × T))
      → Splits xs r
      → Splits (x ∷ xs) (put_before x r)
  unfolding put_before
  put_before-Splits x xs none h = ap (λ ys. x ∷ ys) h
  put_before-Splits x xs (some (front, y)) h = ap (λ ys. x ∷ ys) h

  split_last-Splits : (xs : List T) → Splits xs (split_last xs)
  unfolding split_last
  split_last-Splits [] = refl
  split_last-Splits (x ∷ xs) = put_before-Splits x xs (split_last xs) (split_last-Splits xs)

  put_back-StepsBack :
      (back : List T → Draining T) (xs : List T) (r : Option (List T × T))
      → ((ys : List T) → rest (back ys) ≡ ys)
      → Splits xs r
      → StepsBack xs (put_back back r)
  unfolding put_back
  put_back-StepsBack back xs none e h = (h, e [])
  put_back-StepsBack back xs (some (front, y)) e h = rw (e front) h

  pub next_back-StepsBack : (d : Draining T) → StepsBack (rest d) (next_back d)
  unfolding next_back rest
  next_back-StepsBack (Draining.one xs) =
      put_back-StepsBack Draining.one xs (split_last xs) (λ ys. refl) (split_last-Splits xs)
  next_back-StepsBack (Draining.two xs) =
      put_back-StepsBack Draining.two xs (split_last xs) (λ ys. refl) (split_last-Splits xs)
  next_back-StepsBack (Draining.many xs) =
      put_back-StepsBack Draining.many xs (split_last xs) (λ ys. refl) (split_last-Splits xs)

  -- Iterating over a batch yields its effects in order: what is left starts as the slice; `next`
  -- takes the first of what is left and `next_back` the last, and either yields nothing exactly
  -- when nothing is left.
  pub into_iter_in_order :
      (b : Batch T)
      → (rest (into_iter b) ≡ as_slice b)
        × ((d : Draining T) → StepsFront (rest d) (next d) × StepsBack (rest d) (next_back d))
  into_iter_in_order b = (rest-into_iter b, λ d. (next-StepsFront d, next_back-StepsBack d))
