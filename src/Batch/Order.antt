-- ===== src/Batch/Order.antt =====
-- sans-effort-core/src/driver/batch.rs: the order in which a batch holds its effects, and its form
-- for each length.
use sans_effort.Shared.{
  suc, ◌≤◌, ◌≡◌, refl, sym, ap, ◌∙◌, List, [], ◌∷◌, ◌++◌, map as list_map, append-nil, append_assoc,
  length, length-append, arith,
}
use sans_effort.Batch.{
  Batch, empty, one, two, many, new, as_slice, push, push_all, from_vec, into_vec, map,
}

-- `many` only for three effects or more.
abbrev pub IsValid {ℓ} : {T : Type ℓ} → Batch T → Type 0
IsValid (many effects) = 3 ≤ length effects
IsValid _ = Unit {0}

module _ {ℓ} {T : Type ℓ} where
  pub as_slice-push : (b : Batch T) (e : T) → as_slice (push b e) ≡ as_slice b ++ e ∷ []
  unfolding as_slice push
  as_slice-push (many es) e = refl
  as_slice-push _ e = refl

  pub push-IsValid : (b : Batch T) (e : T) → IsValid b → IsValid (push b e)
  unfolding push
  push-IsValid (many es) e v = omega (arith, length-append es (e ∷ []))
  push-IsValid empty e v = tt
  push-IsValid (one a) e v = tt
  push-IsValid (two a b) e v = omega arith

  as_slice-push_all : (b : Batch T) (es : List T) → as_slice (push_all b es) ≡ as_slice b ++ es
  unfolding push_all
  as_slice-push_all b [] = sym (append-nil (as_slice b))
  as_slice-push_all b (e ∷ es) =
      rw (as_slice-push_all (push b e) es, as_slice-push b e, append_assoc)

  push_all-IsValid : (b : Batch T) (es : List T) → IsValid b → IsValid (push_all b es)
  unfolding push_all
  push_all-IsValid b [] v = v
  push_all-IsValid b (e ∷ es) v = push_all-IsValid (push b e) es (push-IsValid b e v)

  pub into_vec-as_slice : (b : Batch T) → into_vec b ≡ as_slice b
  unfolding into_vec as_slice
  into_vec-as_slice empty = refl
  into_vec-as_slice _ = refl

  pub as_slice-from_vec : (es : List T) → as_slice (from_vec es) ≡ es
  unfolding from_vec as_slice
  as_slice-from_vec es = as_slice-push_all empty es

  pub from_vec-IsValid : (es : List T) → IsValid (from_vec es)
  unfolding from_vec
  from_vec-IsValid es = push_all-IsValid empty es tt

  -- Whatever effects are put into a batch, its slice and its vector are those effects in order,
  -- and the batch is in the form of its length.
  pub into_vec-from_vec :
      (es : List T)
      → (into_vec (from_vec es) ≡ es) × (as_slice (from_vec es) ≡ es) × IsValid (from_vec es)
  into_vec-from_vec es = (
    into_vec-as_slice (from_vec es) ∙ as_slice-from_vec es,
    as_slice-from_vec es,
    from_vec-IsValid es,
  )

  push_all-many : (xs es : List T) → push_all (many xs) es ≡ many (xs ++ es)
  unfolding push_all push
  push_all-many xs [] = ap many (sym (append-nil xs))
  push_all-many xs (e ∷ es) =
      rw (push_all-many (xs ++ e ∷ []) es) (ap many (append_assoc xs (e ∷ []) es))

  pub from_vec-as_slice : (b : Batch T) → IsValid b → from_vec (as_slice b) ≡ b
  unfolding from_vec as_slice push_all push new
  from_vec-as_slice empty v = refl
  from_vec-as_slice (one a) v = refl
  from_vec-as_slice (two a b) v = refl
  from_vec-as_slice (many (a ∷ b ∷ c ∷ es)) v = push_all-many (a ∷ b ∷ c ∷ []) es
  from_vec-as_slice (many []) v = absurd (omega arith)
  from_vec-as_slice (many (a ∷ [])) v = absurd (omega arith)
  from_vec-as_slice (many (a ∷ b ∷ [])) v = absurd (omega arith)

  -- Two valid batches with the same effects are the same batch: there is one form for each
  -- length, so that equality of slices, which is how the code compares batches, is equality.
  pub as_slice-injective : (a b : Batch T) → IsValid a → IsValid b → as_slice a ≡ as_slice b → a ≡ b
  as_slice-injective a b va vb e =
      sym (from_vec-as_slice a va) ∙ ap from_vec e ∙ from_vec-as_slice b vb

module _ {ℓ κ} {T : Type ℓ} {U : Type κ} where
  pub as_slice-map : (f : T → U) (b : Batch T) → as_slice (map f b) ≡ list_map f (as_slice b)
  unfolding as_slice map
  as_slice-map f (many es) = refl
  as_slice-map f _ = refl

  length-map : (f : T → U) (xs : List T) → length (list_map f xs) ≡ length xs
  length-map f [] = refl
  length-map f (x ∷ xs) = ap suc (length-map f xs)

  pub map-IsValid : (f : T → U) (b : Batch T) → IsValid b → IsValid (map f b)
  unfolding map
  map-IsValid f (many es) v = omega (arith, length-map f es)
  map-IsValid f empty v = tt
  map-IsValid f (one a) v = tt
  map-IsValid f (two a b) v = tt

  -- Mapping over a valid batch maps its effects in order, and the batch stays in the form of its
  -- length.
  pub map_correct :
      (f : T → U) (b : Batch T)
      → IsValid b
      → (as_slice (map f b) ≡ list_map f (as_slice b)) × IsValid (map f b)
  map_correct f b v = (as_slice-map f b, map-IsValid f b v)
