-- ===== src/Table/Entries.antt =====
-- The `HashMap`s of sans-effort-host/src/table.rs, as association lists: `get`, `insert`, `remove`.
use sans_effort.Shared.{
  ℕ, ◌≡◌, refl, ap, ◌∙◌, List, [], ◌∷◌, Option, none, some, Bool, true, false, ◌==◌, if◌then◌else◌,
  ==-refl, arith,
}
use sans_effort.Host.Machine.{contains}

module _ {V : Type 0} where
  unfoldable pub get : ℕ → List (ℕ × V) → Option V
  get j [] = none
  get j ((k, v) ∷ m) = let rest = get j m in if k == j then some v else rest

  unfoldable pub remove : ℕ → List (ℕ × V) → List (ℕ × V)
  remove j [] = []
  remove j ((k, v) ∷ m) = let rest = remove j m in if k == j then rest else (k, v) ∷ rest

  unfoldable pub insert : ℕ → V → List (ℕ × V) → List (ℕ × V)
  insert j v m = (j, v) ∷ remove j m

  abbrev pub keys : List (ℕ × V) → List ℕ
  keys [] = []
  keys ((k, _) ∷ m) = k ∷ keys m

  abbrev pub is_some : Option V → Bool
  is_some none = false
  is_some (some _) = true

  pub get-remove :
      (j k : ℕ) (m : List (ℕ × V)) → get j (remove k m) ≡ (if k == j then none else get j m)
  unfolding get remove
  get-remove j k [] = ground arith
  get-remove j k ((i, v) ∷ m) = ground (arith, get-remove j k m)

  pub get-insert :
      (j k : ℕ) (v : V) (m : List (ℕ × V))
      → get j (insert k v m) ≡ (if k == j then some v else get j m)
  unfolding insert
  get-insert j k v m = unfold get in (ground (arith, get-remove j k m))

  pub contains-keys : (j : ℕ) (m : List (ℕ × V)) → contains j (keys m) ≡ is_some (get j m)
  unfolding contains get
  contains-keys j [] = refl
  contains-keys j ((k, v) ∷ m) = ground (arith, contains-keys j m)

  pub get-insert_same : (k : ℕ) (v : V) (m : List (ℕ × V)) → get k (insert k v m) ≡ some v
  get-insert_same k v m = get-insert k k v m ∙ ap (λ b. if b then some v else get k m) (==-refl k)
