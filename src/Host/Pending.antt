-- ===== src/Host/Pending.antt =====
-- sans-effort-host/src/machine.rs, the field `pending`: the table of requests as a map, and
-- `swap_remove` on it.
use sans_effort.Shared.{
  ℕ, zero, suc, ◌≡◌, refl, sym, ap, ◌∙◌, ◌≢◌, List, [], ◌∷◌, ◌++◌, Option, none, some, false, ◌==◌,
  if◌then◌else◌, get_elem?, last?, All, inl, inr, Bool-cases, ==→eq, ==→ne, ==-refl, subst,
}
use sans_effort.Reply.{Pending}
use sans_effort.Host.Machine.{position, pop, over_last, swap_remove}

abbrev pub Table : Type 0
Table = List (ℕ × Pending)

unfoldable pub lookup : ℕ → Table → Option Pending
lookup id [] = none
lookup id ((i, p) ∷ pending) = let rest = lookup id pending in if i == id then some p else rest

abbrev pub Others : ℕ → Table → Type 0
Others id = All (λ (i, _). i ≢ id)

-- No id stands twice.
abbrev pub IsDistinct : Table → Type 0
IsDistinct [] = Unit
IsDistinct ((i, _) ∷ pending) = Others i pending × IsDistinct pending

lookup-Others : (id : ℕ) (xs : Table) → Others id xs → lookup id xs ≡ none
unfolding lookup
lookup-Others id [] o = refl
lookup-Others id ((i, p) ∷ xs) (o, os) = elim (Bool-cases (i == id)) [
  | inl same ↦ absurd (o (==→eq i id same))
  | inr other ↦ rw other (lookup-Others id xs os)
]

last?-Others : (id : ℕ) (xs : Table) (l : ℕ × Pending) → last? xs ≡ some l → Others id xs → l.0 ≢ id
last?-Others id [] l e o = cc
last?-Others id (x ∷ []) l e o =
    let same : x ≡ l = cc in λ q. o.0 (ap (λ (y : ℕ × Pending). y.0) same ∙ q)
last?-Others id (x ∷ y ∷ xs) l e (o, os) = last?-Others id (y ∷ xs) l e os

-- The last moved to the front.
lookup-rotate :
    (j : ℕ) (x : ℕ × Pending) (xs : Table) (l : ℕ × Pending)
    → last? (x ∷ xs) ≡ some l
    → IsDistinct (x ∷ xs)
    → lookup j (l ∷ pop (x ∷ xs)) ≡ lookup j (x ∷ xs)
unfolding pop lookup
lookup-rotate j x [] l e d = let same : l ≡ x = cc in ap (λ y. lookup j (y ∷ [])) same
lookup-rotate j x (y ∷ ys) l e (o, d) = elim (Bool-cases (x.0 == j)) [
  | inl same ↦ elim (Bool-cases (l.0 == j)) [
    | inl last ↦
        absurd (last?-Others x.0 (y ∷ ys) l e o (==→eq l.0 j last ∙ sym (==→eq x.0 j same)))
    | inr first ↦ rw (first, same) refl
  ]
  | inr other ↦ rw other (lookup-rotate j y ys l e d)
]

-- A table without what an id awaits.
abbrev pub without : ℕ → Table → ℕ → Option Pending
without id xs j = if id == j then none else lookup j xs

pub last?-some : (x : ℕ × Pending) (xs : Table) → (l : ℕ × Pending) × (last? (x ∷ xs) ≡ some l)
last?-some x [] = (x, refl)
last?-some x (y ∷ ys) = last?-some y ys

pop-set :
    (at : ℕ) (x y : ℕ × Pending) (ys : Table) (r : Option (ℕ × Pending))
    → over_last (x ∷ y ∷ ys) (suc at) r ≡ x ∷ over_last (y ∷ ys) at r
unfolding pop
pop-set at x y ys none = refl
pop-set zero x y ys (some l) = refl
pop-set (suc at) x y ys (some l) = refl

pub swap_remove-suc :
    (at : ℕ) (x y : ℕ × Pending) (ys : Table)
    → swap_remove (suc at) (x ∷ y ∷ ys) ≡ x ∷ swap_remove at (y ∷ ys)
unfolding swap_remove
swap_remove-suc at x y ys = pop-set at x y ys (last? (y ∷ ys))

-- What is left without the first.
lookup-swap_remove_first :
    (x : ℕ × Pending) (xs : Table) (j : ℕ)
    → IsDistinct (x ∷ xs)
    → lookup j (swap_remove 0 (x ∷ xs)) ≡ lookup j xs
unfolding swap_remove pop lookup
lookup-swap_remove_first x [] j d = refl
lookup-swap_remove_first x (y ∷ ys) j (o, d) =
    let (l, e) = last?-some y ys in
    ap (λ r. lookup j (over_last (x ∷ y ∷ ys) 0 r)) e ∙ lookup-rotate j y ys l e d

lookup-without_first :
    (i : ℕ) (p : Pending) (xs : Table) (j : ℕ)
    → Others i xs
    → lookup j xs ≡ without i ((i, p) ∷ xs) j
unfolding lookup
lookup-without_first i p xs j o = elim (Bool-cases (i == j)) [
  | inl same ↦ rw same (subst (λ k. lookup k xs ≡ none) (==→eq i j same) (lookup-Others i xs o))
  | inr other ↦ rw other refl
]

lookup-without_later :
    (i id : ℕ) (p : Pending) (xs zs : Table) (j : ℕ)
    → (i == id) ≡ false
    → lookup j zs ≡ without id xs j
    → lookup j ((i, p) ∷ zs) ≡ without id ((i, p) ∷ xs) j
unfolding lookup
lookup-without_later i id p xs zs j other s = elim (Bool-cases (i == j)) [
  | inl same ↦ elim (Bool-cases (id == j)) [
    | inl both ↦ absurd (==→ne i id other (==→eq i j same ∙ sym (==→eq id j both)))
    | inr apart ↦ rw (same, apart) refl
  ]
  | inr differ ↦ rw differ s
]

-- Where `position` finds an id.
pub data Found (id : ℕ) (xs : Table) : Type 0 where
  absent : position id xs ≡ none → lookup id xs ≡ none → Found id xs
  found :
      (at : ℕ) (p : Pending)
      → position id xs ≡ some at
      → get_elem? xs at ≡ some (id, p)
      → lookup id xs ≡ some p
      → ((j : ℕ) → lookup j (swap_remove at xs) ≡ without id xs j)
      → Found id xs

lookup_first : (i : ℕ) (p : Pending) (xs : Table) → IsDistinct ((i, p) ∷ xs) → Found i ((i, p) ∷ xs)
unfolding position lookup
lookup_first i p xs (o, d) =
    found 0 p (rw (==-refl i) refl) refl (rw (==-refl i) refl)
      (λ j. lookup-swap_remove_first (i, p) xs j (o, d) ∙ lookup-without_first i p xs j o)

lookup_later :
    (i id : ℕ) (p : Pending) (xs : Table) → (i == id) ≡ false → Found id xs → Found id ((i, p) ∷ xs)
unfolding position lookup
lookup_later i id p xs other (absent e f) = absent (rw (other, e) refl) (rw other f)
lookup_later i id p [] other (found at q e g f s) = cc
lookup_later i id p (y ∷ ys) other (found at q e g f s) =
    found (suc at) q (rw (other, e) refl) g (rw other f) (λ j.
      ap (lookup j) (swap_remove-suc at (i, p) y ys)
      ∙ lookup-without_later i id p (y ∷ ys) (swap_remove at (y ∷ ys)) j other (s j))

pub lookup_cases : (id : ℕ) (xs : Table) → IsDistinct xs → Found id xs
unfolding position lookup
lookup_cases id [] d = absent refl refl
lookup_cases id ((i, p) ∷ xs) (o, d) = elim (Bool-cases (i == id)) [
  | inl same ↦ subst (λ k. Found k ((i, p) ∷ xs)) (==→eq i id same) (lookup_first i p xs (o, d))
  | inr other ↦ lookup_later i id p xs other (lookup_cases id xs d)
]

-- What is put back comes after the others.
abbrev pub or_else : Option Pending → Option Pending → Option Pending
or_else none r = r
or_else (some p) r = some p

pub lookup-append :
    (id j : ℕ) (p : Pending) (xs : Table)
    → lookup j (xs ++ (id, p) ∷ []) ≡ or_else (lookup j xs) (if id == j then some p else none)
unfolding lookup
lookup-append id j p [] = refl
lookup-append id j p ((i, q) ∷ xs) = elim (Bool-cases (i == j)) [
  | inl same ↦ rw same refl
  | inr other ↦ rw other (lookup-append id j p xs)
]
