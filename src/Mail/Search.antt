-- ===== src/Mail/Search.antt =====
-- sans-effort-core/src/driver/mail.rs, `binary_search_by_key` in `position`: the search on slots
-- sorted by id.
use sans_effort.Shared.{
  ℕ, zero, suc, ◌+◌, ◌-◌, ◌/◌, ◌≤◌, ◌<◌, ◌≡◌, ap, subst, inl, inr, List, [], ◌∷◌, some, ltb, leb,
  ◌==◌, length, get_elem?, get_elem?-lt, arith, Bool-cases, Option-cases, ltb→lt, ltb→ge, leb→le,
  leb→gt, ==→eq, ==→ne,
}
use sans_effort.Mail.{Slot, key_at, search_loop, binary_search}

-- Ids rise strictly, from `lo` on.
abbrev pub IsSorted : ℕ → List Slot → Type 0
IsSorted lo [] = Unit {0}
IsSorted lo (slot ∷ slots) = (lo ≤ slot.id) × IsSorted (suc slot.id) slots

pub IsSorted-weaken :
    {lo lo' : ℕ} (slots : List Slot) → lo' ≤ lo → IsSorted lo slots → IsSorted lo' slots
IsSorted-weaken [] h s = tt
IsSorted-weaken (slot ∷ slots) h s = (omega arith, s.1)

key_at-ge :
    (lo : ℕ) (slots : List Slot) (i : ℕ)
    → IsSorted lo slots
    → i < length slots
    → lo ≤ key_at slots i
key_at-ge lo [] i s h = absurd (omega arith)
key_at-ge lo (slot ∷ slots) zero s h = s.0
key_at-ge lo (slot ∷ slots) (suc i) s h =
    omega (arith, key_at-ge (suc slot.id) slots i s.1 (omega arith))

key_at-lt :
    (lo : ℕ) (slots : List Slot) (i j : ℕ)
    → IsSorted lo slots
    → i < j
    → j < length slots
    → key_at slots i < key_at slots j
key_at-lt lo [] i j s h k = absurd (omega arith)
key_at-lt lo (slot ∷ slots) i zero s h k = absurd (omega arith)
key_at-lt lo (slot ∷ slots) zero (suc j) s h k = key_at-ge (suc slot.id) slots j s.1 (omega arith)
key_at-lt lo (slot ∷ slots) (suc i) (suc j) s h k =
    key_at-lt (suc slot.id) slots i j s.1 (omega arith) (omega arith)

-- The order of keys is the order of positions.
key_at-before :
    (lo : ℕ) (slots : List Slot) (i j : ℕ)
    → IsSorted lo slots
    → i < length slots
    → key_at slots i < key_at slots j
    → i < j
key_at-before lo slots i j s h k = elim (Bool-cases (ltb i j)) [
  | inl before ↦ ltb→lt i j before
  | inr after ↦ elim (Bool-cases (i == j)) [
    | inl same ↦ absurd (omega (arith, ap (key_at slots) (==→eq i j same)))
    | inr apart ↦ absurd (
        omega
          (arith, key_at-lt lo slots j i s (omega (arith, ltb→ge i j after, ==→ne i j apart)) h))
  ]
]

key_at-from :
    (lo : ℕ) (slots : List Slot) (i j : ℕ)
    → IsSorted lo slots
    → j < length slots
    → key_at slots j ≤ key_at slots i
    → j ≤ i
key_at-from lo slots i j s h k = elim (Bool-cases (ltb i j)) [
  | inl before ↦ absurd (omega (arith, key_at-lt lo slots i j s (ltb→lt i j before) h))
  | inr after ↦ ltb→ge i j after
]

search_loop-finds :
    (fuel : ℕ) (slots : List Slot) (base size lo i : ℕ)
    → IsSorted lo slots
    → base ≤ i
    → i < base + size
    → base + size ≤ length slots
    → size ≤ fuel
    → search_loop fuel (key_at slots i) slots base size ≡ i
unfolding search_loop
search_loop-finds zero slots base size lo i s h k l m = absurd (omega arith)
search_loop-finds (suc fuel) slots base size lo i s h k l m = elim (Bool-cases (leb size 1)) [
  | inl one ↦ rw one (omega (arith, leb→le size 1 one))
  | inr more ↦ elim (Bool-cases (ltb (key_at slots i) (key_at slots (base + size / 2)))) [
    | inl below ↦
        rw (more, below)
          (search_loop-finds fuel slots base (size - size / 2) lo i s h
            (omega (
              arith,
              key_at-before lo slots i (base + size / 2) s (omega arith) (ltb→lt _ _ below),
              leb→gt size 1 more,
            ))
            (omega arith) (omega (arith, leb→gt size 1 more)))
    | inr above ↦
        rw (more, above)
          (search_loop-finds fuel slots (base + size / 2) (size - size / 2) lo i s
            (key_at-from lo slots i (base + size / 2) s (omega (arith, leb→gt size 1 more))
              (ltb→ge _ _ above))
            (omega arith) (omega arith) (omega (arith, leb→gt size 1 more)))
  ]
]

-- On sorted slots the search finds the slot that has the id.
pub binary_search-finds :
    (id lo : ℕ) (slots : List Slot) (i : ℕ) (slot : Slot)
    → IsSorted lo slots
    → get_elem? slots i ≡ some slot
    → slot.id ≡ id
    → binary_search id slots ≡ some i
unfolding binary_search
binary_search-finds id lo slots i slot s e k = ground (arith, found)
  where
    key : key_at slots i ≡ id
    key = rw (e, key_at) k

    found : search_loop (length slots) id slots 0 (length slots) ≡ i
    found =
        subst (λ n. search_loop (length slots) n slots 0 (length slots) ≡ i) key
          (search_loop-finds (length slots) slots 0 (length slots) lo i s (omega arith)
            (omega (arith, get_elem?-lt slots i e)) (omega arith) (omega arith))

-- What the search finds has the id.
pub binary_search-eq-some :
    (id : ℕ) (slots : List Slot) (i : ℕ)
    → binary_search id slots ≡ some i
    → (slot : Slot) × (get_elem? slots i ≡ some slot) × (slot.id ≡ id)
unfolding binary_search
binary_search-eq-some id slots i e =
    elim (Option-cases (get_elem? slots (search_loop (length slots) id slots 0 (length slots)))) [
      | inl miss ↦ absurd (ground arith)
      | inr (slot, hit) ↦ (slot, ground arith, ground arith)
    ]
