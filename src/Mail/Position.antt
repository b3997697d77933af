-- ===== src/Mail/Position.antt =====
-- sans-effort-core/src/driver/mail.rs, `position`: the lookup of a request, and the open slots.
use sans_effort.Shared.{
  ℕ, zero, suc, ◌≡◌, refl, sym, subst, ◌∙◌, List, [], ◌∷◌, Option, none, some, true, false, inl,
  inr, ◌&&◌, ◌==◌, length, get_elem?, arith, Bool-cases, Option-cases, ==→eq,
}
use sans_effort.Mail.{
  Slot, Mail, when_open, has_id, found_open, binary_search, position_in, position, slot_at, find,
}
use sans_effort.Mail.Search.{IsSorted, binary_search-finds, binary_search-eq-some}
use sans_effort.Mail.Slots.{request, EndsOpen, request-get_elem?}

-- An open slot that is found stands in the list.
pub record Located (id : ℕ) (slots : List Slot) (at : ℕ) (slot : Slot) : Type 0 where
  pub stands : get_elem? slots at ≡ some slot
  pub same_id : slot.id ≡ id
  pub opened : slot.is_open ≡ true

pub request-Located :
    (id : ℕ) (slots : List Slot) (slot : Slot)
    → request id slots ≡ some slot
    → (at : ℕ) × Located id slots at slot
unfolding request
request-Located id [] slot e = cc
request-Located id (x ∷ slots) slot e = elim (Bool-cases (x.id == id && x.is_open)) [
  | inl hit ↦ (zero, ground arith)
  | inr miss ↦ next (request-Located id slots slot (rw miss at e))
]
  where
    next : (at : ℕ) × Located id slots at slot → (at : ℕ) × Located id (x ∷ slots) at slot
    next (at, l) = (suc at, record { stands = l.stands; same_id = l.same_id; opened = l.opened })

last-opened :
    (x : Slot) (slots : List Slot) (slot : Slot)
    → EndsOpen (x ∷ slots)
    → get_elem? (x ∷ slots) (length slots) ≡ some slot
    → slot.is_open ≡ true
last-opened x [] slot h e = ground arith
last-opened x (y ∷ slots) slot h e = last-opened y slots slot h e

-- What a lookup returns: the place of the request's open slot, or nothing where there is none.
abbrev pub Finds : ℕ → List Slot → Option ℕ → Type 0
Finds id slots none = request id slots ≡ none
Finds id slots (some at) = (slot : Slot) × Located id slots at slot × (request id slots ≡ some slot)

Located-request :
    (id : ℕ) (slots : List Slot) (at : ℕ) (slot : Slot)
    → IsSorted 1 slots
    → Located id slots at slot
    → request id slots ≡ some slot
Located-request id slots at slot s l =
    subst (λ n. request n slots ≡ some slot) l.same_id
      (request-get_elem? 1 slots at slot s l.stands ∙ rw (l.opened, when_open))

Located-Finds :
    (id : ℕ) (slots : List Slot) (at : ℕ) (slot : Slot)
    → IsSorted 1 slots
    → Located id slots at slot
    → Finds id slots (some at)
Located-Finds id slots at slot s l = (slot, l, Located-request id slots at slot s l)

found_open-opened :
    (slots : List Slot) (at : ℕ) (slot : Slot)
    → get_elem? slots at ≡ some slot
    → slot.is_open ≡ true
    → found_open slots (some at) ≡ some at
found_open-opened slots at slot e k = ground arith

found_open-shut :
    (slots : List Slot) (at : ℕ) (slot : Slot)
    → get_elem? slots at ≡ some slot
    → slot.is_open ≡ false
    → found_open slots (some at) ≡ none
found_open-shut slots at slot e k = ground arith

when_open-shut : (slot : Slot) → slot.is_open ≡ false → when_open (some slot) ≡ none
when_open-shut slot k = ground arith

-- The search, where the newest slot is not the one.
searched-Finds :
    (id : ℕ) (slots : List Slot)
    → IsSorted 1 slots
    → Finds id slots (found_open slots (binary_search id slots))
searched-Finds id slots s = elim (Option-cases (binary_search id slots)) [
  | inl miss ↦ rw (miss, found_open) (missing miss)
  | inr (at, hit) ↦ rw (hit, found_open) (found at (binary_search-eq-some id slots at hit))
]
  where
    missing : binary_search id slots ≡ none → request id slots ≡ none
    missing miss = elim (Option-cases (request id slots)) [
      | inl e ↦ e
      | inr (slot, e) ↦
          let (at, l) = request-Located id slots slot e in
          absurd (cc (binary_search-finds id 1 slots at slot s l.stands l.same_id, miss))
    ]

    found :
        (at : ℕ)
        → (slot : Slot) × (get_elem? slots at ≡ some slot) × (slot.id ≡ id)
        → Finds id slots (found_open slots (some at))
    found at (slot, e, k) = elim (Bool-cases slot.is_open) [
      | inl opened ↦
          subst (λ r. Finds id slots r) (sym (found_open-opened slots at slot e opened))
            (Located-Finds id slots at slot s (record { stands = e; same_id = k; opened = opened }))
      | inr shut ↦
          subst (λ r. Finds id slots r) (sym (found_open-shut slots at slot e shut))
            (subst (λ n. request n slots ≡ none) k
              (request-get_elem? 1 slots at slot s e ∙ when_open-shut slot shut))
    ]

pub position_in-Finds :
    (id : ℕ) (slots : List Slot)
    → IsSorted 1 slots
    → EndsOpen slots
    → Finds id slots (position_in id slots)
unfolding position_in
position_in-Finds id [] s h = unfold request in refl
position_in-Finds id (x ∷ slots) s h =
    elim (Bool-cases (has_id id (get_elem? (x ∷ slots) (length slots)))) [
      | inr miss ↦ rw (miss, position_in) (searched-Finds id (x ∷ slots) s)
      | inl hit ↦ rw (hit, position_in) (newest (get_elem? (x ∷ slots) (length slots)) refl hit)
    ]
  where
    newest :
        (r : Option Slot)
        → get_elem? (x ∷ slots) (length slots) ≡ r
        → has_id id r ≡ true
        → Finds id (x ∷ slots) (some (length slots))
    newest none e k = cc
    newest (some slot) e k =
        Located-Finds id (x ∷ slots) (length slots) slot s (record {
          stands = e;
          same_id = ==→eq slot.id id k;
          opened = last-opened x slots slot h e;
        })

pub position-Finds :
    (id : ℕ) (m : Mail) → IsSorted 1 m.slots → EndsOpen m.slots → Finds id m.slots (position id m)
unfolding position
position-Finds id m s h = position_in-Finds id m.slots s h

-- The two ways a lookup can go, for the operations that make one.
pub data Lookup (id : ℕ) (m : Mail) : Type 0 where
  missing : position id m ≡ none → request id m.slots ≡ none → Lookup id m
  present :
      (at : ℕ) (slot : Slot)
      → position id m ≡ some at
      → Located id m.slots at slot
      → request id m.slots ≡ some slot
      → Lookup id m

pub position_cases : (id : ℕ) (m : Mail) → IsSorted 1 m.slots → EndsOpen m.slots → Lookup id m
position_cases id m s h = go (position id m) refl (position-Finds id m s h)
  where
    go : (r : Option ℕ) → position id m ≡ r → Finds id m.slots r → Lookup id m
    go none e f = missing e f
    go (some at) e (slot, l, f) = present at slot e l f

pub find-missing : (id : ℕ) (m : Mail) → position id m ≡ none → find id m ≡ none
unfolding find
find-missing id m e = rw (e, slot_at)

pub find-present :
    (id : ℕ) (m : Mail) (at : ℕ) (slot : Slot)
    → position id m ≡ some at
    → Located id m.slots at slot
    → find id m ≡ some (at, slot)
unfolding find
find-present id m at slot e l = rw (e, slot_at, l.stands)
