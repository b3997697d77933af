-- ===== src/Mail/Slots.antt =====
-- The sorted slots of the mailbox as a map from ids to open slots.
use sans_effort.Shared.{
  ℕ, zero, suc, ◌+◌, ◌≤◌, ◌<◌, ◌≡◌, refl, List, [], ◌∷◌, Option, none, some, Bool, true, ◌&&◌, ◌==◌,
  if◌then◌else◌, length, get_elem?, set, All, arith,
}
use sans_effort.Mail.{Slot, when_open}
use sans_effort.Mail.Search.{IsSorted}

-- The open slot of request `id`.
unfoldable pub request : ℕ → List Slot → Option Slot
request id [] = none
request id (slot ∷ slots) = if slot.id == id && slot.is_open then some slot else request id slots

abbrev pub weight : Bool → ℕ
weight b = if b then 1 else 0

abbrev pub count_open : List Slot → ℕ
count_open [] = 0
count_open (slot ∷ slots) = weight slot.is_open + count_open slots

abbrev pub AreBelow : ℕ → List Slot → Type 0
AreBelow n = All (λ slot. slot.id < n)

abbrev pub EndsOpen : List Slot → Type 0
EndsOpen [] = Unit {0}
EndsOpen (slot ∷ []) = slot.is_open ≡ true
EndsOpen (_ ∷ slot ∷ slots) = EndsOpen (slot ∷ slots)

pub when_open-opened : (slot : Slot) → slot.is_open ≡ true → when_open (some slot) ≡ some slot
when_open-opened slot e = ground arith

pub request-below :
    (id lo : ℕ) (slots : List Slot) → IsSorted lo slots → id < lo → request id slots ≡ none
unfolding request
request-below id lo [] s h = refl
request-below id lo (slot ∷ slots) s h = ground (arith, request-below id (suc slot.id) slots s.1)

pub request-beyond :
    (id n : ℕ) (slots : List Slot) → AreBelow n slots → n ≤ id → request id slots ≡ none
unfolding request
request-beyond id n [] s h = refl
request-beyond id n (slot ∷ slots) s h = ground (arith, request-beyond id n slots s.1)

get_elem?-ge :
    (lo : ℕ) (slots : List Slot) (i : ℕ) (slot : Slot)
    → IsSorted lo slots
    → get_elem? slots i ≡ some slot
    → lo ≤ slot.id
get_elem?-ge lo [] i slot s e = cc
get_elem?-ge lo (x ∷ slots) zero slot s e = ground arith
get_elem?-ge lo (x ∷ slots) (suc i) slot s e =
    omega (arith, get_elem?-ge (suc x.id) slots i slot s.1 e)

pub request-get_elem? :
    (lo : ℕ) (slots : List Slot) (i : ℕ) (slot : Slot)
    → IsSorted lo slots
    → get_elem? slots i ≡ some slot
    → request slot.id slots ≡ when_open (some slot)
unfolding request
request-get_elem? lo [] i slot s e = cc
request-get_elem? lo (x ∷ slots) zero slot s e =
    ground (arith, request-below slot.id (suc x.id) slots s.1)
request-get_elem? lo (x ∷ slots) (suc i) slot s e = ground (
  arith,
  request-get_elem? (suc x.id) slots i slot s.1 e,
  get_elem?-ge (suc x.id) slots i slot s.1 e,
)

pub request-set :
    (id lo : ℕ) (slots : List Slot) (i : ℕ) (slot slot' : Slot)
    → IsSorted lo slots
    → get_elem? slots i ≡ some slot
    → slot'.id ≡ slot.id
    → request id (set slots i slot')
      ≡ (if slot.id == id then when_open (some slot') else request id slots)
unfolding request
request-set id lo [] i slot slot' s e k = cc
request-set id lo (x ∷ slots) zero slot slot' s e k =
    ground (arith, request-below id (suc x.id) slots s.1)
request-set id lo (x ∷ slots) (suc i) slot slot' s e k = ground (
  arith,
  request-set id (suc x.id) slots i slot slot' s.1 e k,
  get_elem?-ge (suc x.id) slots i slot s.1 e,
)

pub set-IsSorted :
    (lo : ℕ) (slots : List Slot) (i : ℕ) (slot slot' : Slot)
    → IsSorted lo slots
    → get_elem? slots i ≡ some slot
    → slot'.id ≡ slot.id
    → IsSorted lo (set slots i slot')
set-IsSorted lo [] i slot slot' s e k = tt
set-IsSorted lo (x ∷ slots) zero slot slot' s e k = ground arith
set-IsSorted lo (x ∷ slots) (suc i) slot slot' s e k =
    (s.0, set-IsSorted (suc x.id) slots i slot slot' s.1 e k)

pub set-AreBelow :
    (n : ℕ) (slots : List Slot) (i : ℕ) (slot slot' : Slot)
    → AreBelow n slots
    → get_elem? slots i ≡ some slot
    → slot'.id ≡ slot.id
    → AreBelow n (set slots i slot')
set-AreBelow n [] i slot slot' s e k = tt
set-AreBelow n (x ∷ slots) zero slot slot' s e k = ground arith
set-AreBelow n (x ∷ slots) (suc i) slot slot' s e k =
    (s.0, set-AreBelow n slots i slot slot' s.1 e k)

pub count_open-set :
    (slots : List Slot) (i : ℕ) (slot slot' : Slot)
    → get_elem? slots i ≡ some slot
    → count_open (set slots i slot') + weight slot.is_open ≡ count_open slots + weight slot'.is_open
count_open-set [] i slot slot' e = cc
count_open-set (x ∷ slots) zero slot slot' e = ground arith
count_open-set (x ∷ slots) (suc i) slot slot' e = omega (arith, count_open-set slots i slot slot' e)

pub set-EndsOpen :
    (slots : List Slot) (i : ℕ) (slot' : Slot)
    → slot'.is_open ≡ true
    → EndsOpen slots
    → EndsOpen (set slots i slot')
set-EndsOpen [] i slot' k h = tt
set-EndsOpen (x ∷ []) zero slot' k h = k
set-EndsOpen (x ∷ []) (suc i) slot' k h = h
set-EndsOpen (x ∷ y ∷ slots) zero slot' k h = h
set-EndsOpen (x ∷ y ∷ slots) (suc zero) slot' k h = set-EndsOpen (y ∷ slots) zero slot' k h
set-EndsOpen (x ∷ y ∷ slots) (suc (suc i)) slot' k h = set-EndsOpen (y ∷ slots) (suc i) slot' k h

pub count_open-le : (slots : List Slot) → count_open slots ≤ length slots
count_open-le [] = omega arith
count_open-le (x ∷ slots) = ground (arith, count_open-le slots)
