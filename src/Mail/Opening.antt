-- ===== src/Mail/Opening.antt =====
-- Opening a slot: at the end for the newest id, and in its sorted place for an older one.
use sans_effort.Shared.{
  ℕ, suc, ◌+◌, ◌≤◌, ◌<◌, ◌≡◌, refl, List, [], ◌∷◌, ◌++◌, none, some, true, false, ltb, ◌==◌,
  if◌then◌else◌, inl, inr, length, last?, arith, Bool-cases, Bool, All, ◌≢◌, either_way, ltb→lt,
  ltb→ge,
}
use sans_effort.Mail.{Slot, is_after, insert_sorted}
use sans_effort.Mail.Search.{IsSorted}
use sans_effort.Mail.Slots.{request, count_open, AreBelow, EndsOpen}

cons_if-EndsOpen :
    (b : Bool) (x y z : Slot) (ys zs : List Slot)
    → EndsOpen (if b then y ∷ ys else z ∷ zs)
    → EndsOpen (x ∷ (if b then y ∷ ys else z ∷ zs))
cons_if-EndsOpen true x y z ys zs h = h
cons_if-EndsOpen false x y z ys zs h = h

-- `slot`, open, added to slots that hold none of its id.
module _ (slot : Slot) (opened : slot.is_open ≡ true) where
  pub request-push :
      (id : ℕ) (slots : List Slot)
      → request slot.id slots ≡ none
      → request id (slots ++ slot ∷ []) ≡ (if slot.id == id then some slot else request id slots)
  unfolding request
  request-push id [] h = ground arith
  request-push id (x ∷ slots) h = ground (arith, request-push id slots)

  pub request-insert_sorted :
      (id lo : ℕ) (slots : List Slot)
      → IsSorted lo slots
      → request slot.id slots ≡ none
      → request id (insert_sorted slot slots)
        ≡ (if slot.id == id then some slot else request id slots)
  unfolding request insert_sorted
  request-insert_sorted id lo [] s h = ground arith
  request-insert_sorted id lo (x ∷ slots) s h =
      ground (arith, request-insert_sorted id (suc x.id) slots s.1)

  pub count_open-push : (slots : List Slot) → count_open (slots ++ slot ∷ []) ≡ count_open slots + 1
  count_open-push [] = ground arith
  count_open-push (x ∷ slots) = omega (arith, count_open-push slots)

  pub count_open-insert_sorted :
      (slots : List Slot) → count_open (insert_sorted slot slots) ≡ count_open slots + 1
  unfolding insert_sorted
  count_open-insert_sorted [] = ground arith
  count_open-insert_sorted (x ∷ slots) = ground (arith, count_open-insert_sorted slots)

  pub push-EndsOpen : (slots : List Slot) → EndsOpen (slots ++ slot ∷ [])
  push-EndsOpen [] = opened
  push-EndsOpen (x ∷ []) = opened
  push-EndsOpen (x ∷ y ∷ slots) = push-EndsOpen (y ∷ slots)

  pub insert_sorted-EndsOpen :
      (slots : List Slot) → EndsOpen slots → EndsOpen (insert_sorted slot slots)
  unfolding insert_sorted
  insert_sorted-EndsOpen [] h = opened
  insert_sorted-EndsOpen (x ∷ []) h = either_way EndsOpen (ltb x.id slot.id) opened h
  insert_sorted-EndsOpen (x ∷ y ∷ slots) h =
      either_way EndsOpen (ltb x.id slot.id)
        (cons_if-EndsOpen (ltb y.id slot.id) x y slot (insert_sorted slot slots) (y ∷ slots)
          (insert_sorted-EndsOpen (y ∷ slots) h))
        h

pub length-insert_sorted :
    (slot : Slot) (slots : List Slot) → length (insert_sorted slot slots) ≡ length slots + 1
unfolding insert_sorted
length-insert_sorted slot [] = omega arith
length-insert_sorted slot (x ∷ slots) = ground (arith, length-insert_sorted slot slots)

-- No slot, open or closed, has the id.
abbrev pub Absent : ℕ → List Slot → Type 0
Absent id = All (λ slot. slot.id ≢ id)

pub Absent-request : (id : ℕ) (slots : List Slot) → Absent id slots → request id slots ≡ none
unfolding request
Absent-request id [] h = refl
Absent-request id (x ∷ slots) (h, hs) = ground (arith, Absent-request id slots hs)

-- `last.id < id` at the end of sorted slots bounds them all.
head-lt :
    (lo id : ℕ) (x : Slot) (slots : List Slot)
    → IsSorted lo (x ∷ slots)
    → is_after id (last? (x ∷ slots)) ≡ true
    → x.id < id
head-lt lo id x [] s e = ltb→lt x.id id e
head-lt lo id x (y ∷ slots) s e = omega (arith, head-lt (suc x.id) id y slots s.1 e)

pub push-IsSorted :
    (lo : ℕ) (slot : Slot) (slots : List Slot)
    → IsSorted lo slots
    → lo ≤ slot.id
    → is_after slot.id (last? slots) ≡ true
    → IsSorted lo (slots ++ slot ∷ [])
push-IsSorted lo slot [] s h e = (h, tt)
push-IsSorted lo slot (x ∷ []) s h e = (s.0, (ltb→lt x.id slot.id e, tt))
push-IsSorted lo slot (x ∷ y ∷ slots) s h e =
    (s.0, push-IsSorted (suc x.id) slot (y ∷ slots) s.1 (head-lt lo slot.id x (y ∷ slots) s e) e)

insert_gap : (x slot : Slot) → ltb x.id slot.id ≡ false → x.id ≢ slot.id → slot.id < x.id
insert_gap x slot after a = omega (arith, ltb→ge x.id slot.id after)

pub insert_sorted-IsSorted :
    (lo : ℕ) (slot : Slot) (slots : List Slot)
    → IsSorted lo slots
    → lo ≤ slot.id
    → Absent slot.id slots
    → IsSorted lo (insert_sorted slot slots)
unfolding insert_sorted
insert_sorted-IsSorted lo slot [] s h a = (h, tt)
insert_sorted-IsSorted lo slot (x ∷ slots) s h (a, bs) = elim (Bool-cases (ltb x.id slot.id)) [
  | inl before ↦
      rw (before, insert_sorted)
        (s.0, insert_sorted-IsSorted (suc x.id) slot slots s.1 (ltb→lt x.id slot.id before) bs)
  | inr after ↦ rw (after, insert_sorted) (h, (insert_gap x slot after a, s.1))
]

pub push-AreBelow :
    (n : ℕ) (slot : Slot) (slots : List Slot)
    → AreBelow n slots
    → slot.id < n
    → AreBelow n (slots ++ slot ∷ [])
push-AreBelow n slot [] s h = (h, tt)
push-AreBelow n slot (x ∷ slots) s h = (s.0, push-AreBelow n slot slots s.1 h)

pub insert_sorted-AreBelow :
    (n : ℕ) (slot : Slot) (slots : List Slot)
    → AreBelow n slots
    → slot.id < n
    → AreBelow n (insert_sorted slot slots)
unfolding insert_sorted
insert_sorted-AreBelow n slot [] s h = (h, tt)
insert_sorted-AreBelow n slot (x ∷ slots) s h =
    either_way (AreBelow n) (ltb x.id slot.id) (s.0, insert_sorted-AreBelow n slot slots s.1 h)
      (h, s)
