-- ===== src/Mail/Sweep.antt =====
-- sans-effort-core/src/driver/mail.rs, `take`: closed slots dropped, from the end or everywhere,
-- and the open requests.
use sans_effort.Shared.{
  ℕ, suc, ◌-◌, ◌≤◌, ◌≡◌, refl, ◌∙◌, List, [], ◌∷◌, true, false, ltb, Bool, inl, inr, if◌then◌else◌,
  length, All, arith, Bool-cases, ltb→ge,
}
use sans_effort.Mail.{Slot, keep_unless_last, pop_closed, retain_open, sweep}
use sans_effort.Mail.Search.{IsSorted, IsSorted-weaken}
use sans_effort.Mail.Slots.{request, count_open, AreBelow, EndsOpen}

request-keep :
    (id : ℕ) (slot : Slot) (slots : List Slot)
    → request id (keep_unless_last slot slots) ≡ request id (slot ∷ slots)
unfolding request keep_unless_last
request-keep id slot [] = ground arith
request-keep id slot (x ∷ slots) = refl

request-cons :
    (id : ℕ) (slot : Slot) (xs ys : List Slot)
    → request id xs ≡ request id ys
    → request id (slot ∷ xs) ≡ request id (slot ∷ ys)
unfolding request
request-cons id slot xs ys e = ground arith

pub request-pop_closed :
    (id : ℕ) (slots : List Slot) → request id (pop_closed slots) ≡ request id slots
unfolding pop_closed
request-pop_closed id [] = refl
request-pop_closed id (slot ∷ slots) =
    request-keep id slot (pop_closed slots)
    ∙ request-cons id slot (pop_closed slots) slots (request-pop_closed id slots)

keep-IsSorted :
    (lo : ℕ) (slot : Slot) (slots : List Slot)
    → IsSorted lo (slot ∷ slots)
    → IsSorted lo (keep_unless_last slot slots)
unfolding keep_unless_last
keep-IsSorted lo slot [] s = ground arith
keep-IsSorted lo slot (x ∷ slots) s = s

pub pop_closed-IsSorted :
    (lo : ℕ) (slots : List Slot) → IsSorted lo slots → IsSorted lo (pop_closed slots)
unfolding pop_closed
pop_closed-IsSorted lo [] s = tt
pop_closed-IsSorted lo (slot ∷ slots) s =
    keep-IsSorted lo slot (pop_closed slots) (s.0, pop_closed-IsSorted (suc slot.id) slots s.1)

keep-AreBelow :
    (n : ℕ) (slot : Slot) (slots : List Slot)
    → AreBelow n (slot ∷ slots)
    → AreBelow n (keep_unless_last slot slots)
unfolding keep_unless_last
keep-AreBelow n slot [] s = ground arith
keep-AreBelow n slot (x ∷ slots) s = s

pub pop_closed-AreBelow :
    (n : ℕ) (slots : List Slot) → AreBelow n slots → AreBelow n (pop_closed slots)
unfolding pop_closed
pop_closed-AreBelow n [] s = tt
pop_closed-AreBelow n (slot ∷ slots) s =
    keep-AreBelow n slot (pop_closed slots) (s.0, pop_closed-AreBelow n slots s.1)

count_open-keep :
    (slot : Slot) (slots : List Slot)
    → count_open (keep_unless_last slot slots) ≡ count_open (slot ∷ slots)
unfolding keep_unless_last
count_open-keep slot [] = ground arith
count_open-keep slot (x ∷ slots) = refl

pub count_open-pop_closed : (slots : List Slot) → count_open (pop_closed slots) ≡ count_open slots
unfolding pop_closed
count_open-pop_closed [] = refl
count_open-pop_closed (slot ∷ slots) =
    omega (arith, count_open-keep slot (pop_closed slots), count_open-pop_closed slots)

keep-EndsOpen :
    (slot : Slot) (slots : List Slot) → EndsOpen slots → EndsOpen (keep_unless_last slot slots)
unfolding keep_unless_last
keep-EndsOpen slot [] h = ends slot.is_open refl
  where
    ends : (b : Bool) → slot.is_open ≡ b → EndsOpen (if b then slot ∷ [] else [])
    ends true e = e
    ends false e = tt
keep-EndsOpen slot (x ∷ slots) h = h

pub pop_closed-EndsOpen : (slots : List Slot) → EndsOpen (pop_closed slots)
unfolding pop_closed
pop_closed-EndsOpen [] = tt
pop_closed-EndsOpen (slot ∷ slots) =
    keep-EndsOpen slot (pop_closed slots) (pop_closed-EndsOpen slots)

pub request-retain_open :
    (id : ℕ) (slots : List Slot) → request id (retain_open slots) ≡ request id slots
unfolding retain_open request
request-retain_open id [] = refl
request-retain_open id (slot ∷ slots) = ground (arith, request-retain_open id slots)

pub retain_open-IsSorted :
    (lo : ℕ) (slots : List Slot) → IsSorted lo slots → IsSorted lo (retain_open slots)
unfolding retain_open
retain_open-IsSorted lo [] s = tt
retain_open-IsSorted lo (slot ∷ slots) s = ground (
  arith,
  retain_open-IsSorted (suc slot.id) slots s.1,
  IsSorted-weaken {lo = suc slot.id} {lo' = lo} (retain_open slots),
)

pub retain_open-AreBelow :
    (n : ℕ) (slots : List Slot) → AreBelow n slots → AreBelow n (retain_open slots)
unfolding retain_open
retain_open-AreBelow n [] s = tt
retain_open-AreBelow n (slot ∷ slots) s = ground (arith, retain_open-AreBelow n slots s.1)

pub count_open-retain_open : (slots : List Slot) → count_open (retain_open slots) ≡ count_open slots
unfolding retain_open
count_open-retain_open [] = refl
count_open-retain_open (slot ∷ slots) = ground (arith, count_open-retain_open slots)

pub length-retain_open : (slots : List Slot) → length (retain_open slots) ≡ count_open slots
unfolding retain_open
length-retain_open [] = refl
length-retain_open (slot ∷ slots) = ground (arith, length-retain_open slots)

abbrev AreOpen : List Slot → Type 0
AreOpen = All (λ slot. slot.is_open ≡ true)

retain_open-AreOpen : (slots : List Slot) → AreOpen (retain_open slots)
unfolding retain_open
retain_open-AreOpen [] = tt
retain_open-AreOpen (slot ∷ slots) = ground (arith, retain_open-AreOpen slots)

AreOpen-EndsOpen : (slots : List Slot) → AreOpen slots → EndsOpen slots
AreOpen-EndsOpen [] h = tt
AreOpen-EndsOpen (slot ∷ []) h = h.0
AreOpen-EndsOpen (slot ∷ x ∷ slots) h = AreOpen-EndsOpen (x ∷ slots) h.1

pub retain_open-EndsOpen : (slots : List Slot) → EndsOpen (retain_open slots)
retain_open-EndsOpen slots = AreOpen-EndsOpen (retain_open slots) (retain_open-AreOpen slots)

-- What is kept true of the slots, with `n` the next id and `k` the count of open ones.
pub record Shape (n k : ℕ) (slots : List Slot) : Type 0 where
  pub sorted : IsSorted 1 slots
  pub below : AreBelow n slots
  pub counted : k ≡ count_open slots
  pub ends_open : EndsOpen slots
  pub swept : length slots - k ≤ k

-- Sweeping slots that end open restores the shape.
pub sweep-Shape :
    (n k : ℕ) (slots : List Slot)
    → IsSorted 1 slots
    → AreBelow n slots
    → k ≡ count_open slots
    → EndsOpen slots
    → Shape n k (sweep k slots)
unfolding sweep
sweep-Shape n k slots s b c e = elim (Bool-cases (ltb k (length slots - k))) [
  | inl over ↦
      rw (over, sweep)
        (record {
          sorted = retain_open-IsSorted 1 slots s;
          below = retain_open-AreBelow n slots b;
          counted = omega (arith, count_open-retain_open slots);
          ends_open = retain_open-EndsOpen slots;
          swept = omega (arith, length-retain_open slots);
        })
  | inr fine ↦
      rw (fine, sweep)
        (record {
          sorted = s;
          below = b;
          counted = c;
          ends_open = e;
          swept = ltb→ge k (length slots - k) fine;
        })
]

pub request-sweep : (id k : ℕ) (slots : List Slot) → request id (sweep k slots) ≡ request id slots
unfolding sweep
request-sweep id k slots = ground (arith, request-retain_open id slots)
