-- ===== src/Mail/Invariant.antt =====
-- The invariant of the mailbox, which the `assert_shape` of its tests states, and the laws of each
-- operation on the map of open requests.
use sans_effort.Shared.{
  ℕ, ◌+◌, ◌-◌, ◌%◌, ◌≤◌, ◌<◌, ◌≡◌, refl, ap, ◌∙◌, List, [], ◌∷◌, ◌++◌, none, some, true, inl, inr,
  ◌==◌, if◌then◌else◌, length-append, get_elem?, set, last?, length-set, arith, Bool-cases, u64_mod,
}
use sans_effort.Mail.{
  Slot, Mail, when_open, is_after, fresh_slot, open_slot, close_slot, take_slot, take, mint, new,
  insert_sorted, pop_closed,
}
use sans_effort.Reply.{Check}
use sans_effort.Mail.Slots.{
  request, weight, when_open-opened, count_open, count_open-set, AreBelow, request-set,
  set-IsSorted, set-AreBelow, set-EndsOpen,
}
use sans_effort.Mail.Sweep.{
  Shape, sweep-Shape, request-sweep, request-pop_closed, pop_closed-IsSorted, pop_closed-AreBelow,
  count_open-pop_closed, pop_closed-EndsOpen,
}
use sans_effort.Mail.Opening.{
  Absent, Absent-request, request-push, request-insert_sorted, count_open-push,
  count_open-insert_sorted, push-EndsOpen, insert_sorted-EndsOpen, length-insert_sorted,
  push-IsSorted, insert_sorted-IsSorted, push-AreBelow, insert_sorted-AreBelow,
}
use sans_effort.Mail.Position.{Located}

-- Ids rise strictly and stay below the next one, the count is right, the last slot is open, and
-- there are no more closed slots than open ones.
pub record IsValid (m : Mail) : Type 0 where
  pub shape : Shape m.next m.open_count m.slots
  pub started : 1 ≤ m.next

pub new-IsValid : (driver : ℕ) → IsValid (new driver)
unfolding new
new-IsValid driver = record {
  shape = record { sorted = tt; below = tt; counted = refl; ends_open = tt; swept = omega arith };
  started = omega arith;
}

AreBelow-weaken : {n n' : ℕ} (slots : List Slot) → n ≤ n' → AreBelow n slots → AreBelow n' slots
AreBelow-weaken [] h b = tt
AreBelow-weaken (slot ∷ slots) h b = (omega arith, AreBelow-weaken slots h b.1)

pub mint-IsValid : (m : Mail) → IsValid m → m.next + 1 < u64_mod → IsValid (mint m).1
unfolding mint
mint-IsValid m v h = rw (fits) (record {
  shape = record {
    sorted = v.shape.sorted;
    below = AreBelow-weaken m.slots (omega arith) v.shape.below;
    counted = v.shape.counted;
    ends_open = v.shape.ends_open;
    swept = v.shape.swept;
  };
  started = omega arith;
})
  where
    fits : (m.next + 1) % u64_mod ≡ m.next + 1
    fits = omega arith

-- Opening.
abbrev opened_slots : ℕ → Check → List Slot → List Slot
opened_slots id check slots =
    if is_after id (last? slots)
    then slots ++ fresh_slot id check ∷ []
    else insert_sorted (fresh_slot id check) slots

opened-Shape :
    (n k id : ℕ) (check : Check) (slots : List Slot)
    → Shape n k slots
    → 1 ≤ id
    → id < n
    → Absent id slots
    → Shape n (k + 1) (opened_slots id check slots)
unfolding fresh_slot
opened-Shape n k id check slots s h l a = elim (Bool-cases (is_after id (last? slots))) [
  | inl after ↦ rw after (record {
    sorted = push-IsSorted 1 slot slots s.sorted h after;
    below = push-AreBelow n slot slots s.below l;
    counted = omega (arith, count_open-push slot refl slots);
    ends_open = push-EndsOpen slot refl slots;
    swept = omega (arith, length-append slots (slot ∷ []));
  })
  | inr between ↦ rw between (record {
    sorted = insert_sorted-IsSorted 1 slot slots s.sorted h a;
    below = insert_sorted-AreBelow n slot slots s.below l;
    counted = omega (arith, count_open-insert_sorted slot refl slots);
    ends_open = insert_sorted-EndsOpen slot refl slots s.ends_open;
    swept = omega (arith, length-insert_sorted slot slots);
  })
]
  where
    slot : Slot
    slot = fresh_slot id check

pub open_slot-IsValid :
    (id : ℕ) (check : Check) (m : Mail)
    → IsValid m
    → 1 ≤ id
    → id < m.next
    → Absent id m.slots
    → IsValid (open_slot id check m)
unfolding open_slot
open_slot-IsValid id check m v h l a = record {
  shape = opened-Shape m.next m.open_count id check m.slots v.shape h l a;
  started = v.started;
}

pub request-open_slot :
    (j id : ℕ) (check : Check) (m : Mail)
    → IsValid m
    → Absent id m.slots
    → request j (open_slot id check m).slots
      ≡ (if id == j then some (fresh_slot id check) else request j m.slots)
unfolding open_slot
request-open_slot j id check m v a = elim (Bool-cases (is_after id (last? m.slots))) [
  | inl after ↦ rw after (request-push (fresh_slot id check) refl j m.slots none_yet)
  | inr between ↦
      rw between
        (request-insert_sorted (fresh_slot id check) refl j 1 m.slots v.shape.sorted none_yet)
]
  where
    none_yet : request id m.slots ≡ none
    none_yet = Absent-request id m.slots a

-- Taking.
pub take_slot-IsValid :
    (id at : ℕ) (slot : Slot) (m : Mail)
    → IsValid m
    → Located id m.slots at slot
    → IsValid (take_slot at slot m)
unfolding take_slot close_slot
take_slot-IsValid id at slot m v l = record {
  shape =
      sweep-Shape m.next (m.open_count - 1) (pop_closed shut)
        (pop_closed-IsSorted 1 shut (set-IsSorted 1 m.slots at slot _ v.shape.sorted l.stands refl))
        (pop_closed-AreBelow m.next shut
          (set-AreBelow m.next m.slots at slot _ v.shape.below l.stands refl))
        counted (pop_closed-EndsOpen shut);
  started = v.started;
}
  where
    shut : List Slot
    shut = set m.slots at (close_slot slot)

    one_open : weight slot.is_open ≡ 1
    one_open = rw l.opened

    counted : m.open_count - 1 ≡ count_open (pop_closed shut)
    counted = omega (
      arith,
      count_open-pop_closed shut,
      count_open-set m.slots at slot (close_slot slot) l.stands,
      one_open,
    )

pub request-take_slot :
    (j id at : ℕ) (slot : Slot) (m : Mail)
    → IsValid m
    → Located id m.slots at slot
    → request j (take_slot at slot m).slots ≡ (if id == j then none else request j m.slots)
unfolding take_slot close_slot
request-take_slot j id at slot m v l =
    request-sweep j (m.open_count - 1) (pop_closed (set m.slots at (close_slot slot)))
    ∙ request-pop_closed j (set m.slots at (close_slot slot))
    ∙ rw (← l.same_id)
        (request-set j 1 m.slots at slot (close_slot slot) v.shape.sorted l.stands refl)

pub take-Located :
    (id at : ℕ) (slot : Slot) (m : Mail)
    → Located id m.slots at slot
    → take at m ≡ (slot.value, take_slot at slot m)
unfolding take
take-Located id at slot m l = rw (there, take)
  where
    there : when_open (get_elem? m.slots at) ≡ some slot
    there = ap when_open l.stands ∙ when_open-opened slot l.opened

-- Writing to an open slot in place.
abbrev pub write_slot : ℕ → Slot → Mail → Mail
write_slot at slot m = record m { slots = set m.slots at slot }

module _ (id at : ℕ) (slot slot' : Slot) (m : Mail) (v : IsValid m) (l : Located id m.slots at slot)
    (same : slot'.id ≡ slot.id) (opened : slot'.is_open ≡ true) where
  pub write_slot-IsValid : IsValid (write_slot at slot' m)
  write_slot-IsValid = record {
    shape = record {
      sorted = set-IsSorted 1 m.slots at slot slot' v.shape.sorted l.stands same;
      below = set-AreBelow m.next m.slots at slot slot' v.shape.below l.stands same;
      counted = omega (arith, count_open-set m.slots at slot slot' l.stands, one_open, still_open);
      ends_open = set-EndsOpen m.slots at slot' opened v.shape.ends_open;
      swept = omega (arith, length-set m.slots at slot');
    };
    started = v.started;
  }
    where
      one_open : weight slot.is_open ≡ 1
      one_open = rw l.opened

      still_open : weight slot'.is_open ≡ 1
      still_open = rw opened

  pub request-write_slot :
      (j : ℕ)
      → request j (write_slot at slot' m).slots
        ≡ (if id == j then some slot' else request j m.slots)
  request-write_slot j =
      rw (← l.same_id, ← whole) (request-set j 1 m.slots at slot slot' v.shape.sorted l.stands same)
    where
      whole : when_open (some slot') ≡ some slot'
      whole = when_open-opened slot' opened
