-- ===== src/Mail.antt =====
-- sans-effort-core/src/driver/mail.rs: the mailbox, one slot for each outstanding request. A waker
-- is a number, and `will_wake` compares two. `none` as the result of `deliver` is a panic.
pub mod Search
pub mod Slots
pub mod Sweep
pub mod Opening
pub mod Position
pub mod Invariant
pub mod Map
pub mod Refine
pub mod Valid
pub mod History
pub mod Answered
mod Tests
use sans_effort.Shared.{
  ℕ, zero, suc, ◌+◌, ◌-◌, ◌/◌, ◌%◌, List, [], ◌∷◌, ◌++◌, Option, none, some, Result, ok, err, Bool,
  true, false, not, ◌&&◌, ltb, leb, ◌==◌, if◌then◌else◌, length, get_elem?, set, last?, u64_mod,
}
use sans_effort.Codec.Reader.{DecodeError}
use sans_effort.Reply.{Value, ReplyHandle, Check}
use sans_effort.Reply

pub record Slot : Type 0 where
  pub id : ℕ
  pub is_open : Bool
  pub value : Option Value
  pub check : Check
  pub waker : Option ℕ

pub record Mail : Type 0 where
  pub driver : ℕ
  pub slots : List Slot
  pub open_count : ℕ
  pub closed : List ℕ
  pub next : ℕ

pub data Delivery : Type 0 where
  delivered : Option ℕ → Delivery
  gone : Delivery
  refused : ReplyHandle → DecodeError → Delivery

-- `DRIVERS.fetch_add` gives each mailbox its number: an argument here.
unfoldable pub new : ℕ → Mail
new driver = record { driver = driver; slots = []; open_count = 0; closed = []; next = 1 }

-- `self.next += 1` wraps in a release build.
unfoldable pub mint : Mail → ReplyHandle × Mail
mint m = (Reply.mint m.driver m.next, record m { next = (m.next + 1) % u64_mod })

unfoldable pub fresh_slot : ℕ → Check → Slot
fresh_slot id check = record { id = id; is_open = true; value = none; check = check; waker = none }

-- `partition_point(|other| other.id < id)` and `insert`, on slots sorted by id.
unfoldable pub insert_sorted : Slot → List Slot → List Slot
insert_sorted slot [] = slot ∷ []
insert_sorted slot (other ∷ slots) =
    if ltb other.id slot.id then other ∷ insert_sorted slot slots else slot ∷ other ∷ slots

abbrev pub is_after : ℕ → Option Slot → Bool
is_after id none = true
is_after id (some last) = ltb last.id id

unfoldable pub open_slot : ℕ → Check → Mail → Mail
unfolding fresh_slot
open_slot id check m = record m {
  slots =
      if is_after id (last? m.slots)
      then m.slots ++ fresh_slot id check ∷ []
      else insert_sorted (fresh_slot id check) m.slots;
  open_count = m.open_count + 1;
}

unfoldable pub close_slot : Slot → Slot
close_slot slot = record slot { is_open = false; value = none; waker = none }

-- `while self.slots.last().is_some_and(|last| !last.open) { self.slots.pop(); }`
keep_unless_last : Slot → List Slot → List Slot
keep_unless_last slot [] = if slot.is_open then slot ∷ [] else []
keep_unless_last slot (other ∷ slots) = slot ∷ other ∷ slots

unfoldable pub pop_closed : List Slot → List Slot
unfolding keep_unless_last
pop_closed [] = []
pop_closed (slot ∷ slots) = keep_unless_last slot (pop_closed slots)

-- `retain(|slot| slot.open)`.
unfoldable pub retain_open : List Slot → List Slot
retain_open [] = []
retain_open (slot ∷ slots) =
    let rest = retain_open slots in if slot.is_open then slot ∷ rest else rest

unfoldable pub sweep : ℕ → List Slot → List Slot
sweep open_count slots =
    if ltb open_count (length slots - open_count) then retain_open slots else slots

-- The slot at `at`, taken: the mailbox after it.
unfoldable pub take_slot : ℕ → Slot → Mail → Mail
take_slot at slot m = record m {
  slots = sweep (m.open_count - 1) (pop_closed (set m.slots at (close_slot slot)));
  open_count = m.open_count - 1;
}

abbrev pub when_open : Option Slot → Option Slot
when_open none = none
when_open (some slot) = if slot.is_open then some slot else none

unfoldable pub take : ℕ → Mail → Option Value × Mail
take at m = elim (when_open (get_elem? m.slots at)) [
  | none ↦ (none, m)
  | some slot ↦ (slot.value, take_slot at slot m)
]

abbrev pub key_at : List Slot → ℕ → ℕ
key_at slots at = elim (get_elem? slots at) [ none ↦ 0 | some slot ↦ slot.id ]

-- The loop of `binary_search_by_key`, on `size` slots from `base` on.
unfoldable pub search_loop : ℕ → ℕ → List Slot → ℕ → ℕ → ℕ
search_loop zero id slots base size = base
search_loop (suc fuel) id slots base size =
    let mid = base + size / 2 in
    let base' = if ltb id (key_at slots mid) then base else mid in
    let rest = search_loop fuel id slots base' (size - size / 2) in
    if leb size 1 then base else rest

-- `binary_search_by_key(&id, |slot| slot.id).ok()`; the number of slots is fuel enough.
unfoldable pub binary_search : ℕ → List Slot → Option ℕ
binary_search id slots =
    let base = search_loop (length slots) id slots 0 (length slots) in
    elim (get_elem? slots base) [
      | none ↦ none
      | some slot ↦ if slot.id == id then some base else none
    ]

abbrev pub has_id : ℕ → Option Slot → Bool
has_id id none = false
has_id id (some slot) = slot.id == id

abbrev pub found_open : List Slot → Option ℕ → Option ℕ
found_open slots none = none
found_open slots (some at) = elim (when_open (get_elem? slots at)) [
  | none ↦ none
  | some _ ↦ some at
]

unfoldable pub position_in : ℕ → List Slot → Option ℕ
position_in id [] = none
position_in id (slot ∷ slots) =
    if has_id id (get_elem? (slot ∷ slots) (length slots))
    then some (length slots)
    else found_open (slot ∷ slots) (binary_search id (slot ∷ slots))

unfoldable pub position : ℕ → Mail → Option ℕ
position id m = position_in id m.slots

abbrev pub slot_at : List Slot → Option ℕ → Option (ℕ × Slot)
slot_at slots none = none
slot_at slots (some at) = elim (get_elem? slots at) [ none ↦ none | some slot ↦ some (at, slot) ]

-- `self.position(id).and_then(|at| self.slots.get_mut(at))`.
unfoldable pub find : ℕ → Mail → Option (ℕ × Slot)
find id m = slot_at m.slots (position id m)

-- What `deliver` does once the slot's check has run.
unfoldable pub deliver_checked :
    ReplyHandle
    → Value
    → Mail
    → ℕ
    → Slot
    → Option (Result (Unit {0}) DecodeError)
    → Option (Delivery × Mail)
deliver_checked reply value m at slot none = none
deliver_checked reply value m at slot (some (ok _)) = some (
  delivered slot.waker,
  record m { slots = set m.slots at (record slot { value = some value; waker = none }) },
)
deliver_checked reply value m at slot (some (err error)) =
    some (refused (Reply.mint reply.driver reply.id) error, m)

unfoldable pub deliver_found :
    ReplyHandle → Value → Mail → Option (ℕ × Slot) → Option (Delivery × Mail)
unfolding deliver_checked
deliver_found reply value m none = some (gone, m)
deliver_found reply value m (some (at, slot)) =
    deliver_checked reply value m at slot (slot.check value)

unfoldable pub deliver : ReplyHandle → Value → Mail → Option (Delivery × Mail)
unfolding deliver_found
deliver reply value m =
    if reply.driver == m.driver then deliver_found reply value m (find reply.id m) else none

-- The waker that the slot keeps: `waker`, unless it would wake what the slot's own does.
abbrev pub kept_waker : Option ℕ → Option ℕ → Option ℕ
kept_waker kept none = kept
kept_waker none (some waker) = some waker
kept_waker (some kept) (some waker) = if kept == waker then some kept else some waker

unfoldable pub collect_value : Option ℕ → Mail → ℕ → Slot → Option Value → Option Value × Mail
collect_value waker m at slot (some _) = take at m
collect_value waker m at slot none = (
  none,
  record m { slots = set m.slots at (record slot { waker = kept_waker slot.waker waker }) },
)

unfoldable pub collect_found : Option ℕ → Mail → Option (ℕ × Slot) → Option Value × Mail
unfolding collect_value
collect_found waker m none = (none, m)
collect_found waker m (some (at, slot)) = collect_value waker m at slot slot.value

unfoldable pub collect : ℕ → Option ℕ → Mail → Option Value × Mail
unfolding collect_found
collect id waker m = collect_found waker m (find id m)

abbrev pub note_closed : ℕ → Option Value × Mail → Mail
note_closed id (none, m) = record m { closed = m.closed ++ id ∷ [] }
note_closed id (some _, m) = m

unfoldable pub close_at : ℕ → Mail → Option ℕ → Mail
close_at id m none = m
close_at id m (some at) = note_closed id (take at m)

unfoldable pub close : ℕ → Mail → Mail
unfolding close_at
close id m = close_at id m (position id m)

unfoldable pub take_closed : Mail → List ℕ × Mail
take_closed m = (m.closed, record m { closed = [] })

unfoldable pub outstanding : Mail → ℕ
outstanding m = m.open_count
