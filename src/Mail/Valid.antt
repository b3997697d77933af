-- ===== src/Mail/Valid.antt =====
-- sans-effort-core/src/driver/mail.rs: the operations of the mailbox and its invariant.
use sans_effort.Shared.{
  ℕ, ◌+◌, ◌<◌, ◌≡◌, refl, sym, subst, List, [], ◌∷◌, Option, none, some, ok, err, Result, ◌==◌,
  u64_mod, inl, inr, Bool-cases, arith,
}
use sans_effort.Codec.Reader.{DecodeError}
use sans_effort.Reply.{Value, ReplyHandle, Check}
use sans_effort.Reply
use sans_effort.Mail.{
  Slot, Mail, Delivery, deliver, deliver_found, deliver_checked, collect, collect_found,
  collect_value, close, close_at, note_closed, open_slot, mint, take_closed, take, take_slot, find,
  position, kept_waker,
}
use sans_effort.Mail.Slots.{AreBelow}
use sans_effort.Mail.Position.{
  Located, Lookup, missing, present, position_cases, find-missing, find-present,
}
use sans_effort.Mail.Invariant.{
  IsValid, write_slot-IsValid, take_slot-IsValid, take-Located, mint-IsValid, open_slot-IsValid,
}
use sans_effort.Mail.Opening.{Absent}

look : (id : ℕ) (m : Mail) → IsValid m → Lookup id m
look id m v = position_cases id m v.shape.sorted v.shape.ends_open

-- The mailbox after an operation is valid, and no id was minted.
abbrev pub Keeps : Mail → Mail → Type 0
Keeps m m' = IsValid m' × (m'.next ≡ m.next)

-- Whatever a reply meets.
abbrev pub DeliverKeeps : Mail → Option (Delivery × Mail) → Type 0
DeliverKeeps m none = Unit {0}
DeliverKeeps m (some (_, m')) = Keeps m m'

deliver_checked-Keeps :
    (reply : ReplyHandle) (value : Value) (m : Mail) (at : ℕ) (slot : Slot)
    (r : Option (Result (Unit {0}) DecodeError))
    → IsValid m
    → Located reply.id m.slots at slot
    → DeliverKeeps m (deliver_checked reply value m at slot r)
unfolding deliver_checked
deliver_checked-Keeps reply value m at slot none v l = tt
deliver_checked-Keeps reply value m at slot (some (err e)) v l = (v, refl)
deliver_checked-Keeps reply value m at slot (some (ok _)) v l = (
  write_slot-IsValid reply.id at slot (record slot { value = some value; waker = none }) m v l refl
      l.opened,
  refl,
)

deliver_found-Keeps :
    (reply : ReplyHandle) (value : Value) (m : Mail)
    → IsValid m
    → Lookup reply.id m
    → DeliverKeeps m (deliver_found reply value m (find reply.id m))
unfolding deliver_found
deliver_found-Keeps reply value m v (missing e f) =
    subst (λ r. DeliverKeeps m (deliver_found reply value m r)) (sym (find-missing reply.id m e))
      (v, refl)
deliver_found-Keeps reply value m v (present at slot e l f) =
    subst (λ r. DeliverKeeps m (deliver_found reply value m r))
      (sym (find-present reply.id m at slot e l))
      (deliver_checked-Keeps reply value m at slot (slot.check value) v l)

pub deliver-Keeps :
    (reply : ReplyHandle) (value : Value) (m : Mail)
    → IsValid m
    → DeliverKeeps m (deliver reply value m)
unfolding deliver
deliver-Keeps reply value m v = elim (Bool-cases (reply.driver == m.driver)) [
  | inl same ↦ rw same (deliver_found-Keeps reply value m v (look reply.id m v))
  | inr other ↦ rw other tt
]

take-Keeps :
    (id at : ℕ) (slot : Slot) (m : Mail)
    → IsValid m
    → Located id m.slots at slot
    → Keeps m (take at m).1
unfolding take_slot
take-Keeps id at slot m v l =
    subst (λ r. Keeps m r.1) (sym (take-Located id at slot m l))
      (take_slot-IsValid id at slot m v l, refl)

collect_value-Keeps :
    (id : ℕ) (waker : Option ℕ) (m : Mail) (at : ℕ) (slot : Slot) (r : Option Value)
    → IsValid m
    → Located id m.slots at slot
    → Keeps m (collect_value waker m at slot r).1
unfolding collect_value
collect_value-Keeps id waker m at slot none v l = (
  write_slot-IsValid id at slot (record slot { waker = kept_waker slot.waker waker }) m v l refl
      l.opened,
  refl,
)
collect_value-Keeps id waker m at slot (some value) v l = take-Keeps id at slot m v l

collect_found-Keeps :
    (id : ℕ) (waker : Option ℕ) (m : Mail)
    → IsValid m
    → Lookup id m
    → Keeps m (collect_found waker m (find id m)).1
unfolding collect_found
collect_found-Keeps id waker m v (missing e f) =
    subst (λ r. Keeps m (collect_found waker m r).1) (sym (find-missing id m e)) (v, refl)
collect_found-Keeps id waker m v (present at slot e l f) =
    subst (λ r. Keeps m (collect_found waker m r).1) (sym (find-present id m at slot e l))
      (collect_value-Keeps id waker m at slot slot.value v l)

pub collect-Keeps :
    (id : ℕ) (waker : Option ℕ) (m : Mail) → IsValid m → Keeps m (collect id waker m).1
unfolding collect
collect-Keeps id waker m v = collect_found-Keeps id waker m v (look id m v)

note_closed-Keeps :
    (id : ℕ) (m : Mail) (r : Option Value × Mail) → Keeps m r.1 → Keeps m (note_closed id r)
note_closed-Keeps id m (none, m') (v, e) = (record { shape = v.shape; started = v.started }, e)
note_closed-Keeps id m (some value, m') k = k

close_at-Keeps :
    (id : ℕ) (m : Mail) → IsValid m → Lookup id m → Keeps m (close_at id m (position id m))
unfolding close_at
close_at-Keeps id m v (missing e f) = subst (λ r. Keeps m (close_at id m r)) (sym e) (v, refl)
close_at-Keeps id m v (present at slot e l f) =
    subst (λ r. Keeps m (close_at id m r)) (sym e)
      (note_closed-Keeps id m (take at m) (take-Keeps id at slot m v l))

pub close-Keeps : (id : ℕ) (m : Mail) → IsValid m → Keeps m (close id m)
unfolding close
close-Keeps id m v = close_at-Keeps id m v (look id m v)

pub take_closed-Keeps : (m : Mail) → IsValid m → Keeps m (take_closed m).1
unfolding take_closed
take_closed-Keeps m v = (record { shape = v.shape; started = v.started }, refl)

-- An id that is not yet minted has no slot.
AreBelow-Absent : (n : ℕ) (slots : List Slot) → AreBelow n slots → Absent n slots
AreBelow-Absent n [] b = tt
AreBelow-Absent n (slot ∷ slots) b = ((λ e. omega arith), AreBelow-Absent n slots b.1)

pub mint-Absent : (m : Mail) → IsValid m → Absent (mint m).0.id (mint m).1.slots
unfolding mint Reply.mint
mint-Absent m v = AreBelow-Absent m.next m.slots v.shape.below

-- Minting a request and opening its slot keeps the invariant, while ids last.
pub ask-IsValid :
    (check : Check) (m : Mail)
    → IsValid m
    → m.next + 1 < u64_mod
    → IsValid (open_slot (mint m).0.id check (mint m).1)
unfolding mint Reply.mint
ask-IsValid check m v h =
    open_slot-IsValid m.next check (mint m).1 (mint-IsValid m v h) v.started (omega arith)
      (mint-Absent m v)
