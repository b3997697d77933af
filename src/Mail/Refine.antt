-- ===== src/Mail/Refine.antt =====
-- sans-effort-core/src/driver/mail.rs: each operation of the mailbox against the operation of the
-- map.
use mathlib.Core.Path.{fun_ext}
use mathlib.Core.Option
use sans_effort.Shared.{
  ℕ, ◌≡◌, refl, sym, ap, ◌∙◌, [], ◌∷◌, ◌++◌, Option, none, some, true, ok, err, Result, ◌==◌, inl,
  inr, Bool-cases,
}
use sans_effort.Codec.Reader.{DecodeError}
use sans_effort.Reply.{Value, ReplyHandle, Check}
use sans_effort.Mail.{
  Slot, Mail, Delivery, deliver, deliver_found, deliver_checked, collect, collect_found,
  collect_value, close, close_at, note_closed, open_slot, take, take_slot, find, position,
  kept_waker,
}
use sans_effort.Mail.Slots.{request}
use sans_effort.Mail.Position.{
  Located, Lookup, missing, present, position_cases, find-missing, find-present,
}
use sans_effort.Mail.Invariant.{
  IsValid, write_slot, request-write_slot, request-take_slot, take-Located, request-open_slot,
}
use sans_effort.Mail.Opening.{Absent}
use sans_effort.Mail.Map.{
  Spec, view, update, spec_open, spec_deliver, spec_found, spec_checked, spec_collect, spec_close,
  spec_collect_found, spec_value, spec_close_found, spec_close_value,
}

look : (id : ℕ) (m : Mail) → IsValid m → Lookup id m
look id m v = position_cases id m v.shape.sorted v.shape.ends_open

module _ (id at : ℕ) (slot : Slot) (m : Mail) (v : IsValid m) (l : Located id m.slots at slot) where
  view-write_slot :
      (slot' : Slot)
      → slot'.id ≡ slot.id
      → slot'.is_open ≡ true
      → view (write_slot at slot' m)
        ≡ record (view m) { requests = update id (some slot') (view m).requests }
  view-write_slot slot' same opened =
      ap (λ f. record (view m) { requests = f })
        (fun_ext (request-write_slot id at slot slot' m v l same opened))

  view-take_slot :
      view (take_slot at slot m) ≡ record (view m) { requests = update id none (view m).requests }
  unfolding take_slot
  view-take_slot =
      ap (λ f. record (view m) { requests = f })
        (fun_ext (λ j. request-take_slot j id at slot m v l))

abbrev pub view_delivery : Delivery × Mail → Delivery × Spec
view_delivery (d, m) = (d, view m)

deliver_checked-view :
    (reply : ReplyHandle) (value : Value) (m : Mail) (at : ℕ) (slot : Slot)
    (r : Option (Result (Unit {0}) DecodeError))
    → IsValid m
    → Located reply.id m.slots at slot
    → Option.map view_delivery (deliver_checked reply value m at slot r)
      ≡ spec_checked reply value (view m) slot r
unfolding deliver_checked
deliver_checked-view reply value m at slot none v l = refl
deliver_checked-view reply value m at slot (some (err e)) v l = refl
deliver_checked-view reply value m at slot (some (ok _)) v l =
    ap (λ s. some (Delivery.delivered slot.waker, s))
      (view-write_slot reply.id at slot m v l (record slot { value = some value; waker = none })
        refl l.opened)

deliver_found-view :
    (reply : ReplyHandle) (value : Value) (m : Mail)
    → IsValid m
    → Lookup reply.id m
    → Option.map view_delivery (deliver_found reply value m (find reply.id m))
      ≡ spec_found reply value (view m) (request reply.id m.slots)
unfolding deliver_found
deliver_found-view reply value m v (missing e f) =
    ap (λ r. Option.map view_delivery (deliver_found reply value m r)) (find-missing reply.id m e)
    ∙ ap (spec_found reply value (view m)) (sym f)
deliver_found-view reply value m v (present at slot e l f) =
    ap (λ r. Option.map view_delivery (deliver_found reply value m r))
      (find-present reply.id m at slot e l)
    ∙ deliver_checked-view reply value m at slot (slot.check value) v l
    ∙ ap (spec_found reply value (view m)) (sym f)

-- `deliver` on a valid mailbox does what the map does: it panics for another driver's handle,
-- reports a reply that nothing awaits as gone, refuses one that the slot's check refuses, and
-- stores any other for the request it answers, and for no other.
pub deliver-view :
    (reply : ReplyHandle) (value : Value) (m : Mail)
    → IsValid m
    → Option.map view_delivery (deliver reply value m) ≡ spec_deliver reply value (view m)
unfolding deliver
deliver-view reply value m v = elim (Bool-cases (reply.driver == m.driver)) [
  | inl same ↦ rw same (deliver_found-view reply value m v (look reply.id m v))
  | inr other ↦ rw other
]

abbrev pub view_value : Option Value × Mail → Option Value × Spec
view_value (r, m) = (r, view m)

take-view :
    (id at : ℕ) (slot : Slot) (m : Mail)
    → IsValid m
    → Located id m.slots at slot
    → view_value (take at m)
      ≡ (slot.value, record (view m) { requests = update id none (view m).requests })
take-view id at slot m v l =
    ap view_value (take-Located id at slot m l)
    ∙ ap (λ s. (slot.value, s)) (view-take_slot id at slot m v l)

collect_value-view :
    (id : ℕ) (waker : Option ℕ) (m : Mail) (at : ℕ) (slot : Slot) (r : Option Value)
    → IsValid m
    → Located id m.slots at slot
    → slot.value ≡ r
    → view_value (collect_value waker m at slot r) ≡ spec_value id waker (view m) slot r
unfolding collect_value
collect_value-view id waker m at slot none v l e =
    ap (λ s. (none, s))
      (view-write_slot id at slot m v l (record slot { waker = kept_waker slot.waker waker }) refl
        l.opened)
collect_value-view id waker m at slot (some value) v l e =
    take-view id at slot m v l
    ∙ ap (λ r. (r, record (view m) { requests = update id none (view m).requests })) e

collect_found-view :
    (id : ℕ) (waker : Option ℕ) (m : Mail)
    → IsValid m
    → Lookup id m
    → view_value (collect_found waker m (find id m))
      ≡ spec_collect_found id waker (view m) (request id m.slots)
unfolding collect_found
collect_found-view id waker m v (missing e f) =
    ap (λ r. view_value (collect_found waker m r)) (find-missing id m e)
    ∙ ap (spec_collect_found id waker (view m)) (sym f)
collect_found-view id waker m v (present at slot e l f) =
    ap (λ r. view_value (collect_found waker m r)) (find-present id m at slot e l)
    ∙ collect_value-view id waker m at slot slot.value v l refl
    ∙ ap (spec_collect_found id waker (view m)) (sym f)

pub collect-view :
    (id : ℕ) (waker : Option ℕ) (m : Mail)
    → IsValid m
    → view_value (collect id waker m) ≡ spec_collect id waker (view m)
unfolding collect
collect-view id waker m v = collect_found-view id waker m v (look id m v)

note_closed-view :
    (id : ℕ) (m : Mail) (r : Option Value × Mail)
    → view_value r ≡ (r.0, record (view m) { requests = update id none (view m).requests })
    → view (note_closed id r) ≡ spec_close_value id (view m) r.0
note_closed-view id m (none, m') e = ap (λ p. record p.1 { closed = p.1.closed ++ id ∷ [] }) e
note_closed-view id m (some value, m') e = ap (λ p. p.1) e

close_at-view :
    (id : ℕ) (m : Mail)
    → IsValid m
    → Lookup id m
    → view (close_at id m (position id m)) ≡ spec_close_found id (view m) (request id m.slots)
unfolding close_at
close_at-view id m v (missing e f) =
    ap (λ r. view (close_at id m r)) e ∙ ap (spec_close_found id (view m)) (sym f)
close_at-view id m v (present at slot e l f) =
    ap (λ r. view (close_at id m r)) e
    ∙ ap (λ r. view (note_closed id r)) (take-Located id at slot m l)
    ∙ note_closed-view id m (slot.value, take_slot at slot m)
        (ap (λ s. (slot.value, s)) (view-take_slot id at slot m v l))
    ∙ ap (spec_close_found id (view m)) (sym f)

-- `close` on a valid mailbox removes the request, and reports its id as closed exactly if no reply
-- had arrived; a request that is not open changes nothing.
pub close-view : (id : ℕ) (m : Mail) → IsValid m → view (close id m) ≡ spec_close id (view m)
unfolding close
close-view id m v = close_at-view id m v (look id m v)

-- `open` on a valid mailbox adds a request that waits, under an id that no slot has yet.
pub open_slot-view :
    (id : ℕ) (check : Check) (m : Mail)
    → IsValid m
    → Absent id m.slots
    → view (open_slot id check m) ≡ spec_open id check (view m)
unfolding open_slot
open_slot-view id check m v a =
    ap (λ f. record (view m) { requests = f }) (fun_ext (λ j. request-open_slot j id check m v a))
