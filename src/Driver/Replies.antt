-- ===== src/Driver/Replies.antt =====
-- sans-effort-core/src/driver/stepper.rs, `try_reply`: what a reply does to a driver, on each
-- branch.
use sans_effort.Shared.{
  ℕ, ◌≡◌, refl, sym, ap, ◌∙◌, Option, none, some, Result, ok, err, inl, inr, ◌==◌, Bool-cases,
  Option-cases, subst,
}
use sans_effort.Codec.Reader.{DecodeError}
use sans_effort.Codec.Writer.{◌>>=◌}
use sans_effort.Reply.{Value, ReplyHandle}
use sans_effort.Reply
use sans_effort.Mail.{
  Mail, Slot, Delivery, delivered, gone, refused, deliver, deliver_found, deliver_checked, find,
}
use sans_effort.Outbox
use sans_effort.Outbox.{Inner, with_mail}
use sans_effort.Driver.{Yield, nothing, Refused}
use sans_effort.Driver.Wake.{wake_times, wake_times-hold, clear, hold}
use sans_effort.Driver.Stepper.{
  Routine, Shares, Stepper, polled, poll, poll_some, wake_kept, on_delivery, when_delivered,
  try_reply_wire, resume,
}

-- A reply that is not delivered leaves the mailbox as it was, and a refused one gives its handle
-- back.
abbrev Unmoved : ReplyHandle → Mail → Option (Delivery × Mail) → Type 0
Unmoved reply m none = Unit
Unmoved reply m (some (delivered _, m')) = Unit
Unmoved reply m (some (gone, m')) = m' ≡ m
Unmoved reply m (some (refused handle _, m')) = (m' ≡ m) × (handle ≡ reply)

deliver_checked-Unmoved :
    (reply : ReplyHandle) (value : Value) (m : Mail) (at : ℕ) (slot : Slot)
    (r : Option (Result (Unit {0}) DecodeError))
    → Unmoved reply m (deliver_checked reply value m at slot r)
unfolding deliver_checked Reply.mint
deliver_checked-Unmoved reply value m at slot none = tt
deliver_checked-Unmoved reply value m at slot (some (ok _)) = tt
deliver_checked-Unmoved reply value m at slot (some (err e)) = (refl, refl)

deliver_found-Unmoved :
    (reply : ReplyHandle) (value : Value) (m : Mail) (found : Option (ℕ × Slot))
    → Unmoved reply m (deliver_found reply value m found)
unfolding deliver_found
deliver_found-Unmoved reply value m none = refl
deliver_found-Unmoved reply value m (some (at, slot)) =
    deliver_checked-Unmoved reply value m at slot (slot.check value)

deliver-Unmoved :
    (reply : ReplyHandle) (value : Value) (m : Mail) → Unmoved reply m (deliver reply value m)
unfolding deliver
deliver-Unmoved reply value m = elim (Bool-cases (reply.driver == m.driver)) [
  | inl same ↦ rw same (deliver_found-Unmoved reply value m (find reply.id m))
  | inr other ↦ rw other tt
]

module _ {F E : Type 0} (routine : Routine F E) where
  -- A routine's wakers wake nothing but the driver's own waker, any number of times.
  abbrev pub WakesDriver : Type 0
  WakesDriver =
      (waker : ℕ) (shared : Shares E)
      → (n : ℕ) × (routine.wake waker shared
          ≡ some (record shared { wakeup = wake_times n shared.wakeup }))

  poll_shared : (shared : Shares E) → Shares E
  poll_shared shared = record shared { wakeup = clear shared.wakeup }

  wake_kept-clear :
      WakesDriver
      → (waker : Option ℕ) (shared : Shares E)
      → (woken : Shares E) × (wake_kept routine waker shared ≡ some woken)
        × (poll_shared woken ≡ poll_shared shared)
  unfolding wake_kept poll_shared clear hold
  wake_kept-clear w none shared = (shared, refl, refl)
  wake_kept-clear w (some waker) shared =
      let held = record shared { wakeup = hold shared.wakeup } in
      let (n, e) = w waker held in
      (
        record held { wakeup = wake_times n held.wakeup },
        e,
        ap (λ u. poll_shared (record shared { wakeup = u })) (wake_times-hold n shared.wakeup),
      )

  abbrev pub answered :
      Option (Yield E × Stepper F E) → Option (Result (Yield E) Refused × Stepper F E)
  answered none = none
  answered (some (yielded, s)) = some (ok yielded, s)

  abbrev pub with_outbox : Inner E → Stepper F E → Stepper F E
  with_outbox outbox s = record s { shares = record s.shares { outbox = outbox } }

  answered-bind :
      (o : Option (Yield E × Stepper F E))
      → (o >>= λ (yielded, s). some (ok yielded, s)) ≡ answered o
  answered-bind none = refl
  answered-bind (some (yielded, s)) = refl

  poll_some-kept :
      (future : F) (s : Stepper F E) (woken : Shares E)
      → poll_shared woken ≡ poll_shared s.shares
      → poll_some routine (some future) (record s { shares = woken })
        ≡ poll_some routine (some future) s
  unfolding poll_some poll_shared
  poll_some-kept future s woken e =
      ap (λ shared. routine.poll_future future s.waker shared >>= polled routine s.waker) e

  on_delivery-resume :
      WakesDriver
      → (waker : Option ℕ) (future : F) (s : Stepper F E) → s.future ≡ some future
      → on_delivery routine (delivered waker) s ≡ answered (resume routine s)
  unfolding on_delivery resume poll
  on_delivery-resume w waker future s e =
      let (woken, kept, same) = wake_kept-clear w waker s.shares in
      ap
        (λ o. o >>= λ shares.
          poll_some routine s.future (record s { shares = shares }) >>= λ (yielded, s').
          some (ok yielded, s'))
        kept
      ∙ answered-bind (poll_some routine s.future (record s { shares = woken }))
      ∙ ap (λ f. answered (poll_some routine f (record s { shares = woken }))) e
      ∙ ap answered (poll_some-kept future s woken same)
      ∙ ap (λ f. answered (poll_some routine f s)) (sym e)

  -- What `try_reply` comes to, by what the outbox made of the reply.
  abbrev pub Outcome :
      ReplyHandle
      → Stepper F E
      → Option (Delivery × Inner E)
      → Option (Result (Yield E) Refused × Stepper F E)
      → Type 0
  Outcome reply s none r = r ≡ none
  Outcome reply s (some (delivered _, outbox)) r =
      r ≡ answered (resume routine (with_outbox outbox s))
  Outcome reply s (some (gone, _)) r = r ≡ some (ok nothing, s)
  Outcome reply s (some (refused _ error, _)) r =
      r ≡ some (err (record { reply = reply; error = error }), s)

  when_delivered-Outcome :
      WakesDriver
      → (reply : ReplyHandle) (future : F) (s : Stepper F E) (r : Option (Delivery × Mail))
      → s.future ≡ some future
      → Unmoved reply s.shares.outbox.mail r
      → Outcome reply s
          (with_mail s.shares.outbox r)
          (when_delivered routine s (with_mail s.shares.outbox r))
  unfolding on_delivery
  when_delivered-Outcome w reply future s none e u = refl
  when_delivered-Outcome w reply future s (some (delivered waker, m)) e u =
      on_delivery-resume w waker future (with_outbox (record s.shares.outbox { mail = m }) s) e
  when_delivered-Outcome w reply future s (some (gone, m)) e u =
      ap (λ m'. some (ok nothing, with_outbox (record s.shares.outbox { mail = m' }) s)) u
  when_delivered-Outcome w reply future s (some (refused handle error, m)) e (u, h) =
      ap
        (λ m'. some (
          err (record { reply = handle; error = error }),
          with_outbox (record s.shares.outbox { mail = m' }) s,
        ))
        u
      ∙ ap (λ handle'. some (err (record { reply = handle'; error = error }), s)) h

  -- A reply to a driver whose routine has not returned, where the routine's wakers wake nothing
  -- but the driver's own and do not panic: it panics where the outbox's delivery does; if it is
  -- delivered, it is the same as resuming the driver with the reply in its outbox, a panic of the
  -- routine included, so that the wake it causes calls no hook; if its request is gone, it yields nothing; if it is refused, it is handed back
  -- with the error; and in the last two cases the driver is unchanged.
  pub try_reply_wire-Outcome :
      WakesDriver
      → (reply : ReplyHandle) (value : Value) (future : F) (s : Stepper F E)
      → s.future ≡ some future
      → Outcome reply s
          (Outbox.deliver reply value s.shares.outbox)
          (try_reply_wire routine reply value s)
  unfolding try_reply_wire Outbox.deliver
  try_reply_wire-Outcome w reply value future s e =
      when_delivered-Outcome w reply future s (deliver reply value s.shares.outbox.mail) e
        (deliver-Unmoved reply value s.shares.outbox.mail)

  -- A refusal gives the handle back and leaves the driver as it was.
  abbrev pub Rejects :
      ReplyHandle → Stepper F E → Option (Result (Yield E) Refused × Stepper F E) → Type 0
  Rejects reply s none = Unit
  Rejects reply s (some (ok _, _)) = Unit
  Rejects reply s (some (err refusal, s')) = (refusal.reply ≡ reply) × (s' ≡ s)

  delivered-Rejects :
      (reply : ReplyHandle) (s : Stepper F E) (waker : Option ℕ) (s0 : Stepper F E)
      → Rejects reply s (on_delivery routine (delivered waker) s0)
  unfolding on_delivery
  delivered-Rejects reply s waker s0 = elim (Option-cases (wake_kept routine waker s0.shares)) [
    | inl e ↦ rw e tt
    | inr (shares, e) ↦ rw e (
        subst (Rejects reply s) (sym (answered-bind (poll routine (record s0 { shares = shares }))))
          (of_answered (poll routine (record s0 { shares = shares }))))
  ]
    where
      of_answered : (o : Option (Yield E × Stepper F E)) → Rejects reply s (answered o)
      of_answered none = tt
      of_answered (some (yielded, s')) = tt

  when_delivered-Rejects :
      (reply : ReplyHandle) (s : Stepper F E) (r : Option (Delivery × Mail))
      → Unmoved reply s.shares.outbox.mail r
      → Rejects reply s (when_delivered routine s (with_mail s.shares.outbox r))
  unfolding on_delivery
  when_delivered-Rejects reply s none u = tt
  when_delivered-Rejects reply s (some (delivered waker, m)) u =
      delivered-Rejects reply s waker (with_outbox (record s.shares.outbox { mail = m }) s)
  when_delivered-Rejects reply s (some (gone, m)) u = tt
  when_delivered-Rejects reply s (some (refused handle error, m)) (u, h) =
      (h, ap (λ m'. with_outbox (record s.shares.outbox { mail = m' }) s) u)

  pub try_reply_wire-Rejects :
      (reply : ReplyHandle) (value : Value) (s : Stepper F E)
      → Rejects reply s (try_reply_wire routine reply value s)
  unfolding try_reply_wire Outbox.deliver
  try_reply_wire-Rejects reply value s =
      when_delivered-Rejects reply s (deliver reply value s.shares.outbox.mail)
        (deliver-Unmoved reply value s.shares.outbox.mail)

  -- A finished driver after a reply that does not panic: still finished, nothing yielded unless the
  -- reply is refused.
  abbrev pub Finished : Option (Result (Yield E) Refused × Stepper F E) → Type 0
  Finished none = Unit
  Finished (some (ok yielded, s)) = (yielded ≡ nothing) × (s.future ≡ none)
  Finished (some (err _, s)) = s.future ≡ none

  poll_finished : (s : Stepper F E) → s.future ≡ none → poll routine s ≡ some (nothing, s)
  unfolding poll poll_some
  poll_finished s e = ap (λ f. poll_some routine f s) e

  on_delivery-Finished :
      (d : Delivery) (s : Stepper F E) → s.future ≡ none → Finished (on_delivery routine d s)
  unfolding on_delivery
  on_delivery-Finished (delivered waker) s e =
      elim (Option-cases (wake_kept routine waker s.shares)) [
        | inl q ↦ rw q tt
        | inr (shares, q) ↦ rw q (
            subst (λ o. Finished (o >>= λ (yielded, s'). some (ok yielded, s')))
              (sym (poll_finished (record s { shares = shares }) e)) (refl, e))
      ]
  on_delivery-Finished gone s e = (refl, e)
  on_delivery-Finished (refused reply error) s e = e

  when_delivered-Finished :
      (s : Stepper F E) (d : Option (Delivery × Inner E))
      → s.future ≡ none
      → Finished (when_delivered routine s d)
  when_delivered-Finished s none e = tt
  when_delivered-Finished s (some (d, outbox)) e = on_delivery-Finished d (with_outbox outbox s) e

  -- A driver whose routine has returned stays so: resuming it yields nothing and changes nothing,
  -- and a reply that does not panic yields nothing or is refused, and leaves it finished.
  pub Finished-stays :
      (s : Stepper F E) (reply : ReplyHandle) (value : Value)
      → s.future ≡ none
      → (resume routine s ≡ some (nothing, s)) × Finished (try_reply_wire routine reply value s)
  unfolding resume try_reply_wire
  Finished-stays s reply value e =
      (poll_finished s e, when_delivered-Finished s (Outbox.deliver reply value s.shares.outbox) e)
