-- ===== src/Driver/Steps.antt =====
-- sans-effort-core/src/driver/stepper.rs: the steps that a driver can take, and its status.
use sans_effort.Shared.{
  ℕ, zero, suc, ◌≡◌, refl, sym, subst, Option, none, some, Result, ok, Bool, true, false, not, inl,
  inr, Option-cases,
}
use sans_effort.Codec.Writer.{◌>>=◌}
use sans_effort.Reply.{Value, ReplyHandle}
use sans_effort.Mail.{
  Mail, Slot, Delivery, delivered, gone, refused, deliver, deliver_found, deliver_checked, find,
}
use sans_effort.Mail
use sans_effort.Outbox
use sans_effort.Outbox.{Inner, with_mail}
use sans_effort.Driver.{Status, awaiting, complete, idle, classify, Yield, Refused}
use sans_effort.Driver.Wake
use sans_effort.Driver.Stepper.{
  Routine, Shares, Stepper, new, on_wake, is_finished, after_poll, drained, polled, poll, poll_some,
  wake_kept, on_delivery, when_delivered, try_reply_wire, new_driver, resume,
}

abbrev pub is_complete : Status → Bool
is_complete complete = true
is_complete _ = false

module _ {F E : Type 0} where
  -- The status says that the routine returned exactly if its future is gone.
  abbrev pub Agrees : Stepper F E → Type 0
  Agrees s = is_finished s ≡ is_complete s.status

abbrev is_some : {F : Type 0} → Option F → Bool
is_some none = false
is_some (some _) = true

abbrev the_result : {E : Type 0} → Yield E → Result (Yield E) Refused
the_result yielded = ok yielded

module _ {F E : Type 0} (routine : Routine F E) where
  -- What can happen to a driver: the host resumes it, replies, or sets a hook, and between two
  -- polls anything may happen to what it shares with its routine.
  pub data Step : Stepper F E → Stepper F E → Type 0 where
    resumes :
        (s s' : Stepper F E) (yielded : Yield E) → resume routine s ≡ some (yielded, s') → Step s s'
    replies :
        (reply : ReplyHandle) (value : Value) (s s' : Stepper F E) (r : Result (Yield E) Refused)
        → try_reply_wire routine reply value s ≡ some (r, s')
        → Step s s'
    hooks : (s : Stepper F E) → Step s (on_wake s)
    shares : (s : Stepper F E) (shared : Shares E) → Step s (record s { shares = shared })

  pub data Reachable : Stepper F E → Type 0 where
    starts :
        (make : Inner E → F × Inner E) (driver waker : ℕ) → Reachable (new_driver make driver waker)
    steps : {s s' : Stepper F E} → Reachable s → Step s s' → Reachable s'

  classify-is_complete :
      (is_ready : Bool) (outstanding : ℕ) → is_complete (classify is_ready outstanding) ≡ is_ready
  unfolding classify
  classify-is_complete true n = refl
  classify-is_complete false zero = refl
  classify-is_complete false (suc n) = refl

  -- What holds of the driver afterwards, unless there was a panic.
  abbrev pub After : {A : Type 0} → (Stepper F E → Type 0) → Option (A × Stepper F E) → Type 0
  After P none = Unit
  After P (some (_, s)) = P s

  polled-Agrees : (waker : ℕ) (r : (Bool × F) × Shares E) → After Agrees (polled routine waker r)
  unfolding drained after_poll is_finished
  polled-Agrees waker ((true, future), shared) =
      elim (Option-cases (routine.drop_future future shared)) [
        | inl e ↦ rw e tt
        | inr (dropped, e) ↦ rw e (sym (classify-is_complete true _))
      ]
  polled-Agrees waker ((false, future), shared) = sym (classify-is_complete false _)

  cleared : Stepper F E → Shares E
  cleared s = record s.shares { wakeup = Wake.clear s.shares.wakeup }

  poll_some-Agrees :
      (future : Option F) (s : Stepper F E) → Agrees s → After Agrees (poll_some routine future s)
  unfolding poll_some cleared
  poll_some-Agrees none s a = a
  poll_some-Agrees (some future) s a =
      elim (Option-cases (routine.poll_future future s.waker (cleared s))) [
        | inl e ↦ rw e tt
        | inr (r, e) ↦ rw e (polled-Agrees s.waker r)
      ]

  poll-Agrees : (s : Stepper F E) → Agrees s → After Agrees (poll routine s)
  unfolding poll
  poll-Agrees s a = poll_some-Agrees s.future s a

  After-answered :
      (P : Stepper F E → Type 0) (o : Option (Yield E × Stepper F E))
      → After P o
      → After P (o >>= λ (yielded, s). some (the_result yielded, s))
  After-answered P none q = tt
  After-answered P (some (yielded, s)) q = q

  on_delivery-Agrees :
      (d : Delivery) (s : Stepper F E) → Agrees s → After Agrees (on_delivery routine d s)
  unfolding on_delivery
  on_delivery-Agrees (delivered waker) s a =
      elim (Option-cases (wake_kept routine waker s.shares)) [
        | inl e ↦ rw e tt
        | inr (shared, e) ↦ rw e (
            After-answered Agrees (poll routine (record s { shares = shared }))
              (poll-Agrees (record s { shares = shared }) (unfold is_finished in a)))
      ]
  on_delivery-Agrees gone s a = a
  on_delivery-Agrees (refused reply error) s a = a

  when_delivered-Agrees :
      (s : Stepper F E) (d : Option (Delivery × Inner E))
      → Agrees s
      → After Agrees (when_delivered routine s d)
  when_delivered-Agrees s none a = tt
  when_delivered-Agrees s (some (d, outbox)) a =
      on_delivery-Agrees d (record s { shares = record s.shares { outbox = outbox } })
        (unfold is_finished in a)

  Step-Agrees : {s s' : Stepper F E} → Step s s' → Agrees s → Agrees s'
  unfolding resume try_reply_wire on_wake is_finished
  Step-Agrees (resumes s s' yielded e) a = subst (After Agrees) e (poll-Agrees s a)
  Step-Agrees (replies reply value s s' r e) a =
      subst (After Agrees) e
        (when_delivered-Agrees s (Outbox.deliver reply value s.shares.outbox) a)
  Step-Agrees (hooks s) a = a
  Step-Agrees (shares s shared) a = a

  -- In every state that a driver reaches from its start, by resumes, replies and hooks, and with
  -- anything happening between polls to what it shares, it is finished exactly if its status is
  -- `Complete`.
  pub Reachable-Agrees : (s : Stepper F E) → Reachable s → Agrees s
  unfolding new_driver new is_finished
  Reachable-Agrees s (starts make driver waker) = refl
  Reachable-Agrees s (steps r step) = Step-Agrees step (Reachable-Agrees _ r)

  -- What a poll reports: `Complete` if the future is gone; else `Awaiting` if a request is open in
  -- the mailbox, and `Idle` if none is.
  abbrev pub Reports : Option F → ℕ → Status → Type 0
  Reports none outstanding status = status ≡ complete
  Reports (some _) zero status = status ≡ idle
  Reports (some _) (suc _) status = status ≡ awaiting

  -- What a driver reports.
  abbrev pub Tells : Stepper F E → Type 0
  Tells s = Reports s.future (Mail.outstanding s.shares.outbox.mail) s.status

  classify-Reports :
      (n : ℕ) (future : Option F) (is_ready : Bool)
      → is_some future ≡ not is_ready
      → Reports future n (classify is_ready n)
  unfolding classify
  classify-Reports n none true e = refl
  classify-Reports n none false e = cc
  classify-Reports n (some _) true e = cc
  classify-Reports zero (some _) false e = refl
  classify-Reports (suc n) (some _) false e = refl

  polled-Reports : (waker : ℕ) (r : (Bool × F) × Shares E) → After Tells (polled routine waker r)
  unfolding drained after_poll Outbox.drain Mail.outstanding Mail.take_closed
  polled-Reports waker ((true, future), shared) =
      elim (Option-cases (routine.drop_future future shared)) [
        | inl e ↦ rw e tt
        | inr (dropped, e) ↦ rw e (classify-Reports dropped.outbox.mail.open_count none true refl)
      ]
  polled-Reports waker ((false, future), shared) =
      classify-Reports shared.outbox.mail.open_count (some future) false refl

  poll_some-Reports :
      (future : F) (s : Stepper F E) → After Tells (poll_some routine (some future) s)
  unfolding poll_some cleared
  poll_some-Reports future s =
      elim (Option-cases (routine.poll_future future s.waker (cleared s))) [
        | inl e ↦ rw e tt
        | inr (r, e) ↦ rw e (polled-Reports s.waker r)
      ]

  -- Resuming a driver whose routine has not returned reports where it stopped, unless the routine
  -- panics: `Complete` if it has returned now; else `Awaiting` if a request is open, and `Idle` if
  -- none is.
  pub resume-Reports :
      (s : Stepper F E) (future : F) → s.future ≡ some future → After Tells (resume routine s)
  unfolding resume poll
  resume-Reports s future e =
      subst (λ f. After Tells (poll_some routine f s)) (sym e) (poll_some-Reports future s)
