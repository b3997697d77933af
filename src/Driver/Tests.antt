-- ===== src/Driver/Tests.antt =====
-- A routine that asks for a number and then tells it, stepped by a driver; and the driver's theorems
-- at concrete inputs.
use mathlib.Core.Option
use sans_effort.Shared.{ℕ, ◌+◌, ◌≡◌, refl, List, [], ◌∷◌, Option, none, some, Bool, true, false}
use sans_effort.Reply.{Kind, Value, ReplyHandle, Answer, answers_as_itself, check}
use sans_effort.Reply
use sans_effort.Mail
use sans_effort.Batch
use sans_effort.Outbox
use sans_effort.Outbox.{Inner}
use sans_effort.Outbox.Asking
use sans_effort.Outbox.Asking.{into_future}
use sans_effort.Outbox.Replies.{building}
use sans_effort.Driver.{Status, Yield, nothing, Refused, classify, complete, awaiting}
use sans_effort.Driver
use sans_effort.Driver.Wake
use sans_effort.Driver.Wake.{Wakeup, wake_times, clear, call_hook, wake_times-clear}
use sans_effort.Driver.Stepper
use sans_effort.Driver.Stepper.{
  Routine, Shares, Stepper, new_driver, resume, try_reply_wire, reply, is_finished,
}
use sans_effort.Driver.Steps.{Reachable, starts, steps, resumes, Agrees, Reachable-Agrees}
use sans_effort.Driver.Replies.{Outcome, WakesDriver, try_reply_wire-Outcome}

abbrev number : Answer ℕ
number = answers_as_itself Kind.u64

abbrev settle : ℕ → Shares ℕ → Option (Option ℕ) × Inner ℕ → (Bool × Option ℕ) × Shares ℕ
settle id shared (some (some value), outbox) =
    ((true, some id), record shared { outbox = Outbox.tell value outbox })
settle id shared (_, outbox) = ((false, some id), record shared { outbox = outbox })

abbrev poll_echo : Option ℕ → ℕ → Shares ℕ → Option ((Bool × Option ℕ) × Shares ℕ)
poll_echo none waker shared =
    let (id, outbox) = into_future (building (λ r. r.id + 100)) (check number) shared.outbox in
    some ((false, id), record shared { outbox = outbox })
poll_echo (some id) waker shared =
    some (settle id shared (Asking.poll number id waker shared.outbox))

abbrev drop_echo : Option ℕ → Shares ℕ → Option (Shares ℕ)
drop_echo none shared = some shared
drop_echo (some id) shared = some (record shared { outbox = Outbox.close id shared.outbox })

abbrev echo : Routine (Option ℕ) ℕ
echo = record {
  poll_future = poll_echo;
  drop_future = drop_echo;
  wake = λ _ shared. some (record shared { wakeup = wake_times 1 shared.wakeup });
}

abbrev started : Stepper (Option ℕ) ℕ
started = new_driver (λ outbox. (none, outbox)) 3 8

abbrev stepper_or_started : Option (Yield ℕ × Stepper (Option ℕ) ℕ) → Stepper (Option ℕ) ℕ
stepper_or_started none = started
stepper_or_started (some (_, s)) = s

abbrev asked : Stepper (Option ℕ) ℕ
asked = stepper_or_started (resume echo started)

abbrev handle : ReplyHandle
handle = record { driver = 3; id = 1 }

-- The first effect, what the reply yields, and the status after it.
abbrev summary : Option (Yield ℕ × Stepper (Option ℕ) ℕ) → Option (List ℕ × Status)
summary = Option.map (λ (yielded, s). (Batch.as_slice yielded.effects, s.status))

abbrev numbered : List ℕ
numbered = 101 ∷ []

abbrev nine : List ℕ
nine = 9 ∷ []

resume-as_slice : summary (resume echo started) ≡ some (numbered, awaiting)
unfolding resume new_driver Stepper.new Stepper.poll Stepper.poll_some Stepper.after_poll
    Stepper.drained Outbox.drain Batch.as_slice into_future Asking.when_built Outbox.mint Mail.mint
    Reply.mint Outbox.open_request Outbox.place_effect Outbox.record_held Outbox.record_behind
    Outbox.displace Outbox.new Outbox.adopt Mail.new Mail.open_slot Batch.push Batch.new
    Driver.new_from_batch Mail.take_closed classify Mail.outstanding
resume-as_slice = refl

reply-status : summary (reply echo number handle 9 asked) ≡ some (nine, complete)
unfolding resume new_driver Stepper.new Stepper.poll Stepper.poll_some Stepper.after_poll
    Stepper.drained Outbox.drain Batch.as_slice into_future Asking.when_built Outbox.mint Mail.mint
    Reply.mint Outbox.open_request Outbox.place_effect Outbox.record_held Outbox.record_behind
    Outbox.displace Outbox.new Outbox.adopt Mail.new Mail.open_slot Batch.push Batch.new
    Driver.new_from_batch Mail.take_closed reply Stepper.try_reply try_reply_wire Outbox.deliver
    Mail.deliver Mail.deliver_found Mail.deliver_checked Mail.find Mail.position Mail.position_in
    Mail.binary_search Mail.search_loop Reply.check Reply.into_value Reply.from_value
    Stepper.on_delivery Stepper.wake_kept Asking.poll Asking.poll_value Outbox.collect
    Outbox.waker_to_keep Mail.collect Mail.collect_found Mail.collect_value Mail.take Mail.take_slot
    Mail.sweep Mail.pop_closed Mail.close_slot Outbox.tell Outbox.close Mail.close Mail.close_at
    classify Asking.from_checked Mail.fresh_slot Mail.outstanding
reply-status = refl

started-Reachable : Reachable echo started
started-Reachable = starts (λ outbox. (none, outbox)) 3 8

Reachable-Agrees_example : Agrees asked
unfolding resume new_driver Stepper.new Stepper.poll Stepper.poll_some Stepper.after_poll
Reachable-Agrees_example =
    Reachable-Agrees echo asked (steps started-Reachable (resumes started asked _ refl))

wakes : WakesDriver echo
wakes waker shared = (1, refl)

try_reply_wire-Outcome_example :
    Outcome echo handle started
      (Outbox.deliver handle (Value.u64 9) started.shares.outbox)
      (try_reply_wire echo handle (Value.u64 9) started)
try_reply_wire-Outcome_example =
    try_reply_wire-Outcome echo wakes handle (Value.u64 9) none started
      (unfold new_driver Stepper.new in refl)

-- The routine has returned.
abbrev returned : Stepper (Option ℕ) ℕ
returned = record {
  future = none;
  shares = record { outbox = Outbox.new 3; wakeup = Wake.new };
  status = complete;
  waker = 8;
}

abbrev hooked : Wakeup
hooked = record { woken = true; has_hook = true; calls = 4 }

wake_times-clear_example :
    wake_times 3 (clear hooked) ≡ record { woken = true; has_hook = true; calls = 5 }
wake_times-clear_example = wake_times-clear 2 hooked
