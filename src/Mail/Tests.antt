-- ===== src/Mail/Tests.antt =====
-- Runs of mail.rs, and its theorems at concrete inputs.
use mathlib.Core.Option
use sans_effort.Shared.{ℕ, ◌≡◌, refl, List, [], ◌∷◌, Option, none, some, ok, true, arith}
use sans_effort.Reply.{Value, ReplyHandle, Check}
use sans_effort.Reply
use sans_effort.Mail
use sans_effort.Mail.{Mail, Slot, new, open_slot, deliver, collect, close, delivered}
use sans_effort.Mail.Map.{view, spec_deliver}
use sans_effort.Mail.Invariant.{IsValid, new-IsValid}
use sans_effort.Mail.Refine.{deliver-view, view_delivery}
use sans_effort.Mail.History.{
  Call, Output, asks, delivers, collects, closes, drains, asked, became, collected, dropped,
  reported, step, run, spec_run, view_run, RunKeeps, run-view, run-IsValid,
}

abbrev any : Check
any value = some (ok tt)

abbrev handle : ℕ → ReplyHandle
handle id = record { driver = 5; id = id }

-- Three requests; the second is answered and collected, the first dropped.
abbrev history : List Call
history =
    asks any
    ∷ asks any
    ∷ asks any
    ∷ delivers (handle 2) (Value.u64 9)
    ∷ collects 2 none
    ∷ closes 1
    ∷ drains
    ∷ []

-- Two requests wait, the second with a reply.
abbrev slot_one : Slot
slot_one = record { id = 1; is_open = true; value = none; check = any; waker = none }

abbrev slot_two : Slot
slot_two = record { id = 2; is_open = true; value = some (Value.u64 9); check = any; waker = none }

abbrev waiting : Mail
waiting = record {
  driver = 5;
  slots = slot_one ∷ slot_two ∷ [];
  open_count = 2;
  closed = [];
  next = 3;
}

waiting-IsValid : IsValid waiting
waiting-IsValid = record {
  shape = record {
    sorted = omega arith;
    below = omega arith;
    counted = refl;
    ends_open = refl;
    swept = omega arith;
  };
  started = omega arith;
}

outputs : Option (List Output × Mail) → Option (List Output)
outputs = Option.map (λ (os, m). os)

history-outputs :
    outputs (run (new 5) history)
    ≡ some (
        asked (handle 1)
        ∷ asked (handle 2)
        ∷ asked (handle 3)
        ∷ became (delivered none)
        ∷ collected (some (Value.u64 9))
        ∷ dropped
        ∷ reported (1 ∷ [])
        ∷ [])
unfolding outputs run new step deliver open_slot Mail.mint Mail.find Mail.position Mail.position_in
    Reply.mint Mail.binary_search Mail.search_loop collect Mail.take_closed Mail.take close
    Mail.take_slot Mail.sweep Mail.pop_closed Mail.close_slot
history-outputs = refl

run-view_example : Option.map view_run (run (new 5) history) ≡ spec_run (view (new 5)) history
run-view_example = run-view 5 history (omega arith)

run-IsValid_example : RunKeeps (run (new 5) history)
run-IsValid_example = run-IsValid (new 5) history (new-IsValid 5) (unfold new in omega arith)

deliver-view_example :
    Option.map view_delivery (deliver (handle 1) (Value.u64 4) waiting)
    ≡ spec_deliver (handle 1) (Value.u64 4) (view waiting)
deliver-view_example = deliver-view (handle 1) (Value.u64 4) waiting waiting-IsValid
