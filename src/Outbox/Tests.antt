-- ===== src/Outbox/Tests.antt =====
-- Runs of outbox.rs, asking.rs and awaiting.rs, and the theorems on them at concrete inputs.

use sans_effort.Shared.{ℕ, ◌+◌, ◌≡◌, refl, List, [], ◌∷◌, ◌++◌, none, some, ok, map, arith}
use sans_effort.Reply.{Kind, Check, Answer, answers_as_itself, check, into_value}
use sans_effort.Batch.{as_slice}
use sans_effort.Batch
use sans_effort.Mail
use sans_effort.Mail.{mint, open_slot, deliver}
use sans_effort.Mail.Invariant.{new-IsValid}
use sans_effort.Outbox
use sans_effort.Outbox.{
  Held, ready, reserved, Inner, record_held, place_effect, unreserve, drain, retain_others,
}
use sans_effort.Outbox.Places.{places, waiting, ready_front, IsOrdered}
use sans_effort.Outbox.Order.{drain-places}
use sans_effort.Outbox.Asking.{into_future}
use sans_effort.Outbox.Requests.{telling, effect_built, into_future_in_order}
use sans_effort.Outbox.Replies.{building, poll_after, poll-deliver}

-- Two effects are out; request 4 is being built, 9 waits behind it, and so does request 5.
abbrev busy : Inner ℕ
busy = record {
  effects = Batch.two 7 8;
  building = none;
  held = reserved 4 ∷ ready 9 ∷ reserved 5 ∷ [];
  mail = Mail.new 2;
  driver_waker = none;
}

abbrev fresh : Inner ℕ
fresh = record {
  effects = Batch.one 7;
  building = none;
  held = [];
  mail = Mail.new 2;
  driver_waker = some 1;
}

drain-places_example :
    (as_slice (drain busy).0.0.0 ≡ ready_front (places busy))
    × (places (drain busy).1 ≡ waiting (places busy))
    × IsOrdered (drain busy).1
drain-places_example = drain-places busy tt

-- Once request 4 is built, it and 9 can leave, and 5 still waits.
abbrev after_four : List ℕ
after_four = 7 ∷ 8 ∷ 20 ∷ 9 ∷ []

place_effect-drain : as_slice (drain (place_effect 4 20 busy)).0.0.0 ≡ after_four
unfolding drain place_effect Outbox.fill_place Outbox.open_held Outbox.release Outbox.push_ready
    Outbox.ready_count Batch.push as_slice
place_effect-drain = refl

abbrev any : Check
any value = some (ok tt)

-- The closure tells 30 and 31, then builds its own effect.
abbrev thirty : List ℕ
thirty = 30 ∷ 31 ∷ []

into_future_in_order_example :
    (places (into_future (telling thirty (λ r. some (r.id + 100))) any fresh).1
      ≡ places fresh ++ map ready (effect_built (some ((Outbox.mint fresh).0.id + 100)) ++ thirty))
    × IsOrdered (into_future (telling thirty (λ r. some (r.id + 100))) any fresh).1
into_future_in_order_example =
    into_future_in_order fresh any thirty (λ r. some (r.id + 100)) tt
      (unfold as_slice in (refl, tt))

abbrev number : Answer ℕ
number = answers_as_itself Kind.u64

poll-deliver_example :
    poll_after number (Outbox.mint fresh).0.id 1 (
      Outbox.deliver
        (Outbox.mint fresh).0
        (into_value Kind.u64 9)
        (into_future (building (λ r. r.id)) (check number) fresh).1)
    ≡ some (some (some 9))
poll-deliver_example =
    poll-deliver number fresh (new-IsValid 2) (λ r. r.id) 9 9 1 (unfold Mail.new in omega arith)
      refl refl
