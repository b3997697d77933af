-- ===== src/Testing/Tests.antt =====
-- Runs of testing.rs and testing/schedule.rs, and the theorems on them at concrete inputs.
use sans_effort.Shared.{
  ℕ, zero, suc, ◌<◌, ◌≡◌, refl, max, List, [], ◌∷◌, ◌++◌, Option, some, ok, err, true, OnSome,
  arith,
}
use sans_effort.Driver.{Status, complete, awaiting}
use sans_effort.Testing.Schedule.{fifo, Choices, choosing}
use sans_effort.Testing.Schedule.{choose, stutter, kill}
use sans_effort.Testing.World.{Ran, Driven, Action, World}
use sans_effort.Testing.World as Worlds
use sans_effort.Testing.Turn.{
  Answer, replies, replies_after, spawns, Handler, Run, Turn, again, Completed, Stalled, turn,
  drive_turns, first_run, drive, take_action, choose_action,
}
use sans_effort.Testing.Choices.{Names, choices-Names}
use sans_effort.Testing.Picks.{Takes, choose_action-Takes}
use sans_effort.Testing.Clock.{Ticking, Goes, turn-Ticking}
use sans_effort.Testing.Ends.{Ends, turn-Ends}
use sans_effort.Testing.Returns.{Returns, NeverPanics, turn-Returns}

-- A machine asks for as many delays as its number, one after the other, and then is complete; a reply
-- is the number of the ask.
abbrev asks : ℕ → Option (Ran ℕ ℕ)
asks zero = some (record { effects = []; machine = 0; woke = [] })
asks (suc n) = some (record { effects = suc n ∷ []; machine = suc n; woke = [] })

abbrev goes_on : ℕ → Option (Ran ℕ ℕ)
goes_on zero = some (record { effects = []; machine = 0; woke = [] })
goes_on (suc n) = asks n

abbrev status_of : ℕ → Status
status_of zero = complete
status_of (suc n) = awaiting

abbrev machines : Driven ℕ ℕ ℕ
machines = record { resume = asks; deliver = λ _ n. goes_on n; status = status_of; drops = λ n. [] }

-- Every ask is answered after its number of nanoseconds, and the clock is written down.
abbrev clock : Handler (List ℕ) ℕ ℕ ℕ
clock = record { handle = λ e at now h. some (replies_after e e ∷ [], h ++ now ∷ []) }

-- No ask is answered.
abbrev silent : Handler (List ℕ) ℕ ℕ ℕ
silent = record { handle = λ e at now h. some ([], h) }

completed_run : drive machines clock 10 2 [] ≡ some (ok (record { killed = [] }))
unfolding drive sans_effort.Testing.Turn.drive_with drive_turns turn fifo
    sans_effort.Testing.Turn.after_kill sans_effort.Testing.Turn.wake_up Worlds.queue_resumes
    first_run Worlds.adopt choose_action Worlds.remove_at sans_effort.Testing.Turn.pick_of
    Worlds.eligible Worlds.eligible_from take_action Worlds.machine Worlds.push_effects
    sans_effort.Host.Machine.contains sans_effort.Testing.Turn.answer
    sans_effort.Testing.Turn.answer_all Worlds.fire_next_timer Worlds.first_due Worlds.has_resume
    Worlds.kill Worlds.retain_timers Worlds.saturating_add Worlds.stuck_from
completed_run = refl

stalled_run : drive machines silent 10 2 [] ≡ some (err (record { machines = 0 ∷ [] }))
unfolding drive sans_effort.Testing.Turn.drive_with drive_turns turn fifo
    sans_effort.Testing.Turn.after_kill sans_effort.Testing.Turn.wake_up Worlds.queue_resumes
    first_run Worlds.adopt choose_action Worlds.remove_at sans_effort.Testing.Turn.pick_of
    Worlds.eligible Worlds.eligible_from take_action Worlds.machine Worlds.push_effects
    sans_effort.Host.Machine.contains sans_effort.Testing.Turn.answer
    sans_effort.Testing.Turn.answer_all Worlds.fire_next_timer Worlds.first_due Worlds.has_resume
    Worlds.kill Worlds.retain_timers Worlds.saturating_add Worlds.stuck_from
stalled_run = refl

choices-Names_example :
    ((choose 3 (record { choices = 5 ∷ []; crashing = true })).0 < max 3 1)
    × Names 2 (stutter 2 (record { choices = 5 ∷ []; crashing = true })).0
    × Names 2 (kill 2 (record { choices = 5 ∷ []; crashing = true })).0
choices-Names_example = choices-Names 3 2 (record { choices = 5 ∷ []; crashing = true })

-- Two machines; the first has two effects that the handler has not seen, and a timer is set.
abbrev busy : Run Choices (List ℕ) ℕ ℕ ℕ
busy = record {
  world = record {
    machines = some 2 ∷ some 1 ∷ [];
    ready = Action.effect 0 2 ∷ Action.effect 0 1 ∷ Action.resume 1 ∷ [];
    timers = record { due = 7; at = 1; deliver = 1 } ∷ [];
    now = 3;
    woken = [];
  };
  schedule = record { choices = 9 ∷ 9 ∷ 4 ∷ []; crashing = true };
  handler = [];
  killed = [];
}

choose_action-Takes_example : Takes choosing machines clock busy
choose_action-Takes_example =
    choose_action-Takes choosing machines clock busy (Action.effect 0 2)
      (Action.effect 0 1 ∷ Action.resume 1 ∷ []) refl

busy-Ticking : Ticking busy.world
busy-Ticking = (omega arith, ((omega arith, omega arith), tt))

turn-Ticking_example : OnSome (Goes choosing machines clock 3) (turn choosing machines clock busy)
turn-Ticking_example = turn-Ticking choosing machines clock busy busy-Ticking

turn-Ends_example : OnSome (Ends choosing machines clock busy) (turn choosing machines clock busy)
turn-Ends_example = turn-Ends choosing machines clock busy

asks-Returns : (n : ℕ) → Returns (asks n)
asks-Returns zero = (_, refl)
asks-Returns (suc n) = (_, refl)

goes_on-Returns : (n : ℕ) → Returns (goes_on n)
goes_on-Returns zero = (_, refl)
goes_on-Returns (suc n) = asks-Returns n

machines_and_clock : NeverPanics machines clock
machines_and_clock = record {
  resumes = asks-Returns;
  delivers = λ _ n. goes_on-Returns n;
  handles = λ e at now h. (_, refl);
}

turn-Returns_example : Returns (turn choosing machines clock busy)
turn-Returns_example = turn-Returns choosing machines clock machines_and_clock busy
