-- ===== src/Testing/Turn.antt =====
-- sans-effort-core/src/testing.rs, `drive_with`: one turn of its loop, and the loop.
use sans_effort.Shared.{
  ℕ, zero, suc, List, [], ◌∷◌, ◌++◌, Option, none, some, Result, ok, err, Bool, true, false, length,
  get_elem?, last?,
}
use sans_effort.Testing.Schedule.{Schedule, fifo}
use sans_effort.Testing.World.{
  Ran, Driven, Action, World, saturating_add, remove_at, queue_resumes, eligible, machine, adopt,
  push_effects, fire_next_timer, kill, stuck_from,
}

-- What a handler does through its `Answers`: it replies, replies later, or begins a child.
pub data Answer (D R : Type 0) : Type 0 where
  replies : R → Answer D R
  replies_after : ℕ → R → Answer D R
  spawns : D → Answer D R

-- A handler whose state is an `H`; it sees the effect, the machine that recorded it and the clock,
-- and `none` is a panic.
pub record Handler (H D E R : Type 0) : Type 0 where
  pub handle : E → ℕ → ℕ → H → Option (List (Answer D R) × H)

-- `Completed` and `Stalled`.
pub record Completed : Type 0 where
  pub killed : List ℕ

pub record Stalled : Type 0 where
  pub machines : List ℕ

-- Everything that the loop keeps between turns.
pub record Run (S H D E R : Type 0) : Type 0 where
  pub world : World D E R
  pub schedule : S
  pub handler : H
  pub killed : List ℕ

pub data Turn (S H D E R : Type 0) : Type 0 where
  again : Run S H D E R → Turn S H D E R
  finished : Result Completed Stalled → Turn S H D E R

module _ {D E R : Type 0} where
  -- An answer of the handler, for the machine that recorded the effect.
  unfoldable pub answer : ℕ → Answer D R → World D E R → World D E R
  answer at (replies r) w = record w { ready = w.ready ++ Action.reply at r ∷ [] }
  answer at (replies_after delay r) w = record w {
    timers = w.timers ++ record { due = saturating_add w.now delay; at = at; deliver = r } ∷ [];
  }
  answer at (spawns d) w = adopt d w

  unfoldable pub answer_all : ℕ → List (Answer D R) → World D E R → World D E R
  answer_all at [] w = w
  answer_all at (a ∷ answers) w = answer_all at answers (answer at a w)

  -- The machines that woke are queued, before anything else.
  unfoldable pub wake_up : World D E R → World D E R
  wake_up w = record w { ready = queue_resumes w.woken w.ready; woken = [] }

abbrev pub choice_or : Option ℕ → Option ℕ → ℕ
choice_or (some pick) last = pick
choice_or none (some pick) = pick
choice_or none none = 0

-- `offered.get(choice).or(offered.last()).copied().unwrap_or_default()`.
unfoldable pub pick_of : ℕ → List ℕ → ℕ
pick_of choice offered = choice_or (get_elem? offered choice) (last? offered)

module _ {S H D E R : Type 0} (schedule : Schedule S) (driven : Driven D E R)
    (handler : Handler H D E R) where
  abbrev pub with_world : World D E R → Run S H D E R → Run S H D E R
  with_world w r = record r { world = w }

  -- After a machine ran.
  abbrev pub ran : ℕ → Option (Ran D E) → Run S H D E R → Option (Run S H D E R)
  ran at none r = none
  ran at (some run) r = some (with_world (push_effects at run r.world) r)

  abbrev pub resumed : ℕ → Option D → Run S H D E R → Option (Run S H D E R)
  resumed at none r = some r
  resumed at (some d) r = ran at (driven.resume d) r

  abbrev pub delivered : ℕ → R → Option D → Run S H D E R → Option (Run S H D E R)
  delivered at reply none r = some r
  delivered at reply (some d) r = ran at (driven.deliver reply d) r

  abbrev pub shown : ℕ → Run S H D E R → Option (List (Answer D R) × H) → Option (Run S H D E R)
  shown at r none = none
  shown at r (some (answers, h)) =
      some (record r { world = answer_all at answers r.world; handler = h })

  -- The action that was picked, taken.
  unfoldable pub take_action : Action E R → Run S H D E R → Option (Run S H D E R)
  take_action (Action.effect at e) r = shown at r (handler.handle e at r.world.now r.handler)
  take_action (Action.reply at reply) r = delivered at reply (machine at r.world) r
  take_action (Action.resume at) r = resumed at (machine at r.world) r

  -- The next turn follows, unless there was a panic.
  abbrev pub goes_on : Option (Run S H D E R) → Option (Turn S H D E R)
  goes_on none = none
  goes_on (some r) = some (again r)

  abbrev pub picked :
      Run S H D E R → Option (Action E R × List (Action E R)) → Option (Turn S H D E R)
  picked r none = none
  picked r (some (action, rest)) =
      goes_on (take_action action (with_world (record r.world { ready = rest }) r))

  -- The choice among the actions that are ready; `none` is a panic, of `Vec::remove` or in the action.
  unfoldable pub choose_action : Run S H D E R → Option (Turn S H D E R)
  choose_action r =
      let offered = eligible r.world.ready in
      let (choice, s) = schedule.next (length offered) r.schedule in
      picked (record r { schedule = s }) (remove_at r.world.ready (pick_of choice offered))

  -- Nothing is ready and no timer is set.
  abbrev pub verdict : List ℕ → Run S H D E R → Turn S H D E R
  verdict [] r = finished (ok (record { killed = r.killed }))
  verdict (at ∷ stuck) r = finished (err (record { machines = at ∷ stuck }))

  abbrev pub after_timer : Run S H D E R → Option (Bool × World D E R) → Option (Turn S H D E R)
  after_timer r none = none
  after_timer r (some (true, w)) = choose_action (with_world w r)
  after_timer r (some (false, w)) = some (verdict (stuck_from driven 0 r.world.machines) r)

  abbrev pub on_ready : Run S H D E R → List (Action E R) → Option (Turn S H D E R)
  on_ready r [] = after_timer r (fire_next_timer r.world)
  on_ready r (_ ∷ _) = choose_action r

  abbrev pub stuttered : Run S H D E R → ℕ → Option D → Option (Turn S H D E R)
  stuttered r at none = on_ready r r.world.ready
  stuttered r at (some d) = goes_on (ran at (driven.resume d) r)

  abbrev pub on_stutter : Run S H D E R → Option ℕ → Option (Turn S H D E R)
  on_stutter r none = on_ready r r.world.ready
  on_stutter r (some at) = stuttered r at (machine at r.world)

  unfoldable pub after_kill : Run S H D E R → Option (Turn S H D E R)
  after_kill r =
      let (named, s) = schedule.stutter (length r.world.machines) r.schedule in
      on_stutter (record r { schedule = s }) named

  abbrev pub killed_one : Run S H D E R → ℕ → Bool × World D E R → Option (Turn S H D E R)
  killed_one r at (true, w) = some (again (record r { world = w; killed = r.killed ++ at ∷ [] }))
  killed_one r at (false, w) = after_kill (with_world w r)

  abbrev pub on_kill : Run S H D E R → Option ℕ → Option (Turn S H D E R)
  on_kill r none = after_kill r
  on_kill r (some at) = killed_one r at (kill driven at r.world)

  -- One turn of the loop.
  unfoldable pub turn : Run S H D E R → Option (Turn S H D E R)
  turn r =
      let w = wake_up r.world in
      let (named, s) = schedule.kill (length w.machines) r.schedule in
      on_kill (record r { world = w; schedule = s }) named

  -- The loop, with fuel for its turns.
  unfoldable pub drive_turns : ℕ → Run S H D E R → Option (Result Completed Stalled)
  drive_turns zero r = none
  drive_turns (suc fuel) r = elim (turn r) [
    | none ↦ none
    | some (finished result) ↦ some result
    | some (again r') ↦ drive_turns fuel r'
  ]

  unfoldable pub first_run : D → S → H → Run S H D E R
  first_run root s h = record {
    world = adopt root (record { machines = []; ready = []; timers = []; now = 0; woken = [] });
    schedule = s;
    handler = h;
    killed = [];
  }

  unfoldable pub drive_with : ℕ → D → S → H → Option (Result Completed Stalled)
  drive_with fuel root s h = drive_turns fuel (first_run root s h)

-- `drive` is `drive_with` under `Fifo`.
unfoldable pub drive :
    {H D E R : Type 0}
    → Driven D E R
    → Handler H D E R
    → ℕ
    → D
    → H
    → Option (Result Completed Stalled)
drive driven handler fuel root h = drive_with fifo driven handler fuel root tt h
