-- ===== src/Testing/World.antt =====
-- sans-effort-core/src/testing.rs, `World`, its timers and its ready actions. How a machine runs is an
-- argument.
use sans_effort.Shared.{
  ℕ, zero, suc, ◌+◌, ◌-◌, ◌*◌, max, List, [], ◌∷◌, ◌++◌, map, Option, none, some, Bool, true, false,
  not, ◌||◌, ltb, leb, ◌==◌, if◌then◌else◌, length, get_elem?, set, u64_mod,
}
use sans_effort.Host.Machine.{contains}
use sans_effort.Driver.{Status, complete, awaiting, idle}

-- What a run of a machine yields: its effects, the machine after it, and the machines that woke.
pub record Ran (D E : Type 0) : Type 0 where
  pub effects : List E
  pub machine : D
  pub woke : List ℕ

-- `Machine`: a driver, a reply that is waiting for it, and what its drop wakes. `none` is a panic, of
-- the routine or of a reply that is refused.
pub record Driven (D E R : Type 0) : Type 0 where
  pub resume : D → Option (Ran D E)
  pub deliver : R → D → Option (Ran D E)
  pub status : D → Status
  pub drops : D → List ℕ

pub data Action (E R : Type 0) : Type 0 where
  effect : ℕ → E → Action E R
  reply : ℕ → R → Action E R
  resume : ℕ → Action E R

pub record Timer (R : Type 0) : Type 0 where
  pub due : ℕ
  pub at : ℕ
  pub deliver : R

pub record World (D E R : Type 0) : Type 0 where
  pub machines : List (Option D)
  pub ready : List (Action E R)
  pub timers : List (Timer R)
  pub now : ℕ
  pub woken : List ℕ

-- The nanoseconds of `Duration::MAX`.
abbrev pub duration_max : ℕ
duration_max = u64_mod * 1000000000 - 1

unfoldable pub saturating_add : ℕ → ℕ → ℕ
saturating_add a b = if leb (a + b) duration_max then a + b else duration_max

abbrev pub is_complete : Status → Bool
is_complete complete = true
is_complete awaiting = false
is_complete idle = false

-- `Vec::remove`, which panics past the end.
unfoldable pub remove_at : {A : Type 0} → List A → ℕ → Option (A × List A)
remove_at [] i = none
remove_at (x ∷ xs) zero = some (x, xs)
remove_at (x ∷ xs) (suc i) = elim (remove_at xs i) [
  | none ↦ none
  | some (y, rest) ↦ some (y, x ∷ rest)
]

module _ {R : Type 0} where
  -- `timers.retain(|timer| timer.at != at)`.
  unfoldable pub retain_timers : ℕ → List (Timer R) → List (Timer R)
  retain_timers at [] = []
  retain_timers at (timer ∷ timers) =
      let rest = retain_timers at timers in if timer.at == at then rest else timer ∷ rest

  -- `enumerate().min_by_key(|(_, timer)| timer.due)`: the first of the least.
  unfoldable pub first_due : List (Timer R) → Option (ℕ × Timer R)
  first_due [] = none
  first_due (timer ∷ timers) = elim (first_due timers) [
    | none ↦ some (0, timer)
    | some (i, least) ↦ if ltb least.due timer.due then some (suc i, least) else some (0, timer)
  ]

module _ {E R : Type 0} where
  abbrev pub is_resume : ℕ → Action E R → Bool
  is_resume at (Action.effect _ _) = false
  is_resume at (Action.reply _ _) = false
  is_resume at (Action.resume m) = m == at

  unfoldable pub has_resume : ℕ → List (Action E R) → Bool
  has_resume at [] = false
  has_resume at (action ∷ ready) = is_resume at action || has_resume at ready

  -- The resumes of the machines that woke, each unless it is queued already.
  unfoldable pub queue_resumes : List ℕ → List (Action E R) → List (Action E R)
  queue_resumes [] ready = ready
  queue_resumes (at ∷ woken) ready =
      queue_resumes woken (if has_resume at ready then ready else ready ++ Action.resume at ∷ [])

  -- `eligible`, from the action of index `i` on, with the machines whose effect was seen.
  unfoldable pub eligible_from : List ℕ → ℕ → List (Action E R) → List ℕ
  eligible_from seen i [] = []
  eligible_from seen i (Action.effect at _ ∷ ready) =
      let newer = eligible_from seen (suc i) ready in
      let first = eligible_from (at ∷ seen) (suc i) ready in
      if contains at seen then newer else i ∷ first
  eligible_from seen i (Action.reply _ _ ∷ ready) = i ∷ eligible_from seen (suc i) ready
  eligible_from seen i (Action.resume _ ∷ ready) = i ∷ eligible_from seen (suc i) ready

  unfoldable pub eligible : List (Action E R) → List ℕ
  eligible ready = eligible_from [] 0 ready

abbrev pub flat : {D : Type 0} → Option (Option D) → Option D
flat none = none
flat (some d) = d

module _ {D E R : Type 0} where
  -- `World::machine`.
  unfoldable pub machine : ℕ → World D E R → Option D
  machine at w = flat (get_elem? w.machines at)

  unfoldable pub adopt : D → World D E R → World D E R
  adopt d w = record w {
    machines = w.machines ++ some d ∷ [];
    ready = w.ready ++ Action.resume (length w.machines) ∷ [];
  }

  -- `World::push_effects`, with the machine after its run.
  unfoldable pub push_effects : ℕ → Ran D E → World D E R → World D E R
  push_effects at ran w = record w {
    machines = set w.machines at (some ran.machine);
    ready = w.ready ++ map (λ e. Action.effect at e) ran.effects;
    woken = w.woken ++ ran.woke;
  }

  abbrev pub fired : World D E R → Option (Timer R × List (Timer R)) → Option (Bool × World D E R)
  fired w none = none
  fired w (some (timer, timers)) = some (
    true,
    record w {
      timers = timers;
      now = max w.now timer.due;
      ready = w.ready ++ Action.reply timer.at timer.deliver ∷ [];
    },
  )

  -- `World::fire_next_timer`; `none` is a panic of `Vec::remove`.
  unfoldable pub fire_next_timer : World D E R → Option (Bool × World D E R)
  fire_next_timer w = elim (first_due w.timers) [
    | none ↦ some (false, w)
    | some (i, _) ↦ fired w (remove_at w.timers i)
  ]

  module _ (driven : Driven D E R) where
    abbrev pub killed : ℕ → Option D → World D E R → Bool × World D E R
    killed at none w = (false, w)
    killed at (some d) w = (
      not (is_complete (driven.status d)),
      record w {
        machines = set w.machines at none;
        timers = retain_timers at w.timers;
        woken = w.woken ++ driven.drops d;
      },
    )

    -- `World::kill`: whether the machine was still running.
    unfoldable pub kill : ℕ → World D E R → Bool × World D E R
    kill at w = killed at (machine at w) w

    abbrev pub stuck_one : Option D → Bool
    stuck_one none = false
    stuck_one (some d) = not (is_complete (driven.status d))

    -- The machines that live and are not complete, from the one of index `i` on.
    unfoldable pub stuck_from : ℕ → List (Option D) → List ℕ
    stuck_from i [] = []
    stuck_from i (d ∷ machines) =
        let rest = stuck_from (suc i) machines in if stuck_one d then i ∷ rest else rest
