-- ===== src/Testing/Returns.antt =====
-- sans-effort-core/src/testing.rs, `drive_with`: that a turn does not panic.
use sans_effort.Shared.{
  ℕ, ◌≡◌, refl, List, [], ◌∷◌, ◌++◌, length, Option, none, some, Bool, true, false, inl, inr,
  Option-cases, Bool-cases, OnSome, subst, ap, ◌∙◌, ltb,
}
use sans_effort.Testing.Schedule.{Schedule}
use sans_effort.Testing.World.{
  Driven, Action, World, Timer, machine, kill, fire_next_timer, first_due, remove_at,
}
use sans_effort.Testing.Turn.{
  Handler, Run, shown, ran, goes_on, take_action, choose_action, after_timer, on_ready, on_stutter,
  after_kill, killed_one, on_kill, turn,
}
use sans_effort.Testing.Picks.{choose_action-Takes}

-- There is a result.
abbrev pub Returns : {A : Type 0} → Option A → Type 0
Returns {A} o = (a : A) × (o ≡ some a)

append_cons : {A : Type 0} (xs : List A) (x : A) → (y : A) × (ys : List A) × (xs ++ x ∷ [] ≡ y ∷ ys)
append_cons [] x = (x, [], refl)
append_cons (y ∷ ys) x = (y, ys ++ x ∷ [], refl)

-- No run of a machine panics, and neither does the handler.
pub record NeverPanics {H D E R : Type 0} (driven : Driven D E R) (handler : Handler H D E R)
    : Type 0 where
  pub resumes : (d : D) → Returns (driven.resume d)
  pub delivers : (reply : R) (d : D) → Returns (driven.deliver reply d)
  pub handles : (e : E) (at now : ℕ) (h : H) → Returns (handler.handle e at now h)

module _ {R : Type 0} where
  -- The timer of the index is there.
  abbrev Found : List (Timer R) → ℕ × Timer R → Type 0
  Found timers (i, _) = Returns (remove_at timers i)

  first_due-Found : (timers : List (Timer R)) → OnSome (Found timers) (first_due timers)
  unfolding first_due remove_at
  first_due-Found [] = tt
  first_due-Found (timer ∷ timers) = elim (Option-cases (first_due timers)) [
    | inl e ↦ rw (e, first_due) (_, refl)
    | inr ((i, least), e) ↦
        rw (e, first_due)
          (let ((taken, rest), q) = subst (OnSome (Found timers)) e (first_due-Found timers) in
            elim (Bool-cases (ltb least.due timer.due)) [
              | inl sooner ↦ rw sooner ((taken, timer ∷ rest), rw q refl)
              | inr later ↦ rw later (_, refl)
            ])
  ]

module _ {D E R : Type 0} where
  -- A timer that fires leaves an action that is ready.
  abbrev Ready : Option (Bool × World D E R) → Type 0
  Ready none = ⊥
  Ready (some (false, w)) = Unit
  Ready (some (true, w)) = (a : Action E R) × (later : List (Action E R)) × (w.ready ≡ a ∷ later)

  fire-Ready : (w : World D E R) → Ready (fire_next_timer w)
  unfolding fire_next_timer
  fire-Ready w = elim (Option-cases (first_due w.timers)) [
    | inl q ↦ rw (q, fire_next_timer) tt
    | inr ((i, timer), q) ↦
        let ((removed, timers), p) = subst (OnSome (Found w.timers)) q (first_due-Found w.timers) in
        rw (q, fire_next_timer, p) (append_cons w.ready (Action.reply removed.at removed.deliver))
  ]

module _ {S H D E R : Type 0} (schedule : Schedule S) (driven : Driven D E R)
    (handler : Handler H D E R) (never : NeverPanics driven handler) where
  take_action-Returns :
      (action : Action E R) (r : Run S H D E R)
      → Returns (take_action schedule driven handler action r)
  unfolding take_action
  take_action-Returns (Action.effect at e) r =
      let (shows, q) = never.handles e at r.world.now r.handler in
      (_, ap (shown schedule driven handler at r) q)
  take_action-Returns (Action.reply at reply) r = elim (Option-cases (machine at r.world)) [
    | inl e ↦ rw (e, take_action) (_, refl)
    | inr (d, e) ↦
        rw (e, take_action)
          (let (run, q) = never.delivers reply d in
            (_, ap (λ o. ran schedule driven handler at o r) q))
  ]
  take_action-Returns (Action.resume at) r = elim (Option-cases (machine at r.world)) [
    | inl e ↦ rw (e, take_action) (_, refl)
    | inr (d, e) ↦
        rw (e, take_action)
          (let (run, q) = never.resumes d in (_, ap (λ o. ran schedule driven handler at o r) q))
  ]

  choose_action-Returns :
      (r : Run S H D E R) (first : Action E R) (later : List (Action E R))
      → r.world.ready ≡ first ∷ later
      → Returns (choose_action schedule driven handler r)
  choose_action-Returns r first later e =
      let (action, rest, s, q, parts, shows) =
        choose_action-Takes schedule driven handler r first later e in
      let (r', p) = take_action-Returns action _ in (_, q ∙ ap (goes_on schedule driven handler) p)

  after_timer-Returns :
      (r : Run S H D E R) (fired : Option (Bool × World D E R))
      → Ready fired
      → Returns (after_timer schedule driven handler r fired)
  after_timer-Returns r none ready = absurd ready
  after_timer-Returns r (some (true, w)) (a, later, e) =
      choose_action-Returns (record r { world = w }) a later e
  after_timer-Returns r (some (false, w)) ready = (_, refl)

  on_ready-Returns :
      (r : Run S H D E R) (ready : List (Action E R))
      → r.world.ready ≡ ready
      → Returns (on_ready schedule driven handler r ready)
  on_ready-Returns r [] e = after_timer-Returns r (fire_next_timer r.world) (fire-Ready r.world)
  on_ready-Returns r (action ∷ ready) e = choose_action-Returns r action ready e

  on_stutter-Returns :
      (r : Run S H D E R) (named : Option ℕ) → Returns (on_stutter schedule driven handler r named)
  on_stutter-Returns r none = on_ready-Returns r r.world.ready refl
  on_stutter-Returns r (some at) = elim (Option-cases (machine at r.world)) [
    | inl e ↦ rw e (on_ready-Returns r r.world.ready refl)
    | inr (d, e) ↦ rw e (
        let (run, q) = never.resumes d in
        (_, ap (λ o. goes_on schedule driven handler (ran schedule driven handler at o r)) q))
  ]

  on_kill-Returns :
      (r : Run S H D E R) (named : Option ℕ) → Returns (on_kill schedule driven handler r named)
  unfolding after_kill
  on_kill-Returns r none =
      on_stutter-Returns _ (schedule.stutter (length r.world.machines) r.schedule).0
  on_kill-Returns r (some at) = killed_one-Returns (kill driven at r.world)
    where
      killed_one-Returns :
          (did : Bool × World D E R) → Returns (killed_one schedule driven handler r at did)
      killed_one-Returns (true, w) = (_, refl)
      killed_one-Returns (false, w) =
          on_stutter-Returns _ (schedule.stutter (length w.machines) r.schedule).0

  -- Where no run of a machine and no call of the handler panics, no turn does, whatever the schedule
  -- answers: the action that it picks is there to be removed, and so is the timer that it fires.
  pub turn-Returns : (r : Run S H D E R) → Returns (turn schedule driven handler r)
  unfolding turn
  turn-Returns r = on_kill-Returns _ (schedule.kill _ r.schedule).0
