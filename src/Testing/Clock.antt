-- ===== src/Testing/Clock.antt =====
-- sans-effort-core/src/testing.rs, the virtual clock: when timers fire.
use sans_effort.Shared.{
  ℕ, suc, ◌+◌, ◌≤◌, ◌≡◌, refl, sym, ap, ◌∙◌, subst, max, List, [], ◌∷◌, Option, none, some, Bool,
  true, false, ltb, leb, ◌==◌, if◌then◌else◌, length, All, All-map, All-append, inl, inr,
  Bool-cases, Option-cases, OnSome, OnSome-map, either_way, arith,
}
use sans_effort.Testing.World.{
  Ran, Action, Timer, World, Driven, duration_max, saturating_add, remove_at, retain_timers,
  first_due, adopt, fire_next_timer, kill, machine, push_effects, eligible, stuck_from,
}
use sans_effort.Testing.Schedule.{Schedule}
use sans_effort.Testing.Turn.{
  Answer, replies, replies_after, spawns, Handler, Run, Turn, again, finished, answer, answer_all,
  take_action, ran, goes_on, choose_action, picked, after_timer, verdict, on_ready, on_stutter,
  on_kill, killed_one, after_kill, wake_up, turn,
}

module _ {R : Type 0} where
  -- No timer is due before the clock, nor after the last `Duration`.
  abbrev pub DueFrom : ℕ → List (Timer R) → Type 0
  DueFrom n = All (λ timer. (n ≤ timer.due) × (timer.due ≤ duration_max))

  first_due-none : (timers : List (Timer R)) → first_due timers ≡ none → timers ≡ []
  unfolding first_due
  first_due-none [] e = refl
  first_due-none (timer ∷ timers) e = absurd (elim (Option-cases (first_due timers)) [
    | inl q ↦ some-none (sym (ap (choose timer) q) ∙ e)
    | inr ((i, least), q) ↦
        either_way (λ o. o ≡ none → ⊥) (ltb least.due timer.due) some-none some-none
          (sym (ap (choose timer) q) ∙ e)
  ])
    where
      some-none : {A : Type 0} {a : A} → some a ≡ none → ⊥
      some-none q = cc

      choose : Timer R → Option (ℕ × Timer R) → Option (ℕ × Timer R)
      choose timer none = some (0, timer)
      choose timer (some (i, least)) =
          if ltb least.due timer.due then some (suc i, least) else some (0, timer)

  -- The timer of the index is there, and none is due before it.
  abbrev Least : ℕ → List (Timer R) → ℕ × Timer R → Type 0
  Least n timers (i, least) =
      (n ≤ least.due)
      × (least.due ≤ duration_max)
      × DueFrom least.due timers
      × ((rest : List (Timer R)) × (remove_at timers i ≡ some (least, rest))
          × DueFrom least.due rest)

  first_due-Least :
      (n : ℕ) (timers : List (Timer R))
      → DueFrom n timers
      → OnSome (Least n timers) (first_due timers)
  unfolding first_due remove_at
  first_due-Least n [] due = tt
  first_due-Least n (timer ∷ timers) ((l, m), due) = elim (Option-cases (first_due timers)) [
    | inl e ↦
        rw (e, first_due)
          (
            l,
            m,
            ((omega arith, m), rw (first_due-none timers e) tt),
            (timers, refl, rw (first_due-none timers e) tt),
          )
    | inr ((i, least), e) ↦
        rw (e, first_due)
          (let (l', m', all, (rest, e', due')) =
              subst (OnSome (Least n timers)) e (first_due-Least n timers due) in
            elim (Bool-cases (ltb least.due timer.due)) [
              | inl sooner ↦ rw sooner (
                l',
                m',
                ((ground arith, m), all),
                (timer ∷ rest, rw e' refl, ((ground arith, m), due')),
              )
              | inr later ↦ rw later (
                l,
                m,
                ((omega arith, m), after timers least.due all (ground arith)),
                (timers, refl, after timers least.due all (ground arith)),
              )
            ])
  ]
    where
      after : (ts : List (Timer R)) (d : ℕ) → DueFrom d ts → timer.due ≤ d → DueFrom timer.due ts
      after ts d all l = All-map ts all (λ t (a, b). (omega (arith, a, l), b))

  retain_timers-DueFrom :
      (n at : ℕ) (timers : List (Timer R)) → DueFrom n timers → DueFrom n (retain_timers at timers)
  unfolding retain_timers
  retain_timers-DueFrom n at [] due = tt
  retain_timers-DueFrom n at (timer ∷ timers) (d, due) =
      either_way (DueFrom n) (timer.at == at) (retain_timers-DueFrom n at timers due)
        (d, retain_timers-DueFrom n at timers due)

module _ {D E R : Type 0} where
  -- The clock is a `Duration`, and no timer is due before it.
  abbrev pub Ticking : World D E R → Type 0
  Ticking w = (w.now ≤ duration_max) × DueFrom w.now w.timers

  -- The clock ticks on, and is not set back.
  abbrev pub Later : World D E R → World D E R → Type 0
  Later w w' = Ticking w' × (w.now ≤ w'.now)

  answer-Later : (at : ℕ) (a : Answer D R) (w : World D E R) → Ticking w → Later w (answer at a w)
  unfolding answer adopt saturating_add
  answer-Later at (replies r) w t = (t, omega arith)
  answer-Later at (replies_after delay r) w (l, due) = (
    (
      l,
      All-append (λ timer. (w.now ≤ timer.due) × (timer.due ≤ duration_max)) w.timers _ due
          (elim (Bool-cases (leb (w.now + delay) duration_max)) [
            | inl fits ↦ rw fits ((omega arith, ground arith), tt)
            | inr over ↦ rw over ((l, omega arith), tt)
          ]),
    ),
    omega arith,
  )
  answer-Later at (spawns d) w t = (t, omega arith)

  answer_all-Later :
      (at : ℕ) (answers : List (Answer D R)) (w : World D E R)
      → Ticking w
      → Later w (answer_all at answers w)
  unfolding answer_all
  answer_all-Later at [] w t = (t, omega arith)
  answer_all-Later at (a ∷ answers) w t =
      let (t', l) = answer-Later at a w t in
      let (t'', l') = answer_all-Later at answers (answer at a w) t' in (t'', omega (arith, l, l'))

  fire-Later : (w : World D E R) → Ticking w → OnSome (λ (_, w'). Later w w') (fire_next_timer w)
  unfolding fire_next_timer
  fire-Later w (l, due) = elim (Option-cases (first_due w.timers)) [
    | inl e ↦ rw (e, fire_next_timer) ((l, due), omega arith)
    | inr ((i, least), e) ↦
        let (after, fits, all, (rest, removed, due')) =
          subst (OnSome (Least w.now w.timers)) e (first_due-Least w.now w.timers due) in
        rw (e, fire_next_timer, removed)
          (
            (omega (arith, l, fits), subst (λ n. DueFrom n rest) (latest after) due'),
            omega (arith, after),
          )
  ]
    where
      latest : {a b : ℕ} → a ≤ b → b ≡ max a b
      latest l = omega arith

  module _ (driven : Driven D E R) where
    kill-Later : (at : ℕ) (w : World D E R) → Ticking w → Later w (kill driven at w).1
    unfolding kill
    kill-Later at w (l, due) = elim (Option-cases (machine at w)) [
      | inl e ↦ rw (e, kill) ((l, due), omega arith)
      | inr (d, e) ↦ rw (e, kill) ((l, retain_timers-DueFrom w.now at w.timers due), omega arith)
    ]

  module _ {S H : Type 0} (schedule : Schedule S) (driven : Driven D E R)
      (handler : Handler H D E R) where
    abbrev pub Goes : ℕ → Turn S H D E R → Type 0
    Goes n (again r) = Ticking r.world × (n ≤ r.world.now)
    Goes n (finished result) = Unit

    later_on :
        (r : Run S H D E R) (w : World D E R)
        → r.world.now ≤ w.now
        → (t : Turn S H D E R) → Goes w.now t
        → Goes r.world.now t
    later_on r w l (again r') (t, l') = (t, omega (arith, l, l'))
    later_on r w l (finished result) u = tt

    ran-Later :
        (at : ℕ) (o : Option (Ran D E)) (r : Run S H D E R)
        → Ticking r.world
        → OnSome
            (λ (r' : Run S H D E R). Later r.world r'.world)
            (ran schedule driven handler at o r)
    unfolding push_effects
    ran-Later at none r t = tt
    ran-Later at (some run) r t = (t, omega arith)

    take_action-Later :
        (action : Action E R) (r : Run S H D E R)
        → Ticking r.world
        → OnSome
            (λ (r' : Run S H D E R). Later r.world r'.world)
            (take_action schedule driven handler action r)
    unfolding take_action
    take_action-Later (Action.effect at e) r t =
        elim (Option-cases (handler.handle e at r.world.now r.handler)) [
          | inl q ↦ rw q tt
          | inr ((answers, h), q) ↦ rw q (answer_all-Later at answers r.world t)
        ]
    take_action-Later (Action.reply at reply) r t = elim (Option-cases (machine at r.world)) [
      | inl e ↦ rw (e, take_action) (t, omega arith)
      | inr (d, e) ↦ rw (e, take_action) (ran-Later at (driven.deliver reply d) r t)
    ]
    take_action-Later (Action.resume at) r t = elim (Option-cases (machine at r.world)) [
      | inl e ↦ rw (e, take_action) (t, omega arith)
      | inr (d, e) ↦ rw (e, take_action) (ran-Later at (driven.resume d) r t)
    ]

    goes_on-Goes :
        (n : ℕ) (o : Option (Run S H D E R))
        → OnSome (λ (r : Run S H D E R). Ticking r.world × (n ≤ r.world.now)) o
        → OnSome (Goes n) (goes_on schedule driven handler o)
    goes_on-Goes n none later = tt
    goes_on-Goes n (some r) later = later

    choose_action-Goes :
        (r : Run S H D E R)
        → Ticking r.world
        → OnSome (Goes r.world.now) (choose_action schedule driven handler r)
    unfolding choose_action
    choose_action-Goes r t = picked-Goes (remove_at r.world.ready _)
      where
        picked-Goes :
            (o : Option (Action E R × List (Action E R)))
            → OnSome (Goes r.world.now) (
                picked schedule driven handler
                  (record r {
                    schedule = (schedule.next (length (eligible r.world.ready)) r.schedule).1;
                  })
                  o)
        picked-Goes none = tt
        picked-Goes (some (action, rest)) =
            goes_on-Goes r.world.now (take_action schedule driven handler action _)
              (take_action-Later action _ t)

    after_timer-Goes :
        (r : Run S H D E R) (fired : Option (Bool × World D E R))
        → OnSome (λ (_, w). Later r.world w) fired
        → OnSome (Goes r.world.now) (after_timer schedule driven handler r fired)
    after_timer-Goes r none later = tt
    after_timer-Goes r (some (true, w)) (t, l) =
        OnSome-map (choose_action schedule driven handler (record r { world = w }))
          (choose_action-Goes (record r { world = w }) t) (later_on r w l)
    after_timer-Goes r (some (false, w)) (t, l) =
        verdict-Goes (stuck_from driven 0 r.world.machines)
      where
        verdict-Goes : (stuck : List ℕ) → Goes r.world.now (verdict schedule driven handler stuck r)
        verdict-Goes [] = tt
        verdict-Goes (at ∷ stuck) = tt

    on_ready-Goes :
        (r : Run S H D E R) (ready : List (Action E R))
        → Ticking r.world
        → OnSome (Goes r.world.now) (on_ready schedule driven handler r ready)
    on_ready-Goes r [] t = after_timer-Goes r (fire_next_timer r.world) (fire-Later r.world t)
    on_ready-Goes r (action ∷ ready) t = choose_action-Goes r t

    on_stutter-Goes :
        (r : Run S H D E R) (named : Option ℕ)
        → Ticking r.world
        → OnSome (Goes r.world.now) (on_stutter schedule driven handler r named)
    on_stutter-Goes r none t = on_ready-Goes r r.world.ready t
    on_stutter-Goes r (some at) t = elim (Option-cases (machine at r.world)) [
      | inl e ↦ rw e (on_ready-Goes r r.world.ready t)
      | inr (d, e) ↦ rw e (
          goes_on-Goes r.world.now (ran schedule driven handler at (driven.resume d) r)
            (ran-Later at (driven.resume d) r t))
    ]

    on_kill-Goes :
        (r : Run S H D E R) (named : Option ℕ)
        → Ticking r.world
        → OnSome (Goes r.world.now) (on_kill schedule driven handler r named)
    unfolding after_kill
    on_kill-Goes r none t =
        on_stutter-Goes _ (schedule.stutter (length r.world.machines) r.schedule).0 t
    on_kill-Goes r (some at) t =
        killed_one-Goes (kill driven at r.world) (kill-Later driven at r.world t)
      where
        killed_one-Goes :
            (did : Bool × World D E R)
            → Later r.world did.1
            → OnSome (Goes r.world.now) (killed_one schedule driven handler r at did)
        killed_one-Goes (true, w) later = later
        killed_one-Goes (false, w) (t, l) =
            OnSome-map (after_kill schedule driven handler (record r { world = w }))
              (on_stutter-Goes _ (schedule.stutter (length w.machines) r.schedule).0 t)
              (later_on r w l)

    -- From a run whose clock is a Duration and whose timers are due no sooner than the clock and no
    -- later than the longest Duration, a turn leads to such a run, and the clock is not set back. Since
    -- a timer that fires sets the clock to its due time, no timer that is left is due before it.
    pub turn-Ticking :
        (r : Run S H D E R)
        → Ticking r.world
        → OnSome (Goes r.world.now) (turn schedule driven handler r)
    unfolding turn wake_up
    turn-Ticking r t = on_kill-Goes _ (schedule.kill (length r.world.machines) r.schedule).0 t
