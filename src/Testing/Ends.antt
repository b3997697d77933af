-- ===== src/Testing/Ends.antt =====
-- sans-effort-core/src/testing.rs, the end of `drive_with`: `Completed` and `Stalled`.
use sans_effort.Shared.{
  ℕ, zero, suc, ◌≤◌, ◌≡◌, ◌≢◌, refl, sym, ap, ◌∙◌, subst, List, [], ◌∷◌, ◌++◌, length,
  length-append, Option, none, some, ok, err, Bool, true, false, not, if◌then◌else◌, get_elem?, set,
  inl, inr, Bool-cases, Option-cases, OnSome, OnSome-map, All, either_way, ◌+◌, ◌||◌, ◌==◌, ==-refl,
  arith,
}
use sans_effort.Driver.{Status, complete, awaiting, idle}
use sans_effort.Host.Machine.{contains}
use sans_effort.Testing.Schedule.{Schedule}
use sans_effort.Testing.World.{
  Driven, Action, World, has_resume, queue_resumes, machine, flat, kill, killed, is_complete,
  stuck_one, stuck_from, fire_next_timer, remove_at, eligible,
}
use sans_effort.Testing.Turn.{
  Handler, Run, Turn, again, finished, ran, goes_on, take_action, wake_up, choose_action, picked,
  verdict, after_timer, on_ready, on_stutter, after_kill, killed_one, on_kill, turn,
}

incomplete : (status : Status) → is_complete status ≡ false → status ≢ complete
incomplete complete c = cc
incomplete awaiting c = λ e. cc
incomplete idle c = λ e. cc

not_complete : (status : Status) → status ≢ complete → is_complete status ≡ false
not_complete complete n = absurd (n refl)
not_complete awaiting n = refl
not_complete idle n = refl

from_zero : (i : ℕ) → 0 + i ≡ i
from_zero i = omega arith

one_on : (k i : ℕ) → k + suc i ≡ suc k + i
one_on k i = omega arith

none_on : (k : ℕ) → k + 0 ≡ k
none_on k = omega arith

or_true : (b : Bool) → (b || true) ≡ true
or_true true = refl
or_true false = refl

not_in_nil : (i : ℕ) → ¬ (contains i [] ≡ true)
unfolding contains
not_in_nil i e = cc

module _ {E R : Type 0} where
  longer :
      (woken : List ℕ) (ready : List (Action E R))
      → length ready ≤ length (queue_resumes woken ready)
  unfolding queue_resumes
  longer [] ready = omega arith
  longer (at ∷ woken) ready = elim (Bool-cases (has_resume at ready)) [
    | inl queued ↦ rw queued (longer woken ready)
    | inr new ↦ rw new (
        omega (
          arith,
          longer woken (ready ++ Action.resume at ∷ []),
          length-append ready (Action.resume at ∷ []),
        ))
  ]

  not_empty :
      (at : ℕ) (woken : List ℕ) (ready : List (Action E R))
      → 1 ≤ length (queue_resumes (at ∷ woken) ready)
  unfolding queue_resumes has_resume
  not_empty at woken [] = longer woken (Action.resume at ∷ [])
  not_empty at woken (action ∷ ready) = omega (arith, longer (at ∷ woken) (action ∷ ready))

  queue_resumes-nil :
      (woken : List ℕ) (ready : List (Action E R))
      → queue_resumes woken ready ≡ []
      → (woken ≡ []) × (ready ≡ [])
  queue_resumes-nil [] ready e = (refl, unfold queue_resumes in e)
  queue_resumes-nil (at ∷ woken) ready e =
      absurd (omega (arith, not_empty at woken ready, ap length e))

module _ {D E R : Type 0} (driven : Driven D E R) where
  stuck_from-set :
      (i at : ℕ) (machines : List (Option D))
      → (d : D) → flat (get_elem? machines at) ≡ some d
      → is_complete (driven.status d) ≡ true
      → stuck_from driven i (set machines at none) ≡ stuck_from driven i machines
  unfolding stuck_from
  stuck_from-set i at [] d e c = refl
  stuck_from-set i zero (m ∷ machines) d e c = rw (e, c) refl
  stuck_from-set i (suc at) (m ∷ machines) d e c =
      ap (λ rest. if stuck_one driven m then i ∷ rest else rest)
        (stuck_from-set (suc i) at machines d e c)

  stuck_from-All :
      (Q : ℕ → Type 0) (k : ℕ) (machines : List (Option D))
      → ((i : ℕ) (d : D)
          → flat (get_elem? machines i) ≡ some d
          → is_complete (driven.status d) ≡ false
          → Q (k + i))
      → All Q (stuck_from driven k machines)
  unfolding stuck_from
  stuck_from-All Q k [] holds = tt
  stuck_from-All Q k (none ∷ machines) holds =
      stuck_from-All Q (suc k) machines (λ i d e c. subst Q (one_on k i) (holds (suc i) d e c))
  stuck_from-All Q k (some d ∷ machines) holds =
      let rest =
        stuck_from-All Q (suc k) machines (λ i d e c. subst Q (one_on k i) (holds (suc i) d e c)) in
      elim (Bool-cases (is_complete (driven.status d))) [
        | inl c ↦ rw c rest
        | inr c ↦ rw c (subst Q (none_on k) (holds 0 d refl c), rest)
      ]

  stuck_from-contains :
      (k : ℕ) (machines : List (Option D)) (i : ℕ) (d : D)
      → flat (get_elem? machines i) ≡ some d
      → is_complete (driven.status d) ≡ false
      → contains (k + i) (stuck_from driven k machines) ≡ true
  unfolding stuck_from contains
  stuck_from-contains k [] i d e c = cc
  stuck_from-contains k (m ∷ machines) zero d e c = rw (e, c) (rw (none_on k, ==-refl k) refl)
  stuck_from-contains k (m ∷ machines) (suc i) d e c =
      let later =
        subst (λ j. contains j (stuck_from driven (suc k) machines) ≡ true) (sym (one_on k i))
          (stuck_from-contains (suc k) machines i d e c) in
      either_way (λ xs. contains (k + suc i) xs ≡ true) (stuck_one driven m)
        (rw later (or_true (k == k + suc i))) later

  -- A kill of a machine that is gone or complete.
  kill-false :
      (at : ℕ) (w : World D E R)
      → (kill driven at w).0 ≡ false
      → (stuck_from driven 0 (kill driven at w).1.machines ≡ stuck_from driven 0 w.machines)
        × ((kill driven at w).1.ready ≡ w.ready)
  unfolding kill machine
  kill-false at w e = elim (Option-cases (flat (get_elem? w.machines at))) [
    | inl q ↦ rw (q, kill) (refl, refl)
    | inr (d, q) ↦
        rw (q, kill)
          (
            stuck_from-set 0 at w.machines d q (
                complete_of (is_complete (driven.status d))
                  (sym (ap (λ o. (killed driven at o w).0) q) ∙ e)),
            refl,
          )
  ]
    where
      complete_of : (b : Bool) → not b ≡ false → b ≡ true
      complete_of true e = refl
      complete_of false e = cc

module _ {S H D E R : Type 0} (schedule : Schedule S) (driven : Driven D E R)
    (handler : Handler H D E R) where
  -- What the result of a run says, if the turn ends it: the machines that are stuck, or none.
  abbrev pub Says : List ℕ → List (Action E R) → List ℕ → Turn S H D E R → Type 0
  Says stuck ready killed (again r) = Unit
  Says stuck ready killed (finished (ok completed)) =
      (ready ≡ []) × (stuck ≡ []) × (completed.killed ≡ killed)
  Says stuck ready killed (finished (err stalled)) =
      (ready ≡ []) × (stuck ≡ stalled.machines) × (stalled.machines ≢ [])

  abbrev SaysOf : Run S H D E R → Turn S H D E R → Type 0
  SaysOf r = Says (stuck_from driven 0 r.world.machines) r.world.ready r.killed

  verdict-Says :
      (r : Run S H D E R) (stuck : List ℕ)
      → r.world.ready ≡ []
      → stuck_from driven 0 r.world.machines ≡ stuck
      → SaysOf r (verdict schedule driven handler stuck r)
  verdict-Says r [] e q = (e, q, refl)
  verdict-Says r (at ∷ stuck) e q = (e, q, λ n. cc)

  goes_on-Says :
      (o : Option (Run S H D E R)) (r : Run S H D E R)
      → OnSome (SaysOf r) (goes_on schedule driven handler o)
  goes_on-Says none r = tt
  goes_on-Says (some _) r = tt

  choose_action-Says :
      (r r0 : Run S H D E R) → OnSome (SaysOf r0) (choose_action schedule driven handler r)
  unfolding choose_action
  choose_action-Says r r0 = picked-Says (remove_at r.world.ready _)
    where
      picked-Says :
          (o : Option (Action E R × List (Action E R)))
          → OnSome (SaysOf r0) (
              picked schedule driven handler
                (record r {
                  schedule = (schedule.next (length (eligible r.world.ready)) r.schedule).1;
                })
                o)
      picked-Says none = tt
      picked-Says (some (action, rest)) =
          goes_on-Says (take_action schedule driven handler action _) r0

  after_timer-Says :
      (r : Run S H D E R) (fired : Option (Bool × World D E R))
      → r.world.ready ≡ []
      → OnSome (SaysOf r) (after_timer schedule driven handler r fired)
  after_timer-Says r none e = tt
  after_timer-Says r (some (true, w)) e = choose_action-Says (record r { world = w }) r
  after_timer-Says r (some (false, w)) e =
      verdict-Says r (stuck_from driven 0 r.world.machines) e refl

  on_ready-Says :
      (r : Run S H D E R) (ready : List (Action E R))
      → r.world.ready ≡ ready
      → OnSome (SaysOf r) (on_ready schedule driven handler r ready)
  on_ready-Says r [] e = after_timer-Says r (fire_next_timer r.world) e
  on_ready-Says r (action ∷ ready) e = choose_action-Says r r

  on_stutter-Says :
      (r : Run S H D E R) (named : Option ℕ)
      → OnSome (SaysOf r) (on_stutter schedule driven handler r named)
  on_stutter-Says r none = on_ready-Says r r.world.ready refl
  on_stutter-Says r (some at) = elim (Option-cases (machine at r.world)) [
    | inl e ↦ rw e (on_ready-Says r r.world.ready refl)
    | inr (d, e) ↦ rw e (goes_on-Says (ran schedule driven handler at (driven.resume d) r) r)
  ]

  killed_one-Says :
      (r : Run S H D E R) (at : ℕ) (did : Bool × World D E R)
      → (did.0 ≡ false
          → (stuck_from driven 0 did.1.machines ≡ stuck_from driven 0 r.world.machines)
            × (did.1.ready ≡ r.world.ready))
      → OnSome (SaysOf r) (killed_one schedule driven handler r at did)
  unfolding after_kill
  killed_one-Says r at (true, w) same = tt
  killed_one-Says r at (false, w) same =
      let (stuck, ready) = same refl in
      subst
        (λ x.
          OnSome (Says x r.world.ready r.killed)
            (after_kill schedule driven handler (record r { world = w })))
        stuck
        (subst
          (λ x.
            OnSome (Says (stuck_from driven 0 w.machines) x r.killed)
              (after_kill schedule driven handler (record r { world = w })))
          ready (on_stutter-Says _ (schedule.stutter (length w.machines) r.schedule).0))

  on_kill-Says :
      (r : Run S H D E R) (named : Option ℕ)
      → OnSome (SaysOf r) (on_kill schedule driven handler r named)
  unfolding after_kill
  on_kill-Says r none = on_stutter-Says _ (schedule.stutter (length r.world.machines) r.schedule).0
  on_kill-Says r (some at) =
      killed_one-Says r at (kill driven at r.world) (kill-false driven at r.world)

  -- The machine of the index lives, and is not complete.
  abbrev pub IsStuck : World D E R → ℕ → Type 0
  IsStuck w i = (d : D) × (machine i w ≡ some d) × (driven.status d ≢ complete)

  -- What the end of a run says of the world that its last turn begins with.
  abbrev pub Ends : Run S H D E R → Turn S H D E R → Type 0
  Ends r (again r') = Unit
  Ends r (finished (ok completed)) =
      (r.world.woken ≡ [])
      × (r.world.ready ≡ [])
      × ((i : ℕ) → ¬ IsStuck r.world i)
      × (completed.killed ≡ r.killed)
  Ends r (finished (err stalled)) =
      (r.world.woken ≡ [])
      × (r.world.ready ≡ [])
      × All (IsStuck r.world) stalled.machines
      × ((i : ℕ) → IsStuck r.world i → contains i stalled.machines ≡ true)
      × (stalled.machines ≢ [])

  IsStuck-All : (w : World D E R) → All (IsStuck w) (stuck_from driven 0 w.machines)
  unfolding machine
  IsStuck-All w = stuck_from-All driven (IsStuck w) 0 w.machines (λ i d e c. (
    d,
    subst (λ j. flat (get_elem? w.machines j) ≡ some d) (sym (from_zero i)) e,
    incomplete (driven.status d) c,
  ))

  IsStuck-contains :
      (w : World D E R) (i : ℕ) → IsStuck w i → contains i (stuck_from driven 0 w.machines) ≡ true
  unfolding machine
  IsStuck-contains w i (d, e, n) =
      subst (λ j. contains j (stuck_from driven 0 w.machines) ≡ true) (from_zero i)
        (stuck_from-contains driven 0 w.machines i d e (not_complete (driven.status d) n))

  Says-Ends :
      (r : Run S H D E R) (t : Turn S H D E R)
      → SaysOf (record r { world = wake_up r.world }) t
      → Ends r t
  unfolding wake_up
  Says-Ends r (again r') says = tt
  Says-Ends r (finished (ok completed)) (e, stuck, rest) =
      let (w, q) = queue_resumes-nil r.world.woken r.world.ready e in
      (
        w,
        q,
        λ i is_stuck.
            not_in_nil i
              (subst (λ xs. contains i xs ≡ true) stuck (IsStuck-contains r.world i is_stuck)),
        rest,
      )
  Says-Ends r (finished (err stalled)) (e, stuck, rest) =
      let (w, q) = queue_resumes-nil r.world.woken r.world.ready e in
      (
        w,
        q,
        subst (All (IsStuck r.world)) stuck (IsStuck-All r.world),
        λ i is_stuck.
            subst (λ xs. contains i xs ≡ true) stuck (IsStuck-contains r.world i is_stuck),
        rest,
      )

  -- A run ends only in a turn that finds nothing woken and nothing ready. It is Completed, with the
  -- machines that were killed, if the status of every machine that lives is Complete, and else
  -- Stalled, with exactly the machines that live and whose status is not Complete, of which there is
  -- one.
  pub turn-Ends : (r : Run S H D E R) → OnSome (Ends r) (turn schedule driven handler r)
  unfolding turn wake_up
  turn-Ends r =
      OnSome-map (turn schedule driven handler r)
        (on_kill-Says _ (schedule.kill (length r.world.machines) r.schedule).0) (Says-Ends r)
