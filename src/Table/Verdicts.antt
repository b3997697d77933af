-- ===== src/Table/Verdicts.antt =====
-- sans-effort-host/src/record.rs, `replay`: what its result says about the calls.
use sans_effort.Shared.{
  ℕ, ◌+◌, ◌≡◌, ◌≢◌, refl, sym, ap, ◌∙◌, List, [], ◌∷◌, ◌++◌, none, some, Result, ok, err, true,
  false, ◌&&◌, ◌==◌, length, inl, inr, Bool-cases, Option-cases, OnSome, OnSome-map, ==→eq, ==-refl,
  arith,
}
use sans_effort.Host.{ℤ, pos, negsuc}
use sans_effort.Host.Record.{Event, Outcome, machine_of, outcome_of}
use sans_effort.Table.Process.{State, Stepped}
use sans_effort.Table.Sessions.{recorded_handle}
use sans_effort.Table.Replay.{
  Divergence, diverged, missing, same_code, same_bytes, same_outcome, call_again, replay_events,
}

true-false : true ≡ false → ⊥
true-false e = cc

same_code-eq : (m n : ℤ) → same_code m n ≡ true → m ≡ n
unfolding same_code
same_code-eq (pos m) (pos n) e = ap pos (==→eq m n e)
same_code-eq (negsuc m) (negsuc n) e = ap negsuc (==→eq m n e)
same_code-eq (pos m) (negsuc n) e = cc
same_code-eq (negsuc m) (pos n) e = cc

same_code_refl : (n : ℤ) → same_code n n ≡ true
unfolding same_code
same_code_refl (pos n) = ==-refl n
same_code_refl (negsuc n) = ==-refl n

same_bytes-eq : (bs cs : List ℕ) → same_bytes bs cs ≡ true → bs ≡ cs
unfolding same_bytes
same_bytes-eq [] [] e = refl
same_bytes-eq [] (c ∷ cs) e = cc
same_bytes-eq (b ∷ bs) [] e = cc
same_bytes-eq (b ∷ bs) (c ∷ cs) e = elim (Bool-cases (b == c)) [
  | inl same ↦
      ap (λ x. x ∷ bs) (==→eq b c same)
      ∙ ap (λ xs. c ∷ xs) (same_bytes-eq bs cs (sym (ap (λ x. x && same_bytes bs cs) same) ∙ e))
  | inr other ↦ absurd (true-false (sym e ∙ ap (λ x. x && same_bytes bs cs) other))
]

same_bytes_refl : (bs : List ℕ) → same_bytes bs bs ≡ true
unfolding same_bytes
same_bytes_refl [] = refl
same_bytes_refl (b ∷ bs) = rw (==-refl b) (same_bytes_refl bs)

-- The derived equality is equality.
same_outcome-eq : (a b : Outcome) → same_outcome a b ≡ true → a ≡ b
unfolding same_outcome
same_outcome-eq a b e = elim (Bool-cases (same_code a.status b.status)) [
  | inl same ↦
      ap (λ c. record { status = c; bytes = a.bytes }) (same_code-eq a.status b.status same)
      ∙ ap (λ bs. record { status = b.status; bytes = bs })
          (same_bytes-eq a.bytes b.bytes (sym (ap (λ x. x && same_bytes a.bytes b.bytes) same) ∙ e))
  | inr other ↦ absurd (true-false (sym e ∙ ap (λ x. x && same_bytes a.bytes b.bytes) other))
]

same_outcome_refl : (a : Outcome) → same_outcome a a ≡ true
unfolding same_outcome
same_outcome_refl a = rw (same_code_refl a.status) (same_bytes_refl a.bytes)

module _ {M P : Type 0} (stepped : Stepped M P) (session : ℕ) where
  -- The calls of the events, each on the machine that the session knows under its number, and each
  -- with the outcome that was recorded, lead from one state to another.
  pub data Agrees : List Event → State M P → State M P → Type 0 where
    ends : {s : State M P} → Agrees [] s s
    calls :
        {event : Event} {events : List Event} {s s' s'' : State M P} (handle : ℕ)
        → recorded_handle session (machine_of event) s ≡ some handle
        → call_again stepped event handle s ≡ some (outcome_of event, s')
        → Agrees events s' s''
        → Agrees (event ∷ events) s s''

  -- Where and how the calls part from the recording.
  abbrev pub Parts : Divergence → Event → State M P → State M P → Type 0
  Parts (diverged at expected actual) event s s' =
      (expected ≡ outcome_of event)
      × (actual ≢ expected)
      × ((handle : ℕ) × (recorded_handle session (machine_of event) s ≡ some handle)
          × (call_again stepped event handle s ≡ some (actual, s')))
  Parts (missing at machine) event s s' =
      (machine ≡ machine_of event) × (recorded_handle session machine s ≡ none) × (s' ≡ s)

  abbrev pub index_of : Divergence → ℕ
  index_of (diverged at _ _) = at
  index_of (missing at _) = at

  abbrev pub Verdict :
      ℕ → List Event → State M P → Result (Unit {0}) Divergence × State M P → Type 0
  Verdict at events s (ok _, s') = Agrees events s s'
  Verdict at events s (err d, s') =
      (before after : List Event) × (event : Event) × (s1 : State M P) × (events
        ≡ before ++ event ∷ after)
      × (index_of d ≡ at + length before)
      × Agrees before s s1
      × Parts d event s1 s'

  later :
      (at : ℕ) (event : Event) (events : List Event) (s s' : State M P) (handle : ℕ)
      → recorded_handle session (machine_of event) s ≡ some handle
      → call_again stepped event handle s ≡ some (outcome_of event, s')
      → (r : Result (Unit {0}) Divergence × State M P) → Verdict (at + 1) events s' r
      → Verdict at (event ∷ events) s r
  later at event events s s' handle known called (ok _, s'') agrees =
      calls handle known called agrees
  later at event events s s' handle known called (err d, s'')
        (before, after, ev, s1, split, index, agrees, parts) =
      (
        event ∷ before,
        after,
        ev,
        s1,
        ap (λ es. event ∷ es) split,
        omega (arith, index),
        calls handle known called agrees,
        parts,
      )

  different : (actual expected : Outcome) → same_outcome actual expected ≡ false → actual ≢ expected
  different actual expected other equal =
      true-false
        (sym (same_outcome_refl expected) ∙ ap (λ o. same_outcome o expected) (sym equal) ∙ other)

  judged :
      (at : ℕ) (event : Event) (events : List Event) (s : State M P) (handle : ℕ) (actual : Outcome)
      (s' : State M P)
      → recorded_handle session (machine_of event) s ≡ some handle
      → call_again stepped event handle s ≡ some (actual, s')
      → OnSome (Verdict (at + 1) events s') (replay_events stepped session (at + 1) events s')
      → OnSome (Verdict at (event ∷ events) s) (elim (same_outcome actual (outcome_of event)) [
        | true ↦ replay_events stepped session (at + 1) events s'
        | false ↦ some (err (diverged at (outcome_of event) actual), s')
      ])
  judged at event events s handle actual s' e q verdict =
      elim (Bool-cases (same_outcome actual (outcome_of event))) [
        | inl same ↦ rw same (
            OnSome-map (replay_events stepped session (at + 1) events s') verdict (
              later at event events s s' handle e
                (q ∙ ap (λ o. some (o, s')) (same_outcome-eq actual (outcome_of event) same))))
        | inr other ↦ rw other (
          [],
          events,
          event,
          s,
          refl,
          omega arith,
          ends,
          (refl, different actual (outcome_of event) other, (handle, e, q)),
        )
      ]

  -- A replay of events, counted from `at`, that agrees made every call with the outcome recorded for
  -- it. One that does not names the first call that parts from the recording, with every call before
  -- it agreeing: either the call's outcome is another than the one recorded, and the divergence holds
  -- both, or no machine has the number, and the call is not made.
  pub replay_events-Verdict :
      (at : ℕ) (events : List Event) (s : State M P)
      → OnSome (Verdict at events s) (replay_events stepped session at events s)
  unfolding replay_events
  replay_events-Verdict at [] s = ends
  replay_events-Verdict at (event ∷ events) s =
      elim (Option-cases (recorded_handle session (machine_of event) s)) [
        | inl e ↦
            rw (e, replay_events) ([], events, event, s, refl, omega arith, ends, (refl, e, refl))
        | inr (handle, e) ↦
            rw (e, replay_events)
              (elim (Option-cases (call_again stepped event handle s)) [
                | inl q ↦ rw q tt
                | inr ((actual, s'), q) ↦ rw q (
                    judged at event events s handle actual s' e q
                      (replay_events-Verdict (at + 1) events s'))
              ])
      ]
