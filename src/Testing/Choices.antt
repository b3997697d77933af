-- ===== src/Testing/Choices.antt =====
-- sans-effort-core/src/testing/schedule.rs, `Choices`: what it may answer.
use native.Mathlib.Nat.{mod-lt}
use sans_effort.Shared.{
  ℕ, ◌%◌, ◌<◌, ◌≡◌, max, List, [], ◌∷◌, Option, Bool, true, false, ◌&&◌, ltb, ◌==◌, inl, inr,
  Bool-cases, ltb→lt, OnSome, arith,
}
use sans_effort.Testing.Schedule.{Choices, next_of, named, one_in_of, choose, one_in, stutter, kill}

next_of-lt :
    (ready : ℕ) (bytes : List ℕ) (crashes : Bool) → (next_of ready bytes crashes).0 < max ready 1
next_of-lt ready [] crashes = omega arith
next_of-lt ready (b ∷ bytes) crashes = mod-lt b (omega arith)

-- It names a machine that there is, or none.
abbrev pub Names : ℕ → Option ℕ → Type 0
Names machines = OnSome (λ at. at < machines)

named-Names :
    (machines : ℕ) (bytes : List ℕ) (crashes : Bool)
    → 0 < machines
    → Names machines (named machines bytes crashes).0
named-Names machines [] crashes l = tt
named-Names machines (m ∷ bytes) crashes l = mod-lt m l

and_right : (b c : Bool) → (b && c) ≡ true → c ≡ true
and_right true c e = e
and_right false c e = cc

one_in_of-Names :
    (odds machines : ℕ) (bytes : List ℕ) (crashes : Bool)
    → Names machines (one_in_of odds machines bytes crashes).0
one_in_of-Names odds machines [] crashes = tt
one_in_of-Names odds machines (b ∷ bytes) crashes =
    elim (Bool-cases (((b % odds) == 0) && ltb 0 machines)) [
      | inl chosen ↦ rw chosen (
          named-Names machines bytes crashes
            (ltb→lt 0 machines (and_right ((b % odds) == 0) (ltb 0 machines) chosen)))
      | inr other ↦ rw other tt
    ]

-- A choice among `ready` actions is one of them, or the first if there is none, and a machine that is
-- named to be resumed or killed is one of the machines, whatever bytes are left.
pub choices-Names :
    (ready machines : ℕ) (c : Choices)
    → ((choose ready c).0 < max ready 1)
      × Names machines (stutter machines c).0
      × Names machines (kill machines c).0
unfolding choose stutter kill one_in
choices-Names ready machines c = (
  next_of-lt ready c.choices c.crashing,
  one_in_of-Names 8 machines c.choices c.crashing,
  elim (Bool-cases c.crashing) [
    | inl chosen ↦ rw chosen (one_in_of-Names 16 machines c.choices true)
    | inr other ↦ rw other tt
  ],
)
