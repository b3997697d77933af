-- ===== src/Testing/Schedule.antt =====
-- sans-effort-core/src/testing/schedule.rs: how a run picks its next step.
use sans_effort.Shared.{
  ℕ, ◌%◌, max, List, [], ◌∷◌, Option, none, some, Bool, true, false, ◌&&◌, ltb, ◌==◌, if◌then◌else◌,
}

-- A schedule whose state is an `S`.
pub record Schedule (S : Type 0) : Type 0 where
  pub next : ℕ → S → ℕ × S
  pub stutter : ℕ → S → Option ℕ × S
  pub kill : ℕ → S → Option ℕ × S

unfoldable pub fifo : Schedule (Unit {0})
fifo = record { next = λ _ s. (0, s); stutter = λ _ s. (none, s); kill = λ _ s. (none, s) }

-- The bytes that are left, and whether the schedule kills.
pub record Choices : Type 0 where
  pub choices : List ℕ
  pub crashing : Bool

unfoldable pub new : List ℕ → Choices
new choices = record { choices = choices; crashing = false }

unfoldable pub crashing : Choices → Choices
crashing c = record c { crashing = true }

abbrev pub next_of : ℕ → List ℕ → Bool → ℕ × Choices
next_of ready [] crashes = (0, record { choices = []; crashing = crashes })
next_of ready (b ∷ bytes) crashes =
    (b % max ready 1, record { choices = bytes; crashing = crashes })

-- `Choices::next`.
unfoldable pub choose : ℕ → Choices → ℕ × Choices
choose ready c = next_of ready c.choices c.crashing

abbrev pub named : ℕ → List ℕ → Bool → Option ℕ × Choices
named machines [] crashes = (none, record { choices = []; crashing = crashes })
named machines (m ∷ bytes) crashes =
    (some (m % machines), record { choices = bytes; crashing = crashes })

abbrev pub one_in_of : ℕ → ℕ → List ℕ → Bool → Option ℕ × Choices
one_in_of odds machines [] crashes = (none, record { choices = []; crashing = crashes })
one_in_of odds machines (b ∷ bytes) crashes =
    if ((b % odds) == 0) && ltb 0 machines
    then named machines bytes crashes
    else (none, record { choices = bytes; crashing = crashes })

-- `Choices::one_in`.
unfoldable pub one_in : ℕ → ℕ → Choices → Option ℕ × Choices
one_in odds machines c = one_in_of odds machines c.choices c.crashing

unfoldable pub stutter : ℕ → Choices → Option ℕ × Choices
stutter machines c = one_in 8 machines c

unfoldable pub kill : ℕ → Choices → Option ℕ × Choices
kill machines c = let named = one_in 16 machines c in if c.crashing then named else (none, c)

abbrev pub choosing : Schedule Choices
choosing = record { next = choose; stutter = stutter; kill = kill }
