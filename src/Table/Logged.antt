-- ===== src/Table/Logged.antt =====
-- sans-effort-host/src/table.rs: what the log of a session gains from `reply`, `resume` and `free`.
use sans_effort.Shared.{ℕ, ◌≡◌, ◌⊎◌, List, ◌++◌, Option, none, some}
use sans_effort.Host.Record.{Log, Event, outcome}
use sans_effort.Host.Handles
use sans_effort.Table.{Table, Tap, taps_or_default}
use sans_effort.Table
use sans_effort.Table.Entries.{get}
use sans_effort.Table.Process.{State, Stepped}
use sans_effort.Table.Calls.{Called, resume}
use sans_effort.Table.Kept.{Of}
use sans_effort.Table.Recording.{events_of}
use sans_effort.Table.Counted.{Counted}
use sans_effort.Table.Runs.{Runs}

-- The calls in a log, if its session is open.
abbrev pub log_events : Option Log → Option (List Event)
log_events none = none
log_events (some log) = some log.events

abbrev pub grown : List Event → Option (List Event) → Option (List Event)
grown more none = none
grown more (some events) = some (events ++ more)

module _ {P : Type 0} where
  abbrev pub calls_in : ℕ → Table P → Option (List Event)
  calls_in session t = log_events (get session t.sessions)

  module _ (session : ℕ) where
    -- The calls in the log are those.
    abbrev Keeps : Option (List Event) → Table P → ℕ → Type 0
    Keeps calls t n = calls_in session t ≡ calls

module _ {M P : Type 0} (stepped : Stepped M P) (session h : ℕ) where
  abbrev calls_of : State M P → Option (List Event)
  calls_of s = calls_in session s.shared.table

  -- The log of the session gains the event, once for each tap of the handle in it.
  abbrev pub Logs : (ℕ → Event) → State M P → State M P → Type 0
  Logs event s s' =
      calls_in session s'.shared.table
      ≡ grown (events_of session event (taps_or_default (get h s'.shared.table.recorded)))
          (calls_in session s.shared.table)

  -- The parked closure panicked, and the log is as before.
  abbrev pub NotBuilt : State M P → State M P → Type 0
  NotBuilt s s' =
      (make : P) × (get h s.shared.table.parked ≡ some make)
      × ((stepped.build make).1 ≡ none)
      × (calls_in session s'.shared.table ≡ calls_in session s.shared.table)

  -- A resume is in the log, unless the machine was parked and could not be built.
  abbrev pub Resumes : State M P → Called × State M P → Type 0
  Resumes s (r, s') = Logs (λ machine. Event.resume machine (outcome r)) s s' ⊎ NotBuilt s s'

  module _ (b : ℕ) (s : State M P) where
    -- The sessions are counted, and the calls in the log are those of `s`.
    abbrev Same : State M P → Type 0
    Same s' = Of (Counted b) s' × (calls_of s' ≡ calls_of s)
