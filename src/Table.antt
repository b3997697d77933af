-- ===== src/Table.antt =====
-- sans-effort-host/src/table.rs: the table of handles that all the threads share, with the sessions
-- that record its machines.
pub mod Entries
pub mod Process
pub mod Calls
pub mod Sessions
pub mod Replay
pub mod System
pub mod Finding
pub mod Refusals
pub mod Noted
pub mod Entry
pub mod Ran
pub mod Wakes
pub mod WokeFrames
pub mod Locks
pub mod Exclusion
pub mod Kept
pub mod Apart
pub mod Counted
pub mod Runs
pub mod Logged
pub mod Recording
pub mod Adopting
pub mod Verdicts
mod Tests
use sans_effort.Shared.{ℕ, suc, ◌+◌, List, [], ◌∷◌, ◌++◌, Option, none, some, length}
use sans_effort.Table.Entries.{keys}
use sans_effort.Table.Entries
use sans_effort.Host.Handles.{Handles}
use sans_effort.Host.Handles
use sans_effort.Host.Record.{Log, Event}
use sans_effort.Host.Record

-- A session, and the number of the machine in it.
pub record Tap : Type 0 where
  pub session : ℕ
  pub machine : ℕ

-- A migrating machine is the address of its lock, a pinned one the thread that owns it; `P` are the
-- closures of the parked ones.
pub record Table (P : Type 0) : Type 0 where
  pub machines : List (ℕ × ℕ)
  pub parked : List (ℕ × P)
  pub pinned : List (ℕ × ℕ)
  pub next : ℕ
  pub recorded : List (ℕ × List Tap)
  pub sessions : List (ℕ × Log)
  pub next_session : ℕ

-- The taps of a machine, or none.
abbrev pub taps_or_default : Option (List Tap) → List Tap
taps_or_default none = []
taps_or_default (some taps) = taps

-- A tap in each session that is still open, and the handle in its log.
unfoldable pub adopt_each : ℕ → List Tap → List (ℕ × Log) → List Tap × List (ℕ × Log)
adopt_each child [] sessions = ([], sessions)
adopt_each child (tap ∷ taps) sessions = elim (Entries.get tap.session sessions) [
  | none ↦ adopt_each child taps sessions
  | some log ↦
      let (machine, log') = Record.adopt child log in
      let (rest, sessions') = adopt_each child taps (Entries.insert tap.session log' sessions) in
      (record { session = tap.session; machine = machine } ∷ rest, sessions')
]

-- `log.push(event(tap.machine))` in the session of each tap.
unfoldable pub note_each : (ℕ → Event) → List Tap → List (ℕ × Log) → List (ℕ × Log)
note_each event [] sessions = sessions
note_each event (tap ∷ taps) sessions = elim (Entries.get tap.session sessions) [
  | none ↦ note_each event taps sessions
  | some log ↦
      note_each event taps
        (Entries.insert tap.session (Record.push (event tap.machine) log) sessions)
]

module _ {P : Type 0} where
  unfoldable pub new_table : Table P
  new_table = record {
    machines = [];
    parked = [];
    pinned = [];
    next = 1;
    recorded = [];
    sessions = [];
    next_session = 1;
  }

  -- The handles of the table.
  abbrev pub handles : Table P → Handles
  handles t = record {
    machines = keys t.machines;
    parked = keys t.parked;
    pinned = keys t.pinned;
    next = t.next;
  }

  abbrev pub issued : Table P → Option (ℕ × Handles) → Option (ℕ × Table P)
  issued t none = none
  issued t (some (handle, hs)) = some (handle, record t { next = hs.next })

  -- One turn of the loop for each handle in use and one more.
  unfoldable pub issue_fuel : Table P → ℕ
  issue_fuel t = suc (length (keys t.machines) + (length (keys t.parked) + length (keys t.pinned)))

  -- `Table::issue`, with the queue of the thread's handles to issue again.
  unfoldable pub issue : List ℕ → Table P → Option (ℕ × Table P)
  issue queue t = issued t (Handles.issue (issue_fuel t) queue (handles t))

  -- `Table::adopt`, with the machine that this thread is calling.
  unfoldable pub adopt : Option ℕ → ℕ → Table P → Table P
  adopt none child t = t
  adopt (some parent) child t = elim (Entries.get parent t.recorded) [
    | none ↦ t
    | some taps ↦
        let (adopted, sessions') = adopt_each child taps t.sessions in
        record t {
          sessions = sessions';
          recorded =
              Entries.insert child (taps_or_default (Entries.get child t.recorded) ++ adopted)
                t.recorded;
        }
  ]

  -- `Table::note`.
  unfoldable pub note : ℕ → (ℕ → Event) → Table P → Table P
  note handle event t = record t {
    sessions = note_each event (taps_or_default (Entries.get handle t.recorded)) t.sessions;
  }
