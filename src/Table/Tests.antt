-- ===== src/Table/Tests.antt =====
-- Runs of table.rs and record.rs, and the theorems on them at concrete inputs.
use sans_effort.Shared.{
  ℕ, zero, suc, ◌+◌, ◌≤◌, ◌≡◌, refl, ap, subst, List, [], ◌∷◌, ◌++◌, map, Option, none, some,
  Result, ok, err, length, All, OnSome, ◌==◌, either_way, arith,
}
use mathlib.Core.Option.{some-injective}
use sans_effort.Driver.{idle, awaiting}
use sans_effort.Host.{Error, bad_handle, bad_input, wrong_thread, panicked, frame_woke, ok_code}
use sans_effort.Host
use sans_effort.Host.Record.{Event, Outcome, Log, outcome}
use sans_effort.Host.Record
use sans_effort.Host.Handles
use sans_effort.Host.Frames.{Frame, joined, read_frames}
use sans_effort.Table.{Table, Tap, note, adopt}
use sans_effort.Table
use sans_effort.Table.Entries
use sans_effort.Table.Process.{
  Lock, Cell, State, Act, Ending, returned, panics, Stepped, with_table, with_cells,
}
use sans_effort.Table.Process
use sans_effort.Table.Calls
use sans_effort.Table.Sessions
use sans_effort.Table.Replay.{replay_events}
use sans_effort.Table.Wakes.{Reports, reporting_wakes-Reports}
use sans_effort.Table.Process.{woke_frames}
use sans_effort.Table.WokeFrames.{handles_of, read_frames-woke_frames}
use sans_effort.Table.Refusals.{refusal, IsHeld, HaveHolders, reply-refused}
use sans_effort.Table.Adopting
use sans_effort.Table.Adopting.{joins, open_sessions, HaveRoom, Numbers, adopt-joins}
use sans_effort.Table.Verdicts.{Verdict, replay_events-Verdict}
use sans_effort.Table.Apart.{maps_with}
use sans_effort.Table.System.{
  Stage, looking, found, inside, Worker, System, Move, moves, first_system, Reachable, later,
}
use sans_effort.Table.Locks.{held_at}
use sans_effort.Table.Exclusion.{runs_of_all, Reachable-Excludes}
use sans_effort.Table.Runs.{Runs, frees, Runs-Apart, Runs-note}

-- A machine is the number of replies that it takes; the last one panics. Each wakes machine 7, and a
-- machine that is dropped wakes machine 8.
abbrev answers : List ℕ → ℕ → List (Act ℕ ℕ) × Ending ℕ
answers line zero = (Act.wake 7 ∷ [], panics zero)
answers line (suc n) = (Act.wake 7 ∷ Act.spawn n ∷ [], returned (ok (line, idle)) n)

abbrev stepped : Stepped ℕ ℕ
stepped = record {
  reply = answers;
  resume = λ n. ([], returned (ok ([], awaiting)) n);
  build = λ n. ([], some n);
  drops = λ n. 8 ∷ [];
  drops_parked = λ n. [];
}

-- Machine 1 takes two replies.
abbrev one_machine : State ℕ ℕ
one_machine = record {
  shared = record {
    table = record {
      machines = (1, 0) ∷ [];
      parked = (2, 5) ∷ [];
      pinned = (3, 9) ∷ [];
      next = 4;
      recorded = (1, record { session = 1; machine = 0 } ∷ []) ∷ [];
      sessions = (1, record { handles = 1 ∷ []; events = [] }) ∷ [];
      next_session = 2;
    };
    cells = record { machine = some 2; lock = Lock.unlocked; count = 1 } ∷ [];
    wakes = 6 ∷ [];
    session_count = 1;
  };
  own = record { id = 0; local = []; calls = []; reissue = [] };
}

abbrev reply_to : ℕ → Option Calls.Called
reply_to handle = elim (Calls.reply stepped handle (5 ∷ []) one_machine) [
  | none ↦ none
  | some (r, _) ↦ some r
]

replied : reply_to 1 ≡ some (ok (5 ∷ 4 ∷ 8 ∷ 0 ∷ 0 ∷ 0 ∷ 7 ∷ 0 ∷ 0 ∷ 0 ∷ 0 ∷ 0 ∷ 0 ∷ 0 ∷ [], idle))
unfolding Calls.reply Calls.reporting_wakes Calls.guarded Calls.find Entries.get Process.begin_call
    Calls.try_lock Calls.clone Process.acts Process.act Process.insert Process.issue_here
    Table.issue Handles.issue Process.woke Process.woke_in Handles.issue_loop
    sans_effort.Codec.Words.to_le_bytes sans_effort.Codec.Writer.bytes
    sans_effort.Codec.Writer.expect_u32 sans_effort.Codec.Writer.nothing
    sans_effort.Codec.Writer.u32 sans_effort.Codec.Writer.u8 Handles.after Handles.go_past
    Handles.in_use sans_effort.Host.Machine.contains Record.adopt Record.count_u32 outcome
    Record.push sans_effort.Host.code sans_effort.Host.status_code Calls.forget_pinned Calls.leave
    Calls.release Calls.unlock Entries.insert Entries.remove Process.allocate Process.end_call
    Process.end_calls Process.new_pinned Process.note Process.report Process.woke_all
    Process.woke_frames Process.write_woke adopt Table.adopt_each Table.issue_fuel note
    Table.note_each
replied = refl

-- The log gains the reply, and the child that the machine spawned is the session's machine 1.
logged_reply :
    elim (Calls.reply stepped 1 (5 ∷ []) one_machine) [
      | none ↦ none
      | some (_, s) ↦ Entries.get 1 s.shared.table.sessions
    ]
    ≡ some (record {
      handles = 1 ∷ 4 ∷ [];
      events =
          Event.reply 0 (5 ∷ []) (record {
            status = Host.idle_code;
            bytes = 5 ∷ 4 ∷ 8 ∷ 0 ∷ 0 ∷ 0 ∷ 7 ∷ 0 ∷ 0 ∷ 0 ∷ 0 ∷ 0 ∷ 0 ∷ 0 ∷ [];
          })
          ∷ [];
    })
unfolding Calls.reply Calls.reporting_wakes Calls.guarded Calls.find Entries.get Process.begin_call
    Calls.try_lock Calls.clone Process.acts Process.act Process.insert Process.issue_here
    Table.issue Handles.issue Process.woke Process.woke_in Handles.issue_loop
    sans_effort.Codec.Words.to_le_bytes sans_effort.Codec.Writer.bytes
    sans_effort.Codec.Writer.expect_u32 sans_effort.Codec.Writer.nothing
    sans_effort.Codec.Writer.u32 sans_effort.Codec.Writer.u8 Handles.after Handles.go_past
    Handles.in_use sans_effort.Host.Machine.contains Record.adopt Record.count_u32 outcome
    Record.push sans_effort.Host.code sans_effort.Host.status_code Calls.forget_pinned Calls.leave
    Calls.release Calls.unlock Entries.insert Entries.remove Process.allocate Process.end_call
    Process.end_calls Process.new_pinned Process.note Process.report Process.woke_all
    Process.woke_frames Process.write_woke adopt Table.adopt_each Table.issue_fuel note
    Table.note_each
logged_reply = refl

abbrev seen : Option (Calls.Called × State ℕ ℕ) → Option (Calls.Called × List (ℕ × ℕ) × List ℕ)
seen none = none
seen (some (r, s)) = some (r, s.shared.table.machines, s.shared.wakes)

-- A machine that panics is gone, and what it woke waits for `wakes`.
panicked_reply :
    seen (
      Calls.reply stepped 1 [] (
        with_cells (record { machine = some 0; lock = Lock.unlocked; count = 1 } ∷ []) one_machine))
    ≡ some (err panicked, [], 6 ∷ 7 ∷ 8 ∷ [])
unfolding Calls.reply Calls.reporting_wakes Calls.guarded Calls.find Entries.get Process.begin_call
    Calls.try_lock Calls.clone Process.acts Process.act Process.insert Process.issue_here
    Table.issue Handles.issue Process.woke Process.woke_in Handles.issue_loop
    sans_effort.Codec.Words.to_le_bytes sans_effort.Codec.Writer.bytes
    sans_effort.Codec.Writer.expect_u32 sans_effort.Codec.Writer.nothing
    sans_effort.Codec.Writer.u32 sans_effort.Codec.Writer.u8 Handles.after Handles.go_past
    Handles.in_use sans_effort.Host.Machine.contains Record.adopt Record.count_u32 outcome
    Record.push sans_effort.Host.code sans_effort.Host.status_code Calls.forget_pinned Calls.leave
    Calls.release Calls.unlock Entries.insert Entries.remove Process.allocate Process.end_call
    Process.end_calls Process.new_pinned Process.note Process.report Process.woke_all
    Process.woke_frames Process.write_woke adopt Table.adopt_each Table.issue_fuel note
    Table.note_each
panicked_reply = refl

-- A reply to a parked machine, to another thread's, and to none.
refused_replies :
    (reply_to 2 ≡ some (err bad_input))
    × (reply_to 3 ≡ some (err wrong_thread))
    × (reply_to 5 ≡ some (err bad_handle))
unfolding Calls.reply Calls.reporting_wakes Calls.guarded Calls.find Entries.get Process.begin_call
    Calls.try_lock Calls.clone Process.acts Process.act Process.insert Process.issue_here
    Table.issue Handles.issue Process.woke Process.woke_in Handles.issue_loop
    sans_effort.Codec.Words.to_le_bytes sans_effort.Codec.Writer.bytes
    sans_effort.Codec.Writer.expect_u32 sans_effort.Codec.Writer.nothing
    sans_effort.Codec.Writer.u32 sans_effort.Codec.Writer.u8 Handles.after Handles.go_past
    Handles.in_use sans_effort.Host.Machine.contains Record.adopt Record.count_u32 outcome
    Record.push sans_effort.Host.code sans_effort.Host.status_code Calls.forget_pinned Calls.leave
    Calls.release Calls.unlock Entries.insert Entries.remove Process.allocate Process.end_call
    Process.end_calls Process.new_pinned Process.note Process.report Process.woke_all
    Process.woke_frames Process.write_woke adopt Table.adopt_each Table.issue_fuel note
    Table.note_each
refused_replies = (refl, refl, refl)

one_machine-HaveHolders : HaveHolders 1 one_machine
unfolding Entries.get
one_machine-HaveHolders = (λ a e. at_first a e, λ a e. absurd (none-some e))
  where
    none-some : {a : ℕ} → none ≡ some a → ⊥
    none-some e = cc

    count_or_zero : Option (Cell ℕ) → ℕ
    count_or_zero none = 0
    count_or_zero (some c) = c.count

    at_first : (a : ℕ) → some 0 ≡ some a → IsHeld one_machine.shared.cells a
    at_first a e =
        subst (IsHeld one_machine.shared.cells) (some-injective 0 a e)
          (λ cell q. omega (arith, ap count_or_zero q))

reporting_wakes-Reports_example :
    OnSome
      (Reports stepped (stepped.reply (5 ∷ [])) 1 one_machine)
      (Calls.reporting_wakes stepped (stepped.reply (5 ∷ [])) 1 one_machine)
reporting_wakes-Reports_example =
    reporting_wakes-Reports stepped (stepped.reply (5 ∷ [])) 1 one_machine one_machine-HaveHolders

read_frames-woke_frames_example :
    (woken : List Frame) × (read_frames
        (length (joined ((2, 9 ∷ []) ∷ []) ++ woke_frames (7 ∷ 8 ∷ [])))
        (joined ((2, 9 ∷ []) ∷ []) ++ woke_frames (7 ∷ 8 ∷ []))
      ≡ ok ((2, 9 ∷ []) ∷ [] ++ woken))
    × (All (λ (kind, _). kind ≡ frame_woke) woken)
    × (handles_of woken ≡ 7 ∷ 8 ∷ [])
read_frames-woke_frames_example =
    read_frames-woke_frames ((2, 9 ∷ []) ∷ []) (7 ∷ 8 ∷ []) (omega arith, tt)
      (omega arith, (omega arith, tt))

abbrev a_reply : ℕ → Event
a_reply machine = Event.reply machine [] (record { status = ok_code; bytes = [] })

one_log : HaveRoom 1 one_machine.shared.table.sessions
unfolding Entries.get
one_log i log e = omega (
  arith,
  ap handles_in e,
  either_way {yes = some (record { handles = 1 ∷ []; events = [] })} {no = none}
      (λ (o : Option Log). handles_in o ≤ 1) (1 == i) (omega arith) (omega arith),
)
  where
    handles_in : Option Log → ℕ
    handles_in none = 0
    handles_in (some log) = length log.handles

adopt-joins_example :
    ((session : ℕ)
      → Entries.get session (adopt (some 1) 4 one_machine.shared.table).sessions
        ≡ Adopting.joined
            (joins session 4 (record { session = 1; machine = 0 } ∷ []))
            (Entries.get session one_machine.shared.table.sessions))
    × ((gained : List Tap) × (Entries.get 4 (adopt (some 1) 4 one_machine.shared.table).recorded
          ≡ some
              (Table.taps_or_default (Entries.get 4 one_machine.shared.table.recorded) ++ gained))
        × (map (λ (tap : Tap). tap.session) gained
            ≡ open_sessions
                (record { session = 1; machine = 0 } ∷ [])
                one_machine.shared.table.sessions)
        × All (Numbers 4 (adopt (some 1) 4 one_machine.shared.table).sessions) gained)
unfolding Entries.get
adopt-joins_example =
    adopt-joins 1 4 (record { session = 1; machine = 0 } ∷ []) one_machine.shared.table refl one_log

-- The second call answers otherwise than it is recorded.
abbrev two_replies : List Event
two_replies =
    Event.reply 0 [] (record {
      status = Host.idle_code;
      bytes = 4 ∷ 8 ∷ 0 ∷ 0 ∷ 0 ∷ 7 ∷ 0 ∷ 0 ∷ 0 ∷ 0 ∷ 0 ∷ 0 ∷ 0 ∷ [];
    })
    ∷ Event.reply 0 (1 ∷ []) (record { status = Host.idle_code; bytes = [] })
    ∷ []

replay_events-Verdict_example :
    OnSome
      (Verdict stepped 1 0 two_replies one_machine)
      (replay_events stepped 1 0 two_replies one_machine)
replay_events-Verdict_example = replay_events-Verdict stepped 1 0 two_replies one_machine

-- Machine 1 is registered and recorded, and freed.
abbrev first : State ℕ ℕ
first = Process.start 0

abbrev state_or_first : Option (ℕ × State ℕ ℕ) → State ℕ ℕ
state_or_first none = first
state_or_first (some (_, s)) = s

abbrev registered : State ℕ ℕ
registered = state_or_first (Process.insert 2 first)

abbrev freed : State ℕ ℕ
freed = (Calls.free stepped 1 (Sessions.start_recording 1 registered).1).1

freed-Runs : Runs stepped (0 + 1) freed
unfolding Process.insert Process.start Process.issue_here Table.issue Handles.issue
    Handles.issue_loop Handles.in_use Table.issue_fuel sans_effort.Host.Machine.contains
    Table.new_table
freed-Runs = frees 1 (Runs.records 1 (Runs.inserts {h = 1} 2 (Runs.begins 0) refl))

-- The machine was freed: no entry is left, and its lock holds nothing.
abbrev no_machine : State ℕ ℕ
no_machine = record {
  shared = record {
    table = record {
      machines = [];
      parked = [];
      pinned = [];
      next = 2;
      recorded = (1, record { session = 1; machine = 0 } ∷ []) ∷ [];
      sessions = (1, record { handles = 1 ∷ []; events = [] }) ∷ [];
      next_session = 2;
    };
    cells = record { machine = none; lock = Lock.unlocked; count = 0 } ∷ [];
    wakes = 8 ∷ [];
    session_count = 1;
  };
  own = record { id = 0; local = []; calls = []; reissue = [] };
}

no_machine-HaveHolders : HaveHolders 1 no_machine
unfolding Entries.get
no_machine-HaveHolders = (λ a e. absurd (none-some e), λ a e. absurd (none-some e))
  where
    none-some : {a : ℕ} → none ≡ some a → ⊥
    none-some e = cc

reply-refused_example :
    Calls.reply stepped 1 [] no_machine
    ≡ some (
      err bad_handle,
      Process.note 1 (λ machine. Event.reply machine [] (outcome (err bad_handle))) no_machine,
    )
unfolding refusal Entries.get
reply-refused_example = reply-refused stepped 1 [] no_machine bad_handle no_machine-HaveHolders refl

Runs-Apart_example : maps_with 1 freed.shared.table ≤ 1
Runs-Apart_example = Runs-Apart stepped freed-Runs 1

Runs-note_example :
    Process.note 1 a_reply freed ≡ with_table (note 1 a_reply freed.shared.table) freed
Runs-note_example = Runs-note stepped freed-Runs (omega arith) 1 a_reply

-- Machine 1, and a call of the first of two threads that runs it.
abbrev worker_at : List Stage → State ℕ ℕ → Worker
worker_at st s = record { own = s.own; stages = st }

abbrev idle_worker : Worker
idle_worker = record { own = record { id = 1; local = []; calls = []; reissue = [] }; stages = [] }

abbrev system_at : List Stage → State ℕ ℕ → System ℕ ℕ
system_at st s = record { shared = s.shared; workers = worker_at st s ∷ idle_worker ∷ [] }

abbrev called : State ℕ ℕ
called = Process.begin_call 1 registered

abbrev cloned : State ℕ ℕ
cloned = (Calls.find 1 called).1

abbrev state_or_cloned : Option (Result (Option ℕ) Error × State ℕ ℕ) → State ℕ ℕ
state_or_cloned none = cloned
state_or_cloned (some (_, s)) = s

abbrev locked : State ℕ ℕ
locked = state_or_cloned (Calls.try_lock 0 cloned)

locked-Reachable : Reachable stepped 2 (system_at (inside 1 (Calls.migrating 0) ∷ []) locked)
unfolding Process.insert Process.start Process.issue_here Process.allocate Process.act
    Process.begin_call Table.issue Handles.issue Handles.issue_loop Handles.in_use Table.issue_fuel
    sans_effort.Host.Machine.contains Table.new_table Calls.find Calls.clone Calls.try_lock
    Entries.get Entries.insert Entries.remove Handles.after adopt
locked-Reachable =
    later {sys = system_at (found 1 (Calls.migrating 0) ∷ []) cloned}
      (later {sys = system_at (looking 1 ∷ []) called}
        (later {sys = system_at [] registered}
          (later {sys = first_system stepped 2} Reachable.start
            (moves 0 {s = registered} {st = []} refl (Move.acts (Act.spawn 2) refl)))
          (moves 0 {s = called} {st = looking 1 ∷ []} refl (Move.begins 1)))
        (moves 0 {s = cloned} {st = found 1 (Calls.migrating 0) ∷ []} refl (Move.finds refl)))
      (moves 0 {s = locked} {st = inside 1 (Calls.migrating 0) ∷ []} refl
        (Move.locks (some 2) refl))

Reachable-Excludes_example :
    (runs_of_all 0 (system_at (inside 1 (Calls.migrating 0) ∷ []) locked).workers ≤ 1)
    × (runs_of_all 0 (system_at (inside 1 (Calls.migrating 0) ∷ []) locked).workers
        ≡ held_at 0 locked.shared.cells)
Reachable-Excludes_example = Reachable-Excludes stepped locked-Reachable 0
