-- ===== src/Table/Process.antt =====
-- sans-effort-host/src/table.rs: what a thread sees of the process, the wakes of its calls, and the
-- machines that it registers. What a machine does when it runs is an argument.
use sans_effort.Shared.{
  ℕ, List, [], ◌∷◌, ◌++◌, Option, none, some, Result, ok, err, leb, if◌then◌else◌, length,
}
use sans_effort.Codec.Words.{to_le_bytes}
use sans_effort.Codec.Writer.{Write, ◌>>>◌, ◌>>=◌}
use sans_effort.Codec.Writer
use sans_effort.Driver.{Status}
use sans_effort.Host.{Error, frame_woke}
use sans_effort.Host.Record.{Event}
use sans_effort.Table.{Table, issue}
use sans_effort.Table
use sans_effort.Table.Entries

pub data Lock : Type 0 where
  unlocked held poisoned : Lock

-- A machine behind its lock (`Arc<Mutex<…>>`, or `Rc<RefCell<…>>` for a pinned one), with the number
-- of its holders; `none` once dropped.
pub record Cell (M : Type 0) : Type 0 where
  pub machine : Option M
  pub lock : Lock
  pub count : ℕ

-- A call in progress: its machine, and the machines woken during it.
pub record Call : Type 0 where
  pub handle : ℕ
  pub woken : List ℕ

-- The statics, and the locks of the machines by address.
pub record Process (M P : Type 0) : Type 0 where
  pub table : Table P
  pub cells : List (Cell M)
  pub wakes : List ℕ
  pub session_count : ℕ

-- The thread-locals. The call in progress stands first, and before it those that it runs inside.
pub record Thread : Type 0 where
  pub id : ℕ
  pub local : List (ℕ × ℕ)
  pub calls : List Call
  pub reissue : List ℕ

pub record State (M P : Type 0) : Type 0 where
  pub shared : Process M P
  pub own : Thread

-- What a routine does to the table while it runs.
pub data Act (M P : Type 0) : Type 0 where
  wake : ℕ → Act M P
  spawn : M → Act M P
  park : P → Act M P

-- How a run ends, with the machine as it leaves it.
pub data Ending (M : Type 0) : Type 0 where
  returned : Result (List ℕ × Status) Error → M → Ending M
  panics : M → Ending M

-- A machine behind its byte layer, `Stepped` and `Park`: a call runs to its end, a parked closure
-- builds a machine or panics, and a destructor may wake others.
pub record Stepped (M P : Type 0) : Type 0 where
  pub reply : List ℕ → M → List (Act M P) × Ending M
  pub resume : M → List (Act M P) × Ending M
  pub build : P → List (Act M P) × Option M
  pub drops : M → List ℕ
  pub drops_parked : P → List ℕ

-- One frame per handle.
unfoldable pub write_woke : List ℕ → Write
write_woke [] = Writer.nothing
write_woke (handle ∷ handles) =
    (Writer.u8 frame_woke >>> Writer.bytes (to_le_bytes 8 handle)) >>> write_woke handles

abbrev pub bytes_of : Option (List ℕ) → List ℕ
bytes_of none = []
bytes_of (some bytes) = bytes

-- `woke_frames`: no payload is too long, so that the writer does not panic.
unfoldable pub woke_frames : List ℕ → List ℕ
woke_frames handles = bytes_of (write_woke handles [])

-- The machine that the thread is calling.
abbrev pub calling : List Call → Option ℕ
calling [] = none
calling (call ∷ _) = some call.handle

abbrev pub pop_front : List ℕ → List ℕ
pop_front [] = []
pop_front (_ ∷ queue) = queue

module _ {M P : Type 0} where
  unfoldable pub start : ℕ → State M P
  start id = record {
    shared = record { table = Table.new_table; cells = []; wakes = []; session_count = 0 };
    own = record { id = id; local = []; calls = []; reissue = [] };
  }

  abbrev pub with_table : Table P → State M P → State M P
  with_table t s = record s { shared = record s.shared { table = t } }

  abbrev pub with_cells : List (Cell M) → State M P → State M P
  with_cells cells s = record s { shared = record s.shared { cells = cells } }

  abbrev pub with_wakes : List ℕ → State M P → State M P
  with_wakes handles s = record s { shared = record s.shared { wakes = handles } }

  abbrev pub with_calls : List Call → State M P → State M P
  with_calls calls s = record s { own = record s.own { calls = calls } }

  -- The free function `note`.
  unfoldable pub note : ℕ → (ℕ → Event) → State M P → State M P
  note handle event s =
      if leb 1 s.shared.session_count
      then with_table (Table.note handle event s.shared.table) s
      else s

  unfoldable pub woke_in : ℕ → List Call → State M P → State M P
  woke_in handle [] s = with_wakes (s.shared.wakes ++ handle ∷ []) s
  woke_in handle (call ∷ outer) s =
      with_calls (record call { woken = call.woken ++ handle ∷ [] } ∷ outer) s

  -- `woke`.
  unfoldable pub woke : ℕ → State M P → State M P
  woke handle s = woke_in handle s.own.calls s

  unfoldable pub woke_all : List ℕ → State M P → State M P
  woke_all [] s = s
  woke_all (handle ∷ handles) s = woke_all handles (woke handle s)

  -- The start of `reporting_wakes`.
  unfoldable pub begin_call : ℕ → State M P → State M P
  begin_call handle s = with_calls (record { handle = handle; woken = [] } ∷ s.own.calls) s

  unfoldable pub report :
      Result (List ℕ × Status) Error
      → List ℕ
      → State M P
      → Result (List ℕ × Status) Error × State M P
  report (ok (bytes, status)) woken s = (ok (bytes ++ woke_frames woken, status), s)
  report (err error) woken s = (err error, with_wakes (s.shared.wakes ++ woken) s)

  unfoldable pub end_calls :
      Result (List ℕ × Status) Error
      → List Call
      → State M P
      → Result (List ℕ × Status) Error × State M P
  end_calls result [] s = report result [] s
  end_calls result (call ∷ outer) s = report result call.woken (with_calls outer s)

  -- The end of `reporting_wakes`.
  unfoldable pub end_call :
      Result (List ℕ × Status) Error → State M P → Result (List ℕ × Status) Error × State M P
  end_call result s = end_calls result s.own.calls s

  -- `wakes`.
  unfoldable pub wakes : State M P → List ℕ × State M P
  wakes s = (woke_frames s.shared.wakes, with_wakes [] s)

  -- `table.issue()`, which takes the first handle off the thread's queue.
  unfoldable pub issue_here : State M P → Option (ℕ × State M P)
  issue_here s = do
    (handle, t) ← Table.issue s.own.reissue s.shared.table
    some (
      handle,
      record {
        shared = record s.shared { table = t };
        own = record s.own { reissue = pop_front s.own.reissue };
      },
    )

  -- A new lock, at an address of its own.
  unfoldable pub allocate : M → State M P → ℕ × State M P
  allocate machine s = (
    length s.shared.cells,
    with_cells
        (s.shared.cells ++ record { machine = some machine; lock = Lock.unlocked; count = 1 } ∷ [])
        s,
  )

  -- `table::insert`, which `new` and `new_boxed` call.
  unfoldable pub insert : M → State M P → Option (ℕ × State M P)
  insert machine s = do
    (handle, s) ← issue_here s
    let (address, s) = allocate machine s in
        let t = record s.shared.table {
          machines = Entries.insert handle address s.shared.table.machines;
        } in
        some (handle, with_table (Table.adopt (calling s.own.calls) handle t) s)

  -- `table::new_pinned`.
  unfoldable pub new_pinned : P → State M P → Option (ℕ × State M P)
  new_pinned make s = do
    (handle, s) ← issue_here s
    let t = record s.shared.table { parked = Entries.insert handle make s.shared.table.parked } in
        some (handle, with_table (Table.adopt (calling s.own.calls) handle t) s)

  abbrev pub after_issue : Option (ℕ × State M P) → Option (State M P)
  after_issue none = none
  after_issue (some (_, s)) = some s

  -- One act of a routine, from within its run.
  unfoldable pub act : Act M P → State M P → Option (State M P)
  act (Act.wake handle) s = some (woke handle s)
  act (Act.spawn machine) s = after_issue (insert machine s)
  act (Act.park make) s = after_issue (new_pinned make s)

  unfoldable pub acts : List (Act M P) → State M P → Option (State M P)
  acts [] s = some s
  acts (a ∷ as_) s = do s ← act a s; acts as_ s
