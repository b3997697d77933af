-- ===== src/Table/Calls.antt =====
-- sans-effort-host/src/table.rs: how a call finds its machine and runs it, and `reply`, `resume` and
-- `free`. `none` stands for an address that holds no machine, and for no handle left.
use sans_effort.Shared.{
  ℕ, ◌+◌, ◌-◌, List, [], Option, none, some, Result, ok, err, leb, ◌==◌, if◌then◌else◌, get_elem?,
  set,
}
use sans_effort.Codec.Writer.{◌>>=◌}
use sans_effort.Driver.{Status}
use sans_effort.Host.{Error, bad_handle, bad_input, busy, wrong_thread, panicked, code_of}
use sans_effort.Host.Record.{Event, outcome}
use sans_effort.Table.Entries
use sans_effort.Table.Process.{
  Lock, Cell, State, Act, Ending, returned, panics, Stepped, with_table, with_cells, note, woke_all,
  begin_call, end_call, allocate, acts,
}

-- Where a machine is, by the address of its lock.
pub data Found : Type 0 where
  migrating here : ℕ → Found

abbrev pub address : Found → ℕ
address (migrating a) = a
address (here a) = a

-- A call's result.
abbrev pub Called : Type 0
Called = Result (List ℕ × Status) Error

module _ {M P : Type 0} where
  abbrev pub with_local : List (ℕ × ℕ) → State M P → State M P
  with_local entries s = record s { own = record s.own { local = entries } }

  abbrev pub set_cell : ℕ → Cell M → State M P → State M P
  set_cell a cell s = with_cells (set s.shared.cells a cell) s

  -- `Arc::clone`.
  unfoldable pub clone : ℕ → State M P → State M P
  clone a s = elim (get_elem? s.shared.cells a) [
    | none ↦ s
    | some cell ↦ set_cell a (record cell { count = cell.count + 1 }) s
  ]

  abbrev pub find_local : Option ℕ → State M P → Result Found Error × State M P
  find_local none s = (err bad_handle, s)
  find_local (some a) s = (ok (here a), clone a s)

  abbrev pub find_pinned : ℕ → Option ℕ → State M P → Result Found Error × State M P
  find_pinned handle none s = (err bad_handle, s)
  find_pinned handle (some owner) s =
      if owner == s.own.id
      then find_local (Entries.get handle s.own.local) s
      else (err wrong_thread, s)

  abbrev pub find_parked : ℕ → Option P → State M P → Result Found Error × State M P
  find_parked handle (some _) s = (err bad_input, s)
  find_parked handle none s = find_pinned handle (Entries.get handle s.shared.table.pinned) s

  abbrev pub find_machine : ℕ → Option ℕ → State M P → Result Found Error × State M P
  find_machine handle (some a) s = (ok (migrating a), clone a s)
  find_machine handle none s = find_parked handle (Entries.get handle s.shared.table.parked) s

  unfoldable pub find : ℕ → State M P → Result Found Error × State M P
  find handle s = find_machine handle (Entries.get handle s.shared.table.machines) s

  abbrev pub try_lock_cell : ℕ → Cell M → Lock → State M P → Result (Option M) Error × State M P
  try_lock_cell a cell Lock.unlocked s =
      (ok cell.machine, set_cell a (record cell { lock = Lock.held }) s)
  try_lock_cell a cell Lock.held s = (err busy, s)
  try_lock_cell a cell Lock.poisoned s = (err panicked, s)

  -- `Entry::try_lock`, and `try_borrow_mut` of a pinned machine.
  unfoldable pub try_lock : ℕ → State M P → Option (Result (Option M) Error × State M P)
  try_lock a s = do cell ← get_elem? s.shared.cells a; some (try_lock_cell a cell cell.lock s)

  -- The guard's drop: the machine is as the run left it.
  unfoldable pub unlock : ℕ → M → State M P → State M P
  unlock a machine s = elim (get_elem? s.shared.cells a) [
    | none ↦ s
    | some cell ↦ set_cell a (record cell { machine = some machine; lock = Lock.unlocked }) s
  ]

  -- `machines.remove`, with what it held.
  abbrev pub removed_machine : ℕ → State M P → Option ℕ × State M P
  removed_machine handle s = (
    Entries.get handle s.shared.table.machines,
    with_table (record s.shared.table { machines = Entries.remove handle s.shared.table.machines })
        s,
  )

  abbrev pub removed_parked : ℕ → State M P → Option P × State M P
  removed_parked handle s = (
    Entries.get handle s.shared.table.parked,
    with_table (record s.shared.table { parked = Entries.remove handle s.shared.table.parked }) s,
  )

  unfoldable pub forget_pinned : ℕ → State M P → State M P
  forget_pinned handle s =
      with_table (record s.shared.table { pinned = Entries.remove handle s.shared.table.pinned }) s

  abbrev pub removed_local : ℕ → State M P → Option ℕ × State M P
  removed_local handle s =
      (Entries.get handle s.own.local, with_local (Entries.remove handle s.own.local) s)

  -- A machine that is built, kept by this thread.
  unfoldable pub keep_local : ℕ → M → State M P → State M P
  keep_local handle machine s =
      let (a, s) = allocate machine s in with_local (Entries.insert handle a s.own.local) s

  abbrev pub own_pinned : ℕ → State M P → State M P
  own_pinned handle s =
      with_table
        (record s.shared.table { pinned = Entries.insert handle s.own.id s.shared.table.pinned }) s

  module _ (stepped : Stepped M P) where
    abbrev pub drop_machine : Option M → State M P → State M P
    drop_machine none s = s
    drop_machine (some machine) s = woke_all (stepped.drops machine) s

    abbrev pub drop_parked : Option P → State M P → State M P
    drop_parked none s = s
    drop_parked (some make) s = woke_all (stepped.drops_parked make) s

    -- `drop(Arc)`: the last holder drops the machine, whose destructors may wake others.
    unfoldable pub release : ℕ → State M P → State M P
    release a s = elim (get_elem? s.shared.cells a) [
      | none ↦ s
      | some cell ↦
          if leb 2 cell.count
          then set_cell a (record cell { count = cell.count - 1 }) s
          else drop_machine cell.machine (set_cell a (record cell { machine = none; count = 0 }) s)
    ]

    abbrev pub release_removed : Option ℕ × State M P → State M P
    release_removed (none, s) = s
    release_removed (some a, s) = release a s

    -- What `guarded` does after a panic: the machine leaves the tables before its lock is released,
    -- or after the borrow of a pinned one ends.
    abbrev pub expel : ℕ → Found → M → State M P → State M P
    expel handle (migrating a) machine s =
        unlock a machine (release_removed (removed_machine handle s))
    expel handle (here a) machine s =
        release_removed (removed_local handle (forget_pinned handle (unlock a machine s)))

    -- The end of `guarded`, once the machine has run.
    unfoldable pub leave : ℕ → Found → Ending M → State M P → Called × State M P
    leave handle found (returned result machine) s =
        (result, release (address found) (unlock (address found) machine s))
    leave handle found (panics machine) s =
        (err panicked, release (address found) (expel handle found machine s))

    abbrev pub Run : Type 0
    Run = M → List (Act M P) × Ending M

    abbrev pub guarded_locked :
        Run → ℕ → Found → Result (Option M) Error × State M P → Option (Called × State M P)
    guarded_locked run handle found (err error, s) = some (err error, release (address found) s)
    guarded_locked run handle found (ok none, s) = none
    guarded_locked run handle found (ok (some machine), s) =
        let (done, ending) = run machine in do s ← acts done s; some (leave handle found ending s)

    abbrev pub guarded_found :
        Run → ℕ → Result Found Error × State M P → Option (Called × State M P)
    guarded_found run handle (err error, s) = some (err error, s)
    guarded_found run handle (ok found, s) = do
      locked ← try_lock (address found) s
      guarded_locked run handle found locked

    unfoldable pub guarded : Run → ℕ → State M P → Option (Called × State M P)
    guarded run handle s = guarded_found run handle (find handle s)

    -- `reporting_wakes` around `guarded`.
    unfoldable pub reporting_wakes : Run → ℕ → State M P → Option (Called × State M P)
    reporting_wakes run handle s = do
      (result, s) ← guarded run handle (begin_call handle s)
      some (end_call result s)

    unfoldable pub reply : ℕ → List ℕ → State M P → Option (Called × State M P)
    reply handle line s = do
      (result, s) ← reporting_wakes (stepped.reply line) handle s
      some (result, note handle (λ machine. Event.reply machine line (outcome result)) s)

    unfoldable pub resume_started : ℕ → State M P → Option (Called × State M P)
    resume_started handle s = do
      (result, s) ← reporting_wakes stepped.resume handle s
      some (result, note handle (λ machine. Event.resume machine (outcome result)) s)

    abbrev pub resume_built : ℕ → Option M → State M P → Option (Called × State M P)
    resume_built handle none s = some (err panicked, forget_pinned handle s)
    resume_built handle (some machine) s = resume_started handle (keep_local handle machine s)

    abbrev pub resume_parked : ℕ → Option P × State M P → Option (Called × State M P)
    resume_parked handle (none, s) = resume_started handle s
    resume_parked handle (some make, s) =
        let (done, built) = stepped.build make in
        do s ← acts done (own_pinned handle s); resume_built handle built s

    unfoldable pub resume : ℕ → State M P → Option (Called × State M P)
    resume handle s = resume_parked handle (removed_parked handle s)

    abbrev pub free_pinned : ℕ → Option ℕ → State M P → Result (Unit {0}) Error × State M P
    free_pinned handle none s = (err bad_handle, s)
    free_pinned handle (some owner) s =
        if owner == s.own.id
        then (ok tt, release_removed (removed_local handle (forget_pinned handle s)))
        else (err wrong_thread, s)

    abbrev pub free_found :
        ℕ → Option ℕ → Option P → State M P → Result (Unit {0}) Error × State M P
    free_found handle (some a) parked s = (ok tt, drop_parked parked (release a s))
    free_found handle none (some make) s = (ok tt, drop_parked (some make) s)
    free_found handle none none s = free_pinned handle (Entries.get handle s.shared.table.pinned) s

    unfoldable pub free_unrecorded : ℕ → State M P → Result (Unit {0}) Error × State M P
    free_unrecorded handle s =
        let (migrating_, s) = removed_machine handle s in
        let (parked, s) = removed_parked handle s in free_found handle migrating_ parked s

    unfoldable pub free : ℕ → State M P → Result (Unit {0}) Error × State M P
    free handle s =
        let (result, s) = free_unrecorded handle s in
        (
          result,
          note handle
              (λ machine. Event.free machine (record { status = code_of result; bytes = [] })) s,
        )
