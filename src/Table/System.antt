-- ===== src/Table/System.antt =====
-- sans-effort-host/src/table.rs, threads that call the table, interleaved in any order. A call is in
-- steps: `find` and `try_lock`, which are atomic in the code, the acts of the routine, and the end of
-- `guarded`, which like `free` is one step here although it takes the table's lock and then another.
use sans_effort.Shared.{ℕ, zero, suc, ◌≡◌, List, [], ◌∷◌, Option, some, ok, err, get_elem?, set}
use sans_effort.Host.{Error}
use sans_effort.Host.Record.{Event}
use sans_effort.Table.{new_table}
use sans_effort.Table.Entries
use sans_effort.Table.Process.{
  Process, Thread, State, Act, Ending, Stepped, act, begin_call, end_call, wakes, note,
}
use sans_effort.Table.Calls.{
  Found, Called, address, find, try_lock, release, leave, keep_local, own_pinned, removed_parked,
  forget_pinned, free_unrecorded,
}
use sans_effort.Table.Sessions.{start_recording, finish_recording, reissue}

-- How far a call in progress is: it looks for its machine, has found it, runs it, or has its result.
pub data Stage : Type 0 where
  looking : ℕ → Stage
  found : ℕ → Found → Stage
  inside : ℕ → Found → Stage
  done : Called → Stage

-- A thread, with the calls that it is making; the call in progress stands first.
pub record Worker : Type 0 where
  pub own : Thread
  pub stages : List Stage

pub record System (M P : Type 0) : Type 0 where
  pub shared : Process M P
  pub workers : List Worker

module _ {M P : Type 0} (stepped : Stepped M P) where
  -- The steps of one thread. Its routine acts on the table while it runs, and calls other machines.
  pub data Move : State M P → List Stage → State M P → List Stage → Type 0 where
    begins : (h : ℕ) {s : State M P} {st : List Stage} → Move s st (begin_call h s) (looking h ∷ st)
    finds :
        {h : ℕ} {f : Found} {s s' : State M P} {st : List Stage}
        → find h s ≡ (ok f, s')
        → Move s (looking h ∷ st) s' (found h f ∷ st)
    misses :
        {h : ℕ} {e : Error} {s s' : State M P} {st : List Stage}
        → find h s ≡ (err e, s')
        → Move s (looking h ∷ st) s' (done (err e) ∷ st)
    locks :
        {h : ℕ} {f : Found} (m : Option M) {s s' : State M P} {st : List Stage}
        → try_lock (address f) s ≡ some (ok m, s')
        → Move s (found h f ∷ st) s' (inside h f ∷ st)
    collides :
        {h : ℕ} {f : Found} (e : Error) {s s' : State M P} {st : List Stage}
        → try_lock (address f) s ≡ some (err e, s')
        → Move s (found h f ∷ st) (release stepped (address f) s') (done (err e) ∷ st)
    leaves :
        {h : ℕ} {f : Found} {s : State M P} {st : List Stage} (ending : Ending M)
        → Move s
            (inside h f ∷ st)
            (leave stepped h f ending s).1
            (done (leave stepped h f ending s).0 ∷ st)
    ends : {r : Called} {s : State M P} {st : List Stage} → Move s (done r ∷ st) (end_call r s).1 st
    acts : (a : Act M P) {s s' : State M P} {st : List Stage} → act a s ≡ some s' → Move s st s' st
    owns :
        (h : ℕ) (make : P) {s : State M P} {st : List Stage}
        → Entries.get h s.shared.table.parked ≡ some make
        → Move s st (own_pinned h (removed_parked h s).1) st
    builds :
        (h : ℕ) (machine : M) {s : State M P} {st : List Stage}
        → Move s st (keep_local h machine s) st
    fails : (h : ℕ) {s : State M P} {st : List Stage} → Move s st (forget_pinned h s) st
    frees : (h : ℕ) {s : State M P} {st : List Stage} → Move s st (free_unrecorded stepped h s).1 st
    notes :
        (h : ℕ) (event : ℕ → Event) {s : State M P} {st : List Stage}
        → Move s st (note h event s) st
    takes_wakes : {s : State M P} {st : List Stage} → Move s st (wakes s).1 st
    starts : (root : ℕ) {s : State M P} {st : List Stage} → Move s st (start_recording root s).1 st
    finishes :
        (session : ℕ) {s : State M P} {st : List Stage}
        → Move s st (finish_recording session s).1 st
    reissues :
        (handles : List ℕ) {s : State M P} {st : List Stage} → Move s st (reissue handles s) st

  -- What a worker sees.
  abbrev pub view : System M P → Worker → State M P
  view sys w = record { shared = sys.shared; own = w.own }

  -- One thread moves; the others stay as they are.
  pub data Step (sys : System M P) : System M P → Type 0 where
    moves :
        (i : ℕ) {w : Worker} {s : State M P} {st : List Stage}
        → get_elem? sys.workers i ≡ some w
        → Move (view sys w) w.stages s st
        → Step sys (record {
          shared = s.shared;
          workers = set sys.workers i (record { own = s.own; stages = st });
        })

  -- `n` threads that make no call yet, numbered from `first`.
  abbrev pub workers_from : ℕ → ℕ → List Worker
  workers_from first zero = []
  workers_from first (suc n) =
      record { own = record { id = first; local = []; calls = []; reissue = [] }; stages = [] }
      ∷ workers_from (suc first) n

  abbrev pub first_system : ℕ → System M P
  first_system n = record {
    shared = record { table = new_table; cells = []; wakes = []; session_count = 0 };
    workers = workers_from 0 n;
  }

  pub data Reachable (n : ℕ) : System M P → Type 0 where
    start : Reachable n (first_system n)
    later : {sys sys' : System M P} → Reachable n sys → Step sys sys' → Reachable n sys'
