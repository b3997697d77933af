-- ===== src/Table/Refusals.antt =====
-- sans-effort-host/src/table.rs: the calls that reach no machine.
use sans_effort.Shared.{
  ℕ, zero, suc, ◌+◌, ◌-◌, ◌≤◌, ◌≡◌, refl, sym, ap, ◌∙◌, List, [], ◌∷◌, append-nil, Option, none,
  some, ok, err, true, false, ◌==◌, if◌then◌else◌, get_elem?, set, inl, inr, Bool-cases,
  Option-cases, le→leb, arith,
}
use mathlib.Core.Option.{some-injective}
use sans_effort.Host.{Error, bad_handle, bad_input, busy, wrong_thread, panicked}
use sans_effort.Host.Record.{Event, outcome}
use sans_effort.Table.Entries
use sans_effort.Table.Process.{
  Process, with_wakes, Lock, Cell, State, Act, Ending, Stepped, note, begin_call, end_call,
  end_calls, report, with_cells,
}
use sans_effort.Codec.Writer.{◌>>=◌}
use sans_effort.Table.Calls.{
  find_local, find_pinned, find_machine, try_lock_cell, guarded_locked, Found, address, migrating,
  here, clone, find, try_lock, release, guarded, guarded_found, reporting_wakes, reply,
}

abbrev pub lock_refusal : Lock → Option Error
lock_refusal Lock.unlocked = none
lock_refusal Lock.held = some busy
lock_refusal Lock.poisoned = some panicked

module _ {M : Type 0} where
  abbrev pub cell_refusal : Option (Cell M) → Option Error
  cell_refusal none = none
  cell_refusal (some cell) = lock_refusal cell.lock

  -- The lock at the address has a holder.
  abbrev pub IsHeld : List (Cell M) → ℕ → Type 0
  IsHeld cells a = (cell : Cell M) → get_elem? cells a ≡ some cell → 1 ≤ cell.count

  pub get-set :
      (a : ℕ) (cell new : Cell M) (cells : List (Cell M))
      → get_elem? cells a ≡ some cell
      → get_elem? (set cells a new) a ≡ some new
  get-set a cell new [] e = cc
  get-set zero cell new (c ∷ cells) e = refl
  get-set (suc a) cell new (c ∷ cells) e = get-set a cell new cells e

  set-set :
      (a : ℕ) (cell new : Cell M) (cells : List (Cell M))
      → get_elem? cells a ≡ some cell
      → set (set cells a new) a cell ≡ cells
  set-set a cell new [] e = refl
  set-set zero cell new (c ∷ cells) e = ap (λ x. x ∷ cells) (sym (some-injective c cell e))
  set-set (suc a) cell new (c ∷ cells) e = ap (λ xs. c ∷ xs) (set-set a cell new cells e)

module _ {M P : Type 0} where
  abbrev pub local_refusal : Option ℕ → Process M P → Option Error
  local_refusal none shared = some bad_handle
  local_refusal (some a) shared = cell_refusal (get_elem? shared.cells a)

  abbrev pub pinned_refusal : ℕ → Option ℕ → Process M P → ℕ → List (ℕ × ℕ) → Option Error
  pinned_refusal h none shared id local = some bad_handle
  pinned_refusal h (some owner) shared id local =
      if owner == id then local_refusal (Entries.get h local) shared else some wrong_thread

  abbrev pub parked_refusal : ℕ → Option P → Process M P → ℕ → List (ℕ × ℕ) → Option Error
  parked_refusal h (some _) shared id local = some bad_input
  parked_refusal h none shared id local =
      pinned_refusal h (Entries.get h shared.table.pinned) shared id local

  abbrev pub machine_refusal : ℕ → Option ℕ → Process M P → ℕ → List (ℕ × ℕ) → Option Error
  machine_refusal h (some a) shared id local = cell_refusal (get_elem? shared.cells a)
  machine_refusal h none shared id local =
      parked_refusal h (Entries.get h shared.table.parked) shared id local

  -- Why a call of the handle is refused, if it is: its machine is in use, parked, another thread's,
  -- or gone.
  unfoldable pub refusal : ℕ → State M P → Option Error
  refusal h s =
      machine_refusal h (Entries.get h s.shared.table.machines) s.shared s.own.id s.own.local

  -- Where an entry of the handle leads, the lock has a holder: the entry.
  abbrev pub HaveHolders : ℕ → State M P → Type 0
  HaveHolders h s =
      ((a : ℕ) → Entries.get h s.shared.table.machines ≡ some a → IsHeld s.shared.cells a)
      × ((a : ℕ) → Entries.get h s.own.local ≡ some a → IsHeld s.shared.cells a)

  abbrev counted : ℕ → Cell M → ℕ → State M P → State M P
  counted a cell n s = with_cells (set s.shared.cells a (record cell { count = n })) s

  clone-counted :
      (a : ℕ) (cell : Cell M) (s : State M P)
      → get_elem? s.shared.cells a ≡ some cell
      → clone a s ≡ counted a cell (cell.count + 1) s
  unfolding clone
  clone-counted a cell s e = rw (e, clone) refl

  release-counted :
      (stepped : Stepped M P) (a : ℕ) (cell : Cell M) (s : State M P)
      → get_elem? s.shared.cells a ≡ some cell
      → 1 ≤ cell.count
      → release stepped a (counted a cell (cell.count + 1) s) ≡ s
  unfolding release
  release-counted stepped a cell s e l =
      rw
        (
          get-set a cell (record cell { count = cell.count + 1 }) s.shared.cells e,
          release,
          le→leb 2 (cell.count + 1) (omega (arith, l)),
        )
        (ap (λ cells. with_cells cells s)
          (ap
              (λ n.
                set (set s.shared.cells a (record cell { count = cell.count + 1 })) a
                  (record cell { count = n }))
              minus
            ∙ set-set a cell (record cell { count = cell.count + 1 }) s.shared.cells e))
    where
      minus : cell.count + 1 - 1 ≡ cell.count
      minus = omega arith

  release-clone :
      (stepped : Stepped M P) (a : ℕ) (cell : Cell M) (s : State M P)
      → get_elem? s.shared.cells a ≡ some cell
      → 1 ≤ cell.count
      → release stepped a (clone a s) ≡ s
  release-clone stepped a cell s e l =
      ap (release stepped a) (clone-counted a cell s e) ∙ release-counted stepped a cell s e l

  lock_refusal-cases :
      (a : ℕ) (cell : Cell M) (lock : Lock) (e : Error) (s : State M P)
      → lock_refusal lock ≡ some e
      → try_lock_cell a cell lock s ≡ (err e, s)
  lock_refusal-cases a cell Lock.unlocked e s q = cc
  lock_refusal-cases a cell Lock.held e s q = ap (λ x. (err x, s)) (some-injective busy e q)
  lock_refusal-cases a cell Lock.poisoned e s q = ap (λ x. (err x, s)) (some-injective panicked e q)

  try_lock-refused :
      (a : ℕ) (cell : Cell M) (e : Error) (s : State M P)
      → get_elem? s.shared.cells a ≡ some cell
      → lock_refusal cell.lock ≡ some e
      → try_lock a s ≡ some (err e, s)
  unfolding try_lock
  try_lock-refused a cell e s found q =
      rw (found, try_lock) (ap some (lock_refusal-cases a cell cell.lock e s q))

  pub clone-get :
      (a : ℕ) (cell : Cell M) (s : State M P)
      → get_elem? s.shared.cells a ≡ some cell
      → get_elem? (clone a s).shared.cells a ≡ some (record cell { count = cell.count + 1 })
  clone-get a cell s found =
      ap (λ (t : State M P). get_elem? t.shared.cells a) (clone-counted a cell s found)
      ∙ get-set a cell (record cell { count = cell.count + 1 }) s.shared.cells found

  module _ (stepped : Stepped M P) (run : M → List (Act M P) × Ending M) (h : ℕ) where
    -- A machine that is found and not free is refused, and the state is as before.
    found-refused :
        (f : Found) (s : State M P) (e : Error)
        → IsHeld s.shared.cells (address f)
        → cell_refusal (get_elem? s.shared.cells (address f)) ≡ some e
        → guarded_found stepped run h (ok f, clone (address f) s) ≡ some (err e, s)
    found-refused f s e holders refused =
        elim (Option-cases (get_elem? s.shared.cells (address f))) [
          | inl q ↦ no (sym (ap cell_refusal q) ∙ refused)
          | inr (cell, q) ↦
              ap (λ o. o >>= guarded_locked stepped run h f)
                (try_lock-refused (address f) (record cell { count = cell.count + 1 }) e
                  (clone (address f) s) (clone-get (address f) cell s q)
                  (sym (ap cell_refusal q) ∙ refused))
              ∙ ap (λ t. some (err e, t))
                  (release-clone stepped (address f) cell s q (holders cell q))
        ]
      where
        no :
            none ≡ some e
            → guarded_found stepped run h (ok f, clone (address f) s) ≡ some (err e, s)
        no q = cc

    pinned-refused :
        (owner : Option ℕ) (s : State M P) (e : Error)
        → HaveHolders h s
        → pinned_refusal h owner s.shared s.own.id s.own.local ≡ some e
        → guarded_found stepped run h (find_pinned h owner s) ≡ some (err e, s)
    pinned-refused none s e holders refused =
        ap (λ x. some (err x, s)) (some-injective bad_handle e refused)
    pinned-refused (some owner) s e holders refused = elim (Bool-cases (owner == s.own.id)) [
      | inl mine ↦
          rw mine (local-refused (Entries.get h s.own.local) refl (sym (at_own mine) ∙ refused))
      | inr other ↦ rw other (
          ap (λ x. some (err x, s))
            (some-injective wrong_thread e (sym (at_other other) ∙ refused)))
    ]
      where
        at_own :
            (owner == s.own.id) ≡ true
            → pinned_refusal h (some owner) s.shared s.own.id s.own.local
              ≡ local_refusal (Entries.get h s.own.local) s.shared
        at_own mine = rw mine refl

        at_other :
            (owner == s.own.id) ≡ false
            → pinned_refusal h (some owner) s.shared s.own.id s.own.local ≡ some wrong_thread
        at_other other = rw other refl

        local-refused :
            (a : Option ℕ)
            → Entries.get h s.own.local ≡ a
            → local_refusal a s.shared ≡ some e
            → guarded_found stepped run h (find_local a s) ≡ some (err e, s)
        local-refused none q refused =
            ap (λ x. some (err x, s)) (some-injective bad_handle e refused)
        local-refused (some a) q refused = found-refused (here a) s e (holders.1 a q) refused

    machine-refused :
        (a : Option ℕ) (make : Option P) (s : State M P) (e : Error)
        → Entries.get h s.shared.table.machines ≡ a
        → Entries.get h s.shared.table.parked ≡ make
        → HaveHolders h s
        → machine_refusal h a s.shared s.own.id s.own.local ≡ some e
        → guarded_found stepped run h (find_machine h a s) ≡ some (err e, s)
    machine-refused (some a) make s e at q holders refused =
        found-refused (migrating a) s e (holders.0 a at) refused
    machine-refused none (some make) s e at q holders refused = rw q (
        ap (λ x. some (err x, s))
          (some-injective bad_input e
            (sym (ap (λ o. parked_refusal h o s.shared s.own.id s.own.local) q) ∙ refused)))
    machine-refused none none s e at q holders refused = rw q (
        pinned-refused (Entries.get h s.shared.table.pinned) s e holders
          (sym (ap (λ o. parked_refusal h o s.shared s.own.id s.own.local) q) ∙ refused))

    pub guarded-refused :
        (s : State M P) (e : Error)
        → HaveHolders h s
        → refusal h s ≡ some e
        → guarded stepped run h s ≡ some (err e, s)
    unfolding guarded find refusal
    guarded-refused s e holders refused =
        machine-refused (Entries.get h s.shared.table.machines)
          (Entries.get h s.shared.table.parked) s e refl refl holders refused

  -- Where the entries of a handle hold the locks that they lead to: a reply to it, if its machine is
  -- in use, parked, pinned to another thread or gone, is refused for that reason. No machine runs, no
  -- wake is noted, and nothing changes but the log of the sessions that record the handle, which gain
  -- the call with its error.
  pub reply-refused :
      (stepped : Stepped M P) (h : ℕ) (line : List ℕ) (s : State M P) (e : Error)
      → HaveHolders h s
      → refusal h s ≡ some e
      → reply stepped h line s
        ≡ some (err e, note h (λ machine. Event.reply machine line (outcome (err e))) s)
  unfolding reply reporting_wakes begin_call end_call end_calls report refusal
  reply-refused stepped h line s e holders refused =
      rw
        (
          guarded-refused stepped (stepped.reply line) h (begin_call h s) e holders refused,
          reply,
          reporting_wakes,
        )
        (ap
          (λ queued. some (
            err e,
            note h (λ machine. Event.reply machine line (outcome (err e))) (with_wakes queued s),
          ))
          (append-nil s.shared.wakes))
