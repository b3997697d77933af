-- ===== src/Table/Finding.antt =====
-- sans-effort-host/src/table.rs, `find` and `try_lock`: they change the locks and nothing else.
use sans_effort.Shared.{
  ℕ, ◌≡◌, refl, List, Option, none, some, Result, ◌==◌, get_elem?, inl, inr, Option-cases,
  either_way, OnSome,
}
use sans_effort.Host.{Error}
use sans_effort.Table.Entries.{get}
use sans_effort.Table.Process.{Lock, Cell, State, with_cells}
use sans_effort.Table.Calls.{
  Found, clone, find_local, find_pinned, find_machine, find, try_lock_cell, try_lock, unlock,
}

module _ {M P : Type 0} (Q : State M P → Type 0) where
  -- What holds whatever the locks are holds after the lock at an address is cloned.
  pub clone_lem :
      (a : ℕ) (s : State M P) → ((cells : List (Cell M)) → Q (with_cells cells s)) → Q (clone a s)
  unfolding clone
  clone_lem a s q = elim (Option-cases (get_elem? s.shared.cells a)) [
    | inl e ↦ rw (e, clone) (q s.shared.cells)
    | inr (cell, e) ↦ rw (e, clone) (q _)
  ]

  pub unlock_lem :
      (a : ℕ) (machine : M) (s : State M P)
      → ((cells : List (Cell M)) → Q (with_cells cells s))
      → Q (unlock a machine s)
  unfolding unlock
  unlock_lem a machine s q = elim (Option-cases (get_elem? s.shared.cells a)) [
    | inl e ↦ rw (e, unlock) (q s.shared.cells)
    | inr (cell, e) ↦ rw (e, unlock) (q _)
  ]

  try_lock_cell_lem :
      (a : ℕ) (cell : Cell M) (lock : Lock) (s : State M P)
      → ((cells : List (Cell M)) → Q (with_cells cells s))
      → Q (try_lock_cell a cell lock s).1
  try_lock_cell_lem a cell Lock.unlocked s q = q _
  try_lock_cell_lem a cell Lock.held s q = q s.shared.cells
  try_lock_cell_lem a cell Lock.poisoned s q = q s.shared.cells

  pub try_lock_lem :
      (a : ℕ) (s : State M P)
      → ((cells : List (Cell M)) → Q (with_cells cells s))
      → OnSome (λ (_, s'). Q s') (try_lock a s)
  unfolding try_lock
  try_lock_lem a s q = elim (Option-cases (get_elem? s.shared.cells a)) [
    | inl e ↦ rw (e, try_lock) tt
    | inr (cell, e) ↦ rw (e, try_lock) (try_lock_cell_lem a cell cell.lock s q)
  ]

  find_local_lem :
      (a : Option ℕ) (s : State M P) → Q s → ((a : ℕ) → Q (clone a s)) → Q (find_local a s).1
  find_local_lem none s here_ cloned = here_
  find_local_lem (some a) s here_ cloned = cloned a

  find_pinned_lem :
      (h : ℕ) (owner : Option ℕ) (s : State M P)
      → Q s
      → ((a : ℕ) → Q (clone a s))
      → Q (find_pinned h owner s).1
  find_pinned_lem h none s here_ cloned = here_
  find_pinned_lem h (some owner) s here_ cloned =
      either_way (λ (f : Result Found Error × State M P). Q f.1) (owner == s.own.id)
        (find_local_lem (get h s.own.local) s here_ cloned) here_

  find_machine_lem :
      (h : ℕ) (a : Option ℕ) (make : Option P) (s : State M P)
      → get h s.shared.table.parked ≡ make
      → Q s
      → ((a : ℕ) → Q (clone a s))
      → Q (find_machine h a s).1
  find_machine_lem h (some a) make s e here_ cloned = cloned a
  find_machine_lem h none none s e here_ cloned =
      rw e (find_pinned_lem h (get h s.shared.table.pinned) s here_ cloned)
  find_machine_lem h none (some make) s e here_ cloned = rw e here_

  -- What holds before, and after a lock is cloned, holds after `find`.
  pub find_lem : (h : ℕ) (s : State M P) → Q s → ((a : ℕ) → Q (clone a s)) → Q (find h s).1
  unfolding find
  find_lem h s here_ cloned =
      find_machine_lem h (get h s.shared.table.machines) (get h s.shared.table.parked) s refl here_
        cloned
