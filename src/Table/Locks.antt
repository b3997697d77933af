-- ===== src/Table/Locks.antt =====
-- sans-effort-host/src/table.rs: which locks are held, and what each step does to them.
use sans_effort.Shared.{
  ℕ, zero, suc, ◌+◌, ◌-◌, ◌≤◌, ◌≡◌, refl, ap, ◌∙◌, List, [], ◌∷◌, ◌++◌, Option, none, some, Result,
  ok, err, true, leb, ◌==◌, if◌then◌else◌, get_elem?, set, inl, inr, Bool-cases, Option-cases,
  either_way, OnSome, subst, ==→eq, arith,
}
use sans_effort.Host.{Error}
use sans_effort.Table
use sans_effort.Table.Entries
use sans_effort.Table.Process.{
  Act, insert, new_pinned, issue_here, after_issue, act, Lock, Cell, Call, State, Ending, returned,
  panics, woke_in, woke, woke_all, allocate, Stepped,
}
use sans_effort.Table.Finding.{find_lem}
use sans_effort.Table.Calls.{
  Found, migrating, here, release_removed, expel, forget_pinned, leave, free_found, free_unrecorded,
  try_lock_cell, find, migrating, here, address, clone, try_lock, unlock, drop_machine, drop_parked,
  release,
}

abbrev held_by : Lock → ℕ
held_by Lock.unlocked = 0
held_by Lock.held = 1
held_by Lock.poisoned = 0

module _ {M : Type 0} where
  abbrev held_in : Option (Cell M) → ℕ
  held_in none = 0
  held_in (some cell) = held_by cell.lock

  -- 1 if the lock at the address is held, else 0.
  abbrev pub held_at : ℕ → List (Cell M) → ℕ
  held_at b cells = held_in (get_elem? cells b)

  pub held_at-le : (b : ℕ) (cells : List (Cell M)) → held_at b cells ≤ 1
  held_at-le b [] = omega arith
  held_at-le zero (c ∷ cells) = held_by-le c.lock
    where
      held_by-le : (lock : Lock) → held_by lock ≤ 1
      held_by-le Lock.unlocked = omega arith
      held_by-le Lock.held = omega arith
      held_by-le Lock.poisoned = omega arith
  held_at-le (suc b) (c ∷ cells) = held_at-le b cells

  held_at-set :
      (a b : ℕ) (cell cell' : Cell M) (cells : List (Cell M))
      → get_elem? cells a ≡ some cell
      → held_at b (set cells a cell') ≡ (if a == b then held_by cell'.lock else held_at b cells)
  held_at-set a b cell cell' [] e = cc
  held_at-set zero zero cell cell' (c ∷ cells) e = refl
  held_at-set zero (suc b) cell cell' (c ∷ cells) e = ground arith
  held_at-set (suc a) zero cell cell' (c ∷ cells) e = ground arith
  held_at-set (suc a) (suc b) cell cell' (c ∷ cells) e =
      ground (arith, held_at-set a b cell cell' cells e)

  held_at-none :
      (a b : ℕ) (cells : List (Cell M))
      → get_elem? cells a ≡ none
      → held_at b cells ≡ (if a == b then 0 else held_at b cells)
  held_at-none a b [] e = ground arith
  held_at-none zero zero (c ∷ cells) e = cc
  held_at-none zero (suc b) (c ∷ cells) e = ground arith
  held_at-none (suc a) zero (c ∷ cells) e = ground arith
  held_at-none (suc a) (suc b) (c ∷ cells) e = ground (arith, held_at-none a b cells e)

  held_at-same :
      (a b : ℕ) (cell cell' : Cell M) (cells : List (Cell M))
      → get_elem? cells a ≡ some cell
      → cell'.lock ≡ cell.lock
      → held_at b (set cells a cell') ≡ held_at b cells
  held_at-same a b cell cell' [] e l = refl
  held_at-same zero zero cell cell' (c ∷ cells) e l = cc
  held_at-same zero (suc b) cell cell' (c ∷ cells) e l = refl
  held_at-same (suc a) zero cell cell' (c ∷ cells) e l = refl
  held_at-same (suc a) (suc b) cell cell' (c ∷ cells) e l = held_at-same a b cell cell' cells e l

  held_at-append :
      (b : ℕ) (cell : Cell M) (cells : List (Cell M))
      → cell.lock ≡ Lock.unlocked
      → held_at b (cells ++ cell ∷ []) ≡ held_at b cells
  held_at-append zero cell [] l = cc
  held_at-append (suc b) cell [] l = refl
  held_at-append zero cell (c ∷ cells) l = refl
  held_at-append (suc b) cell (c ∷ cells) l = held_at-append b cell cells l

module _ {M P : Type 0} where
  woke_in-cells :
      (h : ℕ) (calls : List Call) (s : State M P)
      → (woke_in h calls s).shared.cells ≡ s.shared.cells
  unfolding woke_in
  woke_in-cells h [] s = refl
  woke_in-cells h (call ∷ outer) s = refl

  woke-cells : (h : ℕ) (s : State M P) → (woke h s).shared.cells ≡ s.shared.cells
  unfolding woke
  woke-cells h s = woke_in-cells h s.own.calls s

  woke_all-cells : (hs : List ℕ) (s : State M P) → (woke_all hs s).shared.cells ≡ s.shared.cells
  unfolding woke_all
  woke_all-cells [] s = refl
  woke_all-cells (h ∷ hs) s = woke_all-cells hs (woke h s) ∙ woke-cells h s

  clone-held_at :
      (a b : ℕ) (s : State M P) → held_at b (clone a s).shared.cells ≡ held_at b s.shared.cells
  unfolding clone
  clone-held_at a b s = elim (Option-cases (get_elem? s.shared.cells a)) [
    | inl e ↦ rw (e, clone) refl
    | inr (cell, e) ↦
        rw (e, clone)
          (held_at-same a b cell (record cell { count = cell.count + 1 }) s.shared.cells e refl)
  ]

  unlock-held_at :
      (a b : ℕ) (machine : M) (s : State M P)
      → held_at b (unlock a machine s).shared.cells
        ≡ (if a == b then 0 else held_at b s.shared.cells)
  unfolding unlock
  unlock-held_at a b machine s = elim (Option-cases (get_elem? s.shared.cells a)) [
    | inl e ↦ rw (e, unlock) (held_at-none a b s.shared.cells e)
    | inr (cell, e) ↦
        rw (e, unlock)
          (held_at-set a b cell (record cell { machine = some machine; lock = Lock.unlocked })
            s.shared.cells e)
  ]

  pub allocate-held_at :
      (b : ℕ) (machine : M) (s : State M P)
      → held_at b (allocate machine s).1.shared.cells ≡ held_at b s.shared.cells
  unfolding allocate
  allocate-held_at b machine s =
      held_at-append b (record { machine = some machine; lock = Lock.unlocked; count = 1 })
        s.shared.cells refl

  pub find-held_at :
      (b h : ℕ) (s : State M P) → held_at b (find h s).1.shared.cells ≡ held_at b s.shared.cells
  find-held_at b h s =
      find_lem (λ t. held_at b t.shared.cells ≡ held_at b s.shared.cells) h s refl
        (λ a. clone-held_at a b s)

  insert-held_at :
      (b : ℕ) (machine : M) (s : State M P)
      → OnSome
          (λ s'. held_at b s'.shared.cells ≡ held_at b s.shared.cells)
          (after_issue (insert machine s))
  unfolding insert issue_here
  insert-held_at b machine s = elim (Option-cases (Table.issue s.own.reissue s.shared.table)) [
    | inl e ↦ rw (e, insert, issue_here) tt
    | inr ((h, t), e) ↦ rw (e, insert, issue_here) (allocate-held_at b machine _)
  ]

  new_pinned-held_at :
      (b : ℕ) (make : P) (s : State M P)
      → OnSome
          (λ s'. held_at b s'.shared.cells ≡ held_at b s.shared.cells)
          (after_issue (new_pinned make s))
  unfolding new_pinned issue_here
  new_pinned-held_at b make s = elim (Option-cases (Table.issue s.own.reissue s.shared.table)) [
    | inl e ↦ rw (e, new_pinned, issue_here) tt
    | inr ((h, t), e) ↦ rw (e, new_pinned, issue_here) refl
  ]

  pub act-held_at :
      (b : ℕ) (a : Act M P) (s : State M P)
      → OnSome (λ s'. held_at b s'.shared.cells ≡ held_at b s.shared.cells) (act a s)
  unfolding act
  act-held_at b (Act.wake h) s = ap (held_at b) (woke-cells h s)
  act-held_at b (Act.spawn machine) s = insert-held_at b machine s
  act-held_at b (Act.park make) s = new_pinned-held_at b make s

  module _ (stepped : Stepped M P) where
    drop_machine-cells :
        (machine : Option M) (s : State M P)
        → (drop_machine stepped machine s).shared.cells ≡ s.shared.cells
    drop_machine-cells none s = refl
    drop_machine-cells (some machine) s = woke_all-cells (stepped.drops machine) s

    drop_parked-cells :
        (make : Option P) (s : State M P)
        → (drop_parked stepped make s).shared.cells ≡ s.shared.cells
    drop_parked-cells none s = refl
    drop_parked-cells (some make) s = woke_all-cells (stepped.drops_parked make) s

    pub release-held_at :
        (a b : ℕ) (s : State M P)
        → held_at b (release stepped a s).shared.cells ≡ held_at b s.shared.cells
    unfolding release
    release-held_at a b s = elim (Option-cases (get_elem? s.shared.cells a)) [
      | inl e ↦ rw (e, release) refl
      | inr (cell, e) ↦
          rw (e, release)
            (either_way (λ (t : State M P). held_at b t.shared.cells ≡ held_at b s.shared.cells)
              (leb 2 cell.count)
              (held_at-same a b cell (record cell { count = cell.count - 1 }) s.shared.cells e refl)
              (ap (held_at b) (drop_machine-cells cell.machine _)
                ∙ held_at-same a b cell (record cell { machine = none; count = 0 }) s.shared.cells e
                    refl))
    ]

    release_removed-held_at :
        (b : ℕ) (a : Option ℕ) (s : State M P)
        → held_at b (release_removed stepped (a, s)).shared.cells ≡ held_at b s.shared.cells
    release_removed-held_at b none s = refl
    release_removed-held_at b (some a) s = release-held_at a b s

    expel-held_at :
        (b h : ℕ) (f : Found) (machine : M) (s : State M P)
        → held_at b (expel stepped h f machine s).shared.cells
          ≡ (if address f == b then 0 else held_at b s.shared.cells)
    unfolding forget_pinned
    expel-held_at b h (migrating a) machine s =
        unlock-held_at a b machine _
        ∙ ap (λ n. if a == b then 0 else n)
            (release_removed-held_at b (Entries.get h s.shared.table.machines) _)
    expel-held_at b h (here a) machine s =
        release_removed-held_at b (Entries.get h (unlock a machine s).own.local) _
        ∙ unlock-held_at a b machine s

    pub leave-held_at :
        (b h : ℕ) (f : Found) (ending : Ending M) (s : State M P)
        → held_at b (leave stepped h f ending s).1.shared.cells
          ≡ (if address f == b then 0 else held_at b s.shared.cells)
    unfolding leave
    leave-held_at b h f (returned result machine) s =
        release-held_at (address f) b _ ∙ unlock-held_at (address f) b machine s
    leave-held_at b h f (panics machine) s =
        release-held_at (address f) b _ ∙ expel-held_at b h f machine s

    free_found-held_at :
        (b h : ℕ) (a owner : Option ℕ) (make : Option P) (s : State M P)
        → Entries.get h s.shared.table.pinned ≡ owner
        → held_at b (free_found stepped h a make s).1.shared.cells ≡ held_at b s.shared.cells
    free_found-held_at b h (some a) owner make s e =
        ap (held_at b) (drop_parked-cells make _) ∙ release-held_at a b s
    free_found-held_at b h none owner (some make) s e =
        ap (held_at b) (drop_parked-cells (some make) s)
    free_found-held_at b h none none none s e = rw e refl
    free_found-held_at b h none (some owner) none s e = rw e (
        either_way
          (λ (r : Result (Unit {0}) Error × State M P).
            held_at b r.1.shared.cells ≡ held_at b s.shared.cells)
          (owner == s.own.id)
          (unfold forget_pinned in (release_removed-held_at b (Entries.get h s.own.local) _)) refl)

    pub free_unrecorded-held_at :
        (b h : ℕ) (s : State M P)
        → held_at b (free_unrecorded stepped h s).1.shared.cells ≡ held_at b s.shared.cells
    unfolding free_unrecorded
    free_unrecorded-held_at b h s =
        free_found-held_at b h (Entries.get h s.shared.table.machines)
          (Entries.get h s.shared.table.pinned) (Entries.get h s.shared.table.parked) _ refl

  -- The lock that is taken was free, and no other changes; a refusal changes nothing.
  abbrev pub Locks : ℕ → ℕ → State M P → Result (Option M) Error × State M P → Type 0
  Locks a b s (ok m, s') =
      held_at b s'.shared.cells ≡ held_at b s.shared.cells + (if a == b then 1 else 0)
  Locks a b s (err e, s') = s' ≡ s

  try_lock_cell-Locks :
      (a b : ℕ) (cell : Cell M) (lock : Lock) (s : State M P)
      → get_elem? s.shared.cells a ≡ some cell
      → cell.lock ≡ lock
      → Locks a b s (try_lock_cell a cell lock s)
  try_lock_cell-Locks a b cell Lock.unlocked s e l =
      held_at-set a b cell (record cell { lock = Lock.held }) s.shared.cells e ∙ taken (==→eq a b)
    where
      free : held_at a s.shared.cells ≡ 0
      free = rw e (rw l refl)

      taken :
          ((a == b) ≡ true → a ≡ b)
          → (if a == b then 1 else held_at b s.shared.cells)
            ≡ held_at b s.shared.cells + (if a == b then 1 else 0)
      taken same = elim (Bool-cases (a == b)) [
        | inl y ↦
            rw y (subst (λ c. 1 ≡ held_at c s.shared.cells + 1) (same y) (omega (arith, free)))
        | inr n ↦ rw n (omega arith)
      ]
  try_lock_cell-Locks a b cell Lock.held s e l = refl
  try_lock_cell-Locks a b cell Lock.poisoned s e l = refl

  pub try_lock-Locks : (a b : ℕ) (s : State M P) → OnSome (Locks a b s) (try_lock a s)
  unfolding try_lock
  try_lock-Locks a b s = elim (Option-cases (get_elem? s.shared.cells a)) [
    | inl e ↦ rw (e, try_lock) tt
    | inr (cell, e) ↦ rw (e, try_lock) (try_lock_cell-Locks a b cell cell.lock s e refl)
  ]
