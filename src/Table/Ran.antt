-- ===== src/Table/Ran.antt =====
-- sans-effort-host/src/table.rs, `guarded`: what a machine that runs wakes, and the destructor of one
-- that panics.
use sans_effort.Shared.{
  ℕ, ◌+◌, ◌-◌, ◌≤◌, ◌≡◌, refl, ◌∙◌, subst, List, [], ◌∷◌, ◌++◌, append-nil, some, ok, err, true,
  leb, le→leb, if◌then◌else◌, get_elem?, set, inl, inr, Bool-cases, OnSome, OnSome-both, arith,
}
use sans_effort.Codec.Writer.{OnSome-bind}
use sans_effort.Host.{panicked}
use sans_effort.Table.Entries
use sans_effort.Table.Process.{
  Lock, Cell, Call, State, Act, Ending, returned, panics, Stepped, with_cells, acts,
}
use sans_effort.Table.Calls.{
  Found, address, migrating, here, Called, clone, unlock, release, forget_pinned, leave,
  guarded_found, removed_machine, removed_local, try_lock,
}
use sans_effort.Table.Refusals.{get-set, clone-get}
use sans_effort.Table.Finding.{clone_lem}
use sans_effort.Table.Noted.{wakes_in, Noted, woke_all-Noted, acts-Noted}
use sans_effort.Table.Entry.{Leads, Leads-same, Stands, acts-Stands}

-- What the destructors of the machines wake, in order.
unfoldable pub drops_of : {M P : Type 0} → Stepped M P → List M → List ℕ
drops_of stepped [] = []
drops_of stepped (machine ∷ machines) = stepped.drops machine ++ drops_of stepped machines

-- What a call returns, before the frames of its wakes.
abbrev pub result_of : {M : Type 0} → Ending M → Called
result_of (returned result _) = result
result_of (panics _) = err panicked

-- The machine of a call that panics is dropped with the call's hold on it, unless another holder than
-- the entry is left. A call that returns drops nothing.
unfoldable pub dropped_by : {M : Type 0} → Ending M → ℕ → List M
dropped_by (returned _ _) holders = []
dropped_by (panics machine) holders = if leb 2 holders then [] else machine ∷ []

two : (n c : ℕ) → n ≡ c + 1 → 1 ≤ c → leb 2 n ≡ true
two n c e l = le→leb 2 n (omega (arith, e, l))

one_less : (n c : ℕ) → n ≡ c + 1 → n - 1 ≡ c
one_less n c e = omega (arith, e)

module _ {M P : Type 0} (stepped : Stepped M P) (run : M → List (Act M P) × Ending M) where
  -- What a call wakes: by the run of the machine, and then by the destructor if it is dropped.
  unfoldable pub woken_by : M → ℕ → List ℕ
  woken_by m holders = wakes_in (run m).0 ++ drops_of stepped (dropped_by (run m).1 holders)

  module _ (h : ℕ) (outer : List Call) (queued : List ℕ) where
    -- One holder of several goes.
    release-held :
        (a : ℕ) (cell : Cell M) (woken : List ℕ) (s : State M P)
        → get_elem? s.shared.cells a ≡ some cell
        → leb 2 cell.count ≡ true
        → Noted h outer queued woken s
        → Noted h outer queued woken (release stepped a s)
          × (get_elem? (release stepped a s).shared.cells a
              ≡ some (record cell { count = cell.count - 1 }))
    unfolding release
    release-held a cell woken s g l n = rw (g, release, l) (n, get-set a cell _ s.shared.cells g)

    -- The last one goes, if there is but one.
    release-Noted :
        (a : ℕ) (cell : Cell M) (m : M) (woken : List ℕ) (s : State M P)
        → get_elem? s.shared.cells a ≡ some cell
        → cell.machine ≡ some m
        → Noted h outer queued woken s
        → Noted h outer queued
            (woken ++ drops_of stepped (if leb 2 cell.count then [] else m ∷ []))
            (release stepped a s)
    unfolding release drops_of
    release-Noted a cell m woken s g q n = elim (Bool-cases (leb 2 cell.count)) [
      | inl more ↦ rw (g, release, more, append-nil woken) n
      | inr last ↦
          rw (g, release, last, q, append-nil (stepped.drops m))
            (woke_all-Noted h outer queued (stepped.drops m) woken _ n)
    ]

    unlock-Noted :
        (a : ℕ) (cell : Cell M) (m : M) (woken : List ℕ) (s : State M P)
        → get_elem? s.shared.cells a ≡ some cell
        → Noted h outer queued woken s
        → Noted h outer queued woken (unlock a m s)
          × (get_elem? (unlock a m s).shared.cells a
              ≡ some (record cell { machine = some m; lock = Lock.unlocked }))
    unfolding unlock
    unlock-Noted a cell m woken s g n = rw (g, unlock) (n, get-set a cell _ s.shared.cells g)

    leave-Noted :
        (f : Found) (cell : Cell M) (c : ℕ) (ending : Ending M) (woken : List ℕ) (s : State M P)
        → Stands h f cell s
        → cell.count ≡ c + 1
        → 1 ≤ c
        → Noted h outer queued woken s
        → Noted h outer queued
            (woken ++ drops_of stepped (dropped_by ending c))
            (leave stepped h f ending s).1
    unfolding leave dropped_by drops_of forget_pinned unlock
    leave-Noted f cell c (returned result m) woken s (_, g) n l noted =
        let (noted1, g1) = unlock-Noted (address f) cell m woken s g noted in
        rw (append-nil woken)
          (release-held (address f) _ woken (unlock (address f) m s) g1 (two cell.count c n l)
            noted1).0
    leave-Noted (migrating a) cell c (panics m) woken s (lead, g) n l noted =
        let (noted1, g1) =
          release-held a cell woken (removed_machine h s).1 g (two cell.count c n l) noted in
        let (noted2, g2) = unlock-Noted a _ m woken _ g1 noted1 in
        rw lead (
          subst
            (λ k.
              Noted h outer queued (woken ++ drops_of stepped (if leb 2 k then [] else m ∷ []))
                (release stepped a (unlock a m (release stepped a (removed_machine h s).1))))
            (one_less cell.count c n) (release-Noted a _ m woken _ g2 refl noted2))
    leave-Noted (here a) cell c (panics m) woken s (lead, g) n l noted =
        let (noted1, g1) = unlock-Noted a cell m woken s g noted in
        let (noted2, g2) =
          release-held a _ woken (removed_local h (forget_pinned h (unlock a m s))).1 g1
            (two cell.count c n l) noted1 in
        rw (unlock-local g ∙ lead) (
          subst
            (λ k.
              Noted h outer queued (woken ++ drops_of stepped (if leb 2 k then [] else m ∷ [])) (
                release stepped a
                  (release stepped a (removed_local h (forget_pinned h (unlock a m s))).1)))
            (one_less cell.count c n) (release-Noted a _ m woken _ g2 refl noted2))
      where
        unlock-local :
            get_elem? s.shared.cells a ≡ some cell
            → Entries.get h (unlock a m s).own.local ≡ Entries.get h s.own.local
        unlock-local found = rw (found, unlock) refl

    leave-result_of :
        (f : Found) (ending : Ending M) (s : State M P)
        → (leave stepped h f ending s).0 ≡ result_of ending
    unfolding leave
    leave-result_of f (returned result machine) s = refl
    leave-result_of f (panics machine) s = refl

    -- The machine of the lock has run, and the call has noted what it woke.
    abbrev pub Ran : M → ℕ → Called × State M P → Type 0
    Ran m holders (r, s) = (r ≡ result_of (run m).1) × Noted h outer queued (woken_by m holders) s

    pub locked-Ran :
        (f : Found) (cell : Cell M) (m : M) (s : State M P)
        → Stands h f cell s
        → cell.lock ≡ Lock.unlocked
        → cell.machine ≡ some m
        → 1 ≤ cell.count
        → Noted h outer queued [] s
        → OnSome (Ran m cell.count) (guarded_found stepped run h (ok f, clone (address f) s))
    unfolding try_lock woken_by
    locked-Ran f cell m s (lead, g) free q l noted =
        rw (clone-get (address f) cell s g, try_lock, free, q)
          (OnSome-bind _ _ (acts (run m).0 locked)
            (OnSome-both _ _ (acts (run m).0 locked)
              (acts-Noted h outer queued (run m).0 [] locked (cloned lead noted).1)
              (acts-Stands h f held_cell (run m).0 locked (
                (cloned lead noted).0,
                get-set (address f) _ held_cell _ (clone-get (address f) cell s g),
              )))
            (λ s' (noted', stands). (
              leave-result_of f (run m).1 s',
              leave-Noted f held_cell cell.count (run m).1 (wakes_in (run m).0) s' stands refl l
                  noted',
            )))
      where
        held_cell : Cell M
        held_cell = record { machine = some m; lock = Lock.held; count = cell.count + 1 }

        locked : State M P
        locked =
            with_cells (set (clone (address f) s).shared.cells (address f) held_cell)
              (clone (address f) s)

        cloned :
            Leads h f s
            → Noted h outer queued [] s
            → Leads h f locked × Noted h outer queued [] locked
        cloned lead noted =
            let (lead', noted') =
              clone_lem (λ t. Leads h f t × Noted h outer queued [] t) (address f) s
                (λ cells. (Leads-same h f s _ refl refl lead, noted)) in
            (Leads-same h f (clone (address f) s) locked refl refl lead', noted')
