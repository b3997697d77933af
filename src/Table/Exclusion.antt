-- ===== src/Table/Exclusion.antt =====
-- sans-effort-host/src/table.rs, `guarded`: calls that run a machine, over all interleavings.
use sans_effort.Shared.{
  ℕ, zero, suc, ◌+◌, ◌≤◌, ◌≡◌, refl, ap, subst, List, [], ◌∷◌, some, ok, err, leb, ◌==◌,
  if◌then◌else◌, get_elem?, set, OnSome, either_way, arith,
}
use mathlib.Core.Option.{some-injective}
use sans_effort.Host.Record.{Event}
use sans_effort.Table.Process.{
  begin_call, wakes, Stepped, State, Call, note, end_call, end_calls, report,
}
use sans_effort.Table.Calls.{Called, address, forget_pinned, keep_local}
use sans_effort.Table.Sessions.{start_recording, finish_recording, reissue}
use sans_effort.Table.System.{
  Stage, inside, Worker, System, Move, begins, finds, misses, locks, collides, leaves, ends, acts,
  owns, builds, fails, frees, notes, takes_wakes, starts, finishes, reissues, moves, workers_from,
  Reachable, start, later,
}
use sans_effort.Table.Locks.{
  held_at, held_at-le, act-held_at, find-held_at, allocate-held_at, release-held_at, leave-held_at,
  free_unrecorded-held_at, Locks, try_lock-Locks,
}

-- How many of a thread's calls run the machine at the address.
unfoldable pub runs : ℕ → List Stage → ℕ
runs b [] = 0
runs b (inside h f ∷ st) = let rest = runs b st in if address f == b then suc rest else rest
runs b (_ ∷ st) = runs b st

-- How many calls of all the threads do.
unfoldable pub runs_of_all : ℕ → List Worker → ℕ
runs_of_all b [] = 0
runs_of_all b (w ∷ ws) = runs b w.stages + runs_of_all b ws

runs_of_all-set :
    (b : ℕ) (ws : List Worker) (i : ℕ) {w : Worker} (w' : Worker)
    → get_elem? ws i ≡ some w
    → runs_of_all b (set ws i w') + runs b w.stages ≡ runs_of_all b ws + runs b w'.stages
unfolding runs_of_all
runs_of_all-set b [] i w' e = cc
runs_of_all-set b (v ∷ ws) zero {w} w' e =
    subst
      (λ x.
        runs b w'.stages + runs_of_all b ws + runs b x.stages
        ≡ runs b v.stages + runs_of_all b ws + runs b w'.stages)
      (some-injective v w e) (omega arith)
runs_of_all-set b (v ∷ ws) (suc i) w' e = omega (arith, runs_of_all-set b ws i w' e)

runs_of_all-get :
    (b : ℕ) (ws : List Worker) (i : ℕ) {w : Worker}
    → get_elem? ws i ≡ some w
    → runs b w.stages ≤ runs_of_all b ws
unfolding runs_of_all
runs_of_all-get b [] i e = cc
runs_of_all-get b (v ∷ ws) zero {w} e =
    subst (λ x. runs b x.stages ≤ runs b v.stages + runs_of_all b ws) (some-injective v w e)
      (omega arith)
runs_of_all-get b (v ∷ ws) (suc i) e = omega (arith, runs_of_all-get b ws i e)

module _ {M P : Type 0} where
  -- A move changes what is held at the address as it changes what runs there.
  abbrev Balanced : ℕ → State M P → List Stage → State M P → List Stage → Type 0
  Balanced b s st s' st' =
      runs b st' + held_at b s.shared.cells ≡ runs b st + held_at b s'.shared.cells

  report-cells :
      (r : Called) (woken : List ℕ) (s : State M P)
      → (report r woken s).1.shared.cells ≡ s.shared.cells
  unfolding report
  report-cells (ok o) woken s = refl
  report-cells (err e) woken s = refl

  end_calls-cells :
      (r : Called) (calls : List Call) (s : State M P)
      → (end_calls r calls s).1.shared.cells ≡ s.shared.cells
  unfolding end_calls
  end_calls-cells r [] s = report-cells r [] s
  end_calls-cells r (call ∷ outer) s = report-cells r call.woken _

  note-cells :
      (h : ℕ) (event : ℕ → Event) (s : State M P) → (note h event s).shared.cells ≡ s.shared.cells
  unfolding note
  note-cells h event s =
      either_way (λ (t : State M P). t.shared.cells ≡ s.shared.cells) (leb 1 s.shared.session_count)
        refl refl

  module _ (stepped : Stepped M P) where
    Move-Balanced :
        (b : ℕ) {s s' : State M P} {st st' : List Stage}
        → Move stepped s st s' st'
        → runs b st ≤ held_at b s.shared.cells
        → Balanced b s st s' st'
    unfolding runs begin_call end_call wakes start_recording finish_recording reissue forget_pinned
        keep_local
    Move-Balanced b (begins h) l = refl
    Move-Balanced b (finds {h} {f} {s} {s'} e) l =
        omega (arith, find-held_at b h s, ap (λ r. held_at b r.1.shared.cells) e)
    Move-Balanced b (misses {h} {s} {s'} e) l =
        omega (arith, find-held_at b h s, ap (λ r. held_at b r.1.shared.cells) e)
    Move-Balanced b (locks {h} {f} m {s} e) l =
        ground (arith, subst (OnSome (Locks (address f) b s)) e (try_lock-Locks (address f) b s))
    Move-Balanced b (collides {h} {f} error {s} {s'} e) l = omega (
      arith,
      release-held_at stepped (address f) b s',
      ap (λ (t : State M P). held_at b t.shared.cells)
          (subst (OnSome (Locks (address f) b s)) e (try_lock-Locks (address f) b s)),
    )
    Move-Balanced b (leaves {h} {f} {s} ending) l =
        ground (arith, leave-held_at stepped b h f ending s, held_at-le b s.shared.cells)
    Move-Balanced b (ends {r} {s}) l =
        omega (arith, ap (held_at b) (end_calls-cells r s.own.calls s))
    Move-Balanced b (acts a {s} e) l = omega (
      arith,
      subst (OnSome (λ t. held_at b t.shared.cells ≡ held_at b s.shared.cells)) e
          (act-held_at b a s),
    )
    Move-Balanced b (owns h make e) l = refl
    Move-Balanced b (builds h machine {s}) l = omega (arith, allocate-held_at b machine s)
    Move-Balanced b (fails h) l = refl
    Move-Balanced b (frees h {s}) l = omega (arith, free_unrecorded-held_at stepped b h s)
    Move-Balanced b (notes h event {s}) l = omega (arith, ap (held_at b) (note-cells h event s))
    Move-Balanced b takes_wakes l = refl
    Move-Balanced b (starts root) l = refl
    Move-Balanced b (finishes session) l = refl
    Move-Balanced b (reissues handles) l = refl

    runs_of_all-first : (b first n : ℕ) → runs_of_all b (workers_from stepped first n) ≡ 0
    unfolding runs runs_of_all
    runs_of_all-first b first zero = refl
    runs_of_all-first b first (suc n) = omega (arith, runs_of_all-first b (suc first) n)

    Reachable-runs :
        {n : ℕ} {sys : System M P}
        → Reachable stepped n sys
        → (b : ℕ) → runs_of_all b sys.workers ≡ held_at b sys.shared.cells
    Reachable-runs {n = n} start b = runs_of_all-first b 0 n
    Reachable-runs (later {sys} reached (moves i {w} {s} {st} e move)) b = omega (
      arith,
      Reachable-runs reached b,
      runs_of_all-set b sys.workers i (record { own = s.own; stages = st }) e,
      runs_of_all-get b sys.workers i e,
      Move-Balanced b move
          (omega (arith, Reachable-runs reached b, runs_of_all-get b sys.workers i e)),
    )

    -- However the calls of any number of threads interleave, with the acts of the routines that they
    -- run, two calls never run the machine behind one lock at once: at most one call of all the
    -- threads does, and one does exactly if the lock is held.
    pub Reachable-Excludes :
        {n : ℕ} {sys : System M P}
        → Reachable stepped n sys
        → (b : ℕ)
        → (runs_of_all b sys.workers ≤ 1) × (runs_of_all b sys.workers ≡ held_at b sys.shared.cells)
    Reachable-Excludes {sys = sys} reached b = (
      omega (arith, Reachable-runs reached b, held_at-le b sys.shared.cells),
      Reachable-runs reached b,
    )
