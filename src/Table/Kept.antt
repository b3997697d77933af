-- ===== src/Table/Kept.antt =====
-- sans-effort-host/src/table.rs: what a statement about the table must satisfy for every operation
-- to keep it.
use sans_effort.Shared.{
  ℕ, ◌≡◌, refl, List, [], ◌∷◌, Option, none, some, Result, ok, err, leb, ◌==◌, get_elem?, inl, inr,
  Option-cases, either_way, OnSome, subst,
}
use sans_effort.Codec.Writer.{OnSome-bind}
use sans_effort.Host.{Error}
use sans_effort.Host.Record.{Event, outcome}
use sans_effort.Table.{Table}
use sans_effort.Table
use sans_effort.Table.Entries
use sans_effort.Table.Process.{
  Call, State, Act, Ending, returned, panics, Stepped, note, woke, woke_in, woke_all, begin_call,
  end_call, end_calls, report, issue_here, allocate, insert, new_pinned, after_issue, act, acts,
}
use sans_effort.Table.Calls
use sans_effort.Table.Finding.{clone_lem, unlock_lem, try_lock_lem, find_lem}

-- `R t n` speaks of the table and of the number of sessions. What the run of a machine, and what
-- frees one, do to the table keeps it.
pub record KeptByRuns {P : Type 0} (R : Table P → ℕ → Type 0) : Type 0 where
  pub adds_machine :
      (queue : List ℕ) (parent : Option ℕ) (a : ℕ) (t : Table P) (n : ℕ)
      → R t n
      → OnSome
          (λ (h, t').
            R (Table.adopt parent h (record t' { machines = Entries.insert h a t'.machines })) n)
          (Table.issue queue t)
  pub adds_parked :
      (queue : List ℕ) (parent : Option ℕ) (make : P) (t : Table P) (n : ℕ)
      → R t n
      → OnSome
          (λ (h, t').
            R (Table.adopt parent h (record t' { parked = Entries.insert h make t'.parked })) n)
          (Table.issue queue t)
  pub drops_machine :
      (h : ℕ) (t : Table P) (n : ℕ)
      → R t n
      → R (record t { machines = Entries.remove h t.machines }) n
  pub drops_parked :
      (h : ℕ) (t : Table P) (n : ℕ) → R t n → R (record t { parked = Entries.remove h t.parked }) n
  pub drops_pinned :
      (h : ℕ) (t : Table P) (n : ℕ) → R t n → R (record t { pinned = Entries.remove h t.pinned }) n
  pub owns :
      (h id : ℕ) (make : P) (t : Table P) (n : ℕ)
      → Entries.get h t.parked ≡ some make
      → R t n
      → R (record t { parked = Entries.remove h t.parked; pinned = Entries.insert h id t.pinned }) n

-- So does what is recorded of the call.
pub record Kept {P : Type 0} (R : Table P → ℕ → Type 0) : Type 0 where
  pub by_runs : KeptByRuns R
  pub notes : (h : ℕ) (event : ℕ → Event) (t : Table P) (n : ℕ) → R t n → R (Table.note h event t) n

abbrev pub Of : {M P : Type 0} → (Table P → ℕ → Type 0) → State M P → Type 0
Of R s = R s.shared.table s.shared.session_count

module _ {M P : Type 0} (R : Table P → ℕ → Type 0) (kept : KeptByRuns R) where
  woke_in-Of : (h : ℕ) (calls : List Call) (s : State M P) → Of R s → Of R (woke_in h calls s)
  unfolding woke_in
  woke_in-Of h [] s r = r
  woke_in-Of h (call ∷ outer) s r = r

  woke_all-Of : (hs : List ℕ) (s : State M P) → Of R s → Of R (woke_all hs s)
  unfolding woke_all woke
  woke_all-Of [] s r = r
  woke_all-Of (h ∷ hs) s r = woke_all-Of hs (woke h s) (woke_in-Of h s.own.calls s r)

  pub insert-Of :
      (machine : M) (s : State M P) → Of R s → OnSome (λ (_, s'). Of R s') (insert machine s)
  unfolding insert issue_here allocate
  insert-Of machine s r = elim (Option-cases (Table.issue s.own.reissue s.shared.table)) [
    | inl e ↦ rw (e, insert, issue_here) tt
    | inr ((h, t), e) ↦
        rw (e, insert, issue_here, allocate)
          (subst (OnSome _) e (kept.adds_machine s.own.reissue _ _ _ _ r))
  ]

  pub new_pinned-Of :
      (make : P) (s : State M P) → Of R s → OnSome (λ (_, s'). Of R s') (new_pinned make s)
  unfolding new_pinned issue_here
  new_pinned-Of make s r = elim (Option-cases (Table.issue s.own.reissue s.shared.table)) [
    | inl e ↦ rw (e, new_pinned, issue_here) tt
    | inr ((h, t), e) ↦
        rw (e, new_pinned, issue_here)
          (subst (OnSome _) e (kept.adds_parked s.own.reissue _ make _ _ r))
  ]

  after_issue-Of :
      (o : Option (ℕ × State M P)) → OnSome (λ (_, s'). Of R s') o → OnSome (Of R) (after_issue o)
  after_issue-Of none q = tt
  after_issue-Of (some (h, s)) q = q

  act-Of : (a : Act M P) (s : State M P) → Of R s → OnSome (Of R) (act a s)
  unfolding act woke
  act-Of (Act.wake h) s r = woke_in-Of h s.own.calls s r
  act-Of (Act.spawn machine) s r = after_issue-Of (insert machine s) (insert-Of machine s r)
  act-Of (Act.park make) s r = after_issue-Of (new_pinned make s) (new_pinned-Of make s r)

  pub acts-Of : (as_ : List (Act M P)) (s : State M P) → Of R s → OnSome (Of R) (acts as_ s)
  unfolding acts
  acts-Of [] s r = r
  acts-Of (a ∷ as_) s r = OnSome-bind _ _ (act a s) (act-Of a s r) (λ s' r'. acts-Of as_ s' r')

  find-Of : (h : ℕ) (s : State M P) → Of R s → Of R (Calls.find h s).1
  find-Of h s r = find_lem (Of R) h s r (λ a. clone_lem (Of R) a s (λ cells. r))

  unlock-Of : (a : ℕ) (machine : M) (s : State M P) → Of R s → Of R (Calls.unlock a machine s)
  unlock-Of a machine s r = unlock_lem (Of R) a machine s (λ cells. r)

  try_lock-Of : (a : ℕ) (s : State M P) → Of R s → OnSome (λ (_, s'). Of R s') (Calls.try_lock a s)
  try_lock-Of a s r = try_lock_lem (Of R) a s (λ cells. r)

  report-Of :
      (c : Calls.Called) (woken : List ℕ) (s : State M P) → Of R s → Of R (report c woken s).1
  unfolding report
  report-Of (ok o) woken s r = r
  report-Of (err e) woken s r = r

  end_calls-Of :
      (c : Calls.Called) (calls : List Call) (s : State M P) → Of R s → Of R (end_calls c calls s).1
  unfolding end_calls
  end_calls-Of c [] s r = report-Of c [] s r
  end_calls-Of c (call ∷ outer) s r = report-Of c call.woken _ r

  module _ (stepped : Stepped M P) where
    drop_machine-Of :
        (machine : Option M) (s : State M P) → Of R s → Of R (Calls.drop_machine stepped machine s)
    drop_machine-Of none s r = r
    drop_machine-Of (some machine) s r = woke_all-Of (stepped.drops machine) s r

    drop_parked-Of :
        (make : Option P) (s : State M P) → Of R s → Of R (Calls.drop_parked stepped make s)
    drop_parked-Of none s r = r
    drop_parked-Of (some make) s r = woke_all-Of (stepped.drops_parked make) s r

    release-Of : (a : ℕ) (s : State M P) → Of R s → Of R (Calls.release stepped a s)
    unfolding Calls.release
    release-Of a s r = elim (Option-cases (get_elem? s.shared.cells a)) [
      | inl e ↦ rw (e, Calls.release) r
      | inr (cell, e) ↦
          rw (e, Calls.release)
            (either_way (Of R) (leb 2 cell.count) r (drop_machine-Of cell.machine _ r))
    ]

    release_removed-Of :
        (a : Option ℕ) (s : State M P) → Of R s → Of R (Calls.release_removed stepped (a, s))
    release_removed-Of none s r = r
    release_removed-Of (some a) s r = release-Of a s r

    expel-Of :
        (h : ℕ) (f : Calls.Found) (machine : M) (s : State M P)
        → Of R s
        → Of R (Calls.expel stepped h f machine s)
    unfolding Calls.forget_pinned
    expel-Of h (Calls.migrating a) machine s r =
        unlock-Of a machine _ (
          release_removed-Of (Entries.get h s.shared.table.machines) _ (kept.drops_machine h _ _ r))
    expel-Of h (Calls.here a) machine s r =
        release_removed-Of (Entries.get h (Calls.unlock a machine s).own.local) _
          (kept.drops_pinned h _ _ (unlock-Of a machine s r))

    leave-Of :
        (h : ℕ) (f : Calls.Found) (ending : Ending M) (s : State M P)
        → Of R s
        → Of R (Calls.leave stepped h f ending s).1
    unfolding Calls.leave
    leave-Of h f (returned result machine) s r =
        release-Of (Calls.address f) _ (unlock-Of (Calls.address f) machine s r)
    leave-Of h f (panics machine) s r = release-Of (Calls.address f) _ (expel-Of h f machine s r)

    guarded_locked-Of :
        (run : Calls.Run stepped) (h : ℕ) (f : Calls.Found)
        (l : Result (Option M) Error × State M P)
        → Of R l.1
        → OnSome (λ (_, s'). Of R s') (Calls.guarded_locked stepped run h f l)
    guarded_locked-Of run h f (err e, s) r = release-Of (Calls.address f) s r
    guarded_locked-Of run h f (ok none, s) r = tt
    guarded_locked-Of run h f (ok (some machine), s) r =
        OnSome-bind _ _ (acts (run machine).0 s) (acts-Of (run machine).0 s r)
          (λ s' r'. leave-Of h f (run machine).1 s' r')

    guarded_found-Of :
        (run : Calls.Run stepped) (h : ℕ) (f : Result Calls.Found Error × State M P)
        → Of R f.1
        → OnSome (λ (_, s'). Of R s') (Calls.guarded_found stepped run h f)
    guarded_found-Of run h (err e, s) r = r
    guarded_found-Of run h (ok f, s) r =
        OnSome-bind _ _ (Calls.try_lock (Calls.address f) s) (try_lock-Of (Calls.address f) s r)
          (λ l q. guarded_locked-Of run h f l q)

    pub reporting_wakes-Of :
        (run : Calls.Run stepped) (h : ℕ) (s : State M P)
        → Of R s
        → OnSome (λ (_, s'). Of R s') (Calls.reporting_wakes stepped run h s)
    unfolding Calls.reporting_wakes Calls.guarded begin_call end_call
    reporting_wakes-Of run h s r =
        OnSome-bind _ _ (Calls.guarded stepped run h (begin_call h s))
          (guarded_found-Of run h _ (find-Of h (begin_call h s) r))
          (λ (c, s') q. end_calls-Of c s'.own.calls s' q)

    free_pinned-Of :
        (h : ℕ) (owner : Option ℕ) (s : State M P)
        → Of R s
        → Of R (Calls.free_pinned stepped h owner s).1
    unfolding Calls.forget_pinned
    free_pinned-Of h none s r = r
    free_pinned-Of h (some owner) s r =
        either_way (λ (f : Result (Unit {0}) Error × State M P). Of R f.1) (owner == s.own.id)
          (release_removed-Of (Entries.get h s.own.local) _ (kept.drops_pinned h _ _ r)) r

    pub free_found-Of :
        (h : ℕ) (a : Option ℕ) (make : Option P) (s : State M P)
        → Of R s
        → Of R (Calls.free_found stepped h a make s).1
    free_found-Of h (some a) make s r = drop_parked-Of make _ (release-Of a s r)
    free_found-Of h none (some make) s r = drop_parked-Of (some make) s r
    free_found-Of h none none s r = free_pinned-Of h (Entries.get h s.shared.table.pinned) s r

module _ {M P : Type 0} (R : Table P → ℕ → Type 0) (kept : Kept R) where
  note-Of : (h : ℕ) (event : ℕ → Event) (s : State M P) → Of R s → Of R (note h event s)
  unfolding note
  note-Of h event s r =
      either_way (Of R) (leb 1 s.shared.session_count) (kept.notes h event _ _ r) r

  module _ (stepped : Stepped M P) where
    pub reply-Of :
        (h : ℕ) (line : List ℕ) (s : State M P)
        → Of R s
        → OnSome (λ (_, s'). Of R s') (Calls.reply stepped h line s)
    unfolding Calls.reply
    reply-Of h line s r =
        OnSome-bind _ _ (Calls.reporting_wakes stepped (stepped.reply line) h s)
          (reporting_wakes-Of R kept.by_runs stepped (stepped.reply line) h s r)
          (λ (c, s') q. note-Of h (λ machine. Event.reply machine line (outcome c)) s' q)

    resume_started-Of :
        (h : ℕ) (s : State M P)
        → Of R s
        → OnSome (λ (_, s'). Of R s') (Calls.resume_started stepped h s)
    unfolding Calls.resume_started
    resume_started-Of h s r =
        OnSome-bind _ _ (Calls.reporting_wakes stepped stepped.resume h s)
          (reporting_wakes-Of R kept.by_runs stepped stepped.resume h s r)
          (λ (c, s') q. note-Of h (λ machine. Event.resume machine (outcome c)) s' q)

    resume_built-Of :
        (h : ℕ) (built : Option M) (s : State M P)
        → Of R s
        → OnSome (λ (_, s'). Of R s') (Calls.resume_built stepped h built s)
    unfolding Calls.forget_pinned Calls.keep_local allocate
    resume_built-Of h none s r = kept.by_runs.drops_pinned h _ _ r
    resume_built-Of h (some machine) s r = resume_started-Of h _ r

    resume_parked-Of :
        (h : ℕ) (make : Option P) (s : State M P)
        → Entries.get h s.shared.table.parked ≡ make
        → Of R s
        → OnSome
            (λ (_, s'). Of R s')
            (Calls.resume_parked stepped h (make, (Calls.removed_parked h s).1))
    resume_parked-Of h none s e r = resume_started-Of h _ (kept.by_runs.drops_parked h _ _ r)
    resume_parked-Of h (some make) s e r =
        OnSome-bind _ _
          (acts (stepped.build make).0 (Calls.own_pinned h (Calls.removed_parked h s).1))
          (acts-Of R kept.by_runs (stepped.build make).0 _
            (kept.by_runs.owns h s.own.id make _ _ e r))
          (λ s' q. resume_built-Of h (stepped.build make).1 s' q)

    pub resume-Of :
        (h : ℕ) (s : State M P) → Of R s → OnSome (λ (_, s'). Of R s') (Calls.resume stepped h s)
    unfolding Calls.resume
    resume-Of h s r = resume_parked-Of h (Entries.get h s.shared.table.parked) s refl r

    pub free-Of : (h : ℕ) (s : State M P) → Of R s → Of R (Calls.free stepped h s).1
    unfolding Calls.free Calls.free_unrecorded
    free-Of h s r = note-Of h _ _ (
        free_found-Of R kept.by_runs stepped h (Entries.get h s.shared.table.machines)
          (Entries.get h s.shared.table.parked) _
          (kept.by_runs.drops_parked h _ _ (kept.by_runs.drops_machine h _ _ r)))
