-- ===== src/Table/Wakes.antt =====
-- sans-effort-host/src/table.rs, `reporting_wakes`: where the wakes of a call go.
use sans_effort.Shared.{
  ℕ, ◌+◌, ◌≡◌, ◌⊎◌, refl, sym, ap, ◌∙◌, subst, List, [], ◌++◌, append-nil, Option, none, some, ok,
  err, ◌==◌, if◌then◌else◌, get_elem?, set, inl, inr, Option-cases, Bool-cases, OnSome, OnSome-map,
}
use sans_effort.Codec.Writer.{OnSome-bind, ◌>>=◌}
use sans_effort.Host.{Error, wrong_thread}
use sans_effort.Table.Entries
use sans_effort.Table.Process.{
  Lock, Cell, State, Act, Ending, Stepped, with_cells, begin_call, end_call, end_calls, report,
  woke_frames,
}
use sans_effort.Table.Calls.{
  Found, address, migrating, here, Called, find, find_local, find_pinned, find_parked, find_machine,
  clone, guarded_locked, guarded_found, guarded, try_lock, reporting_wakes,
}
use sans_effort.Table.Refusals.{
  refusal, lock_refusal, cell_refusal, local_refusal, pinned_refusal, parked_refusal,
  machine_refusal, IsHeld, HaveHolders, clone-get, guarded-refused,
}
use sans_effort.Table.Entry.{Leads, Leads-same}
use sans_effort.Table.Ran.{result_of, woken_by, Ran, locked-Ran}

abbrev pub with_frames : List ℕ → Called → Called
with_frames woken (ok (bytes, status)) = ok (bytes ++ woke_frames woken, status)
with_frames woken (err error) = err error

-- What a call leaves for `wakes`.
abbrev pub left_over : List ℕ → Called → List ℕ
left_over woken (ok _) = []
left_over woken (err _) = woken

some-none : {A : Type 0} {a : A} → some a ≡ none → ⊥
some-none e = cc

module _ {M P : Type 0} (stepped : Stepped M P) (run : M → List (Act M P) × Ending M) where
  -- The lock that the handle leads to is free, and has the machine and so many holders.
  abbrev pub Free : ℕ → State M P → M → ℕ → Type 0
  Free h s m holders =
      (f : Found) × (cell : Cell M) × Leads h f s
      × (get_elem? s.shared.cells (address f) ≡ some cell)
      × (cell.lock ≡ Lock.unlocked)
      × (cell.machine ≡ some m)
      × (cell.count ≡ holders)

  -- The call is refused and wakes nothing, or the machine of the handle runs and the wakes are told.
  abbrev pub Reports : ℕ → State M P → Called × State M P → Type 0
  Reports h s (r, s') =
      ((e : Error) × (refusal h s ≡ some e)
        × (r ≡ err e)
        × (s'.own.calls ≡ s.own.calls)
        × (s'.shared.wakes ≡ s.shared.wakes))
      ⊎ ((m : M) × (holders : ℕ) × Free h s m holders
          × (r ≡ with_frames (woken_by stepped run m holders) (result_of (run m).1))
          × (s'.own.calls ≡ s.own.calls)
          × (s'.shared.wakes
              ≡ s.shared.wakes ++ left_over (woken_by stepped run m holders) (result_of (run m).1)))

  module _ (h : ℕ) (s : State M P) (holders : HaveHolders h s) where
    abbrev begun : State M P
    begun = begin_call h s

    -- The machine of the handle has run, and the call has noted what it woke.
    abbrev RanFree : Called × State M P → Type 0
    RanFree t =
        (m : M) × (n : ℕ) × Free h s m n × Ran stepped run h s.own.calls s.shared.wakes m n t

    try_lock-none :
        (a : ℕ) (t : State M P) → get_elem? t.shared.cells a ≡ none → try_lock a (clone a t) ≡ none
    unfolding try_lock clone
    try_lock-none a t e = rw (e, clone, e) refl

    unlocked_of : (lock : Lock) → lock_refusal lock ≡ none → lock ≡ Lock.unlocked
    unlocked_of Lock.unlocked q = refl
    unlocked_of Lock.held q = cc
    unlocked_of Lock.poisoned q = cc

    -- The lock is not refused: it is free, and has a machine.
    found-RanFree :
        (f : Found)
        → Leads h f s
        → IsHeld s.shared.cells (address f)
        → cell_refusal (get_elem? s.shared.cells (address f)) ≡ none
        → OnSome RanFree (guarded_found stepped run h (ok f, clone (address f) begun))
    unfolding begin_call try_lock clone
    found-RanFree f lead is_held free = elim (Option-cases (get_elem? s.shared.cells (address f))) [
      | inl e ↦
          subst (λ o. OnSome RanFree (o >>= guarded_locked stepped run h f))
            (sym (try_lock-none (address f) begun e)) tt
      | inr (cell, e) ↦
          let unlocked = unlocked_of cell.lock (sym (ap cell_refusal e) ∙ free) in
          elim (Option-cases cell.machine) [
            | inl gone ↦
                subst (λ o. OnSome RanFree (o >>= guarded_locked stepped run h f))
                  (sym (try_lock-free f cell unlocked e)) (rw gone tt)
            | inr (m, q) ↦
                OnSome-map (guarded_found stepped run h (ok f, clone (address f) begun))
                  (locked-Ran stepped run h s.own.calls s.shared.wakes f cell m begun
                    (Leads-same h f s begun refl refl lead, e) unlocked q (is_held cell e)
                    (refl, refl))
                  (λ t ran. (m, cell.count, (f, cell, lead, e, unlocked, q, refl), ran))
          ]
    ]
      where
        try_lock-free :
            (f : Found) (cell : Cell M)
            → cell.lock ≡ Lock.unlocked
            → get_elem? s.shared.cells (address f) ≡ some cell
            → try_lock (address f) (clone (address f) begun)
              ≡ some (
                ok cell.machine,
                with_cells
                    (set
                      (clone (address f) begun).shared.cells
                      (address f)
                      (record cell { lock = Lock.held; count = cell.count + 1 }))
                    (clone (address f) begun),
              )
        try_lock-free f cell unlocked e =
            rw (clone-get (address f) cell begun e, try_lock, unlocked) refl

    local-RanFree :
        (a : Option ℕ)
        → Entries.get h s.own.local ≡ a
        → local_refusal a s.shared ≡ none
        → OnSome RanFree (guarded_found stepped run h (find_local a begun))
    unfolding begin_call
    local-RanFree none e free = cc
    local-RanFree (some a) e free = found-RanFree (here a) e (holders.1 a e) free

    pinned-RanFree :
        (owner : Option ℕ)
        → pinned_refusal h owner s.shared s.own.id s.own.local ≡ none
        → OnSome RanFree (guarded_found stepped run h (find_pinned h owner begun))
    unfolding begin_call
    pinned-RanFree none free = cc
    pinned-RanFree (some owner) free = elim (Bool-cases (owner == s.own.id)) [
      | inl mine ↦ rw mine (
          local-RanFree (Entries.get h s.own.local) refl (
            sym (
              ap
                (λ b.
                  if b
                  then local_refusal (Entries.get h s.own.local) s.shared
                  else some wrong_thread)
                mine)
            ∙ free))
      | inr other ↦ absurd (
          some-none (
            sym (
              ap
                (λ b.
                  if b
                  then local_refusal (Entries.get h s.own.local) s.shared
                  else some wrong_thread)
                other)
            ∙ free))
    ]

    parked-RanFree :
        (make : Option P)
        → parked_refusal h make s.shared s.own.id s.own.local ≡ none
        → OnSome RanFree (guarded_found stepped run h (find_parked h make begun))
    unfolding begin_call
    parked-RanFree (some make) free = cc
    parked-RanFree none free = pinned-RanFree (Entries.get h s.shared.table.pinned) free

    machine-RanFree :
        (a : Option ℕ)
        → Entries.get h s.shared.table.machines ≡ a
        → machine_refusal h a s.shared s.own.id s.own.local ≡ none
        → OnSome RanFree (guarded_found stepped run h (find_machine h a begun))
    unfolding begin_call
    machine-RanFree (some a) e free = found-RanFree (migrating a) e (holders.0 a e) free
    machine-RanFree none e free = parked-RanFree (Entries.get h s.shared.table.parked) free

    guarded-RanFree : refusal h s ≡ none → OnSome RanFree (guarded stepped run h begun)
    unfolding guarded find refusal begin_call
    guarded-RanFree free = machine-RanFree (Entries.get h s.shared.table.machines) refl free

    end_call-Reports :
        (r0 : Called) (s' : State M P) → RanFree (r0, s') → Reports h s (end_call r0 s')
    unfolding end_call end_calls report
    end_call-Reports (ok (bytes, status)) s' (m, n, free, (r, (calls, wakes))) =
        rw (calls, end_calls, report)
          (inr (
            m,
            n,
            free,
            ap (with_frames (woken_by stepped run m n)) r,
            refl,
            wakes
                ∙ sym (append-nil s.shared.wakes)
                ∙ ap (λ c. s.shared.wakes ++ left_over (woken_by stepped run m n) c) r,
          ))
    end_call-Reports (err e) s' (m, n, free, (r, (calls, wakes))) =
        rw (calls, end_calls, report)
          (inr (
            m,
            n,
            free,
            ap (with_frames (woken_by stepped run m n)) r,
            refl,
            ap (λ q. q ++ woken_by stepped run m n) wakes
                ∙ ap (λ c. s.shared.wakes ++ left_over (woken_by stepped run m n) c) r,
          ))

    -- Where the entries of a handle hold the locks that they lead to: a call of it is refused for a
    -- reason that holds, and wakes nothing, or the machine that the handle leads to runs. Then each
    -- machine that is woken is told of once, those of the run before those of the destructor, which
    -- runs exactly if the run panics and no other holder is left. If the call succeeds, they are the
    -- woke frames behind the machine's own output, and none is left for `wakes`. If it fails, they are
    -- queued for `wakes` behind those that are queued already. The calls that it runs inside note none.
    pub reporting_wakes-Reports : OnSome (Reports h s) (reporting_wakes stepped run h s)
    unfolding reporting_wakes begin_call end_call end_calls report refusal
    reporting_wakes-Reports = elim (Option-cases (refusal h s)) [
      | inl free ↦
          OnSome-bind _ _ (guarded stepped run h begun) (guarded-RanFree free)
            (λ (r0, s') ran. end_call-Reports r0 s' ran)
      | inr (e, refused) ↦
          subst (λ o. OnSome (Reports h s) (o >>= λ (r, t). some (end_call r t)))
            (sym (guarded-refused stepped run h begun e holders refused))
            (inl (e, refused, refl, refl, append-nil s.shared.wakes))
    ]
