-- ===== src/Table/Noted.antt =====
-- sans-effort-host/src/table.rs: which machines a call notes as woken while a machine runs.
use sans_effort.Shared.{
  ℕ, ◌≡◌, refl, subst, List, [], ◌∷◌, ◌++◌, append-nil, append_assoc, inl, inr, Option-cases,
  OnSome,
}
use sans_effort.Codec.Writer.{OnSome-bind}
use sans_effort.Table
use sans_effort.Table.Process.{
  Call, State, Act, woke_in, woke, woke_all, insert, new_pinned, issue_here, allocate, after_issue,
  act, acts,
}

-- The machines that a routine wakes, in order.
unfoldable pub wakes_in : {M P : Type 0} → List (Act M P) → List ℕ
wakes_in [] = []
wakes_in (Act.wake h ∷ done) = h ∷ wakes_in done
wakes_in (_ ∷ done) = wakes_in done

module _ {M P : Type 0} where
  -- The call in progress has noted `woken`, the calls around it and the process none of them.
  abbrev pub Noted : ℕ → List Call → List ℕ → List ℕ → State M P → Type 0
  Noted handle outer queued woken s =
      (s.own.calls ≡ record { handle = handle; woken = woken } ∷ outer) × (s.shared.wakes ≡ queued)

  module _ (handle : ℕ) (outer : List Call) (queued : List ℕ) where
    woke-Noted :
        (h : ℕ) (woken : List ℕ) (s : State M P)
        → Noted handle outer queued woken s
        → Noted handle outer queued (woken ++ h ∷ []) (woke h s)
    unfolding woke
    woke-Noted h woken s (c, q) = rw c (unfold woke_in in (refl, q))

    pub woke_all-Noted :
        (hs woken : List ℕ) (s : State M P)
        → Noted handle outer queued woken s
        → Noted handle outer queued (woken ++ hs) (woke_all hs s)
    unfolding woke_all
    woke_all-Noted [] woken s n = rw (append-nil woken) n
    woke_all-Noted (h ∷ hs) woken s n =
        subst (λ ws. Noted handle outer queued ws (woke_all hs (woke h s)))
          (append_assoc woken (h ∷ []) hs)
          (woke_all-Noted hs (woken ++ h ∷ []) (woke h s) (woke-Noted h woken s n))

    insert-Noted :
        (machine : M) (woken : List ℕ) (s : State M P)
        → Noted handle outer queued woken s
        → OnSome (Noted handle outer queued woken) (after_issue (insert machine s))
    unfolding insert issue_here allocate
    insert-Noted machine woken s n =
        elim (Option-cases (Table.issue s.own.reissue s.shared.table)) [
          | inl e ↦ rw (e, insert, issue_here) tt
          | inr ((h, t), e) ↦ rw (e, insert, issue_here, allocate) n
        ]

    new_pinned-Noted :
        (make : P) (woken : List ℕ) (s : State M P)
        → Noted handle outer queued woken s
        → OnSome (Noted handle outer queued woken) (after_issue (new_pinned make s))
    unfolding new_pinned issue_here
    new_pinned-Noted make woken s n =
        elim (Option-cases (Table.issue s.own.reissue s.shared.table)) [
          | inl e ↦ rw (e, new_pinned, issue_here) tt
          | inr ((h, t), e) ↦ rw (e, new_pinned, issue_here) n
        ]

    pub acts-Noted :
        (done : List (Act M P)) (woken : List ℕ) (s : State M P)
        → Noted handle outer queued woken s
        → OnSome (Noted handle outer queued (woken ++ wakes_in done)) (acts done s)
    unfolding acts act wakes_in
    acts-Noted [] woken s n = rw (append-nil woken) n
    acts-Noted (Act.wake h ∷ done) woken s n =
        subst (λ ws. OnSome (Noted handle outer queued ws) (acts done (woke h s)))
          (append_assoc woken (h ∷ []) (wakes_in done))
          (acts-Noted done (woken ++ h ∷ []) (woke h s) (woke-Noted h woken s n))
    acts-Noted (Act.spawn machine ∷ done) woken s n =
        OnSome-bind _ _ (after_issue (insert machine s)) (insert-Noted machine woken s n)
          (λ s' n'. acts-Noted done woken s' n')
    acts-Noted (Act.park make ∷ done) woken s n =
        OnSome-bind _ _ (after_issue (new_pinned make s)) (new_pinned-Noted make woken s n)
          (λ s' n'. acts-Noted done woken s' n')
