-- ===== src/Table/Entry.antt =====
-- sans-effort-host/src/table.rs: that a run leaves the entry of its machine, and its lock, as they
-- were.
use sans_effort.Shared.{
  ℕ, zero, suc, ◌+◌, ◌≡◌, refl, sym, ap, ◌∙◌, subst, List, [], ◌∷◌, ◌++◌, Option, none, some, true,
  ◌==◌, get_elem?, inl, inr, Option-cases, Bool-cases, OnSome, ==→eq, arith,
}
use sans_effort.Codec.Writer.{OnSome-bind}
use sans_effort.Table.{Table, adopt, issue}
use sans_effort.Table.Entries.{get, get-insert, insert, is_some}
use sans_effort.Table.Process.{
  Cell, Call, State, Act, woke, woke_in, new_pinned, issue_here, allocate, after_issue, act, acts,
}
use sans_effort.Table.Process
use sans_effort.Table.Calls.{Found, migrating, here, address}
use sans_effort.Table.Apart.{one, maps_with, Unused, issue-Unused}

one_more : (o : Option ℕ) (a n : ℕ) → o ≡ some a → one (is_some o) + n ≡ 0 → ⊥
one_more none a n e q = cc
one_more (some b) a n e q = absurd (omega (arith, q))

module _ {P : Type 0} where
  pub adopt-machines :
      (parent : Option ℕ) (h : ℕ) (t : Table P) → (adopt parent h t).machines ≡ t.machines
  unfolding adopt
  adopt-machines none h t = refl
  adopt-machines (some parent) h t = elim (Option-cases (get parent t.recorded)) [
    | inl e ↦ rw (e, adopt) refl
    | inr (taps, e) ↦ rw (e, adopt) refl
  ]

  pub adopt-parked :
      (parent : Option ℕ) (h : ℕ) (t : Table P) → (adopt parent h t).parked ≡ t.parked
  unfolding adopt
  adopt-parked none h t = refl
  adopt-parked (some parent) h t = elim (Option-cases (get parent t.recorded)) [
    | inl e ↦ rw (e, adopt) refl
    | inr (taps, e) ↦ rw (e, adopt) refl
  ]

  -- A machine's handle is not issued again.
  other_handle :
      (h a new : ℕ) (t : Table P)
      → get h t.machines ≡ some a
      → maps_with new t ≡ 0
      → (new == h) ≡ true
      → ⊥
  unfolding maps_with
  other_handle h a new t e unused same =
      no (sym (ap (λ i. maps_with i t) (==→eq new h same)) ∙ unused)
    where
      no : maps_with h t ≡ 0 → ⊥
      no q = one_more (get h t.machines) a _ e q

get_elem?-behind :
    {A : Type 0} (xs more : List A) (i : ℕ) (a : A)
    → get_elem? xs i ≡ some a
    → get_elem? (xs ++ more) i ≡ some a
get_elem?-behind [] more i a e = cc
get_elem?-behind (x ∷ xs) more zero a e = e
get_elem?-behind (x ∷ xs) more (suc i) a e = get_elem?-behind xs more i a e

module _ {M P : Type 0} (h : ℕ) where
  -- The entry of the handle leads to the lock.
  abbrev pub Leads : Found → State M P → Type 0
  Leads (migrating a) s = get h s.shared.table.machines ≡ some a
  Leads (here a) s = get h s.own.local ≡ some a

  pub Leads-same :
      (f : Found) (s s' : State M P)
      → s'.shared.table.machines ≡ s.shared.table.machines
      → s'.own.local ≡ s.own.local
      → Leads f s
      → Leads f s'
  Leads-same (migrating a) s s' ms ls l = ap (get h) ms ∙ l
  Leads-same (here a) s s' ms ls l = ap (get h) ls ∙ l

  Leads-insert :
      (f : Found) (s s' : State M P) (new a : ℕ) (t : Table P)
      → Unused s.shared.table (new, t)
      → s'.shared.table.machines ≡ insert new a t.machines
      → s'.own.local ≡ s.own.local
      → Leads f s
      → Leads f s'
  Leads-insert (migrating b) s s' new a t (unused, same, _, _) ms ls l =
      ap (get h) ms ∙ get-insert h new a t.machines ∙ elim (Bool-cases (new == h)) [
        | inl again ↦ absurd (other_handle h b new s.shared.table l unused again)
        | inr other ↦ rw other (ap (get h) same ∙ l)
      ]
  Leads-insert (here b) s s' new a t unused ms ls l = ap (get h) ls ∙ l

  module _ (f : Found) (cell : Cell M) where
    -- It does, and the lock is the cell.
    abbrev pub Stands : State M P → Type 0
    Stands s = Leads f s × (get_elem? s.shared.cells (address f) ≡ some cell)

    woke-Stands : (j : ℕ) (s : State M P) → Stands s → Stands (woke j s)
    unfolding woke woke_in
    woke-Stands j s st = of_calls s.own.calls st
      where
        of_calls : (calls : List Call) → Stands s → Stands (woke_in j calls s)
        of_calls [] (l, g) = (Leads-same f s _ refl refl l, g)
        of_calls (call ∷ outer) (l, g) = (Leads-same f s _ refl refl l, g)

    insert-Stands :
        (machine : M) (s : State M P)
        → Stands s
        → OnSome Stands (after_issue (Process.insert machine s))
    unfolding Process.insert issue_here allocate
    insert-Stands machine s (l, g) = elim (Option-cases (issue s.own.reissue s.shared.table)) [
      | inl e ↦ rw (e, Process.insert, issue_here) tt
      | inr ((new, t), e) ↦
          rw (e, Process.insert, issue_here, allocate)
            (
              Leads-insert f s _ new _ t
                  (subst (OnSome (Unused s.shared.table)) e
                    (issue-Unused s.own.reissue s.shared.table))
                  (adopt-machines _ new _) refl l,
              get_elem?-behind s.shared.cells _ (address f) cell g,
            )
    ]

    new_pinned-Stands :
        (make : P) (s : State M P) → Stands s → OnSome Stands (after_issue (new_pinned make s))
    unfolding new_pinned issue_here
    new_pinned-Stands make s (l, g) = elim (Option-cases (issue s.own.reissue s.shared.table)) [
      | inl e ↦ rw (e, new_pinned, issue_here) tt
      | inr ((new, t), e) ↦
          let (_, ms, _, _) =
            subst (OnSome (Unused s.shared.table)) e (issue-Unused s.own.reissue s.shared.table) in
          rw (e, new_pinned, issue_here) (Leads-same f s _ (adopt-machines _ new _ ∙ ms) refl l, g)
    ]

    -- A routine leaves its machine's entry and lock as they were.
    pub acts-Stands :
        (done : List (Act M P)) (s : State M P) → Stands s → OnSome Stands (acts done s)
    unfolding acts act
    acts-Stands [] s st = st
    acts-Stands (Act.wake j ∷ done) s st = acts-Stands done (woke j s) (woke-Stands j s st)
    acts-Stands (Act.spawn machine ∷ done) s st =
        OnSome-bind _ _ (after_issue (Process.insert machine s)) (insert-Stands machine s st)
          (λ s' st'. acts-Stands done s' st')
    acts-Stands (Act.park make ∷ done) s st =
        OnSome-bind _ _ (after_issue (new_pinned make s)) (new_pinned-Stands make s st)
          (λ s' st'. acts-Stands done s' st')
