-- ===== src/Table/Apart.antt =====
-- sans-effort-host/src/table.rs, `machines`, `parked` and `pinned`: the maps that a handle stands in.
use sans_effort.Shared.{
  ℕ, zero, suc, ◌+◌, ◌≤◌, ◌≡◌, refl, List, [], ◌∷◌, Option, none, some, Bool, true, false, not,
  ◌&&◌, ◌||◌, ◌==◌, inl, inr, Bool-cases, Option-cases, OnSome, OnSome-map, ap, subst, ==→eq, arith,
}
use sans_effort.Host.Handles.{Handles, in_use, issue_loop, after, go_past}
use sans_effort.Host.Handles
use sans_effort.Table.{Table, handles, issued, issue_fuel, issue, adopt, note}
use sans_effort.Table.Entries.{get, insert, remove, is_some, get-insert, get-remove, contains-keys}
use sans_effort.Table.Kept.{Kept}

abbrev pub one : Bool → ℕ
one true = 1
one false = 0

-- What an issued handle is: free before.
issue_loop-free :
    (fuel : ℕ) (t : Handles) → OnSome (λ (h, t'). in_use h t ≡ false) (issue_loop fuel t)
unfolding issue_loop in_use
issue_loop-free zero t = tt
issue_loop-free (suc fuel) t = elim (Bool-cases (in_use t.next t)) [
  | inl used ↦ rw used (issue_loop-free fuel (record t { next = after t.next }))
  | inr free ↦ rw free free
]

issue-free :
    (fuel : ℕ) (queue : List ℕ) (t : Handles)
    → OnSome (λ (h, t'). in_use h t ≡ false) (Handles.issue fuel queue t)
unfolding Handles.issue
issue-free fuel [] t = issue_loop-free fuel t
issue-free fuel (h ∷ queue) t = elim (Bool-cases (not (h == 0) && not (in_use h t))) [
  | inl again ↦ rw again (was_free (not (h == 0)) (in_use h t) again)
  | inr fresh ↦ rw fresh (issue_loop-free fuel t)
]
  where
    was_free : (b c : Bool) → (b && not c) ≡ true → c ≡ false
    was_free true true e = cc
    was_free true false e = refl
    was_free false c e = cc

one_removed :
    {V : Type 0} (j h : ℕ) (m : List (ℕ × V))
    → one (is_some (get j (remove h m))) ≤ one (is_some (get j m))
one_removed j h m = rw (get-remove j h m) (ground arith)

module _ {P : Type 0} where
  -- In how many of the three maps the handle stands.
  unfoldable pub maps_with : ℕ → Table P → ℕ
  maps_with j t =
      one (is_some (get j t.machines))
      + (one (is_some (get j t.parked)) + one (is_some (get j t.pinned)))

  abbrev pub Apart : Table P → ℕ → Type 0
  Apart t n = (j : ℕ) → maps_with j t ≤ 1

  none_free : (h : ℕ) (t : Table P) → in_use h (handles t) ≡ false → maps_with h t ≡ 0
  unfolding in_use maps_with
  none_free h t =
      rw (contains-keys h t.machines, contains-keys h t.parked, contains-keys h t.pinned)
        (zero_of (is_some (get h t.machines)) (is_some (get h t.parked)) (is_some (get h t.pinned)))
    where
      zero_of : (a b c : Bool) → (a || (b || c)) ≡ false → one a + (one b + one c) ≡ 0
      zero_of false false false e = refl
      zero_of true b c e = cc
      zero_of false true c e = cc
      zero_of false false true e = cc

  -- An issued handle stood in none of them.
  abbrev pub Unused : Table P → ℕ × Table P → Type 0
  Unused t (h, t') =
      (maps_with h t ≡ 0)
      × (t'.machines ≡ t.machines)
      × (t'.parked ≡ t.parked)
      × (t'.pinned ≡ t.pinned)

  pub issue-Unused : (queue : List ℕ) (t : Table P) → OnSome (Unused t) (issue queue t)
  unfolding issue
  issue-Unused queue t =
      issued-Unused (Handles.issue (issue_fuel t) queue (handles t))
        (issue-free (issue_fuel t) queue (handles t))
    where
      issued-Unused :
          (o : Option (ℕ × Handles))
          → OnSome (λ (h, hs). in_use h (handles t) ≡ false) o
          → OnSome (Unused t) (issued t o)
      issued-Unused none free = tt
      issued-Unused (some (h, hs)) free = (none_free h t free, refl, refl, refl)

  adopt-maps_with :
      (j : ℕ) (parent : Option ℕ) (h : ℕ) (t : Table P)
      → maps_with j (adopt parent h t) ≡ maps_with j t
  unfolding adopt maps_with
  adopt-maps_with j none h t = refl
  adopt-maps_with j (some parent) h t = elim (Option-cases (get parent t.recorded)) [
    | inl e ↦ rw (e, adopt) refl
    | inr (taps, e) ↦ rw (e, adopt) refl
  ]

  at_same : (h j : ℕ) (t : Table P) → maps_with h t ≡ 0 → (h == j) ≡ true → maps_with j t ≡ 0
  at_same h j t free same = subst (λ i. maps_with i t ≡ 0) (==→eq h j same) free

  with_machine :
      (h a : ℕ) (t : Table P) (n : ℕ)
      → Apart t n
      → maps_with h t ≡ 0
      → Apart (record t { machines = insert h a t.machines }) n
  unfolding maps_with
  with_machine h a t n r free j = elim (Bool-cases (h == j)) [
    | inl same ↦ rw (get-insert j h a t.machines, same) (omega (arith, at_same h j t free same))
    | inr other ↦ rw (get-insert j h a t.machines, other) (r j)
  ]

  with_parked :
      (h : ℕ) (make : P) (t : Table P) (n : ℕ)
      → Apart t n
      → maps_with h t ≡ 0
      → Apart (record t { parked = insert h make t.parked }) n
  unfolding maps_with
  with_parked h make t n r free j = elim (Bool-cases (h == j)) [
    | inl same ↦ rw (get-insert j h make t.parked, same) (omega (arith, at_same h j t free same))
    | inr other ↦ rw (get-insert j h make t.parked, other) (r j)
  ]

  owns-Apart :
      (h id : ℕ) (make : P) (t : Table P) (n : ℕ)
      → get h t.parked ≡ some make
      → Apart t n
      → Apart (record t { parked = remove h t.parked; pinned = insert h id t.pinned }) n
  unfolding maps_with
  owns-Apart h id make t n e r j = elim (Bool-cases (h == j)) [
    | inl same ↦
        rw (get-insert j h id t.pinned, get-remove j h t.parked, same)
          (omega (
            arith,
            r j,
            ap (λ o. one (is_some o)) (subst (λ i. get i t.parked ≡ some make) (==→eq h j same) e),
          ))
    | inr other ↦ rw (get-insert j h id t.pinned, get-remove j h t.parked, other) (r j)
  ]

  pub Apart-Kept : Kept Apart
  unfolding maps_with note
  Apart-Kept = record {
    by_runs = record {
      adds_machine = λ queue parent a t n r.
          OnSome-map (issue queue t) (issue-Unused queue t) (λ (h, t') (free, ms, ps, os) j.
            rw
              (
                adopt-maps_with j parent h (record t' { machines = insert h a t'.machines }),
                ms,
                ps,
                os,
              )
              (with_machine h a t n r free j));
      adds_parked = λ queue parent make t n r.
          OnSome-map (issue queue t) (issue-Unused queue t) (λ (h, t') (free, ms, ps, os) j.
            rw
              (
                adopt-maps_with j parent h (record t' { parked = insert h make t'.parked }),
                ms,
                ps,
                os,
              )
              (with_parked h make t n r free j));
      drops_machine = λ h t n r j. omega (arith, r j, one_removed j h t.machines);
      drops_parked = λ h t n r j. omega (arith, r j, one_removed j h t.parked);
      drops_pinned = λ h t n r j. omega (arith, r j, one_removed j h t.pinned);
      owns = owns-Apart;
    };
    notes = λ h event t n r. r;
  }
