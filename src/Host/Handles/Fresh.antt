-- ===== src/Host/Handles/Fresh.antt =====
-- sans-effort-host/src/table.rs, `Table::issue`: the loop, and the handle that it finds.
use sans_effort.Shared.{
  ℕ, zero, suc, ◌+◌, ◌≤◌, ◌<◌, ◌≡◌, refl, List, [], ◌∷◌, Option, none, some, true, false, leb, ◌==◌,
  if◌then◌else◌, length, u64_mod, lt→ltb, inl, inr, Bool-cases, All, arith,
}
use sans_effort.Host.Machine.{contains}
use sans_effort.Host.Handles.{Handles, in_use, after, issue_loop, go_past, issue}

-- How many keys are at `n` or above.
count_from : ℕ → List ℕ → ℕ
count_from n [] = 0
count_from n (k ∷ ks) = let rest = count_from n ks in if leb n k then suc rest else rest

count_from-suc : (n : ℕ) (ks : List ℕ) → count_from (n + 1) ks ≤ count_from n ks
unfolding count_from
count_from-suc n [] = omega arith
count_from-suc n (k ∷ ks) = ground (arith, count_from-suc n ks)

count_from-contains :
    (n : ℕ) (ks : List ℕ) → contains n ks ≡ true → count_from (n + 1) ks < count_from n ks
unfolding count_from contains
count_from-contains n [] c = cc
count_from-contains n (k ∷ ks) c = ground (arith, count_from-contains n ks, count_from-suc n ks)

length-count_from : (n : ℕ) (ks : List ℕ) → count_from n ks ≤ length ks
unfolding count_from
length-count_from n [] = omega arith
length-count_from n (k ∷ ks) = ground (arith, length-count_from n ks)

total : ℕ → Handles → ℕ
total n t = count_from n t.machines + (count_from n t.parked + count_from n t.pinned)

total-in_use : (t : Handles) (n : ℕ) → in_use n t ≡ true → total (n + 1) t < total n t
unfolding total in_use
total-in_use t n u = ground (
  arith,
  count_from-contains n t.machines,
  count_from-contains n t.parked,
  count_from-contains n t.pinned,
  count_from-suc n t.machines,
  count_from-suc n t.parked,
  count_from-suc n t.pinned,
)

-- The number of handles in use.
abbrev pub used : Handles → ℕ
used t = length t.machines + (length t.parked + length t.pinned)

total-used : (t : Handles) (n : ℕ) → total n t ≤ used t
unfolding total
total-used t n = omega (
  arith,
  length-count_from n t.machines,
  length-count_from n t.parked,
  length-count_from n t.pinned,
)

-- The handle is issued, is not 0, and was not in use; it is below the next, and no other handle
-- changed.
abbrev pub Issued : Handles → Option (ℕ × Handles) → Type 0
Issued t none = ⊥
Issued t (some (handle, t')) =
    (1 ≤ handle)
    × (in_use handle t ≡ false)
    × (handle < t'.next)
    × (t'.machines ≡ t.machines)
    × (t'.parked ≡ t.parked)
    × (t'.pinned ≡ t.pinned)

after-suc : (n : ℕ) → n + 1 < u64_mod → after n ≡ n + 1
unfolding after
after-suc n h = rw (lt→ltb (n + 1) u64_mod h) refl

issue_loop-Issued :
    (fuel : ℕ) (t : Handles)
    → total t.next t < fuel
    → 1 ≤ t.next
    → t.next + fuel < u64_mod
    → Issued t (issue_loop fuel t)
unfolding issue_loop in_use total
issue_loop-Issued zero t c l h = absurd (omega arith)
issue_loop-Issued (suc fuel) t c l h =
    rw (after-suc t.next (omega arith)) (elim (Bool-cases (in_use t.next t)) [
      | inl used ↦ rw used (
          issue_loop-Issued fuel (record t { next = t.next + 1 })
            (omega (arith, total-in_use t t.next used)) (omega arith) (omega arith))
      | inr free ↦ rw free (l, free, omega arith, refl, refl, refl)
    ])

go_past-lt : (handle : ℕ) (t : Handles) → handle + 1 < u64_mod → handle < (go_past handle t).next
unfolding go_past
go_past-lt handle t h = rw (lt→ltb (handle + 1) u64_mod h) (ground arith)

go_past-Issued :
    (handle : ℕ) (t : Handles)
    → 1 ≤ handle
    → in_use handle t ≡ false
    → handle + 1 < u64_mod
    → Issued t (some (handle, go_past handle t))
go_past-Issued handle t l free h = (
  l,
  free,
  go_past-lt handle t h,
  unfold go_past in (rw (lt→ltb (handle + 1) u64_mod h) refl),
  unfold go_past in (rw (lt→ltb (handle + 1) u64_mod h) refl),
  unfold go_past in (rw (lt→ltb (handle + 1) u64_mod h) refl),
)

-- While handles last: with one unit of fuel more than there are handles in use, `issue` returns a
-- handle, from the queue or from the loop. It is not 0, it was not in use, the next is above it, and
-- no other handle changed.
pub issue-Issued :
    (fuel : ℕ) (queue : List ℕ) (t : Handles)
    → used t < fuel
    → 1 ≤ t.next
    → t.next + fuel < u64_mod
    → All (λ handle. handle + 1 < u64_mod) queue
    → Issued t (issue fuel queue t)
unfolding issue
issue-Issued fuel [] t u l h q = issue_loop-Issued fuel t (omega (arith, total-used t t.next)) l h
issue-Issued fuel (handle ∷ queue) t u l h (q, qs) =
    let looped = issue_loop-Issued fuel t (omega (arith, total-used t t.next)) l h in
    elim (Bool-cases (handle == 0)) [
      | inl none_issued ↦ rw none_issued looped
      | inr positive ↦ elim (Bool-cases (in_use handle t)) [
        | inl taken ↦ rw (positive, taken) looped
        | inr free ↦ rw (positive, free) (go_past-Issued handle t (ground arith) free q)
      ]
    ]
