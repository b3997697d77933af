-- ===== src/Host/Removal.antt =====
-- sans-effort-host/src/machine.rs, the field `pending`: entries taken out of it and put into it.
use sans_effort.Shared.{
  ℕ, zero, suc, ◌≡◌, sym, ◌≢◌, subst, [], ◌∷◌, ◌++◌, some, ◌==◌, set, last?, All, inl, inr,
  Bool-cases,
}
use sans_effort.Reply.{Pending}
use sans_effort.Host.Machine.{forget, pop, over_last, swap_remove}
use sans_effort.Host.Pending.{Table, Others, IsDistinct, swap_remove-suc, last?-some}

module _ (P : ℕ × Pending → Type 0) where
  pub All-last? : (xs : Table) (l : ℕ × Pending) → last? xs ≡ some l → All P xs → P l
  All-last? [] l e a = cc
  All-last? (x ∷ []) l e a = let same : x ≡ l = cc in subst P same a.0
  All-last? (x ∷ y ∷ xs) l e (a, rest) = All-last? (y ∷ xs) l e rest

  pub All-pop : (xs : Table) → All P xs → All P (pop xs)
  unfolding pop
  All-pop [] a = tt
  All-pop (x ∷ []) a = tt
  All-pop (x ∷ y ∷ xs) (a, rest) = (a, All-pop (y ∷ xs) rest)

  pub All-set : (xs : Table) (at : ℕ) (l : ℕ × Pending) → P l → All P xs → All P (set xs at l)
  All-set [] at l p a = tt
  All-set (x ∷ xs) zero l p (a, rest) = (p, rest)
  All-set (x ∷ xs) (suc at) l p (a, rest) = (a, All-set xs at l p rest)

  pub All-swap_remove : (at : ℕ) (xs : Table) → All P xs → All P (swap_remove at xs)
  unfolding swap_remove
  All-swap_remove at [] a = tt
  All-swap_remove at (x ∷ xs) a =
      let (l, e) = last?-some x xs in
      subst (λ r. All P (over_last (x ∷ xs) at r)) (sym e)
        (All-pop (set (x ∷ xs) at l) (All-set (x ∷ xs) at l (All-last? (x ∷ xs) l e a) a))

  pub All-append : (xs : Table) (l : ℕ × Pending) → All P xs → P l → All P (xs ++ l ∷ [])
  All-append [] l a p = (p, tt)
  All-append (x ∷ xs) l (a, rest) p = (a, All-append xs l rest p)

  pub All-forget : (id : ℕ) (xs : Table) → All P xs → All P (forget id xs)
  unfolding forget
  All-forget id [] a = tt
  All-forget id ((i, p) ∷ xs) (a, rest) = elim (Bool-cases (i == id)) [
    | inl same ↦ rw same (All-forget id xs rest)
    | inr other ↦ rw other (a, All-forget id xs rest)
  ]

-- The last is not among the others.
pub Others-pop :
    (x : ℕ × Pending) (xs : Table) (l : ℕ × Pending)
    → last? (x ∷ xs) ≡ some l
    → IsDistinct (x ∷ xs)
    → Others l.0 (pop (x ∷ xs)) × IsDistinct (pop (x ∷ xs))
unfolding pop
Others-pop x [] l e d = (tt, tt)
Others-pop x (y ∷ ys) l e (o, d) =
    let (os, ds) = Others-pop y ys l e d in
    (
      ((λ q. All-last? (λ (k, _). k ≢ x.0) (y ∷ ys) l e o (sym q)), os),
      (All-pop (λ (k, _). k ≢ x.0) (y ∷ ys) o, ds),
    )

pub swap_remove-IsDistinct : (at : ℕ) (xs : Table) → IsDistinct xs → IsDistinct (swap_remove at xs)
unfolding swap_remove pop
swap_remove-IsDistinct at [] d = tt
swap_remove-IsDistinct zero (x ∷ []) d = tt
swap_remove-IsDistinct (suc at) (x ∷ []) d = tt
swap_remove-IsDistinct zero (x ∷ y ∷ ys) (o, d) =
    let (l, e) = last?-some y ys in
    subst (λ r. IsDistinct (over_last (x ∷ y ∷ ys) 0 r)) (sym e) (Others-pop y ys l e d)
swap_remove-IsDistinct (suc at) (x ∷ y ∷ ys) (o, d) =
    subst IsDistinct (sym (swap_remove-suc at x y ys))
      (All-swap_remove (λ (k, _). k ≢ x.0) at (y ∷ ys) o, swap_remove-IsDistinct at (y ∷ ys) d)

pub append-IsDistinct :
    (xs : Table) (l : ℕ × Pending) → IsDistinct xs → Others l.0 xs → IsDistinct (xs ++ l ∷ [])
append-IsDistinct [] l d o = (tt, tt)
append-IsDistinct (x ∷ xs) l (a, d) (o, os) =
    (All-append (λ (k, _). k ≢ x.0) xs l a (λ q. o (sym q)), append-IsDistinct xs l d os)

pub forget-IsDistinct : (id : ℕ) (xs : Table) → IsDistinct xs → IsDistinct (forget id xs)
unfolding forget
forget-IsDistinct id [] d = tt
forget-IsDistinct id ((i, p) ∷ xs) (o, d) = elim (Bool-cases (i == id)) [
  | inl same ↦ rw same (forget-IsDistinct id xs d)
  | inr other ↦ rw other (All-forget (λ (k, _). k ≢ i) id xs o, forget-IsDistinct id xs d)
]
