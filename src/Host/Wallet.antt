-- ===== src/Host/Wallet.antt =====
-- sans-effort-host/src/machine.rs, `take` and `show`: when the table of requests is well formed.
use sans_effort.Shared.{
  either_way, map, ℕ, zero, suc, ◌≤◌, ◌<◌, max, ◌≡◌, refl, sym, ◌∙◌, subst, List, [], ◌∷◌, ◌++◌,
  Option, none, some, Result, ok, err, Bool, true, false, ◌==◌, if◌then◌else◌, get_elem?, All,
  ==→ne, ==-refl, arith,
}
use sans_effort.Reply.{Pending, pending_id}
use sans_effort.Batch.{Batch, empty, one, two, many, as_slice}
use sans_effort.Driver.{Yield}
use sans_effort.Host.{Error}
use sans_effort.Host.Machine.{
  Wallet, HostEffect, keep, shown_effect, show_list, show_batch, show, forget, forget_all,
  swap_remove, take_pending, take_at, elem_at, put_back, was_shown,
}
use sans_effort.Host.Pending.{
  Table, lookup, Others, IsDistinct, Found, absent, found, lookup_cases, without,
}
use sans_effort.Host.Removal.{
  All-swap_remove, All-append, All-forget, swap_remove-IsDistinct, append-IsDistinct,
  forget-IsDistinct,
}

abbrev IsBounded : ℕ → Table → Type 0
IsBounded highest = All (λ (i, _). i ≤ highest)

abbrev pub IsValid : Wallet → Type 0
IsValid w = IsDistinct w.pending × IsBounded w.highest_shown w.pending

not_found :
    (c : Bool) (p : Pending) (r : Option Pending)
    → (if c then some p else r) ≡ none
    → (c ≡ false) × (r ≡ none)
not_found true p r e = cc
not_found false p r e = (refl, e)

lookup-none-Others : (id : ℕ) (xs : Table) → lookup id xs ≡ none → Others id xs
unfolding lookup
lookup-none-Others id [] e = tt
lookup-none-Others id ((i, p) ∷ xs) e =
    let (other, f) = not_found (i == id) p (lookup id xs) e in
    (==→ne i id other, lookup-none-Others id xs f)

-- A request that is taken, and put back.
abbrev pub TakesValid : ℕ → Result (Pending × Wallet) Error → Type 0
TakesValid id (err _) = Unit
TakesValid id (ok (p, w)) = IsValid w × IsValid (put_back id p w)

-- The id of a request that `take` found is not left in the table.
taken_Others : (id : ℕ) (xs ys : Table) → ((j : ℕ) → lookup j ys ≡ without id xs j) → Others id ys
taken_Others id xs ys s = lookup-none-Others id ys (s id ∙ rw (==-refl id) refl)

entry_le :
    (id highest : ℕ) (xs : Table) (at : ℕ) (p : Pending)
    → get_elem? xs at ≡ some (id, p)
    → IsBounded highest xs
    → id ≤ highest
entry_le id highest [] at p e b = cc
entry_le id highest (x ∷ xs) zero p e (b, _) =
    let same : x ≡ (id, p) = cc in subst (λ (y : ℕ × Pending). y.0 ≤ highest) same b
entry_le id highest (x ∷ xs) (suc at) p e (_, b) = entry_le id highest xs at p e b

-- What is left of a valid table, and with the request put back.
left_valid :
    (id at : ℕ) (p : Pending) (w : Wallet)
    → IsValid w
    → get_elem? w.pending at ≡ some (id, p)
    → ((j : ℕ) → lookup j (swap_remove at w.pending) ≡ without id w.pending j)
    → TakesValid id (ok (p, record w { pending = swap_remove at w.pending }))
unfolding put_back
left_valid id at p w (d, b) g s =
    let left = swap_remove at w.pending in
    let d' = swap_remove-IsDistinct at w.pending d in
    let b' = All-swap_remove (λ (k, _). k ≤ w.highest_shown) at w.pending b in
    (
      (d', b'),
      (
        append-IsDistinct left (id, p) d' (taken_Others id w.pending left s),
        All-append (λ (k, _). k ≤ w.highest_shown) left (id, p) b'
            (entry_le id w.highest_shown w.pending at p g b),
      ),
    )

take_pending_by_cases :
    (id : ℕ) (w : Wallet) → IsValid w → Found id w.pending → TakesValid id (take_pending id w)
unfolding take_pending take_at
take_pending_by_cases id w v (absent e f) =
    subst (λ at. TakesValid id (take_at id w at (elem_at w.pending at))) (sym e)
      (either_way (TakesValid id) (was_shown id w) tt tt)
take_pending_by_cases id w v (found at p e g f s) =
    subst (λ r. TakesValid id (take_at id w r (elem_at w.pending r))) (sym e)
      (subst (λ q. TakesValid id (take_at id w (some at) q)) (sym g) (left_valid id at p w v g s))

-- `take` leaves a well-formed table, and so does putting back the request that it took: no id stands
-- twice, and none is above the highest that the host was shown.
pub take_pending-TakesValid : (id : ℕ) (w : Wallet) → IsValid w → TakesValid id (take_pending id w)
take_pending-TakesValid id w v = take_pending_by_cases id w v (lookup_cases id w.pending v.0)

-- The ids that a step shows rise from the highest shown before.
abbrev pub Rises : {V : Type 0} → ℕ → List (V × Option Pending) → Type 0
Rises highest [] = Unit
Rises highest ((_, none) ∷ rest) = Rises highest rest
Rises highest ((_, some p) ∷ rest) = (highest < pending_id p) × Rises (pending_id p) rest

IsBounded-Others :
    (id highest : ℕ) (xs : Table) → highest < id → IsBounded highest xs → Others id xs
IsBounded-Others id highest [] h b = tt
IsBounded-Others id highest (x ∷ xs) h (b, bs) =
    ((λ e. omega arith), IsBounded-Others id highest xs h bs)

IsBounded-more : (low high : ℕ) (xs : Table) → low ≤ high → IsBounded low xs → IsBounded high xs
IsBounded-more low high [] h b = tt
IsBounded-more low high (x ∷ xs) h (b, bs) = (omega arith, IsBounded-more low high xs h bs)

max-lt : (a b : ℕ) → a < b → max a b ≡ b
max-lt a b h = ground arith

keep-IsValid :
    (p : Pending) (w : Wallet)
    → IsValid w
    → w.highest_shown < pending_id p
    → IsValid (keep p w) × ((keep p w).highest_shown ≡ pending_id p)
unfolding keep
keep-IsValid p w (d, b) h =
    let id = pending_id p in
    let e = max-lt w.highest_shown id h in
    (
      (
        append-IsDistinct w.pending (id, p) d (IsBounded-Others id w.highest_shown w.pending h b),
        subst (λ n. IsBounded n (w.pending ++ (id, p) ∷ [])) (sym e)
            (All-append (λ (k, _). k ≤ id) w.pending (id, p)
              (IsBounded-more w.highest_shown id w.pending (omega arith) b) (omega arith)),
      ),
      e,
    )

shown_effect-IsValid :
    {V : Type 0} (x : V × Option Pending) (rest : List (V × Option Pending)) (w : Wallet)
    → IsValid w
    → Rises w.highest_shown (x ∷ rest)
    → IsValid (shown_effect x w).1 × Rises (shown_effect x w).1.highest_shown rest
unfolding shown_effect
shown_effect-IsValid (view, none) rest w v r = (v, r)
shown_effect-IsValid (view, some p) rest w v (h, r) =
    let (v', e) = keep-IsValid p w v h in (v', subst (λ n. Rises n rest) (sym e) r)

forget_all-IsValid :
    (ids : List ℕ) (highest : ℕ) (xs : Table)
    → IsDistinct xs
    → IsBounded highest xs
    → IsDistinct (forget_all ids xs) × IsBounded highest (forget_all ids xs)
unfolding forget_all
forget_all-IsValid [] highest xs d b = (d, b)
forget_all-IsValid (id ∷ ids) highest xs d b =
    forget_all-IsValid ids highest (forget id xs) (forget-IsDistinct id xs d)
      (All-forget (λ (k, _). k ≤ highest) id xs b)

module _ {E V : Type 0} (host : HostEffect E V) where
  show_list-IsValid :
      (es : List E) (w : Wallet)
      → IsValid w
      → Rises w.highest_shown (map host.split es)
      → IsValid (show_list host es w).1
  unfolding show_list
  show_list-IsValid [] w v r = v
  show_list-IsValid (e ∷ es) w v r =
      let (v', r') = shown_effect-IsValid (host.split e) (map host.split es) w v r in
      show_list-IsValid es (shown_effect (host.split e) w).1 v' r'

  show_batch-IsValid :
      (b : Batch E) (w : Wallet)
      → IsValid w
      → Rises w.highest_shown (map host.split (as_slice b))
      → IsValid (show_batch host b w).1
  unfolding show_batch as_slice
  show_batch-IsValid empty w v r = v
  show_batch-IsValid (one e) w v r = (shown_effect-IsValid (host.split e) [] w v r).0
  show_batch-IsValid (two e f) w v r =
      let (v', r') = shown_effect-IsValid (host.split e) (host.split f ∷ []) w v r in
      (shown_effect-IsValid (host.split f) [] (shown_effect (host.split e) w).1 v' r').0
  show_batch-IsValid (many es) w v r = show_list-IsValid es w v r

  -- Showing a step to the host, where the ids that it shows rise from the highest shown before,
  -- keeps the table well formed: no id twice, and none above the highest shown.
  pub show-IsValid :
      (step : Yield E) (w : Wallet)
      → IsValid w
      → Rises w.highest_shown (map host.split (as_slice step.effects))
      → IsValid (show host step w).1
  unfolding show
  show-IsValid step w v r =
      let (d, b) = show_batch-IsValid step.effects w v r in
      let shown = (show_batch host step.effects w).1 in
      forget_all-IsValid step.closed shown.highest_shown shown.pending d b
