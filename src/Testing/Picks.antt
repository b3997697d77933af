-- ===== src/Testing/Picks.antt =====
-- sans-effort-core/src/testing.rs, `eligible` and the pick: which action a turn takes.
use sans_effort.Shared.{
  ℕ, zero, suc, ◌+◌, ◌≡◌, ◌⊎◌, refl, sym, ap, ◌∙◌, subst, List, [], ◌∷◌, ◌++◌, Option, none, some,
  Bool, true, false, ◌||◌, ◌==◌, if◌then◌else◌, length, get_elem?, last?, All, All-map, inl, inr,
  Bool-cases, Option-cases, OnSome, ==→eq, arith,
}
use mathlib.Core.Option.{some-injective}
use sans_effort.Host.Machine.{contains}
use sans_effort.Testing.Schedule.{Schedule}
use sans_effort.Testing.World.{Driven, Action, remove_at, eligible_from, eligible}
use sans_effort.Testing.Turn.{
  Handler, Run, goes_on, take_action, choice_or, picked, pick_of, choose_action,
}

true-false : true ≡ false → ⊥
true-false e = cc

swapped :
    {E : Type 0} (xs ys zs : List E) → (xs ≡ []) ⊎ (ys ≡ []) → xs ++ (ys ++ zs) ≡ ys ++ (xs ++ zs)
swapped xs ys zs (inl e) = rw e refl
swapped xs ys zs (inr e) = rw e refl

module _ {E R : Type 0} where
  -- What an action shows to the handler of the machine `at`.
  unfoldable pub shown_of : ℕ → Action E R → List E
  shown_of at (Action.effect m e) = if m == at then e ∷ [] else []
  shown_of at (Action.reply _ _) = []
  shown_of at (Action.resume _) = []

  -- The effects of the machine `at` that the handler has not seen, in the order that it recorded them.
  unfoldable pub effects_of : ℕ → List (Action E R) → List E
  effects_of at [] = []
  effects_of at (action ∷ ready) = shown_of at action ++ effects_of at ready

  -- Taking the action shows the oldest effect of its machine, if it is an effect, and no other; no
  -- effect of the machines in `seen`.
  abbrev Oldest : List ℕ → List (Action E R) → Action E R × List (Action E R) → Type 0
  Oldest seen ready (action, rest) =
      ((at : ℕ) → effects_of at ready ≡ shown_of at action ++ effects_of at rest)
      × ((at : ℕ) → contains at seen ≡ true → shown_of at action ≡ [])

  -- The action of index `j`, where the first has index `k`, can be taken.
  abbrev Takeable : List ℕ → ℕ → List (Action E R) → ℕ → Type 0
  Takeable seen k ready j =
      (i : ℕ) × (a : Action E R × List (Action E R)) × (j ≡ k + i)
      × (remove_at ready i ≡ some a)
      × Oldest seen ready a

  Takeable-first :
      (seen : List ℕ) (k : ℕ) (action : Action E R) (ready : List (Action E R))
      → ((at : ℕ) → contains at seen ≡ true → shown_of at action ≡ [])
      → Takeable seen k (action ∷ ready) k
  unfolding remove_at effects_of
  Takeable-first seen k action ready unseen =
      (0, (action, ready), omega arith, refl, ((λ at. refl), unseen))

  Takeable-later :
      (seen seen' : List ℕ) (k : ℕ) (action : Action E R) (ready : List (Action E R))
      → ((at : ℕ) → contains at seen ≡ true → contains at seen' ≡ true)
      → ((at : ℕ) → (shown_of at action ≡ []) ⊎ (contains at seen' ≡ true))
      → (j : ℕ) → Takeable seen' (suc k) ready j
      → Takeable seen k (action ∷ ready) j
  unfolding remove_at effects_of
  Takeable-later seen seen' k action ready more apart j (i, (taken, rest), l, e, (oldest, unseen)) =
      (
        suc i,
        (taken, action ∷ rest),
        omega (arith, l),
        rw e refl,
        (
          λ at.
              ap (λ es. shown_of at action ++ es) (oldest at)
              ∙ swapped (shown_of at action) (shown_of at taken) (effects_of at rest)
                  (elim (apart at) [
                    | inl none_shown ↦ inl none_shown
                    | inr seen_at ↦ inr (unseen at seen_at)
                  ]),
          λ at c. unseen at (more at c),
        ),
      )

  eligible_from-Takeable :
      (seen : List ℕ) (k : ℕ) (ready : List (Action E R))
      → All (Takeable seen k ready) (eligible_from seen k ready)
  unfolding eligible_from contains shown_of
  eligible_from-Takeable seen k [] = tt
  eligible_from-Takeable seen k (Action.effect m e ∷ ready) = elim (Bool-cases (contains m seen)) [
    | inl old ↦ rw old (
        All-map (eligible_from seen (suc k) ready) (eligible_from-Takeable seen (suc k) ready) (
          Takeable-later seen seen k (Action.effect m e) ready (λ at c. c)
            (λ at. of_machine at seen old (Bool-cases (m == at)))))
    | inr new ↦ rw new (
      Takeable-first seen k (Action.effect m e) ready (λ at c. unseen at c new),
      All-map (eligible_from (m ∷ seen) (suc k) ready)
          (eligible_from-Takeable (m ∷ seen) (suc k) ready)
          (Takeable-later seen (m ∷ seen) k (Action.effect m e) ready
            (λ at c. rw c (or_true (m == at))) (λ at. first_seen at (Bool-cases (m == at)))),
    )
  ]
    where
      or_true : (b : Bool) → (b || true) ≡ true
      or_true true = refl
      or_true false = refl

      of_machine :
          (at : ℕ) (seen : List ℕ)
          → contains m seen ≡ true
          → ((m == at) ≡ true) ⊎ ((m == at) ≡ false)
          → ((if m == at then e ∷ [] else []) ≡ []) ⊎ (contains at seen ≡ true)
      of_machine at seen old (inl same) =
          inr (subst (λ i. contains i seen ≡ true) (==→eq m at same) old)
      of_machine at seen old (inr other) = inl (rw other refl)

      first_seen :
          (at : ℕ)
          → ((m == at) ≡ true) ⊎ ((m == at) ≡ false)
          → ((if m == at then e ∷ [] else []) ≡ []) ⊎ (((m == at) || contains at seen) ≡ true)
      first_seen at (inl same) = inr (rw same refl)
      first_seen at (inr other) = inl (rw other refl)

      unseen :
          (at : ℕ)
          → contains at seen ≡ true
          → contains m seen ≡ false
          → (if m == at then e ∷ [] else []) ≡ []
      unseen at c new = elim (Bool-cases (m == at)) [
        | inl same ↦
            absurd (true-false (sym c ∙ subst (λ i. contains i seen ≡ false) (==→eq m at same) new))
        | inr other ↦ rw other refl
      ]
  eligible_from-Takeable seen k (Action.reply m r ∷ ready) = (
    Takeable-first seen k (Action.reply m r) ready (λ at c. refl),
    All-map (eligible_from seen (suc k) ready) (eligible_from-Takeable seen (suc k) ready)
        (Takeable-later seen seen k (Action.reply m r) ready (λ at c. c) (λ at. inl refl)),
  )
  eligible_from-Takeable seen k (Action.resume m ∷ ready) = (
    Takeable-first seen k (Action.resume m) ready (λ at c. refl),
    All-map (eligible_from seen (suc k) ready) (eligible_from-Takeable seen (suc k) ready)
        (Takeable-later seen seen k (Action.resume m) ready (λ at c. c) (λ at. inl refl)),
  )

  -- The first action can always be taken.
  eligible-cons :
      (action : Action E R) (ready : List (Action E R))
      → (later : List ℕ) × (eligible (action ∷ ready) ≡ 0 ∷ later)
  unfolding eligible eligible_from contains
  eligible-cons (Action.effect m e) ready = (_, refl)
  eligible-cons (Action.reply m r) ready = (_, refl)
  eligible-cons (Action.resume m) ready = (_, refl)

get_elem?-All :
    {A : Type 0} (Q : A → Type 0) (xs : List A) (i : ℕ) → All Q xs → OnSome Q (get_elem? xs i)
get_elem?-All Q [] i all = tt
get_elem?-All Q (x ∷ xs) zero (q, all) = q
get_elem?-All Q (x ∷ xs) (suc i) (q, all) = get_elem?-All Q xs i all

last?-All :
    {A : Type 0} (Q : A → Type 0) (x : A) (xs : List A)
    → All Q (x ∷ xs)
    → (y : A) × (last? (x ∷ xs) ≡ some y) × Q y
last?-All Q x [] (q, all) = (x, refl, q)
last?-All Q x (y ∷ xs) (q, all) = last?-All Q y xs all

choice_or-All :
    (Q : ℕ → Type 0) (o last : Option ℕ)
    → OnSome Q o
    → (y : ℕ) × (last ≡ some y) × Q y
    → Q (choice_or o last)
choice_or-All Q (some pick) last q (y, e, r) = q
choice_or-All Q none last q (y, e, r) = rw e r

pick_of-All :
    (Q : ℕ → Type 0) (choice first : ℕ) (later : List ℕ)
    → All Q (first ∷ later)
    → Q (pick_of choice (first ∷ later))
unfolding pick_of
pick_of-All Q choice first later all =
    choice_or-All Q (get_elem? (first ∷ later) choice) (last? (first ∷ later))
      (get_elem?-All Q (first ∷ later) choice all) (last?-All Q first later all)

first : {A : Type 0} → A × List A → A
first (x, _) = x

others : {A : Type 0} → A × List A → List A
others (_, rest) = rest

none-some : {A : Type 0} {a : A} → none ≡ some a → ⊥
none-some q = cc

behind : {A : Type 0} → A → Option (A × List A) → Option (A × List A)
behind y none = none
behind y (some (z, left)) = some (z, y ∷ left)

-- What is removed stood in the list, and the rest is what stood before and after it.
remove_at-parts :
    {A : Type 0} (xs : List A) (i : ℕ) (x : A) (rest : List A)
    → remove_at xs i ≡ some (x, rest)
    → (before : List A) × (after : List A) × (xs ≡ before ++ x ∷ after) × (rest ≡ before ++ after)
unfolding remove_at first others behind
remove_at-parts [] i x rest e = cc
remove_at-parts (y ∷ xs) zero x rest e =
    let same = some-injective (y, xs) (x, rest) e in
    ([], xs, ap (λ z. z ∷ xs) (ap first same), sym (ap others same))
remove_at-parts (y ∷ xs) (suc i) x rest e = elim (Option-cases (remove_at xs i)) [
  | inl n ↦ absurd (none-some (sym (ap (behind y) n) ∙ e))
  | inr ((z, left), q) ↦
      let same = some-injective (z, y ∷ left) (x, rest) (sym (ap (behind y) q) ∙ e) in
      let (before, after, found, kept) =
        remove_at-parts xs i x left (q ∙ ap (λ w. some (w, left)) (ap first same)) in
      (y ∷ before, after, ap (λ ys. y ∷ ys) found, sym (ap others same) ∙ ap (λ ys. y ∷ ys) kept)
]

module _ {S H D E R : Type 0} (schedule : Schedule S) (driven : Driven D E R)
    (handler : Handler H D E R) where
  -- The action taken, the actions left, and the schedule after its choice.
  abbrev pub Takes : Run S H D E R → Type 0
  Takes r =
      (action : Action E R) × (rest : List (Action E R)) × (s : S) × (choose_action schedule driven
          handler r
        ≡ goes_on schedule driven handler (
            take_action schedule driven handler action
              (record r { world = record r.world { ready = rest }; schedule = s })))
      × ((before : List (Action E R)) × (after : List (Action E R)) × (r.world.ready
            ≡ before ++ action ∷ after)
          × (rest ≡ before ++ after))
      × ((at : ℕ) → effects_of at r.world.ready ≡ shown_of at action ++ effects_of at rest)

  pick-Takes :
      (r : Run S H D E R) (i : ℕ)
      → pick_of
          (schedule.next (length (eligible r.world.ready)) r.schedule).0
          (eligible r.world.ready)
        ≡ i
      → Takeable [] 0 r.world.ready i
      → Takes r
  unfolding choose_action
  pick-Takes r i p (j, (action, rest), l, e, (oldest, _)) =
      let (before, after, found, left) = remove_at-parts r.world.ready j action rest e in
      (
        action,
        rest,
        (schedule.next (length (eligible r.world.ready)) r.schedule).1,
        ap
              (λ k.
                picked schedule driven handler
                  (record r {
                    schedule = (schedule.next (length (eligible r.world.ready)) r.schedule).1;
                  })
                  (remove_at r.world.ready k))
              (p ∙ l ∙ from_zero)
            ∙ ap
                (picked schedule driven handler (record r {
                  schedule = (schedule.next (length (eligible r.world.ready)) r.schedule).1;
                }))
                e,
        (before, after, found, left),
        oldest,
      )
    where
      from_zero : 0 + j ≡ j
      from_zero = omega arith

  -- Where anything is ready, the turn takes one of the ready actions, whatever the schedule chooses, a
  -- choice past the end included: removing it does not panic, the action that is taken stood among
  -- those that are ready, and those that are left are the others, in order. If it is an effect, it is the oldest of
  -- its machine that the handler has not seen, and no other machine's effects change, so that each
  -- machine's effects reach the handler in the order that it recorded them.
  pub choose_action-Takes :
      (r : Run S H D E R) (first : Action E R) (later : List (Action E R))
      → r.world.ready ≡ first ∷ later
      → Takes r
  choose_action-Takes r first later e =
      let (indices, offered) = eligible-cons first later in
      pick-Takes r _ refl (
        subst (Takeable [] 0 r.world.ready)
          (ap (pick_of (schedule.next (length (eligible r.world.ready)) r.schedule).0)
            (sym (ap eligible e ∙ offered)))
          (pick_of-All (Takeable [] 0 r.world.ready)
            (schedule.next (length (eligible r.world.ready)) r.schedule).0 0 indices
            (subst (All (Takeable [] 0 r.world.ready)) (ap eligible e ∙ offered)
              (unfold eligible in (eligible_from-Takeable [] 0 r.world.ready)))))
