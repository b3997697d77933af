-- ===== src/Table/Counted.antt =====
-- sans-effort-host/src/table.rs, `SESSIONS` and the map of the sessions that it counts.
use sans_effort.Shared.{
  ℕ, ◌+◌, ◌<◌, ◌≡◌, refl, sym, ap, ◌∙◌, subst, List, [], ◌∷◌, Option, none, some, true, false, ◌==◌,
  if◌then◌else◌, length, inl, inr, Bool-cases, Option-cases, OnSome, OnSome-map, All, All-map,
  ==→eq, arith,
}
use sans_effort.Host.Machine.{contains}
use sans_effort.Host.Handles.{Handles}
use sans_effort.Host.Handles
use sans_effort.Host.Record.{Log, Event}
use sans_effort.Host.Record
use sans_effort.Table.{
  Table, Tap, handles, issued, issue_fuel, issue, adopt, adopt_each, note, note_each,
  taps_or_default,
}
use sans_effort.Table.Entries.{get, insert, remove, keys, is_some, get-remove, contains-keys}
use sans_effort.Table.Sessions.{one_fewer}
use sans_effort.Table.Kept.{Kept}

-- No key stands twice.
abbrev pub Distinct : List ℕ → Type 0
Distinct [] = Unit
Distinct (k ∷ ks) = (contains k ks ≡ false) × Distinct ks

is_some-none : {V : Type 0} (o : Option V) → is_some o ≡ false → o ≡ none
is_some-none none e = refl
is_some-none (some v) e = cc

All-contains : (Q : ℕ → Type 0) (k : ℕ) (ks : List ℕ) → All Q ks → contains k ks ≡ true → Q k
unfolding contains
All-contains Q k [] a c = cc
All-contains Q k (i ∷ ks) (q, a) c = elim (Bool-cases (i == k)) [
  | inl same ↦ subst Q (==→eq i k same) q
  | inr other ↦ All-contains Q k ks a (ground arith)
]

module _ {V : Type 0} where
  contains-remove :
      (i k : ℕ) (m : List (ℕ × V))
      → contains i (keys (remove k m)) ≡ (if k == i then false else contains i (keys m))
  contains-remove i k m =
      rw (contains-keys i (remove k m), contains-keys i m, get-remove i k m) (ground arith)

  Distinct-remove : (k : ℕ) (m : List (ℕ × V)) → Distinct (keys m) → Distinct (keys (remove k m))
  unfolding remove
  Distinct-remove k [] d = tt
  Distinct-remove k ((i, v) ∷ m) (c, d) = elim (Bool-cases (i == k)) [
    | inl same ↦ rw same (Distinct-remove k m d)
    | inr other ↦ rw other (ground (arith, contains-remove i k m), Distinct-remove k m d)
  ]

  All-remove :
      (Q : ℕ → Type 0) (k : ℕ) (m : List (ℕ × V)) → All Q (keys m) → All Q (keys (remove k m))
  unfolding remove
  All-remove Q k [] a = tt
  All-remove Q k ((i, v) ∷ m) (q, a) = elim (Bool-cases (i == k)) [
    | inl same ↦ rw same (All-remove Q k m a)
    | inr other ↦ rw other (q, All-remove Q k m a)
  ]

  remove-none : (k : ℕ) (m : List (ℕ × V)) → get k m ≡ none → remove k m ≡ m
  unfolding get remove
  remove-none k [] e = refl
  remove-none k ((i, v) ∷ m) e = elim (Bool-cases (i == k)) [
    | inl same ↦ ground arith
    | inr other ↦ ground (arith, remove-none k m)
  ]

  length-remove :
      (k : ℕ) (m : List (ℕ × V)) {v : V}
      → Distinct (keys m)
      → get k m ≡ some v
      → length (remove k m) + 1 ≡ length m
  unfolding get remove
  length-remove k [] d e = cc
  length-remove k ((i, w) ∷ m) {v} (c, d) e = elim (Bool-cases (i == k)) [
    | inl same ↦ rw (same, remove-none k m (absent (==→eq i k same))) (omega arith)
    | inr other ↦ rw other (omega (arith, length-remove k m d (later_on other)))
  ]
    where
      absent : i ≡ k → get k m ≡ none
      absent same =
          is_some-none (get k m)
            (sym (contains-keys k m) ∙ subst (λ j. contains j (keys m) ≡ false) same c)

      later_on : (i == k) ≡ false → get k m ≡ some v
      later_on other = ground arith

  -- As many sessions, each under a number of its own that was given before.
  abbrev pub Sound : ℕ → ℕ → List (ℕ × V) → Type 0
  Sound n next m = (n ≡ length m) × Distinct (keys m) × All (λ k. k < next) (keys m)

  insert-Sound :
      (n next k : ℕ) (v : V) (m : List (ℕ × V)) {old : V}
      → get k m ≡ some old
      → Sound n next m
      → Sound n next (insert k v m)
  unfolding insert
  insert-Sound n next k v m e (l, d, b) = (
    omega (arith, l, length-remove k m d e),
    (ground (arith, contains-remove k k m), Distinct-remove k m d),
    (
      All-contains (λ k. k < next) k (keys m) b (contains-keys k m ∙ ap is_some e),
      All-remove (λ k. k < next) k m b,
    ),
  )

note_each-Sound :
    (event : ℕ → Event) (taps : List Tap) (n next : ℕ) (m : List (ℕ × Log))
    → Sound n next m
    → Sound n next (note_each event taps m)
unfolding note_each
note_each-Sound event [] n next m r = r
note_each-Sound event (tap ∷ taps) n next m r = elim (Option-cases (get tap.session m)) [
  | inl e ↦ rw (e, note_each) (note_each-Sound event taps n next m r)
  | inr (log, e) ↦
      rw (e, note_each)
        (note_each-Sound event taps n next _
          (insert-Sound n next tap.session (Record.push (event tap.machine) log) m e r))
]

adopt_each-Sound :
    (child : ℕ) (taps : List Tap) (n next : ℕ) (m : List (ℕ × Log))
    → Sound n next m
    → Sound n next (adopt_each child taps m).1
unfolding adopt_each
adopt_each-Sound child [] n next m r = r
adopt_each-Sound child (tap ∷ taps) n next m r = elim (Option-cases (get tap.session m)) [
  | inl e ↦ rw (e, adopt_each) (adopt_each-Sound child taps n next m r)
  | inr (log, e) ↦
      rw (e, adopt_each)
        (adopt_each-Sound child taps n next _
          (insert-Sound n next tap.session (Record.adopt child log).1 m e r))
]

module _ {P : Type 0} (k : ℕ) where
  -- The next session has number `k`, and those that are open are counted.
  abbrev pub Counted : Table P → ℕ → Type 0
  Counted t n = (t.next_session ≡ k) × Sound n k t.sessions

  adopt-Counted :
      (parent : Option ℕ) (h : ℕ) (t : Table P) (n : ℕ) → Counted t n → Counted (adopt parent h t) n
  unfolding adopt
  adopt-Counted none h t n r = r
  adopt-Counted (some parent) h t n (e, r) = elim (Option-cases (get parent t.recorded)) [
    | inl f ↦ rw (f, adopt) (e, r)
    | inr (taps, f) ↦ rw (f, adopt) (e, adopt_each-Sound h taps n k t.sessions r)
  ]

  -- Issuing changes the next handle and nothing else.
  abbrev Same : Table P → ℕ × Table P → Type 0
  Same t (h, t') = (t'.sessions ≡ t.sessions) × (t'.next_session ≡ t.next_session)

  issue-Same : (queue : List ℕ) (t : Table P) → OnSome (Same t) (issue queue t)
  unfolding issue
  issue-Same queue t = issued-Same (Handles.issue (issue_fuel t) queue (handles t))
    where
      issued-Same : (o : Option (ℕ × Handles)) → OnSome (Same t) (issued t o)
      issued-Same none = tt
      issued-Same (some (h, hs)) = (refl, refl)

  pub Counted-Kept : Kept Counted
  unfolding note
  Counted-Kept = record {
    by_runs = record {
      adds_machine = λ queue parent a t n r.
          OnSome-map (issue queue t) (issue-Same queue t) (λ (h, t') (ss, ns).
            adopt-Counted parent h (record t' { machines = insert h a t'.machines }) n
              (rw (ss, ns) r));
      adds_parked = λ queue parent make t n r.
          OnSome-map (issue queue t) (issue-Same queue t) (λ (h, t') (ss, ns).
            adopt-Counted parent h (record t' { parked = insert h make t'.parked }) n
              (rw (ss, ns) r));
      drops_machine = λ h t n r. r;
      drops_parked = λ h t n r. r;
      drops_pinned = λ h t n r. r;
      owns = λ h id make t n e r. r;
    };
    notes = λ h event t n (e, r).
        (e, note_each-Sound event (taps_or_default (get h t.recorded)) n k t.sessions r);
  }

pub finish-Sound :
    (session n next : ℕ) (m : List (ℕ × Log))
    → Sound n next m
    → Sound (one_fewer (get session m) n) next (remove session m)
finish-Sound session n next m (l, d, b) =
    (counted, Distinct-remove session m d, All-remove (λ k. k < next) session m b)
  where
    counted : one_fewer (get session m) n ≡ length (remove session m)
    counted = elim (Option-cases (get session m)) [
      | inl e ↦ rw (e, remove-none session m e) l
      | inr (log, e) ↦ rw e (omega (arith, length-remove session m d e))
    ]

pub start-Sound :
    (n next : ℕ) (log : Log) (m : List (ℕ × Log))
    → Sound n next m
    → Sound (n + 1) (next + 1) (insert next log m)
unfolding insert
start-Sound n next log m (l, d, b) = rw (remove-none next m fresh) (
  omega arith,
  (
    elim (Bool-cases (contains next (keys m))) [
      | inl c ↦ absurd (omega (arith, All-contains (λ k. k < next) next (keys m) b c))
      | inr c ↦ c
    ],
    d,
  ),
  (omega arith, All-map (keys m) b (λ k below. omega arith)),
)
  where
    fresh : get next m ≡ none
    fresh = elim (Option-cases (get next m)) [
      | inl e ↦ e
      | inr (log, e) ↦ absurd (
          omega (
            arith,
            All-contains (λ k. k < next) next (keys m) b (contains-keys next m ∙ ap is_some e),
          ))
    ]
