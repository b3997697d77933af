-- ===== src/Table/Runs.antt =====
-- sans-effort-host/src/table.rs: what any sequence of calls of the table leads to.
use sans_effort.Shared.{
  ℕ, ◌+◌, ◌≤◌, ◌<◌, ◌≡◌, refl, sym, ap, ◌∙◌, subst, List, [], ◌∷◌, some, leb, inl, inr, Bool-cases,
  OnSome, length, u32_mod, arith,
}
use sans_effort.Host.Record.{Log, Event}
use sans_effort.Host.Record
use sans_effort.Table.{Table, Tap, taps_or_default, note_each}
use sans_effort.Table
use sans_effort.Table.Entries
use sans_effort.Table.Process.{
  Thread, State, Stepped, insert, new_pinned, wakes, note, with_table, start,
}
use sans_effort.Table.Calls.{Called, reply, resume, free}
use sans_effort.Table.Sessions.{new_log, start_recording, finish_recording, reissue}
use sans_effort.Table.Kept.{Of, insert-Of, new_pinned-Of, reply-Of, resume-Of, free-Of}
use sans_effort.Table.Apart.{Apart, Apart-Kept, maps_with}
use sans_effort.Table.Counted.{Counted, Counted-Kept, Sound, start-Sound, finish-Sound}

module _ {M P : Type 0} (stepped : Stepped M P) where
  -- The states that calls lead to, one after the other, each from any thread, with the number of
  -- recordings that they start.
  pub data Runs : ℕ → State M P → Type 0 where
    begins : (id : ℕ) → Runs 0 (start id)
    switches : {k : ℕ} {s : State M P} → Runs k s → (own : Thread) → Runs k (record s { own = own })
    inserts :
        {k h : ℕ} {s s' : State M P} (machine : M)
        → Runs k s
        → insert machine s ≡ some (h, s')
        → Runs k s'
    parks :
        {k h : ℕ} {s s' : State M P} (make : P)
        → Runs k s
        → new_pinned make s ≡ some (h, s')
        → Runs k s'
    replies :
        {k : ℕ} {r : Called} {s s' : State M P} (h : ℕ) (line : List ℕ)
        → Runs k s
        → reply stepped h line s ≡ some (r, s')
        → Runs k s'
    resumes :
        {k : ℕ} {r : Called} {s s' : State M P} (h : ℕ)
        → Runs k s
        → resume stepped h s ≡ some (r, s')
        → Runs k s'
    frees : {k : ℕ} {s : State M P} (h : ℕ) → Runs k s → Runs k (free stepped h s).1
    takes_wakes : {k : ℕ} {s : State M P} → Runs k s → Runs k (wakes s).1
    records :
        {k : ℕ} {s : State M P} (root : ℕ) → Runs k s → Runs (k + 1) (start_recording root s).1
    finishes :
        {k : ℕ} {s : State M P} (session : ℕ) → Runs k s → Runs k (finish_recording session s).1
    reissues : {k : ℕ} {s : State M P} (handles : List ℕ) → Runs k s → Runs k (reissue handles s)

  -- A handle stands in at most one of the maps, whatever calls were made: it names one machine, which
  -- migrates, is parked or is pinned.
  pub Runs-Apart : {k : ℕ} {s : State M P} → Runs k s → (j : ℕ) → maps_with j s.shared.table ≤ 1
  unfolding start start_recording finish_recording reissue wakes maps_with Entries.get
      Table.new_table
  Runs-Apart (begins id) j = omega arith
  Runs-Apart (switches r own) j = Runs-Apart r j
  Runs-Apart (inserts {s} {s'} machine r e) j =
      subst (OnSome (λ (_, t). Of Apart t)) e
        (insert-Of Apart Apart-Kept.by_runs machine s (Runs-Apart r)) j
  Runs-Apart (parks {s} {s'} make r e) j =
      subst (OnSome (λ (_, t). Of Apart t)) e
        (new_pinned-Of Apart Apart-Kept.by_runs make s (Runs-Apart r)) j
  Runs-Apart (replies {s} {s'} h line r e) j =
      subst (OnSome (λ (_, t). Of Apart t)) e
        (reply-Of Apart Apart-Kept stepped h line s (Runs-Apart r)) j
  Runs-Apart (resumes {s} {s'} h r e) j =
      subst (OnSome (λ (_, t). Of Apart t)) e
        (resume-Of Apart Apart-Kept stepped h s (Runs-Apart r)) j
  Runs-Apart (frees {s} h r) j = free-Of Apart Apart-Kept stepped h s (Runs-Apart r) j
  Runs-Apart (takes_wakes r) j = Runs-Apart r j
  Runs-Apart (records root r) j = Runs-Apart r j
  Runs-Apart (finishes session r) j = Runs-Apart r j
  Runs-Apart (reissues handles r) j = Runs-Apart r j

  pub Runs-Counted : {k : ℕ} {s : State M P} → Runs k s → k + 1 < u32_mod → Of (Counted (k + 1)) s
  unfolding start start_recording finish_recording reissue wakes Table.new_table
  Runs-Counted (begins id) l = (refl, (refl, tt, tt))
  Runs-Counted (switches r own) l = Runs-Counted r l
  Runs-Counted {k} (inserts {s} {s'} machine r e) l =
      subst (OnSome (λ (_, t). Of (Counted (k + 1)) t)) e
        (insert-Of (Counted (k + 1)) (Counted-Kept (k + 1)).by_runs machine s (Runs-Counted r l))
  Runs-Counted {k} (parks {s} {s'} make r e) l =
      subst (OnSome (λ (_, t). Of (Counted (k + 1)) t)) e
        (new_pinned-Of (Counted (k + 1)) (Counted-Kept (k + 1)).by_runs make s (Runs-Counted r l))
  Runs-Counted {k} (replies {s} {s'} h line r e) l =
      subst (OnSome (λ (_, t). Of (Counted (k + 1)) t)) e
        (reply-Of (Counted (k + 1)) (Counted-Kept (k + 1)) stepped h line s (Runs-Counted r l))
  Runs-Counted {k} (resumes {s} {s'} h r e) l =
      subst (OnSome (λ (_, t). Of (Counted (k + 1)) t)) e
        (resume-Of (Counted (k + 1)) (Counted-Kept (k + 1)) stepped h s (Runs-Counted r l))
  Runs-Counted {k} (frees {s} h r) l =
      free-Of (Counted (k + 1)) (Counted-Kept (k + 1)) stepped h s (Runs-Counted r l)
  Runs-Counted (takes_wakes r) l = Runs-Counted r l
  Runs-Counted (records {k} {s} root r) l =
      let (e, sound) = Runs-Counted r (omega arith) in
      (
        omega arith,
        subst
            (λ n.
              Sound (s.shared.session_count + 1) (k + 1 + 1)
                (Entries.insert n (Record.adopt root new_log).1 s.shared.table.sessions))
            (sym e) (start-Sound s.shared.session_count (k + 1) _ s.shared.table.sessions sound),
      )
  Runs-Counted {k} (finishes {s} session r) l =
      let (e, sound) = Runs-Counted r l in
      (e, finish-Sound session s.shared.session_count (k + 1) s.shared.table.sessions sound)
  Runs-Counted (reissues handles r) l = Runs-Counted r l

  note_each-nil : (event : ℕ → Event) (taps : List Tap) → note_each event taps [] ≡ []
  unfolding note_each Entries.get
  note_each-nil event [] = refl
  note_each-nil event (tap ∷ taps) = note_each-nil event taps

  length-zero : (xs : List (ℕ × Log)) → 0 ≡ length xs → xs ≡ []
  length-zero [] e = refl
  length-zero (x ∷ xs) e = absurd (omega arith)

  unrecorded :
      (h : ℕ) (event : ℕ → Event) (t : Table P) → t.sessions ≡ [] → Table.note h event t ≡ t
  unfolding Table.note
  unrecorded h event t e =
      ap (λ sessions. record t { sessions = sessions })
        (ap (note_each event (taps_or_default (Entries.get h t.recorded))) e
          ∙ note_each-nil event (taps_or_default (Entries.get h t.recorded))
          ∙ sym e)

  pub Counted-note :
      (b : ℕ) (s : State M P)
      → Of (Counted b) s
      → (h : ℕ) (event : ℕ → Event)
      → note h event s ≡ with_table (Table.note h event s.shared.table) s
  unfolding note
  Counted-note b s c h event = elim (Bool-cases (leb 1 s.shared.session_count)) [
    | inl some_open ↦ rw some_open refl
    | inr none_open ↦ rw none_open (
        ap (λ t. with_table t s)
          (sym (
            unrecorded h event s.shared.table
              (length-zero s.shared.table.sessions (ground (arith, c.1.0))))))
  ]

  -- The fast path loses nothing: `note`, which looks at the number of sessions before it takes the
  -- table's lock, does what the table's `note` does, after any calls that start fewer than 2 ^ 32 - 2
  -- recordings.
  pub Runs-note :
      {k : ℕ} {s : State M P}
      → Runs k s
      → k + 1 < u32_mod
      → (h : ℕ) (event : ℕ → Event)
      → note h event s ≡ with_table (Table.note h event s.shared.table) s
  Runs-note {k} {s} r l h event = Counted-note (k + 1) s (Runs-Counted r l) h event
