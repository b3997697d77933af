-- ===== src/Table/Recording.antt =====
-- sans-effort-host/src/table.rs, `note`, `adopt` and `finish_recording`: what a session records.
use sans_effort.Shared.{
  ℕ, ◌≡◌, ◌⊎◌, refl, sym, ap, ◌∙◌, subst, List, [], ◌∷◌, ◌++◌, append-nil, append_assoc, Option,
  none, some, true, false, ◌==◌, if◌then◌else◌, inl, inr, Bool-cases, Option-cases, ==→eq,
}
use sans_effort.Host.Record.{Log, Event}
use sans_effort.Host.Record
use sans_effort.Table.{Table, Tap, note, note_each, taps_or_default}
use sans_effort.Table.Entries.{get, insert, get-insert}

-- The events of one session, by the taps of the machine in it.
unfoldable pub events_of : ℕ → (ℕ → Event) → List Tap → List Event
events_of session event [] = []
events_of session event (tap ∷ taps) =
    let rest = events_of session event taps in
    if tap.session == session then event tap.machine ∷ rest else rest

-- A log with more events, if the session is open.
abbrev pub logged : List Event → Option Log → Option Log
logged events none = none
logged events (some log) = some (record log { events = log.events ++ events })

logged-append :
    (events more : List Event) (o : Option Log)
    → logged more (logged events o) ≡ logged (events ++ more) o
logged-append events more none = refl
logged-append events more (some log) =
    ap (λ es. some (record log { events = es })) (append_assoc log.events events more)

logged-nil : (o : Option Log) → logged [] o ≡ o
logged-nil none = refl
logged-nil (some log) = ap (λ es. some (record log { events = es })) (append-nil log.events)

pub note_each-get :
    (session : ℕ) (event : ℕ → Event) (taps : List Tap) (m : List (ℕ × Log))
    → get session (note_each event taps m) ≡ logged (events_of session event taps) (get session m)
unfolding note_each events_of
note_each-get session event [] m = sym (logged-nil (get session m))
note_each-get session event (tap ∷ taps) m = elim (Option-cases (get tap.session m)) [
  | inl e ↦
      rw (e, note_each)
        (note_each-get session event taps m ∙ skipped e (Bool-cases (tap.session == session)))
  | inr (log, e) ↦
      rw (e, note_each)
        (note_each-get session event taps
            (insert tap.session (Record.push (event tap.machine) log) m)
          ∙ ap (logged (events_of session event taps)) (get-insert session tap.session _ m)
          ∙ pushed log e (Bool-cases (tap.session == session)))
]
  where
    skipped :
        get tap.session m ≡ none
        → ((tap.session == session) ≡ true) ⊎ ((tap.session == session) ≡ false)
        → logged (events_of session event taps) (get session m)
          ≡ logged
              (if tap.session == session
                then event tap.machine ∷ events_of session event taps
                else events_of session event taps)
              (get session m)
    skipped e (inl same) = rw (subst (λ i. get i m ≡ none) (==→eq tap.session session same) e) refl
    skipped e (inr other) = rw other refl

    pushed :
        (log : Log)
        → get tap.session m ≡ some log
        → ((tap.session == session) ≡ true) ⊎ ((tap.session == session) ≡ false)
        → logged (events_of session event taps) (
            if tap.session == session
            then some (Record.push (event tap.machine) log)
            else get session m)
          ≡ logged
              (if tap.session == session
                then event tap.machine ∷ events_of session event taps
                else events_of session event taps)
              (get session m)
    pushed log e (inl same) =
        rw (same, subst (λ i. get i m ≡ some log) (==→eq tap.session session same) e)
          (unfold Record.push in
            (logged-append (event tap.machine ∷ []) (events_of session event taps) (some log)))
    pushed log e (inr other) = rw other refl

module _ {P : Type 0} where
  -- The calls that the table is told of, one after the other.
  unfoldable pub note_all : List (ℕ × (ℕ → Event)) → Table P → Table P
  note_all [] t = t
  note_all ((handle, event) ∷ calls) t = note_all calls (note handle event t)

  -- The events that a session gets from them.
  unfoldable pub events_in : ℕ → List (ℕ × (ℕ → Event)) → Table P → List Event
  events_in session [] t = []
  events_in session ((handle, event) ∷ calls) t =
      events_of session event (taps_or_default (get handle t.recorded)) ++ events_in session calls t

  -- note does not change which machines are recorded.
  events_in-note :
      (session : ℕ) (calls : List (ℕ × (ℕ → Event))) (h : ℕ) (event : ℕ → Event) (t : Table P)
      → events_in session calls (note h event t) ≡ events_in session calls t
  unfolding events_in note
  events_in-note session [] h event t = refl
  events_in-note session ((handle, e) ∷ calls) h event t =
      ap (λ es. events_of session e (taps_or_default (get handle t.recorded)) ++ es)
        (events_in-note session calls h event t)

  -- A recording that is open gets every call made on its machines, in order and with the machine's
  -- number in it, and no other call; a recording that is not open stays so.
  pub note_all-get :
      (session : ℕ) (calls : List (ℕ × (ℕ → Event))) (t : Table P)
      → get session (note_all calls t).sessions
        ≡ logged (events_in session calls t) (get session t.sessions)
  unfolding note_all events_in
  note_all-get session [] t = sym (logged-nil (get session t.sessions))
  note_all-get session ((handle, event) ∷ calls) t =
      note_all-get session calls (note handle event t)
      ∙ ap (λ es. logged es (get session (note handle event t).sessions))
          (events_in-note session calls handle event t)
      ∙ unfold note in
        (ap (logged (events_in session calls t))
          (note_each-get session event (taps_or_default (get handle t.recorded)) t.sessions))
        ∙ logged-append (events_of session event (taps_or_default (get handle t.recorded)))
            (events_in session calls t) (get session t.sessions)
