-- ===== src/Table/Adopting.antt =====
-- sans-effort-host/src/table.rs, `Table::adopt`: the sessions that a new machine joins.
use sans_effort.Shared.{
  ℕ, ◌+◌, ◌<◌, ◌≡◌, ◌⊎◌, refl, sym, ap, ◌∙◌, subst, List, [], ◌∷◌, ◌++◌, map, append-nil,
  append_assoc, Option, none, some, Bool, true, false, ◌==◌, if◌then◌else◌, length, length-append,
  get_elem?, All, inl, inr, Bool-cases, Option-cases, ==→eq, lt→ltb, u32_mod, arith,
}
use mathlib.Core.Option.{some-injective}
use sans_effort.Host.Record.{Log, handle_at}
use sans_effort.Host.Record
use sans_effort.Table.{Table, Tap, adopt, adopt_each, taps_or_default}
use sans_effort.Table.Entries.{get, insert, get-insert, get-insert_same, is_some}
use sans_effort.Table.Sessions.{handle_in}

-- The child, once for each tap of its parent in the session.
unfoldable pub joins : ℕ → ℕ → List Tap → List ℕ
joins session child [] = []
joins session child (tap ∷ taps) =
    let rest = joins session child taps in if tap.session == session then child ∷ rest else rest

-- A log with more machines, if the session is open.
abbrev pub joined : List ℕ → Option Log → Option Log
joined handles none = none
joined handles (some log) = some (record log { handles = log.handles ++ handles })

joined-append :
    (handles more : List ℕ) (o : Option Log)
    → joined more (joined handles o) ≡ joined (handles ++ more) o
joined-append handles more none = refl
joined-append handles more (some log) =
    ap (λ hs. some (record log { handles = hs })) (append_assoc log.handles handles more)

joined-nil : (o : Option Log) → joined [] o ≡ o
joined-nil none = refl
joined-nil (some log) = ap (λ hs. some (record log { handles = hs })) (append-nil log.handles)

pub adopt_each-get :
    (session child : ℕ) (taps : List Tap) (m : List (ℕ × Log))
    → get session (adopt_each child taps m).1 ≡ joined (joins session child taps) (get session m)
unfolding adopt_each joins
adopt_each-get session child [] m = sym (joined-nil (get session m))
adopt_each-get session child (tap ∷ taps) m = elim (Option-cases (get tap.session m)) [
  | inl e ↦
      rw (e, adopt_each)
        (adopt_each-get session child taps m ∙ skipped e (Bool-cases (tap.session == session)))
  | inr (log, e) ↦
      rw (e, adopt_each)
        (adopt_each-get session child taps (insert tap.session (Record.adopt child log).1 m)
          ∙ ap (joined (joins session child taps)) (get-insert session tap.session _ m)
          ∙ pushed log e (Bool-cases (tap.session == session)))
]
  where
    all_joins : List ℕ
    all_joins =
        if tap.session == session
        then child ∷ joins session child taps
        else joins session child taps

    skipped :
        get tap.session m ≡ none
        → ((tap.session == session) ≡ true) ⊎ ((tap.session == session) ≡ false)
        → joined (joins session child taps) (get session m) ≡ joined all_joins (get session m)
    skipped e (inl same) = rw (subst (λ i. get i m ≡ none) (==→eq tap.session session same) e) refl
    skipped e (inr other) = rw other refl

    pushed :
        (log : Log)
        → get tap.session m ≡ some log
        → ((tap.session == session) ≡ true) ⊎ ((tap.session == session) ≡ false)
        → joined
            (joins session child taps)
            (if tap.session == session then some (Record.adopt child log).1 else get session m)
          ≡ joined all_joins (get session m)
    pushed log e (inl same) =
        rw (same, subst (λ i. get i m ≡ some log) (==→eq tap.session session same) e)
          (unfold Record.adopt in
            (joined-append (child ∷ []) (joins session child taps) (some log)))
    pushed log e (inr other) = rw other refl

-- Every log has numbers left for `n` more machines.
abbrev pub HaveRoom : ℕ → List (ℕ × Log) → Type 0
HaveRoom n m = (i : ℕ) (log : Log) → get i m ≡ some log → length log.handles + n < u32_mod

get_elem?-append :
    (hs : List ℕ) (h : ℕ) (more : List ℕ) → get_elem? ((hs ++ h ∷ []) ++ more) (length hs) ≡ some h
get_elem?-append [] h more = refl
get_elem?-append (x ∷ hs) h more = get_elem?-append hs h more

-- The tap's number is the child's, in the log of its session.
abbrev pub Numbers : ℕ → List (ℕ × Log) → Tap → Type 0
Numbers child m tap = handle_in tap.machine (get tap.session m) ≡ some child

adopt_each-Numbers :
    (child : ℕ) (taps : List Tap) (m : List (ℕ × Log))
    → HaveRoom (length taps) m
    → All (Numbers child (adopt_each child taps m).1) (adopt_each child taps m).0
unfolding adopt_each
adopt_each-Numbers child [] m room = tt
adopt_each-Numbers child (tap ∷ taps) m room = elim (Option-cases (get tap.session m)) [
  | inl e ↦
      rw (e, adopt_each) (adopt_each-Numbers child taps m (λ i log q. omega (arith, room i log q)))
  | inr (log, e) ↦
      rw (e, adopt_each)
        (
          numbered log e,
          adopt_each-Numbers child taps (insert tap.session (Record.adopt child log).1 m)
              (roomy log e),
        )
]
  where
    roomy :
        (log : Log)
        → get tap.session m ≡ some log
        → HaveRoom (length taps) (insert tap.session (Record.adopt child log).1 m)
    roomy log e i log' q = elim (Bool-cases (tap.session == i)) [
      | inl same ↦
          subst (λ (l : Log). length l.handles + length taps < u32_mod)
            (some-injective (Record.adopt child log).1 log' (sym (at_insert true same) ∙ q))
            (unfold Record.adopt in
              (omega (arith, room tap.session log e, length-append log.handles (child ∷ []))))
      | inr other ↦ omega (arith, room i log' (sym (at_insert false other) ∙ q))
    ]
      where
        at_insert :
            (b : Bool)
            → (tap.session == i) ≡ b
            → get i (insert tap.session (Record.adopt child log).1 m)
              ≡ (if b then some (Record.adopt child log).1 else get i m)
        at_insert b eq =
            get-insert i tap.session _ m
            ∙ ap (λ c. if c then some (Record.adopt child log).1 else get i m) eq

    adopted :
        (log : Log)
        → length log.handles < u32_mod
        → handle_in
            (Record.adopt child log).0
            (joined (joins tap.session child taps) (some (Record.adopt child log).1))
          ≡ some child
    adopted log l =
        unfold Record.adopt Record.count_u32 handle_at in
        (rw (lt→ltb (length log.handles) u32_mod l)
          (get_elem?-append log.handles child (joins tap.session child taps)))

    numbered :
        (log : Log)
        → get tap.session m ≡ some log
        → Numbers child
            (adopt_each child taps (insert tap.session (Record.adopt child log).1 m)).1
            (record { session = tap.session; machine = (Record.adopt child log).0 })
    numbered log e =
        ap (handle_in (Record.adopt child log).0) (
          adopt_each-get tap.session child taps (insert tap.session (Record.adopt child log).1 m)
          ∙ ap (joined (joins tap.session child taps))
              (get-insert_same tap.session (Record.adopt child log).1 m))
        ∙ adopted log (omega (arith, room tap.session log e))

-- The sessions of the taps that are open, once for each tap.
unfoldable pub open_sessions : List Tap → List (ℕ × Log) → List ℕ
open_sessions [] m = []
open_sessions (tap ∷ taps) m =
    let rest = open_sessions taps m in
    if is_some (get tap.session m) then tap.session ∷ rest else rest

is_some-insert :
    (session : ℕ) (log log' : Log) (m : List (ℕ × Log))
    → get session m ≡ some log
    → (i : ℕ) → is_some (get i (insert session log' m)) ≡ is_some (get i m)
is_some-insert session log log' m e i =
    ap is_some (get-insert i session log' m) ∙ elim (Bool-cases (session == i)) [
      | inl same ↦ rw (same, subst (λ j. get j m ≡ some log) (==→eq session i same) e) refl
      | inr other ↦ rw other refl
    ]

open_sessions-insert :
    (session : ℕ) (log log' : Log) (m : List (ℕ × Log))
    → get session m ≡ some log
    → (taps : List Tap) → open_sessions taps (insert session log' m) ≡ open_sessions taps m
unfolding open_sessions
open_sessions-insert session log log' m e [] = refl
open_sessions-insert session log log' m e (tap ∷ taps) =
    rw
      (
        is_some-insert session log log' m e tap.session,
        open_sessions-insert session log log' m e taps,
      )
      refl

adopt_each-open_sessions :
    (child : ℕ) (taps : List Tap) (m : List (ℕ × Log))
    → map (λ (tap : Tap). tap.session) (adopt_each child taps m).0 ≡ open_sessions taps m
unfolding adopt_each open_sessions
adopt_each-open_sessions child [] m = refl
adopt_each-open_sessions child (tap ∷ taps) m = elim (Option-cases (get tap.session m)) [
  | inl e ↦ rw (e, adopt_each) (adopt_each-open_sessions child taps m)
  | inr (log, e) ↦
      rw (e, adopt_each)
        (ap (λ rest. tap.session ∷ rest)
          (adopt_each-open_sessions child taps (insert tap.session (Record.adopt child log).1 m)
            ∙ open_sessions-insert tap.session log (Record.adopt child log).1 m e taps))
]

module _ {P : Type 0} where
  -- A machine that a recorded one creates joins each open session that records its parent: its handle
  -- goes behind those in the session's log, once for each of the parent's taps. Its own taps are those
  -- that it had and one for each tap of its parent whose session is open, in that session, in order
  -- and with its number there, if no log is at the end of the numbers. Other logs stay as they are.
  pub adopt-joins :
      (parent child : ℕ) (taps : List Tap) (t : Table P)
      → get parent t.recorded ≡ some taps
      → HaveRoom (length taps) t.sessions
      → ((session : ℕ)
          → get session (adopt (some parent) child t).sessions
            ≡ joined (joins session child taps) (get session t.sessions))
        × ((gained : List Tap) × (get child (adopt (some parent) child t).recorded
              ≡ some (taps_or_default (get child t.recorded) ++ gained))
            × (map (λ (tap : Tap). tap.session) gained ≡ open_sessions taps t.sessions)
            × All (Numbers child (adopt (some parent) child t).sessions) gained)
  unfolding adopt
  adopt-joins parent child taps t e room =
      rw (e, adopt)
        (
          λ session. adopt_each-get session child taps t.sessions,
          (
            (adopt_each child taps t.sessions).0,
            get-insert_same child _ t.recorded,
            adopt_each-open_sessions child taps t.sessions,
            adopt_each-Numbers child taps t.sessions room,
          ),
        )
