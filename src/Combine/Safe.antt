-- ===== src/Combine/Safe.antt =====
-- sans-effort-core/src/join.rs and select.rs: when the combinators poll their futures.
use sans_effort.Shared.{Option, none, some}
use sans_effort.Combine.{
  Polled, Poll, Join, Select, poll_side, both, join_second, join_first, join, select_second,
  select_first, select,
}

-- A poll that does not panic: it is ready, or the future may be polled again.
abbrev pub Behaves : {W A F : Type 0} → (F → Type 0) → Polled W A F → Type 0
Behaves Live none = ⊥
Behaves Live (some ((some _, _), _)) = Unit
Behaves Live (some ((none, future), _)) = Live future

-- A future that may be polled while it is live.
abbrev pub IsSafe : {W A F : Type 0} → (F → Type 0) → Poll W A F → Type 0
IsSafe {W} {A} {F} Live poll = (future : F) (w : W) → Live future → Behaves Live (poll future w)

-- A side that is not ready is live.
abbrev pub Waits : {A F : Type 0} → (F → Type 0) → Option A → F → Type 0
Waits Live none future = Live future
Waits Live (some _) future = Unit

abbrev pub Sided : {W A F : Type 0} → (F → Type 0) → Polled W A F → Type 0
Sided Live none = ⊥
Sided Live (some ((r, future), _)) = Waits Live r future

Behaves-Sided :
    {W A F : Type 0} (Live : F → Type 0) (r : Polled W A F) → Behaves Live r → Sided Live r
Behaves-Sided Live none b = absurd b
Behaves-Sided Live (some ((some v, future), w)) b = tt
Behaves-Sided Live (some ((none, future), w)) b = b

poll_side-Sided :
    {W A F : Type 0} (Live : F → Type 0) (poll : Poll W A F) (r : Option A) (future : F) (w : W)
    → IsSafe Live poll
    → Waits Live r future
    → Sided Live (poll_side poll r future w)
unfolding poll_side
poll_side-Sided Live poll (some v) future w safe l = tt
poll_side-Sided Live poll none future w safe l =
    Behaves-Sided Live (poll future w) (safe future w l)

module _ {W A B F G : Type 0} (poll_a : Poll W A F) (poll_b : Poll W B G) (LiveA : F → Type 0)
    (LiveB : G → Type 0) (safe_a : IsSafe LiveA poll_a) (safe_b : IsSafe LiveB poll_b) where
  -- Each side that is not ready may be polled.
  abbrev pub JoinLive : Join A B F G → Type 0
  JoinLive s = Waits LiveA s.ra s.a × Waits LiveB s.rb s.b

  abbrev pub SelectLive : Select F G → Type 0
  SelectLive s = LiveA s.a × LiveB s.b

  both-Behaves :
      (ra : Option A) (rb : Option B) (a : F) (b : G) (w : W)
      → Waits LiveA ra a
      → Waits LiveB rb b
      → Behaves JoinLive (some (both ra rb a b, w))
  unfolding both
  both-Behaves (some x) (some y) a b w la lb = tt
  both-Behaves (some x) none a b w la lb = (tt, lb)
  both-Behaves none rb a b w la lb = (la, lb)

  join_second-Behaves :
      (ra : Option A) (a : F) (r : Polled W B G)
      → Waits LiveA ra a
      → Sided LiveB r
      → Behaves JoinLive (join_second (ra, a) r)
  unfolding join_second
  join_second-Behaves ra a none la s = absurd s
  join_second-Behaves ra a (some ((rb, b), w)) la s = both-Behaves ra rb a b w la s

  join_first-Behaves :
      (rb : Option B) (b : G) (r : Polled W A F)
      → Waits LiveB rb b
      → Sided LiveA r
      → Behaves JoinLive (join_first poll_a poll_b rb b r)
  unfolding join_first
  join_first-Behaves rb b none lb s = absurd s
  join_first-Behaves rb b (some ((ra, a), w)) lb s =
      join_second-Behaves ra a (poll_side poll_b rb b w) s
        (poll_side-Sided LiveB poll_b rb b w safe_b lb)

  -- Where each future may be polled until it is ready, so may their join, from any state whose sides
  -- may be: it never polls a side again that is ready, keeping its output for when the other is,
  -- and so does not panic.
  pub join-Behaves :
      (s : Join A B F G) (w : W) → JoinLive s → Behaves JoinLive (join poll_a poll_b s w)
  unfolding join
  join-Behaves s w (la, lb) =
      join_first-Behaves s.rb s.b (poll_side poll_a s.ra s.a w) lb
        (poll_side-Sided LiveA poll_a s.ra s.a w safe_a la)

  select_second-Behaves :
      (a : F) (r : Polled W B G)
      → LiveA a
      → Behaves LiveB r
      → Behaves SelectLive (select_second {A = A} a r)
  unfolding select_second
  select_second-Behaves a none la s = absurd s
  select_second-Behaves a (some ((some v, b), w)) la s = tt
  select_second-Behaves a (some ((none, b), w)) la s = (la, s)

  select_first-Behaves :
      (b : G) (r : Polled W A F)
      → LiveB b
      → Behaves LiveA r
      → Behaves SelectLive (select_first poll_a poll_b b r)
  unfolding select_first
  select_first-Behaves b none lb s = absurd s
  select_first-Behaves b (some ((some v, a), w)) lb s = tt
  select_first-Behaves b (some ((none, a), w)) lb s =
      select_second-Behaves a (poll_b b w) s (safe_b b w lb)

  -- Where each future may be polled until it is ready, so may their select, from any state whose
  -- sides may be: while it is pending both may be polled again, and so it does not panic.
  pub select-Behaves :
      (s : Select F G) (w : W) → SelectLive s → Behaves SelectLive (select poll_a poll_b s w)
  unfolding select
  select-Behaves s w (la, lb) = select_first-Behaves s.b (poll_a s.a w) lb (safe_a s.a w la)
