-- ===== src/Combine.antt =====
-- sans-effort-core/src/join.rs and select.rs: two futures awaited at once. A future is a state, and
-- its poll also acts on the world that all futures share; a poll that panics is `none`, as polling
-- a future after it is ready may.
pub mod Safe
mod Tests
use sans_effort.Shared.{Option, none, some}

-- What a poll returns: the output if it is ready, the future, and the world.
abbrev pub Polled : Type 0 → Type 0 → Type 0 → Type 0
Polled W A F = Option ((Option A × F) × W)

abbrev pub Poll : Type 0 → Type 0 → Type 0 → Type 0
Poll W A F = F → W → Polled W A F

-- `into_future`, which may act on the world: an `Asking` records its request.
abbrev pub Start : Type 0 → Type 0 → Type 0
Start W F = W → F × W

pub data Either (A B : Type 0) : Type 0 where
  left : A → Either A B
  right : B → Either A B

pub record Join (A B F G : Type 0) : Type 0 where
  pub a : F
  pub b : G
  pub ra : Option A
  pub rb : Option B

pub record Select (F G : Type 0) : Type 0 where
  pub a : F
  pub b : G

module _ {A B F G : Type 0} where
  -- The match on `(ra.take(), rb.take())`.
  unfoldable pub both : Option A → Option B → F → G → (Option (A × B) × Join A B F G)
  both (some x) (some y) a b = (some (x, y), record { a = a; b = b; ra = none; rb = none })
  both ra rb a b = (none, record { a = a; b = b; ra = ra; rb = rb })

module _ {W A B F G : Type 0} where
  unfoldable pub start_join : Start W F → Start W G → Start W (Join A B F G)
  start_join start_a start_b w =
      let (a, w') = start_a w in
      let (b, w'') = start_b w' in (record { a = a; b = b; ra = none; rb = none }, w'')

  unfoldable pub join_second : (Option A × F) → Polled W B G → Polled W (A × B) (Join A B F G)
  join_second (ra, a) none = none
  join_second (ra, a) (some ((rb, b), w)) = some (both ra rb a b, w)

  unfoldable pub select_second : F → Polled W B G → Polled W (Either A B) (Select F G)
  select_second a none = none
  select_second a (some ((some v, b), w)) = some ((some (right v), record { a = a; b = b }), w)
  select_second a (some ((none, b), w)) = some ((none, record { a = a; b = b }), w)

module _ {W F G : Type 0} where
  unfoldable pub start_select : Start W F → Start W G → Start W (Select F G)
  start_select start_a start_b w =
      let (a, w') = start_a w in let (b, w'') = start_b w' in (record { a = a; b = b }, w'')

-- A side of `join`: its future is polled unless it is ready already.
unfoldable pub poll_side : {W A F : Type 0} → Poll W A F → Option A → F → W → Polled W A F
poll_side poll (some value) future w = some ((some value, future), w)
poll_side poll none future w = poll future w

module _ {W A B F G : Type 0} (poll_a : Poll W A F) (poll_b : Poll W B G) where
  unfoldable pub join_first : Option B → G → Polled W A F → Polled W (A × B) (Join A B F G)
  join_first rb b none = none
  join_first rb b (some (r, w)) = join_second r (poll_side poll_b rb b w)

  unfoldable pub join : Poll W (A × B) (Join A B F G)
  join s w = join_first s.rb s.b (poll_side poll_a s.ra s.a w)

  unfoldable pub select_first : G → Polled W A F → Polled W (Either A B) (Select F G)
  select_first b none = none
  select_first b (some ((some v, a), w)) = some ((some (left v), record { a = a; b = b }), w)
  select_first b (some ((none, a), w)) = select_second a (poll_b b w)

  unfoldable pub select : Poll W (Either A B) (Select F G)
  select s w = select_first s.b (poll_a s.a w)
