-- ===== src/Outbox/Asking.antt =====
-- sans-effort-core/src/driver/asking.rs and awaiting.rs: a request from its first poll to its
-- reply. The caller's closure is an argument: it may use the outbox itself, and it may panic, where
-- it returns `none`.
use sans_effort.Shared.{ℕ, Option, none, some, Result, ok, err}
use sans_effort.Codec.Reader.{DecodeError}
use sans_effort.Reply.{Value, ReplyHandle, Check, Answer, Payload, from_value}
use sans_effort.Outbox.{Inner, mint, open_request, unreserve, collect, close}

unfoldable pub from_checked : {A : Type 0} → Result A DecodeError → Option A
from_checked (ok answer) = some answer
from_checked (err _) = none

abbrev pub as_answer : {A : Type 0} (a : Answer A) → Option (Payload a.wire) → Option A
as_answer a none = none
as_answer a (some wire) = from_checked (a.from_wire wire)

abbrev pub ready_with : {A : Type 0} → Option A → Option (Option A)
ready_with none = none
ready_with (some answer) = some (some answer)

-- `some none` is `Poll::Pending`, and `none` is a panic.
unfoldable pub poll_value : {A : Type 0} (a : Answer A) → Option Value → Option (Option A)
poll_value a none = some none
poll_value a (some value) = ready_with (as_answer a (from_value a.wire value))

module _ {E : Type 0} where
  -- What follows the closure: the effect recorded, or the drop of `Unbuilt` as its panic unwinds.
  unfoldable pub when_built : Check → ℕ → Option E × Inner E → Option ℕ × Inner E
  when_built check id (some effect, s) = (some id, open_request id effect check s)
  when_built check id (none, s) = (none, unreserve id s)

  -- The id of the `Awaiting`, and `none` where the closure panics.
  unfoldable pub into_future :
      (ReplyHandle → Inner E → Option E × Inner E) → Check → Inner E → Option ℕ × Inner E
  into_future make check s = when_built check (mint s).0.id (make (mint s).0 (mint s).1)

  unfoldable pub poll : {A : Type 0} → Answer A → ℕ → ℕ → Inner E → Option (Option A) × Inner E
  poll a id waker s = (poll_value a (collect id waker s).0, (collect id waker s).1)

  -- `Drop for Awaiting`.
  unfoldable pub drop_awaiting : ℕ → Inner E → Inner E
  drop_awaiting id s = close id s
