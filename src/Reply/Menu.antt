-- ===== src/Reply/Menu.antt =====
-- sans-effort-core/src/reply.rs: the kinds, and the values and pending requests that go through
-- them.
use sans_effort.Shared.{◌≡◌, refl, Option, none, some, Result, ok, err}
use sans_effort.Reply.{
  Kind, Value, ReplyHandle, Pending, Payload, kind_of, pending_kind, pending_id, into_value,
  from_value, into_pending, from_pending,
}

-- What `from_pending` at kind `k` makes of a request.
abbrev pub Unwraps : Kind → Pending → Result ReplyHandle Pending → Type 0
Unwraps k p (ok r) = (p ≡ into_pending k r) × (pending_kind p ≡ k) × (pending_id p ≡ r.id)
Unwraps k p (err q) = (q ≡ p) × ¬ (pending_kind p ≡ k)

-- `from_pending` gives the handle of a request of its own kind, which `into_pending` wraps again,
-- and hands a request of another kind back untouched.
pub from_pending-Unwraps : (k : Kind) (p : Pending) → Unwraps k p (from_pending k p)
unfolding from_pending into_pending pending_kind pending_id
from_pending-Unwraps Kind.bytes (Pending.bytes r) = (refl, refl, refl)
from_pending-Unwraps Kind.str (Pending.str r) = (refl, refl, refl)
from_pending-Unwraps Kind.u64 (Pending.u64 r) = (refl, refl, refl)
from_pending-Unwraps Kind.unit (Pending.unit r) = (refl, refl, refl)
from_pending-Unwraps _ p = (refl, λ e. cc)

-- Likewise for values.
abbrev pub Reads : (k : Kind) → Value → Option (Payload k) → Type 0
Reads k v (some w) = (v ≡ into_value k w) × (kind_of v ≡ k)
Reads k v none = ¬ (kind_of v ≡ k)

-- `from_value` at kind `k` reads a value of kind `k`, the one that `into_value` makes of what it
-- returns, and refuses exactly the values of the other kinds.
pub from_value-Reads : (k : Kind) (v : Value) → Reads k v (from_value k v)
unfolding from_value into_value kind_of
from_value-Reads Kind.bytes (Value.bytes w) = (refl, refl)
from_value-Reads Kind.str (Value.str w) = (refl, refl)
from_value-Reads Kind.u64 (Value.u64 w) = (refl, refl)
from_value-Reads Kind.unit Value.unit = (refl, refl)
from_value-Reads _ v = λ e. cc

pub from_value-into_value : (k : Kind) (w : Payload k) → from_value k (into_value k w) ≡ some w
unfolding from_value into_value
from_value-into_value Kind.bytes w = refl
from_value-into_value Kind.str w = refl
from_value-into_value Kind.u64 w = refl
from_value-into_value Kind.unit tt = refl
