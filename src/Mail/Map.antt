-- ===== src/Mail/Map.antt =====
-- driver/mail.rs, as a specification: a map of the open requests.
use sans_effort.Shared.{
  ℕ, ◌+◌, ◌%◌, List, [], ◌∷◌, ◌++◌, Option, none, some, ok, err, Result, ◌==◌, if◌then◌else◌,
  u64_mod,
}
use sans_effort.Codec.Reader.{DecodeError}
use sans_effort.Reply.{Value, ReplyHandle, Check}
use sans_effort.Reply
use sans_effort.Mail.{Slot, Mail, Delivery, delivered, gone, refused, fresh_slot, kept_waker}
use sans_effort.Mail.Slots.{request}

abbrev pub Requests : Type 0
Requests = ℕ → Option Slot

abbrev pub update : ℕ → Option Slot → Requests → Requests
update id slot requests j = if id == j then slot else requests j

pub record Spec : Type 0 where
  pub driver : ℕ
  pub requests : Requests
  pub closed : List ℕ
  pub next : ℕ

-- The mailbox as that map: the order and the closed slots are forgotten.
abbrev pub view : Mail → Spec
view m = record {
  driver = m.driver;
  requests = λ id. request id m.slots;
  closed = m.closed;
  next = m.next;
}

abbrev pub spec_mint : Spec → ReplyHandle × Spec
spec_mint s = (Reply.mint s.driver s.next, record s { next = (s.next + 1) % u64_mod })

abbrev pub spec_open : ℕ → Check → Spec → Spec
spec_open id check s = record s { requests = update id (some (fresh_slot id check)) s.requests }

-- A reply is checked, stored in its slot and the waker given out; a reply that nothing awaits
-- changes nothing, nor does one that is refused.
abbrev pub spec_checked :
    ReplyHandle
    → Value
    → Spec
    → Slot
    → Option (Result (Unit {0}) DecodeError)
    → Option (Delivery × Spec)
spec_checked reply value s slot none = none
spec_checked reply value s slot (some (ok _)) = some (
  delivered slot.waker,
  record s {
    requests = update reply.id (some (record slot { value = some value; waker = none })) s.requests;
  },
)
spec_checked reply value s slot (some (err error)) =
    some (refused (Reply.mint reply.driver reply.id) error, s)

abbrev pub spec_found : ReplyHandle → Value → Spec → Option Slot → Option (Delivery × Spec)
spec_found reply value s none = some (gone, s)
spec_found reply value s (some slot) = spec_checked reply value s slot (slot.check value)

abbrev pub spec_deliver : ReplyHandle → Value → Spec → Option (Delivery × Spec)
spec_deliver reply value s =
    if reply.driver == s.driver then spec_found reply value s (s.requests reply.id) else none

-- A value that has arrived is taken out with its request; else the waker is kept.
abbrev pub spec_value : ℕ → Option ℕ → Spec → Slot → Option Value → Option Value × Spec
spec_value id waker s slot (some value) =
    (some value, record s { requests = update id none s.requests })
spec_value id waker s slot none = (
  none,
  record s {
    requests = update id (some (record slot { waker = kept_waker slot.waker waker })) s.requests;
  },
)

abbrev pub spec_collect_found : ℕ → Option ℕ → Spec → Option Slot → Option Value × Spec
spec_collect_found id waker s none = (none, s)
spec_collect_found id waker s (some slot) = spec_value id waker s slot slot.value

abbrev pub spec_collect : ℕ → Option ℕ → Spec → Option Value × Spec
spec_collect id waker s = spec_collect_found id waker s (s.requests id)

-- A request that is dropped goes, and is reported closed unless its reply had arrived.
abbrev pub spec_close_value : ℕ → Spec → Option Value → Spec
spec_close_value id s none = record s {
  requests = update id none s.requests;
  closed = s.closed ++ id ∷ [];
}
spec_close_value id s (some _) = record s { requests = update id none s.requests }

abbrev pub spec_close_found : ℕ → Spec → Option Slot → Spec
spec_close_found id s none = s
spec_close_found id s (some slot) = spec_close_value id s slot.value

abbrev pub spec_close : ℕ → Spec → Spec
spec_close id s = spec_close_found id s (s.requests id)

abbrev pub spec_take_closed : Spec → List ℕ × Spec
spec_take_closed s = (s.closed, record s { closed = [] })
