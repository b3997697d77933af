-- ===== src/Reply.antt =====
-- sans-effort-core/src/reply.rs, reply/handle.rs, reply/kind.rs, reply/value.rs and
-- boundary/pending.rs: the four kinds of reply, and the answers that cross as one of them. The
-- four implementations of the sealed trait `Reply` are functions of the kind. A handle's type
-- parameter is a phantom and is left out.
pub mod Menu
pub mod Answers
mod Tests
use sans_effort.Shared.{ℕ, List, Option, none, some, Result, ok, err, ◌>>=◌, Bool, ◌&&◌, ◌==◌}
use sans_effort.Codec.Reader.{DecodeError}
use sans_effort.Codec.Values.{Wire, to_bytes, from_bytes, result_wire, option_wire}

pub data Kind : Type 0 where
  bytes str u64 unit : Kind

pub data Value : Type 0 where
  bytes : List ℕ → Value
  str : List ℕ → Value
  u64 : ℕ → Value
  unit : Value

unfoldable pub kind_of : Value → Kind
kind_of (Value.bytes _) = Kind.bytes
kind_of (Value.str _) = Kind.str
kind_of (Value.u64 _) = Kind.u64
kind_of Value.unit = Kind.unit

pub record ReplyHandle : Type 0 where
  pub driver : ℕ
  pub id : ℕ

unfoldable pub mint : ℕ → ℕ → ReplyHandle
mint driver id = record { driver = driver; id = id }

unfoldable pub into_parts : ReplyHandle → ℕ × ℕ
into_parts h = (h.driver, h.id)

-- `PartialEq for ReplyHandle`.
unfoldable pub same_handle : ReplyHandle → ReplyHandle → Bool
same_handle a b = a.driver == b.driver && a.id == b.id

pub data Pending : Type 0 where
  bytes : ReplyHandle → Pending
  str : ReplyHandle → Pending
  u64 : ReplyHandle → Pending
  unit : ReplyHandle → Pending

unfoldable pub pending_id : Pending → ℕ
pending_id (Pending.bytes r) = r.id
pending_id (Pending.str r) = r.id
pending_id (Pending.u64 r) = r.id
pending_id (Pending.unit r) = r.id

unfoldable pub pending_kind : Pending → Kind
pending_kind (Pending.bytes _) = Kind.bytes
pending_kind (Pending.str _) = Kind.str
pending_kind (Pending.u64 _) = Kind.u64
pending_kind (Pending.unit _) = Kind.unit

-- The type that implements `Reply` at each kind.
abbrev pub Payload : Kind → Type 0
Payload Kind.bytes = List ℕ
Payload Kind.str = List ℕ
Payload Kind.u64 = ℕ
Payload Kind.unit = Unit {0}

unfoldable pub into_value : (k : Kind) → Payload k → Value
into_value Kind.bytes v = Value.bytes v
into_value Kind.str v = Value.str v
into_value Kind.u64 v = Value.u64 v
into_value Kind.unit _ = Value.unit

unfoldable pub from_value : (k : Kind) → Value → Option (Payload k)
from_value Kind.bytes (Value.bytes v) = some v
from_value Kind.str (Value.str v) = some v
from_value Kind.u64 (Value.u64 v) = some v
from_value Kind.unit Value.unit = some tt
from_value _ _ = none

unfoldable pub into_pending : Kind → ReplyHandle → Pending
into_pending Kind.bytes r = Pending.bytes r
into_pending Kind.str r = Pending.str r
into_pending Kind.u64 r = Pending.u64 r
into_pending Kind.unit r = Pending.unit r

unfoldable pub from_pending : Kind → Pending → Result ReplyHandle Pending
from_pending Kind.bytes (Pending.bytes r) = ok r
from_pending Kind.str (Pending.str r) = ok r
from_pending Kind.u64 (Pending.u64 r) = ok r
from_pending Kind.unit (Pending.unit r) = ok r
from_pending _ other = err other

-- The trait `Answer`. Encoding an answer panics on 4 GiB, and is `none` then.
pub record Answer (A : Type 0) : Type 0 where
  pub wire : Kind
  pub into_wire : A → Option (Payload wire)
  pub from_wire : Payload wire → Result A DecodeError
  pub check : Payload wire → Result (Unit {0}) DecodeError

abbrev pub dropped : {A : Type 0} → Result A DecodeError → Result (Unit {0}) DecodeError
dropped r = r >>= λ _. ok tt

-- `answers_as_itself!`.
abbrev pub answers_as_itself : (k : Kind) → Answer (Payload k)
answers_as_itself k = record {
  wire = k;
  into_wire = λ v. some v;
  from_wire = λ v. ok v;
  check = λ _. ok tt;
}

-- An answer that crosses as bytes, in the codec.
abbrev pub coded_answer : {A : Type 0} → Wire A → Answer A
coded_answer t = record {
  wire = Kind.bytes;
  into_wire = to_bytes t;
  from_wire = from_bytes t;
  check = λ v. dropped (from_bytes t v);
}

abbrev pub result_answer : {T E : Type 0} → Wire T → Wire E → Answer (Result T E)
result_answer t e = coded_answer (result_wire t e)

abbrev pub option_answer : {T : Type 0} → Wire T → Answer (Option T)
option_answer t = coded_answer (option_wire t)

-- The check that a mailbox slot runs; `none` is the `unreachable!`.
abbrev pub Check : Type 0
Check = Value → Option (Result (Unit {0}) DecodeError)

unfoldable pub check : {A : Type 0} → Answer A → Check
check a value = elim (from_value a.wire value) [ none ↦ none | some wire ↦ some (a.check wire) ]
