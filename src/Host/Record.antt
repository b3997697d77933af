-- ===== src/Host/Record.antt =====
-- sans-effort-host/src/record.rs: the log of a recording, and how it crosses as bytes. Recording
-- and replaying, which call the handle table, are not here.
pub mod Crossing
use sans_effort.Shared.{
  ℕ, zero, suc, ◌+◌, ◌-◌, ◌^◌, List, [], ◌∷◌, ◌++◌, Option, none, some, Result, ok, err, ◌>>=◌, ltb,
  ◌==◌, if◌then◌else◌, length, get_elem?, u32_mod,
}
use sans_effort.Codec.Reader.{Reader, DecodeError}
use sans_effort.Codec.Reader
use sans_effort.Codec.Writer.{Write, ◌>>>◌}
use sans_effort.Codec.Writer
use sans_effort.Codec.Values.{Wire, unknown}
use sans_effort.Driver.{Status}
use sans_effort.Host.{Error, ℤ, pos, negsuc, code, status_code}

pub record Outcome : Type 0 where
  pub status : ℤ
  pub bytes : List ℕ

pub data Event : Type 0 where
  resume : ℕ → Outcome → Event
  reply : ℕ → List ℕ → Outcome → Event
  free : ℕ → Outcome → Event

pub record Log : Type 0 where
  pub handles : List ℕ
  pub events : List Event

unfoldable pub machine_of : Event → ℕ
machine_of (Event.resume machine _) = machine
machine_of (Event.reply machine _ _) = machine
machine_of (Event.free machine _) = machine

unfoldable pub outcome_of : Event → Outcome
outcome_of (Event.resume _ outcome) = outcome
outcome_of (Event.reply _ _ outcome) = outcome
outcome_of (Event.free _ outcome) = outcome

-- The count of a list as a `u32`, or the largest.
unfoldable pub count_u32 : ℕ → ℕ
count_u32 n = if ltb n u32_mod then n else u32_mod - 1

unfoldable pub adopt : ℕ → Log → ℕ × Log
adopt handle log =
    (count_u32 (length log.handles), record log { handles = log.handles ++ handle ∷ [] })

unfoldable pub push : Event → Log → Log
push event log = record log { events = log.events ++ event ∷ [] }

unfoldable pub handle_at : ℕ → Log → Option ℕ
handle_at machine log = get_elem? log.handles machine

unfoldable pub outcome : Result (List ℕ × Status) Error → Outcome
outcome (ok (bytes, status)) = record { status = status_code status; bytes = bytes }
outcome (err error) = record { status = code error; bytes = [] }

-- `u32::from_le_bytes(code.to_le_bytes())` and back: two's complement.
unfoldable pub i32_to_u32 : ℤ → ℕ
i32_to_u32 (pos n) = n
i32_to_u32 (negsuc n) = 2 ^ 32 - (n + 1)

unfoldable pub u32_to_i32 : ℕ → ℤ
u32_to_i32 v = if ltb v (2 ^ 31) then pos v else negsuc (2 ^ 32 - 1 - v)

unfoldable pub encode_outcome : Outcome → Write
encode_outcome o = Writer.u32 (i32_to_u32 o.status) >>> Writer.bytes o.bytes

unfoldable pub decode_outcome : Reader Outcome
decode_outcome line = do
  (v, left) ← Reader.u32 line
  (bytes, left) ← Reader.bytes left
  ok (record { status = u32_to_i32 v; bytes = bytes }, left)

unfoldable pub encode_event : Event → Write
encode_event (Event.resume machine o) = Writer.u8 1 >>> (Writer.u32 machine >>> encode_outcome o)
encode_event (Event.reply machine line o) =
    Writer.u8 2 >>> (Writer.u32 machine >>> (Writer.bytes line >>> encode_outcome o))
encode_event (Event.free machine o) = Writer.u8 3 >>> (Writer.u32 machine >>> encode_outcome o)

abbrev read_call : (ℕ → Outcome → Event) → Reader Event
read_call f line = do
  (machine, left) ← Reader.u32 line
  (o, left) ← decode_outcome left
  ok (f machine o, left)

abbrev read_reply : Reader Event
read_reply line = do
  (machine, left) ← Reader.u32 line
  (replied, left) ← Reader.bytes left
  (o, left) ← decode_outcome left
  ok (Event.reply machine replied o, left)

unfoldable pub decode_event : Reader Event
decode_event line = do
  (tag, left) ← Reader.u8 line
  (if tag == 1
        then read_call Event.resume
        else if tag == 2
        then read_reply
        else if tag == 3
        then read_call Event.free
        else unknown tag)
      left

module _ {A : Type 0} where
  unfoldable pub encode_each : (A → Write) → List A → Write
  encode_each encode [] = Writer.nothing
  encode_each encode (a ∷ as_) = encode a >>> encode_each encode as_

  -- `(0..n).map(|_| …).collect::<Result<_, _>>()`.
  unfoldable pub read_times : Reader A → ℕ → Reader (List A)
  read_times decode zero line = ok ([], line)
  read_times decode (suc n) line = do
    (a, left) ← decode line
    (rest, left) ← read_times decode n left
    ok (a ∷ rest, left)

unfoldable pub encode_log : Log → Write
encode_log log =
    Writer.u32 (count_u32 (length log.handles))
    >>> (encode_each Writer.u64 log.handles
        >>> (Writer.u32 (count_u32 (length log.events)) >>> encode_each encode_event log.events))

unfoldable pub decode_log : Reader Log
decode_log line = do
  (n, left) ← Reader.u32 line
  (handles, left) ← read_times Reader.u64 n left
  (k, left) ← Reader.u32 left
  (events, left) ← read_times decode_event k left
  ok (record { handles = handles; events = events }, left)

abbrev pub outcome_wire : Wire Outcome
outcome_wire = record { encode = encode_outcome; decode = decode_outcome }

abbrev pub event_wire : Wire Event
event_wire = record { encode = encode_event; decode = decode_event }

abbrev pub log_wire : Wire Log
log_wire = record { encode = encode_log; decode = decode_log }
