-- ===== src/Host/Tests.antt =====
-- Runs of machine.rs, encoded.rs and input.rs, and the theorems on them at concrete inputs.
use mathlib.Core.Option
use sans_effort.Shared.{
  ℕ, suc, ◌≡◌, refl, List, [], ◌∷◌, ◌++◌, Option, none, some, Result, ok, err, true, false, length,
  arith,
}
use sans_effort.Codec.Utf8
use sans_effort.Codec.Reader.{trailing_bytes}
use sans_effort.Codec.Writer.{Write}
use sans_effort.Codec.Writer
use sans_effort.Reply.{Kind, Pending, ReplyHandle}
use sans_effort.Reply
use sans_effort.Batch.{Batch, as_slice}
use sans_effort.Outbox
use sans_effort.Driver.{Yield}
use sans_effort.Driver.Stepper
use sans_effort.Driver.Stepper.{Routine, Stepper}
use sans_effort.Host.{Error, stale, bad_input, wrong_kind, busy}
use sans_effort.Host
use sans_effort.Host.Machine.{Wallet, Machine, HostEffect, Shown, show, take_pending, reply_shown}
use sans_effort.Host.Machine
use sans_effort.Host.Pending.{Table}
use sans_effort.Host.Wallet.{IsValid, show-IsValid}
use sans_effort.Codec.Values.{to_bytes, from_bytes}
use sans_effort.Host.Record.{Outcome, Event, Log, log_wire}
use sans_effort.Host.Record.Crossing.{decode_log-encode_log}
use sans_effort.Host.Handles.{Handles, issue}
use sans_effort.Host.Handles
use sans_effort.Host.Handles.Fresh.{Issued, issue-Issued}
use sans_effort.Host.Takes.{Takes, Keeps, reply_shown-Keeps}
use sans_effort.Host.Input.{Input, decode, reply_record, Fits, decode-reply_record}
use sans_effort.Host.Encoded.{encode}
use sans_effort.Host.Frames.{read_frames, frames, read_frames-encode}

abbrev handle : ℕ → ReplyHandle
handle id = record { driver = 4; id = id }

abbrev three_pending : Table
three_pending =
    (1, Pending.u64 (handle 1)) ∷ (2, Pending.str (handle 2)) ∷ (5, Pending.unit (handle 5)) ∷ []

abbrev never : List ℕ
never = 3 ∷ 4 ∷ []

abbrev wallet : Wallet
wallet = record { pending = three_pending; highest_shown = 5; never_shown = never }

-- What `swap_remove` leaves of the three.
abbrev two_left : Table
two_left = (5, Pending.unit (handle 5)) ∷ (2, Pending.str (handle 2)) ∷ []

take_one : take_pending 1 wallet ≡ ok (Pending.u64 (handle 1), record wallet { pending = two_left })
unfolding take_pending Machine.position Machine.take_at Machine.swap_remove Machine.pop
take_one = refl

take_never : take_pending 4 wallet ≡ err bad_input
unfolding take_pending Machine.position Machine.take_at Machine.was_shown Machine.contains
take_never = refl

three-IsDistinct : Host.Pending.IsDistinct three_pending
three-IsDistinct =
    (((λ e. ground arith), ((λ e. ground arith), tt)), (((λ e. ground arith), tt), (tt, tt)))

-- A routine that never asks.
abbrev quiet : Routine (Unit {0}) ℕ
quiet = record {
  poll_future = λ future waker shared. some ((false, future), shared);
  drop_future = λ future shared. some shared;
  wake = λ waker shared. some shared;
}

abbrev as_itself : HostEffect ℕ ℕ
as_itself = record { split = λ effect. (effect, none) }

abbrev machine : Machine (Unit {0}) ℕ
machine = record { driver = Stepper.new tt 8 (Outbox.new 4); wallet = wallet }

-- Request 1 awaits a number, and text is sent.
abbrev text : List ℕ
text = b'h' ∷ b'i' ∷ []

abbrev errors :
    Option (Result (Yield (Shown ℕ)) Error × Machine (Unit {0}) ℕ) → Option (Option Error)
errors = Option.map (λ (r, m). elim r [ ok _ ↦ none | err e ↦ some e ])

reply_wrong_kind :
    errors (reply_shown quiet as_itself Kind.str 1 text machine)
    ≡ some (some (wrong_kind 1 Kind.u64 Kind.str))
unfolding reply_shown Machine.take take_pending Machine.position Machine.take_at Machine.swap_remove
    Machine.pop Machine.reply_pending Machine.reply_taken Reply.from_pending Reply.pending_kind
    Reply.kind_of Reply.into_value Stepper.is_finished Stepper.new
reply_wrong_kind = refl

reply_shown-Keeps_example :
    Keeps quiet as_itself machine (reply_shown quiet as_itself Kind.str 1 text machine)
reply_shown-Keeps_example =
    reply_shown-Keeps quiet as_itself machine Kind.str 1 text three-IsDistinct

-- The host replies "hi" to request 7.
abbrev greeting : Input
greeting = Input.str 7 text

greeting-Fits : Fits greeting
unfolding Utf8.invalid_from
greeting-Fits = (omega arith, omega arith, refl)

decode-reply_record_example :
    (line : List ℕ) × (reply_record greeting [] ≡ some line)
    × (decode line ≡ ok greeting)
    × ((extra : ℕ) (more : List ℕ)
        → decode (line ++ extra ∷ more) ≡ err (trailing_bytes (suc (length more))))
decode-reply_record_example = decode-reply_record greeting greeting-Fits

-- An ask and a tell, each a byte, and a closed id.
abbrev two_shown : Batch (Shown ℕ)
two_shown = Batch.two (record { view = 65; awaits = true }) (record { view = 66; awaits = false })

abbrev closed_one : List ℕ
closed_one = 1 ∷ []

abbrev step : Yield (Shown ℕ)
step = record { effects = two_shown; closed = closed_one }

abbrev byte : ℕ → List ℕ
byte v = v ∷ []

read_frames-encode_example :
    (bytes : List ℕ) × (encode Writer.u8 step ≡ some bytes)
    × (read_frames (length bytes) bytes ≡ ok (frames Writer.u8 byte step))
read_frames-encode_example =
    read_frames-encode Writer.u8 byte (λ v w. unfold Writer.u8 in refl) step
      (unfold as_slice in (omega arith, (omega arith, tt)))

wallet-IsValid : IsValid wallet
wallet-IsValid = (three-IsDistinct, omega arith)

-- Effect 6 asks for a number under its own id.
abbrev asks_six : HostEffect ℕ ℕ
asks_six = record { split = λ effect. (effect, some (Pending.u64 (handle effect))) }

abbrev six : Yield ℕ
six = record { effects = Batch.one 6; closed = closed_one }

show-IsValid_example : IsValid (show asks_six six wallet).1
show-IsValid_example =
    show-IsValid asks_six six wallet wallet-IsValid
      (unfold as_slice Reply.pending_id in (omega arith, tt))

-- A recording of a machine that is resumed, replied to and freed.
abbrev root_handle : List ℕ
root_handle = 9 ∷ []

abbrev awaited : Outcome
awaited = record { status = Host.ℤ.pos 0; bytes = text }

abbrev malformed_reply : Outcome
malformed_reply = record { status = Host.ℤ.negsuc 6; bytes = [] }

abbrev recorded : List Event
recorded = Event.resume 0 awaited ∷ Event.reply 0 text malformed_reply ∷ Event.free 0 awaited ∷ []

abbrev recording : Log
recording = record { handles = root_handle; events = recorded }

decode_log-encode_log_example :
    (bytes : List ℕ) × (to_bytes log_wire recording ≡ some bytes)
    × (from_bytes log_wire bytes ≡ ok recording)
decode_log-encode_log_example = decode_log-encode_log recording (omega arith)

abbrev machines_three : List ℕ
machines_three = 5 ∷ 6 ∷ []

abbrev pinned_one : List ℕ
pinned_one = 7 ∷ []

abbrev handles : Handles
handles = record { machines = machines_three; parked = []; pinned = pinned_one; next = 5 }

abbrev again : List ℕ
again = 6 ∷ []

-- 6 is in use, and so are 5 and 7.
issue_eight : issue 4 again handles ≡ some (8, record handles { next = 9 })
unfolding issue Host.Handles.issue_loop Host.Handles.in_use Host.Handles.after Machine.contains
issue_eight = refl

issue-Issued_example : Issued handles (issue 4 again handles)
issue-Issued_example =
    issue-Issued 4 again handles (omega arith) (omega arith) (omega arith) (omega arith)
