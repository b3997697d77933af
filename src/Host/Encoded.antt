-- ===== src/Host/Encoded.antt =====
-- sans-effort-host/src/encoded.rs: a machine whose calls take and return bytes.
use sans_effort.Shared.{ℕ, List, [], ◌∷◌, Option, none, some, Result, ok, err, if◌then◌else◌}
use sans_effort.Codec.Reader.{DecodeError}
use sans_effort.Codec.Writer.{Write, ◌>>>◌}
use sans_effort.Codec.Writer
use sans_effort.Reply.{Kind}
use sans_effort.Batch.{as_slice}
use sans_effort.Driver.{Status, Yield}
use sans_effort.Driver.Stepper.{Routine}
use sans_effort.Host.{Error, malformed, frame_tell, frame_ask, frame_closed}
use sans_effort.Host.Machine.{HostEffect, Shown, Machine, Replied, reply_shown, resume_shown}
use sans_effort.Host.Input.{Input, decode}

-- One closed frame per abandoned id.
unfoldable pub encode_closed : List ℕ → Write
encode_closed [] = Writer.nothing
encode_closed (id ∷ ids) =
    (Writer.u8 frame_closed >>> Writer.nested (Writer.u64 id)) >>> encode_closed ids

module _ {V : Type 0} (view : V → Write) where
  -- One frame per effect.
  unfoldable pub encode_effects : List (Shown V) → Write
  encode_effects [] = Writer.nothing
  encode_effects (shown ∷ effects) =
      (Writer.u8 (if shown.awaits then frame_ask else frame_tell)
        >>> Writer.nested (view shown.view))
      >>> encode_effects effects

  -- `none` is a panic, on a record of 4 GiB.
  unfoldable pub encode : Yield (Shown V) → Option (List ℕ)
  encode step = (encode_effects (as_slice step.effects) >>> encode_closed step.closed) []

  module _ {F E : Type 0} (routine : Routine F E) (host : HostEffect E V) where
    abbrev pub Output : Type 0
    Output = Result (List ℕ × Status) Error × Machine F E

    abbrev with_bytes : Machine F E → Option (List ℕ) → Option Output
    with_bytes m none = none
    with_bytes m (some bytes) = some (ok (bytes, m.driver.status), m)

    unfoldable pub encoded : Option (Replied F E V) → Option Output
    encoded none = none
    encoded (some (err error, m)) = some (err error, m)
    encoded (some (ok shown, m)) = with_bytes m (encode shown)

    unfoldable pub reply_input : Machine F E → Result Input DecodeError → Option Output
    reply_input m (err error) = some (err (malformed error), m)
    reply_input m (ok (Input.bytes id v)) = encoded (reply_shown routine host Kind.bytes id v m)
    reply_input m (ok (Input.str id v)) = encoded (reply_shown routine host Kind.str id v m)
    reply_input m (ok (Input.u64 id v)) = encoded (reply_shown routine host Kind.u64 id v m)
    reply_input m (ok (Input.unit id)) = encoded (reply_shown routine host Kind.unit id tt m)

    unfoldable pub reply : List ℕ → Machine F E → Option Output
    reply line m = reply_input m (decode line)

    unfoldable pub resume : Machine F E → Option Output
    resume m = encoded (resume_shown routine host m)
