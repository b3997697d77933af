-- ===== src/Reply/Answers.antt =====
-- sans-effort-core/src/reply.rs, `Answer` and `check`: answers that cross as bytes.
use sans_effort.Shared.{◌≡◌, ap, ◌∙◌, some, ok}
use sans_effort.Codec.Values.{Wire}
use sans_effort.Codec.RoundTrip.{Crosses, from_bytes-to_bytes}
use sans_effort.Reply.{Payload, Answer, into_value, check, coded_answer, dropped}
use sans_effort.Reply.Menu.{from_value-into_value}

-- The wire form of `a`: it is made without a panic, the slot's check accepts it, and it reads back.
pub record Answers {A : Type 0} (t : Answer A) (a : A) : Type 0 where
  pub form : Payload t.wire
  pub made : t.into_wire a ≡ some form
  pub accepted : check t (into_value t.wire form) ≡ some (ok tt)
  pub read : t.from_wire form ≡ ok a

pub check-into_value :
    {A : Type 0} (t : Answer A) (form : Payload t.wire)
    → check t (into_value t.wire form) ≡ some (t.check form)
unfolding check
check-into_value t form = rw (from_value-into_value t.wire form, check)

-- A `Result` or an `Option`, or any other answer that crosses as bytes in the codec, answers
-- whenever its value crosses.
pub Crosses-Answers : {A : Type 0} (t : Wire A) (a : A) → Crosses t a → Answers (coded_answer t) a
Crosses-Answers t a c = record {
  form = bs;
  made = made;
  accepted = check-into_value (coded_answer t) bs ∙ ap (λ r. some (dropped r)) read;
  read = read;
}
  where
    open from_bytes-to_bytes t a c use {«0» as bs, «1» as made, «2» as read}
