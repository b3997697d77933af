-- ===== src/Host/Record/Crossing.antt =====
-- sans-effort-host/src/record.rs, `Encode` and `Decode` for a log: writing against reading.
use sans_effort.Shared.{
  ℕ, ◌+◌, ◌-◌, ◌^◌, ◌<◌, ◌≡◌, refl, sym, ap, List, [], ◌∷◌, ◌++◌, append-nil, append_assoc, some,
  ok, ltb, lt→ltb, ltb→lt, length, All, u32_mod, u64_mod, arith, Bool-cases, inl, inr,
}
use sans_effort.Codec.Reader.{u8-cons}
use sans_effort.Codec.Writer.{Write, ◌>>>◌}
use sans_effort.Codec.Writer
use sans_effort.Codec.Values.{to_bytes, from_bytes, Wire, u64_wire, u32_wire}
use sans_effort.Codec.RoundTrip.{
  Crosses, Prints, Prints->>>, Reads, from_bytes-to_bytes, Crosses-u32, Crosses-u64, Crosses-vec,
}
use sans_effort.Host.{ℤ, pos, negsuc}
use sans_effort.Host.Input.{Prints-u8}
use sans_effort.Host.Record.{
  Outcome, Event, Log, count_u32, i32_to_u32, u32_to_i32, encode_outcome, decode_outcome,
  encode_event, decode_event, encode_each, read_times, encode_log, decode_log, outcome_wire,
  event_wire, log_wire,
}

-- The `i32`s.
abbrev pub IsI32 : ℤ → Type 0
IsI32 (pos n) = n < 2 ^ 31
IsI32 (negsuc n) = n < 2 ^ 31

i32_to_u32-lt : (z : ℤ) → IsI32 z → i32_to_u32 z < u32_mod
unfolding i32_to_u32
i32_to_u32-lt (pos n) h = omega arith
i32_to_u32-lt (negsuc n) h = omega arith

u32_to_i32-i32_to_u32 : (z : ℤ) → IsI32 z → u32_to_i32 (i32_to_u32 z) ≡ z
unfolding i32_to_u32 u32_to_i32
u32_to_i32-i32_to_u32 (pos n) h = rw (lt→ltb n (2 ^ 31) h) refl
u32_to_i32-i32_to_u32 (negsuc n) h = elim (Bool-cases (ltb (2 ^ 32 - (n + 1)) (2 ^ 31))) [
  | inl low ↦ absurd (omega (arith, ltb→lt (2 ^ 32 - (n + 1)) (2 ^ 31) low))
  | inr high ↦ rw high (ap negsuc (omega arith))
]

abbrev pub OutcomeFits : Outcome → Type 0
OutcomeFits o = IsI32 o.status × (length o.bytes < u32_mod)

abbrev pub EventFits : Event → Type 0
EventFits (Event.resume machine o) = (machine < u32_mod) × OutcomeFits o
EventFits (Event.reply machine line o) =
    (machine < u32_mod) × (length line < u32_mod) × OutcomeFits o
EventFits (Event.free machine o) = (machine < u32_mod) × OutcomeFits o

-- Every number, length and count fits its width.
abbrev pub LogFits : Log → Type 0
LogFits log =
    (length log.handles < u32_mod)
    × All (λ handle. handle < u64_mod) log.handles
    × (length log.events < u32_mod)
    × All EventFits log.events

outcome-Crosses : (o : Outcome) → OutcomeFits o → Crosses outcome_wire o
unfolding encode_outcome decode_outcome
outcome-Crosses o (h, l) =
    let v = Crosses-u32 (i32_to_u32 o.status) (i32_to_u32-lt o.status h) in
    let b = Crosses-vec o.bytes l in
    record {
      printed = v.printed ++ b.printed;
      prints = Prints->>> v.prints b.prints;
      reads = λ rest.
          rw
            (
              append_assoc v.printed b.printed rest,
              v.reads (b.printed ++ rest),
              b.reads rest,
              u32_to_i32-i32_to_u32 o.status h,
            )
            refl;
    }

-- A call with a machine and an outcome.
module _ (machine : ℕ) (o : Outcome) (h : machine < u32_mod) (fits : OutcomeFits o) where
  called : Crosses u32_wire machine × Crosses outcome_wire o
  called = (Crosses-u32 machine h, outcome-Crosses o fits)

event-Crosses : (event : Event) → EventFits event → Crosses event_wire event
unfolding encode_event decode_event
event-Crosses (Event.resume machine o) (h, f) =
    let (m, c) = called machine o h f in
    record {
      printed = 1 ∷ (m.printed ++ c.printed);
      prints = Prints-u8 1 (Prints->>> m.prints c.prints);
      reads = λ rest.
          rw
            (
              u8-cons 1 ((m.printed ++ c.printed) ++ rest),
              append_assoc m.printed c.printed rest,
              m.reads (c.printed ++ rest),
              c.reads rest,
            )
            refl;
    }
event-Crosses (Event.free machine o) (h, f) =
    let (m, c) = called machine o h f in
    record {
      printed = 3 ∷ (m.printed ++ c.printed);
      prints = Prints-u8 3 (Prints->>> m.prints c.prints);
      reads = λ rest.
          rw
            (
              u8-cons 3 ((m.printed ++ c.printed) ++ rest),
              append_assoc m.printed c.printed rest,
              m.reads (c.printed ++ rest),
              c.reads rest,
            )
            refl;
    }
event-Crosses (Event.reply machine line o) (h, l, f) =
    let (m, c) = called machine o h f in
    let b = Crosses-vec line l in
    record {
      printed = 2 ∷ (m.printed ++ (b.printed ++ c.printed));
      prints = Prints-u8 2 (Prints->>> m.prints (Prints->>> b.prints c.prints));
      reads = λ rest.
          rw
            (
              u8-cons 2 ((m.printed ++ (b.printed ++ c.printed)) ++ rest),
              append_assoc m.printed (b.printed ++ c.printed) rest,
              append_assoc b.printed c.printed rest,
              m.reads (b.printed ++ (c.printed ++ rest)),
              b.reads (c.printed ++ rest),
              c.reads rest,
            )
            refl;
    }

record EachCrosses {A : Type 0} (t : Wire A) (xs : List A) : Type 0 where
  printed : List ℕ
  prints : Prints (encode_each t.encode xs) printed
  reads : Reads (read_times t.decode (length xs)) printed xs

each_Crosses :
    {A : Type 0} (t : Wire A) (P : A → Type 0)
    → ((a : A) → P a → Crosses t a)
    → (xs : List A) → All P xs
    → EachCrosses t xs
unfolding encode_each read_times Writer.nothing
each_Crosses t P crosses [] a = record {
  printed = [];
  prints = λ w. ap some (sym (append-nil w));
  reads = λ rest. refl;
}
each_Crosses t P crosses (x ∷ xs) (p, ps) =
    let c = crosses x p in
    let cs = each_Crosses t P crosses xs ps in
    record {
      printed = c.printed ++ cs.printed;
      prints = Prints->>> c.prints cs.prints;
      reads = λ rest.
          rw (append_assoc c.printed cs.printed rest, c.reads (cs.printed ++ rest), cs.reads rest)
            refl;
    }

count_u32-lt : (n : ℕ) → n < u32_mod → count_u32 n ≡ n
unfolding count_u32
count_u32-lt n h = rw (lt→ltb n u32_mod h) refl

log-Crosses : (log : Log) → LogFits log → Crosses log_wire log
unfolding encode_log decode_log
log-Crosses log (n, hs, k, es) =
    let c = Crosses-u32 (length log.handles) n in
    let handles = each_Crosses u64_wire (λ handle. handle < u64_mod) Crosses-u64 log.handles hs in
    let d = Crosses-u32 (length log.events) k in
    let events = each_Crosses event_wire EventFits event-Crosses log.events es in
    record {
      printed = c.printed ++ (handles.printed ++ (d.printed ++ events.printed));
      prints =
          rw (count_u32-lt (length log.handles) n, count_u32-lt (length log.events) k)
            (Prints->>> c.prints (Prints->>> handles.prints (Prints->>> d.prints events.prints)));
      reads = λ rest.
          rw
            (
              append_assoc c.printed (handles.printed ++ (d.printed ++ events.printed)) rest,
              append_assoc handles.printed (d.printed ++ events.printed) rest,
              append_assoc d.printed events.printed rest,
              c.reads (handles.printed ++ (d.printed ++ (events.printed ++ rest))),
              handles.reads (d.printed ++ (events.printed ++ rest)),
              d.reads (events.printed ++ rest),
              events.reads rest,
            )
            refl;
    }

-- A log whose numbers, lengths and counts fit their widths: `to_bytes` writes it without a panic,
-- and `from_bytes` reads the same log back.
pub decode_log-encode_log :
    (log : Log)
    → LogFits log
    → (bytes : List ℕ) × (to_bytes log_wire log ≡ some bytes) × (from_bytes log_wire bytes ≡ ok log)
decode_log-encode_log log fits =
    let (bytes, written, read, _) = from_bytes-to_bytes log_wire log (log-Crosses log fits) in
    (bytes, written, read)
