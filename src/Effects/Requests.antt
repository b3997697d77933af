-- ===== src/Effects/Requests.antt =====
-- sans-effort-effects/src: what the records of the requests and of the errors carry across.
use sans_effort.Shared.{
  ℕ, ◌+◌, ◌*◌, ◌/◌, ◌≤◌, ◌<◌, ◌≡◌, refl, List, [], ◌∷◌, ◌++◌, append-nil, append_assoc, some, ok,
  ◌⊎◌, u64_mod, arith,
}
use sans_effort.Codec.Reader.{u8-cons, Reader}
use sans_effort.Codec.Reader
use sans_effort.Codec.Writer
use sans_effort.Codec.Values.{to_bytes, from_bytes, string_wire, vec_wire, u64_wire}
use sans_effort.Codec.RoundTrip.{Crosses, Prints->>>, Crosses-u64}
use sans_effort.Effects.{
  FsError, not_found, permission_denied, other, encode_fs_error, decode_fs_error, fs_error_wire,
  WriteFileEffect, encode_write_file, decode_write_file, write_file_wire, ReadLineError, closed,
  failed, encode_read_line_error, decode_read_line_error, read_line_error_wire, millis, saturate,
  encode_sleep, decode_sleep, sleep_wire, nanos_per_milli,
}

pub Crosses-fs_error : (e : FsError) → Crosses fs_error_wire e
unfolding encode_fs_error decode_fs_error Writer.u8
Crosses-fs_error not_found = record {
  printed = 0 ∷ [];
  prints = λ w. refl;
  reads = λ rest. rw (u8-cons 0 rest);
}
Crosses-fs_error permission_denied = record {
  printed = 1 ∷ [];
  prints = λ w. refl;
  reads = λ rest. rw (u8-cons 1 rest);
}
Crosses-fs_error other = record {
  printed = 2 ∷ [];
  prints = λ w. refl;
  reads = λ rest. rw (u8-cons 2 rest);
}

pub Crosses-read_line_error : (e : ReadLineError) → Crosses read_line_error_wire e
unfolding encode_read_line_error decode_read_line_error Writer.u8
Crosses-read_line_error closed = record {
  printed = 0 ∷ [];
  prints = λ w. refl;
  reads = λ rest. rw (u8-cons 0 rest);
}
Crosses-read_line_error failed = record {
  printed = 1 ∷ [];
  prints = λ w. refl;
  reads = λ rest. rw (u8-cons 1 rest);
}

pub Crosses-write_file :
    (effect : WriteFileEffect)
    → Crosses string_wire effect.path
    → Crosses vec_wire effect.contents
    → Crosses write_file_wire effect
unfolding encode_write_file decode_write_file
Crosses-write_file effect p c = record {
  printed = p.printed ++ c.printed;
  prints = Prints->>> p.prints c.prints;
  reads =
      λ rest. rw (append_assoc p.printed c.printed rest, p.reads (c.printed ++ rest), c.reads rest);
}

-- What a host makes of a sleep of `d` nanoseconds.
abbrev pub Rounds : ℕ → ℕ → Type 0
Rounds d r = (r ≤ d) × ((d < r + nanos_per_milli) ⊎ (u64_mod ≤ d / nanos_per_milli))

millis-lt : (d : ℕ) → millis d < u64_mod
unfolding millis saturate
millis-lt d = ground arith

millis-Rounds : (d : ℕ) → Rounds d (millis d * nanos_per_milli)
unfolding millis saturate
millis-Rounds d = ground arith

-- A sleep is written without a panic, and what a host reads lasts no longer than the sleep, and
-- less than a millisecond shorter unless its milliseconds do not fit in 64 bits.
pub sleep-Rounds :
    (d : ℕ)
    → (bs : List ℕ) × (r : ℕ) × (to_bytes sleep_wire d ≡ some bs)
      × (from_bytes sleep_wire bs ≡ ok r)
      × Rounds d r
unfolding encode_sleep decode_sleep to_bytes from_bytes Reader.finish
sleep-Rounds d =
    let c = Crosses-u64 (millis d) (millis-lt d) in
    (c.printed, millis d * nanos_per_milli, c.prints [], read c, millis-Rounds d)
  where
    read :
        (c : Crosses u64_wire (millis d))
        → from_bytes sleep_wire c.printed ≡ ok (millis d * nanos_per_milli)
    read c = rw (← append-nil c.printed, c.reads [])
