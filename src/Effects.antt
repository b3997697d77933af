-- ===== src/Effects.antt =====
-- sans-effort-effects/src: the requests that a routine makes of its host, their records and their
-- answers (ask.rs, fs.rs, console.rs, env.rs, random.rs and time.rs). A `Duration` is its
-- nanoseconds.
pub mod Requests
use sans_effort.Shared.{
  ℕ, ◌-◌, ◌*◌, ◌/◌, List, Option, some, Result, ok, ◌>>=◌, ltb, ◌==◌, if◌then◌else◌, u64_mod,
}
use sans_effort.Codec.Reader.{Reader}
use sans_effort.Codec.Reader
use sans_effort.Codec.Writer.{Write, ◌>>>◌}
use sans_effort.Codec.Writer
use sans_effort.Codec.Values.{Wire, read_as, unknown, string_wire, vec_wire, unit_wire, u32_wire}
use sans_effort.Reply.{Kind, Answer, ReplyHandle, result_answer, option_answer}

-- A request, and the handle that it is answered through.
pub record Asked (R : Type 0) : Type 0 where
  pub request : R
  pub reply : ReplyHandle

-- fs.rs.
pub data FsError : Type 0 where
  not_found permission_denied other : FsError

unfoldable pub encode_fs_error : FsError → Write
encode_fs_error not_found = Writer.u8 0
encode_fs_error permission_denied = Writer.u8 1
encode_fs_error other = Writer.u8 2

unfoldable pub decode_fs_error : Reader FsError
decode_fs_error bytes = do
  (tag, left) ← Reader.u8 bytes
  (if tag == 0
        then (λ left. ok (not_found, left))
        else if tag == 1
        then (λ left. ok (permission_denied, left))
        else if tag == 2
        then (λ left. ok (other, left))
        else unknown tag)
      left

abbrev pub fs_error_wire : Wire FsError
fs_error_wire = record { encode = encode_fs_error; decode = decode_fs_error }

abbrev pub read_file_wire : Wire (List ℕ)
read_file_wire = string_wire

pub record WriteFileEffect : Type 0 where
  pub path : List ℕ
  pub contents : List ℕ

unfoldable pub encode_write_file : WriteFileEffect → Write
encode_write_file effect = Writer.str effect.path >>> Writer.bytes effect.contents

unfoldable pub decode_write_file : Reader WriteFileEffect
decode_write_file bytes = do
  (path, left) ← Reader.str bytes
  (contents, left) ← Reader.bytes left
  ok (record { path = path; contents = contents }, left)

abbrev pub write_file_wire : Wire WriteFileEffect
write_file_wire = record { encode = encode_write_file; decode = decode_write_file }

abbrev pub read_file_answer : Answer (Result (List ℕ) FsError)
read_file_answer = result_answer vec_wire fs_error_wire

abbrev pub write_file_answer : Answer (Result (Unit {0}) FsError)
write_file_answer = result_answer unit_wire fs_error_wire

-- console.rs.
pub data ReadLineError : Type 0 where
  closed failed : ReadLineError

unfoldable pub encode_read_line_error : ReadLineError → Write
encode_read_line_error closed = Writer.u8 0
encode_read_line_error failed = Writer.u8 1

unfoldable pub decode_read_line_error : Reader ReadLineError
decode_read_line_error bytes = do
  (tag, left) ← Reader.u8 bytes
  (if tag == 0
        then (λ left. ok (closed, left))
        else if tag == 1
        then (λ left. ok (failed, left))
        else unknown tag)
      left

abbrev pub read_line_error_wire : Wire ReadLineError
read_line_error_wire = record { encode = encode_read_line_error; decode = decode_read_line_error }

abbrev pub read_line_wire : Wire (Unit {0})
read_line_wire = unit_wire

abbrev pub write_line_wire : Wire (List ℕ)
write_line_wire = string_wire

abbrev pub read_line_answer : Answer (Result (List ℕ) ReadLineError)
read_line_answer = result_answer string_wire read_line_error_wire

-- env.rs.
abbrev pub var_wire : Wire (List ℕ)
var_wire = string_wire

abbrev pub var_answer : Answer (Option (List ℕ))
var_answer = option_answer string_wire

-- random.rs.
abbrev pub random_wire : Wire ℕ
random_wire = u32_wire

-- time.rs.
abbrev pub now_wire : Wire (Unit {0})
now_wire = unit_wire

abbrev nanos_per_milli : ℕ
nanos_per_milli = 1000000

-- `u64::try_from(…).unwrap_or(u64::MAX)`.
unfoldable pub saturate : ℕ → ℕ
saturate n = if ltb n u64_mod then n else u64_mod - 1

unfoldable pub millis : ℕ → ℕ
unfolding saturate
millis duration = saturate (duration / nanos_per_milli)

unfoldable pub encode_sleep : ℕ → Write
encode_sleep duration = Writer.u64 (millis duration)

unfoldable pub decode_sleep : Reader ℕ
decode_sleep = read_as (λ ms. ms * nanos_per_milli) Reader.u64

abbrev pub sleep_wire : Wire ℕ
sleep_wire = record { encode = encode_sleep; decode = decode_sleep }

abbrev pub unix_time_answer : Answer ℕ
unix_time_answer = record {
  wire = Kind.u64;
  into_wire = λ since_epoch. some (saturate since_epoch);
  from_wire = λ nanos. ok nanos;
  check = λ _. ok tt;
}
