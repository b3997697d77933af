-- ===== src/Codec/Values.antt =====
-- codec.rs, the `Encode` and `Decode` traits and their implementations for the types of the
-- standard library.
use sans_effort.Shared.{
  ℕ, List, [], Option, none, some, Result, ok, err, ◌>>=◌, ◌==◌, if◌then◌else◌,
}
use sans_effort.Codec.Reader.{Reader, DecodeError, unknown_tag}
use sans_effort.Codec.Reader
use sans_effort.Codec.Writer.{Write, ◌>>>◌}
use sans_effort.Codec.Writer

-- `Encode` and `Decode`, for a type that has both.
pub record Wire (A : Type 0) : Type 0 where
  pub encode : A → Write
  pub decode : Reader A

module _ {A : Type 0} (t : Wire A) where
  unfoldable pub to_bytes : A → Option (List ℕ)
  to_bytes a = t.encode a []

  unfoldable pub from_bytes : List ℕ → Result A DecodeError
  from_bytes bytes = do (value, left) ← t.decode bytes; _ ← Reader.finish left; ok value

abbrev pub u8_wire : Wire ℕ
u8_wire = record { encode = Writer.u8; decode = Reader.u8 }

abbrev pub u32_wire : Wire ℕ
u32_wire = record { encode = Writer.u32; decode = Reader.u32 }

abbrev pub u64_wire : Wire ℕ
u64_wire = record { encode = Writer.u64; decode = Reader.u64 }

abbrev pub unit_wire : Wire (Unit {0})
unit_wire = record { encode = λ _. Writer.nothing; decode = λ bytes. ok (tt, bytes) }

abbrev pub string_wire : Wire (List ℕ)
string_wire = record { encode = Writer.str; decode = Reader.str }

abbrev pub vec_wire : Wire (List ℕ)
vec_wire = record { encode = Writer.bytes; decode = Reader.bytes }

-- A tagged value: the tag, then what the tag announces.
abbrev pub read_as : {A B : Type 0} → (A → B) → Reader A → Reader B
read_as f decode bytes = do (value, left) ← decode bytes; ok (f value, left)

abbrev pub unknown : {A : Type 0} → ℕ → Reader A
unknown tag _ = err (unknown_tag tag)

module _ {T E : Type 0} (t : Wire T) (e : Wire E) where
  unfoldable pub encode_result : Result T E → Write
  encode_result (ok value) = Writer.u8 0 >>> t.encode value
  encode_result (err error) = Writer.u8 1 >>> e.encode error

  unfoldable pub decode_result : Reader (Result T E)
  decode_result bytes = do
    (tag, left) ← Reader.u8 bytes
    (if tag == 0
          then read_as ok t.decode
          else if tag == 1
          then read_as err e.decode
          else unknown tag)
        left

  abbrev pub result_wire : Wire (Result T E)
  result_wire = record { encode = encode_result; decode = decode_result }

module _ {T : Type 0} (t : Wire T) where
  unfoldable pub encode_option : Option T → Write
  encode_option none = Writer.u8 0
  encode_option (some value) = Writer.u8 1 >>> t.encode value

  unfoldable pub decode_option : Reader (Option T)
  decode_option bytes = do
    (tag, left) ← Reader.u8 bytes
    (if tag == 0
          then (λ left. ok (none, left))
          else if tag == 1
          then read_as some t.decode
          else unknown tag)
        left

  abbrev pub option_wire : Wire (Option T)
  option_wire = record { encode = encode_option; decode = decode_option }
