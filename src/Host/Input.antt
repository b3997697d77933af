-- ===== src/Host/Input.antt =====
-- sans-effort-host/src/encoded/input.rs: one decoded reply record.
use sans_effort.Shared.{
  ℕ, suc, ◌<◌, ◌≡◌, ap, List, [], ◌∷◌, ◌++◌, append_assoc, some, Result, ok, err, ◌>>=◌, ◌==◌,
  if◌then◌else◌, length, u32_mod, u64_mod,
}
use sans_effort.Codec.Reader.{Reader, DecodeError, trailing_bytes, u8-cons}
use sans_effort.Codec.Reader
use sans_effort.Codec.Utf8.{IsUtf8}
use sans_effort.Codec.Writer.{Write, ◌>>>◌}
use sans_effort.Codec.Writer
use sans_effort.Codec.Values.{Wire, unknown, to_bytes, from_bytes, vec_wire, string_wire, u64_wire}
use sans_effort.Codec.RoundTrip.{
  Crosses, Prints, Prints->>>, Crosses-u64, Crosses-vec, Crosses-string, from_bytes-to_bytes,
}

pub data Input : Type 0 where
  bytes : ℕ → List ℕ → Input
  str : ℕ → List ℕ → Input
  u64 : ℕ → ℕ → Input
  unit : ℕ → Input

abbrev read_pair : {A : Type 0} → (ℕ → A → Input) → Reader A → Reader Input
read_pair f decode line = do
  (id, left) ← Reader.u64 line
  (value, left) ← decode left
  ok (f id value, left)

abbrev read_unit : Reader Input
read_unit line = do (id, left) ← Reader.u64 line; ok (Input.unit id, left)

-- The match on the tag.
unfoldable pub read_input : Reader Input
read_input line = do
  (tag, left) ← Reader.u8 line
  (if tag == 1
        then read_pair Input.str Reader.str
        else if tag == 2
        then read_pair Input.u64 Reader.u64
        else if tag == 3
        then read_unit
        else if tag == 4
        then read_pair Input.bytes Reader.bytes
        else unknown tag)
      left

-- `Input::decode`.
unfoldable pub decode : List ℕ → Result Input DecodeError
decode line = do (input, left) ← read_input line; _ ← Reader.finish left; ok input

-- The record that a host writes: `1 id str`, `2 id u64`, `3 id` or `4 id bytes`.
abbrev pub reply_record : Input → Write
reply_record (Input.str id value) = Writer.u8 1 >>> (Writer.u64 id >>> Writer.str value)
reply_record (Input.u64 id value) = Writer.u8 2 >>> (Writer.u64 id >>> Writer.u64 value)
reply_record (Input.unit id) = Writer.u8 3 >>> Writer.u64 id
reply_record (Input.bytes id value) = Writer.u8 4 >>> (Writer.u64 id >>> Writer.bytes value)

abbrev input_wire : Wire Input
input_wire = record { encode = reply_record; decode = read_input }

-- The id and a number fit 64 bits, text and bytes have a length of 32 bits, and text is UTF-8.
abbrev pub Fits : Input → Type 0
Fits (Input.bytes id value) = (id < u64_mod) × (length value < u32_mod)
Fits (Input.str id value) = (id < u64_mod) × (length value < u32_mod) × IsUtf8 value
Fits (Input.u64 id value) = (id < u64_mod) × (value < u64_mod)
Fits (Input.unit id) = id < u64_mod

pub Prints-u8 :
    (tag : ℕ) {write : Write} {bs : List ℕ}
    → Prints write bs
    → Prints (Writer.u8 tag >>> write) (tag ∷ bs)
unfolding Writer.u8
Prints-u8 tag {write} {bs} p w = rw (p (w ++ tag ∷ [])) (ap some (append_assoc w (tag ∷ []) bs))

module _ {A : Type 0} (t : Wire A) (f : ℕ → A → Input) (id : ℕ) (value : A) where
  read_pair-Crosses :
      (i : Crosses u64_wire id) (v : Crosses t value)
      → (rest : List ℕ)
      → read_pair f t.decode ((i.printed ++ v.printed) ++ rest) ≡ ok (f id value, rest)
  read_pair-Crosses i v rest =
      rw (append_assoc i.printed v.printed rest, i.reads (v.printed ++ rest), v.reads rest)

input-Crosses : (input : Input) → Fits input → Crosses input_wire input
unfolding read_input
input-Crosses (Input.str id value) (h, l, u) =
    let i = Crosses-u64 id h in
    let v = Crosses-string value l u in
    record {
      printed = 1 ∷ (i.printed ++ v.printed);
      prints = Prints-u8 1 (Prints->>> i.prints v.prints);
      reads = λ rest.
          rw (u8-cons 1 ((i.printed ++ v.printed) ++ rest))
            (read_pair-Crosses string_wire Input.str id value i v rest);
    }
input-Crosses (Input.u64 id value) (h, l) =
    let i = Crosses-u64 id h in
    let v = Crosses-u64 value l in
    record {
      printed = 2 ∷ (i.printed ++ v.printed);
      prints = Prints-u8 2 (Prints->>> i.prints v.prints);
      reads = λ rest.
          rw (u8-cons 2 ((i.printed ++ v.printed) ++ rest))
            (read_pair-Crosses u64_wire Input.u64 id value i v rest);
    }
input-Crosses (Input.bytes id value) (h, l) =
    let i = Crosses-u64 id h in
    let v = Crosses-vec value l in
    record {
      printed = 4 ∷ (i.printed ++ v.printed);
      prints = Prints-u8 4 (Prints->>> i.prints v.prints);
      reads = λ rest.
          rw (u8-cons 4 ((i.printed ++ v.printed) ++ rest))
            (read_pair-Crosses vec_wire Input.bytes id value i v rest);
    }
input-Crosses (Input.unit id) h =
    let i = Crosses-u64 id h in
    record {
      printed = 3 ∷ i.printed;
      prints = Prints-u8 3 i.prints;
      reads = λ rest. rw (u8-cons 3 (i.printed ++ rest), i.reads rest);
    }

-- A reply record of a value that fits: the host writes it, `Input::decode` reads the same reply back,
-- and with any byte after it refuses it for the trailing ones.
pub decode-reply_record :
    (input : Input)
    → Fits input
    → (line : List ℕ) × (reply_record input [] ≡ some line)
      × (decode line ≡ ok input)
      × ((extra : ℕ) (more : List ℕ)
          → decode (line ++ extra ∷ more) ≡ err (trailing_bytes (suc (length more))))
unfolding decode
decode-reply_record input fits =
    unfold to_bytes from_bytes in from_bytes-to_bytes input_wire input (input-Crosses input fits)
