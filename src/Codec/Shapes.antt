-- ===== src/Codec/Shapes.antt =====
-- sans-effort-core/src/boundary/codec.rs: the layout of the standard types, however they are nested.
use sans_effort.Shared.{
  ℕ, suc, ◌<◌, ◌≡◌, refl, sym, ap, List, [], ◌∷◌, ◌++◌, append-nil, append_assoc, Option, none,
  some, Result, ok, err, u8_mod, u32_mod, u64_mod, length,
}
use sans_effort.Codec.Words.{to_le_bytes}
use sans_effort.Codec.Utf8.{IsUtf8}
use sans_effort.Codec.Reader.{DecodeError, trailing_bytes, u8-cons}
use sans_effort.Codec.Reader
use sans_effort.Codec.Writer.{Write, ◌>>>◌}
use sans_effort.Codec.Writer
use sans_effort.Codec.Values.{
  Wire, to_bytes, from_bytes, u8_wire, u32_wire, u64_wire, unit_wire, string_wire, vec_wire,
  result_wire, option_wire, encode_result, decode_result, encode_option, decode_option,
}
use sans_effort.Codec.RoundTrip.{
  Prints, Reads, Reads-u32, Reads-u64, Reads-bytes, Reads-string, Prints-bytes,
}

-- The types that are encoded.
pub data Shape : Type 0 where
  u8 u32 u64 unit string vec : Shape
  result : Shape → Shape → Shape
  option : Shape → Shape

abbrev pub Holds : Shape → Type 0
Holds Shape.u8 = ℕ
Holds Shape.u32 = ℕ
Holds Shape.u64 = ℕ
Holds Shape.unit = Unit {0}
Holds Shape.string = List ℕ
Holds Shape.vec = List ℕ
Holds (Shape.result t e) = Result (Holds t) (Holds e)
Holds (Shape.option t) = Option (Holds t)

abbrev pub wire_of : (s : Shape) → Wire (Holds s)
wire_of Shape.u8 = u8_wire
wire_of Shape.u32 = u32_wire
wire_of Shape.u64 = u64_wire
wire_of Shape.unit = unit_wire
wire_of Shape.string = string_wire
wire_of Shape.vec = vec_wire
wire_of (Shape.result t e) = result_wire (wire_of t) (wire_of e)
wire_of (Shape.option t) = option_wire (wire_of t)

-- The numbers are of their width, the strings are UTF-8, and nothing has 4 GiB.
abbrev pub Fits : (s : Shape) → Holds s → Type 0
Fits Shape.u8 v = v < u8_mod
Fits Shape.u32 v = v < u32_mod
Fits Shape.u64 v = v < u64_mod
Fits Shape.unit _ = Unit
Fits Shape.string text = (length text < u32_mod) × IsUtf8 text
Fits Shape.vec bytes = length bytes < u32_mod
Fits (Shape.result t e) (ok v) = Fits t v
Fits (Shape.result t e) (err v) = Fits e v
Fits (Shape.option t) none = Unit
Fits (Shape.option t) (some v) = Fits t v

-- The layout: words in little-endian order, a payload behind its length, and a tag before a value:
-- 0 for `Ok` and `None`, 1 for `Err` and `Some`.
unfoldable pub layout : (s : Shape) → Holds s → List ℕ
layout Shape.u8 v = v ∷ []
layout Shape.u32 v = to_le_bytes 4 v
layout Shape.u64 v = to_le_bytes 8 v
layout Shape.unit _ = []
layout Shape.string text = to_le_bytes 4 (length text) ++ text
layout Shape.vec bytes = to_le_bytes 4 (length bytes) ++ bytes
layout (Shape.result t e) (ok v) = 0 ∷ layout t v
layout (Shape.result t e) (err v) = 1 ∷ layout e v
layout (Shape.option t) none = 0 ∷ []
layout (Shape.option t) (some v) = 1 ∷ layout t v

-- The value is written as the bytes, and read back from them whatever follows.
abbrev pub LaidOut : {A : Type 0} → Wire A → A → List ℕ → Type 0
LaidOut t a bytes = Prints (t.encode a) bytes × Reads t.decode bytes a

-- A tag before what is printed.
Prints-cons :
    {write : Write} {bytes : List ℕ} (tag : ℕ)
    → Prints write bytes
    → Prints (Writer.u8 tag >>> write) (tag ∷ bytes)
unfolding Writer.u8
Prints-cons {bytes} tag p w = rw (p (w ++ tag ∷ [])) (ap some (append_assoc w (tag ∷ []) bytes))

pub wire_of-LaidOut : (s : Shape) (a : Holds s) → Fits s a → LaidOut (wire_of s) a (layout s a)
unfolding layout Writer.u8 Writer.u32 Writer.u64 Writer.nothing Writer.str encode_result
    decode_result encode_option decode_option
wire_of-LaidOut Shape.u8 v h = (λ w. refl, λ rest. u8-cons v rest)
wire_of-LaidOut Shape.u32 v h = (λ w. refl, Reads-u32 v h)
wire_of-LaidOut Shape.u64 v h = (λ w. refl, Reads-u64 v h)
wire_of-LaidOut Shape.unit v h = (λ w. ap some (sym (append-nil w)), λ rest. refl)
wire_of-LaidOut Shape.string v (h, u) = (Prints-bytes v h, Reads-string v h u)
wire_of-LaidOut Shape.vec v h = (Prints-bytes v h, Reads-bytes v h)
wire_of-LaidOut (Shape.result t e) (ok v) h =
    let (p, r) = wire_of-LaidOut t v h in
    (Prints-cons 0 p, λ rest. rw (u8-cons 0 (layout t v ++ rest), r rest))
wire_of-LaidOut (Shape.result t e) (err v) h =
    let (p, r) = wire_of-LaidOut e v h in
    (Prints-cons 1 p, λ rest. rw (u8-cons 1 (layout e v ++ rest), r rest))
wire_of-LaidOut (Shape.option t) none h = (λ w. refl, λ rest. rw (u8-cons 0 rest))
wire_of-LaidOut (Shape.option t) (some v) h =
    let (p, r) = wire_of-LaidOut t v h in
    (Prints-cons 1 p, λ rest. rw (u8-cons 1 (layout t v ++ rest), r rest))

-- A value that fits is written without a panic, as its layout: `to_bytes` gives that, `from_bytes`
-- gives the value back, and with any bytes after them it fails on the trailing ones.
pub to_bytes-layout :
    (s : Shape) (a : Holds s)
    → Fits s a
    → (to_bytes (wire_of s) a ≡ some (layout s a))
      × (from_bytes (wire_of s) (layout s a) ≡ ok a)
      × ((extra : ℕ) (more : List ℕ)
          → from_bytes (wire_of s) (layout s a ++ extra ∷ more)
            ≡ err (trailing_bytes (suc (length more))))
unfolding to_bytes from_bytes Reader.finish
to_bytes-layout s a h =
    let (p, r) = wire_of-LaidOut s a h in (p [], whole r, λ extra more. rw (r (extra ∷ more)))
  where
    whole : Reads (wire_of s).decode (layout s a) a → from_bytes (wire_of s) (layout s a) ≡ ok a
    whole r = rw (← append-nil (layout s a), r [])
