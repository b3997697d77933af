-- ===== src/Codec/RoundTrip.antt =====
-- sans-effort-core/src/boundary/codec.rs: writing against reading, for the types that have both
-- traits.
use sans_effort.Shared.{
  ℕ, suc, ◌^◌, ◌<◌, ◌≡◌, refl, sym, ap, List, [], ◌∷◌, ◌++◌, append-nil, append_assoc, none, some,
  ok, err, u32_mod, u64_mod, length, lt→ltb, arith,
}
use sans_effort.Codec.Words.{to_le_bytes, modulus, length-to_le_bytes, from_le_bytes-to_le_bytes}
use sans_effort.Codec.Utf8.{IsUtf8}
use sans_effort.Codec.Reader.{Reader, trailing_bytes, u8-cons, take-append, from_utf8-valid}
use sans_effort.Codec.Reader
use sans_effort.Codec.Writer.{Write, ◌>>>◌}
use sans_effort.Codec.Writer
use sans_effort.Codec.Values.{
  Wire, to_bytes, from_bytes, u8_wire, u32_wire, u64_wire, unit_wire, string_wire, vec_wire,
  result_wire, option_wire, encode_result, decode_result, encode_option, decode_option,
}

-- `write` appends `printed`, whatever the buffer holds.
abbrev pub Prints : Write → List ℕ → Type 0
Prints write printed = (w : List ℕ) → write w ≡ some (w ++ printed)

-- `decode` reads `a` off the front of `printed` and leaves what follows.
abbrev pub Reads : {A : Type 0} → Reader A → List ℕ → A → Type 0
Reads decode printed a = (rest : List ℕ) → decode (printed ++ rest) ≡ ok (a, rest)

-- The value crosses: it is written without a panic, and what is written reads back.
pub record Crosses {A : Type 0} (t : Wire A) (a : A) : Type 0 where
  pub printed : List ℕ
  pub prints : Prints (t.encode a) printed
  pub reads : Reads t.decode printed a

pub Prints->>> :
    {f g : Write} {bs cs : List ℕ} → Prints f bs → Prints g cs → Prints (f >>> g) (bs ++ cs)
Prints->>> {f} {g} {bs} {cs} p q w = rw (p w, q (w ++ bs)) (ap some (append_assoc w bs cs))

-- The words.
Reads-word : (width v : ℕ) → v < modulus width → Reads (Reader.word width) (to_le_bytes width v) v
unfolding Reader.word
Reads-word width v h rest =
    rw (take-append width (to_le_bytes width v) rest (length-to_le_bytes width v))
      (ap (λ n. ok (n, rest)) (from_le_bytes-to_le_bytes width v h))

pub Reads-u32 : (v : ℕ) → v < u32_mod → Reads Reader.u32 (to_le_bytes 4 v) v
unfolding Reader.u32 modulus
Reads-u32 v h = Reads-word 4 v h

pub Reads-u64 : (v : ℕ) → v < u64_mod → Reads Reader.u64 (to_le_bytes 8 v) v
unfolding Reader.u64 modulus
Reads-u64 v h = Reads-word 8 v h

pub Crosses-u8 : (v : ℕ) → Crosses u8_wire v
unfolding Writer.u8
Crosses-u8 v = record { printed = v ∷ []; prints = λ w. refl; reads = λ rest. u8-cons v rest }

pub Crosses-u32 : (v : ℕ) → v < u32_mod → Crosses u32_wire v
unfolding Writer.u32
Crosses-u32 v h = record { printed = to_le_bytes 4 v; prints = λ w. refl; reads = Reads-u32 v h }

pub Crosses-u64 : (v : ℕ) → v < u64_mod → Crosses u64_wire v
unfolding Writer.u64
Crosses-u64 v h = record { printed = to_le_bytes 8 v; prints = λ w. refl; reads = Reads-u64 v h }

pub Crosses-unit : (u : Unit {0}) → Crosses unit_wire u
unfolding Writer.nothing
Crosses-unit tt = record {
  printed = [];
  prints = λ w. ap some (sym (append-nil w));
  reads = λ rest. refl;
}

-- Bytes and text.
abbrev pub framed : List ℕ → List ℕ
framed b = to_le_bytes 4 (length b) ++ b

pub Prints-bytes : (b : List ℕ) → length b < u32_mod → Prints (Writer.bytes b) (framed b)
unfolding Writer.bytes
Prints-bytes b h w =
    rw (lt→ltb (length b) u32_mod h) (ap some (append_assoc w (to_le_bytes 4 (length b)) b))

pub Reads-bytes : (b : List ℕ) → length b < u32_mod → Reads Reader.bytes (framed b) b
unfolding Reader.bytes
Reads-bytes b h rest =
    rw
      (
        append_assoc (to_le_bytes 4 (length b)) b rest,
        Reads-u32 (length b) h (b ++ rest),
        lt→ltb (length b) (2 ^ 64) (omega arith),
      )
      (take-append (length b) b rest refl)

pub Crosses-vec : (b : List ℕ) → length b < u32_mod → Crosses vec_wire b
Crosses-vec b h = record { printed = framed b; prints = Prints-bytes b h; reads = Reads-bytes b h }

pub Reads-string : (s : List ℕ) → length s < u32_mod → IsUtf8 s → Reads Reader.str (framed s) s
unfolding Reader.str
Reads-string s h u rest = rw (Reads-bytes s h rest, from_utf8-valid s u)

pub Crosses-string : (s : List ℕ) → length s < u32_mod → IsUtf8 s → Crosses string_wire s
unfolding Writer.str
Crosses-string s h u = record {
  printed = framed s;
  prints = Prints-bytes s h;
  reads = Reads-string s h u;
}

-- The tagged values: a tag below 256, then a value that crosses.
module _ {T : Type 0} (t : Wire T) where
  pub Crosses-none : Crosses (option_wire t) none
  unfolding encode_option decode_option Writer.u8
  Crosses-none = record {
    printed = 0 ∷ [];
    prints = λ w. refl;
    reads = λ rest. rw (u8-cons 0 rest);
  }

  pub Crosses-some : (a : T) → Crosses t a → Crosses (option_wire t) (some a)
  unfolding encode_option decode_option Writer.u8
  Crosses-some a c = record {
    printed = 1 ∷ c.printed;
    prints = λ w. rw (c.prints (w ++ 1 ∷ [])) (ap some (append_assoc w (1 ∷ []) c.printed));
    reads = λ rest. rw (u8-cons 1 (c.printed ++ rest), c.reads rest);
  }

module _ {T E : Type 0} (t : Wire T) (e : Wire E) where
  pub Crosses-ok : (a : T) → Crosses t a → Crosses (result_wire t e) (ok a)
  unfolding encode_result decode_result Writer.u8
  Crosses-ok a c = record {
    printed = 0 ∷ c.printed;
    prints = λ w. rw (c.prints (w ++ 0 ∷ [])) (ap some (append_assoc w (0 ∷ []) c.printed));
    reads = λ rest. rw (u8-cons 0 (c.printed ++ rest), c.reads rest);
  }

  pub Crosses-err : (a : E) → Crosses e a → Crosses (result_wire t e) (err a)
  unfolding encode_result decode_result Writer.u8
  Crosses-err a c = record {
    printed = 1 ∷ c.printed;
    prints = λ w. rw (c.prints (w ++ 1 ∷ [])) (ap some (append_assoc w (1 ∷ []) c.printed));
    reads = λ rest. rw (u8-cons 1 (c.printed ++ rest), c.reads rest);
  }

-- A value that crosses: `to_bytes` gives bytes, `from_bytes` gives the value back from them, and
-- with any byte after them it fails on the trailing ones.
pub from_bytes-to_bytes :
    {A : Type 0} (t : Wire A) (a : A)
    → Crosses t a
    → (bs : List ℕ) × (to_bytes t a ≡ some bs)
      × (from_bytes t bs ≡ ok a)
      × ((extra : ℕ) (more : List ℕ)
          → from_bytes t (bs ++ extra ∷ more) ≡ err (trailing_bytes (suc (length more))))
unfolding to_bytes from_bytes Reader.finish
from_bytes-to_bytes t a c =
    (c.printed, c.prints [], whole, λ extra more. rw (c.reads (extra ∷ more)))
  where
    whole : from_bytes t c.printed ≡ ok a
    whole = rw (← append-nil c.printed, c.reads [])
