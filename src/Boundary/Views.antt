-- ===== src/Boundary/Views.antt =====
-- demo/driven/boundary/src/lib.rs: what a host makes of the records, by the table of tags at the
-- head of the file.
use sans_effort.Shared.{
  ℕ, ◌<◌, ◌≡◌, refl, ap, List, [], ◌∷◌, ◌++◌, append_assoc, some, ok, ◌>>=◌, ◌==◌, length, u32_mod,
  u64_mod, if◌then◌else◌,
}
use sans_effort.Codec.Utf8.{IsUtf8}
use sans_effort.Codec.Reader.{Reader, u8-cons}
use sans_effort.Codec.Reader
use sans_effort.Codec.Writer.{Write, ◌>>>◌}
use sans_effort.Codec.Writer
use sans_effort.Codec.Values.{Wire, read_as, unknown, u32_wire, u64_wire, string_wire, vec_wire}
use sans_effort.Codec.RoundTrip.{
  Crosses, Prints->>>, Crosses-u32, Crosses-u64, Crosses-string, Crosses-vec,
}
use sans_effort.Boundary.{View, encode, as_u8}

-- A field, then the rest of the record.
pair : {A B : Type 0} → Reader A → Reader B → Reader (A × B)
pair first second bytes = do (a, left) ← first bytes; (b, left) ← second left; ok ((a, b), left)

-- The fields of the record that a tag announces.
fields : ℕ → Reader View
unfolding pair
fields tag =
    if tag == 1
    then read_as View.count Reader.u64
    else if tag == 2
    then read_as (λ (name, id). View.lookup name id) (pair Reader.str Reader.u64)
    else if tag == 3
    then read_as View.read_line Reader.u64
    else if tag == 4
    then read_as (λ (millis, id). View.sleep millis id) (pair Reader.u64 Reader.u64)
    else if tag == 5
    then read_as View.write_line Reader.str
    else if tag == 6
    then read_as View.spawned Reader.u64
    else if tag == 7
    then read_as View.spawned_pinned Reader.u64
    else if tag == 8
    then read_as View.now Reader.u64
    else if tag == 9
    then read_as (λ (len, id). View.random len id) (pair Reader.u32 Reader.u64)
    else if tag == 10
    then read_as (λ (name, id). View.var name id) (pair Reader.str Reader.u64)
    else if tag == 11
    then read_as (λ (path, id). View.read_file path id) (pair Reader.str Reader.u64)
    else if tag == 12
    then read_as (λ (path, (bytes, id)). View.write_file path bytes id)
        (pair Reader.str (pair Reader.bytes Reader.u64))
    else unknown tag

pub read_view : Reader View
unfolding fields
read_view bytes = do (tag, left) ← Reader.u8 bytes; fields tag left

abbrev pub view_wire : Wire View
view_wire = record { encode = encode; decode = read_view }

-- A string that its length fits: it is text, below 4 GiB.
abbrev pub IsShort : List ℕ → Type 0
IsShort text = (length text < u32_mod) × IsUtf8 text

-- The numbers are of their width, the strings are text and nothing has 4 GiB.
abbrev pub Fits : View → Type 0
Fits (View.count id) = id < u64_mod
Fits (View.lookup name id) = IsShort name × (id < u64_mod)
Fits (View.read_line id) = id < u64_mod
Fits (View.sleep millis id) = (millis < u64_mod) × (id < u64_mod)
Fits (View.write_line text) = IsShort text
Fits (View.now id) = id < u64_mod
Fits (View.random len id) = (len < u32_mod) × (id < u64_mod)
Fits (View.var name id) = IsShort name × (id < u64_mod)
Fits (View.read_file path id) = IsShort path × (id < u64_mod)
Fits (View.write_file path bytes id) = IsShort path × (length bytes < u32_mod) × (id < u64_mod)
Fits (View.spawned handle) = handle < u64_mod
Fits (View.spawned_pinned handle) = handle < u64_mod

-- Two fields.
abbrev both : {A B : Type 0} → Wire A → Wire B → Wire (A × B)
unfolding pair
both s t = record { encode = λ (a, b). s.encode a >>> t.encode b; decode = pair s.decode t.decode }

Crosses-both :
    {A B : Type 0} (s : Wire A) (t : Wire B) (a : A) (b : B)
    → Crosses s a
    → Crosses t b
    → Crosses (both s t) (a, b)
unfolding pair both
Crosses-both s t a b c d = record {
  printed = c.printed ++ d.printed;
  prints = Prints->>> c.prints d.prints;
  reads =
      λ rest. rw (append_assoc c.printed d.printed rest, c.reads (d.printed ++ rest), d.reads rest);
}

Crosses-named :
    (name : List ℕ) (id : ℕ)
    → IsShort name × (id < u64_mod)
    → Crosses (both string_wire u64_wire) (name, id)
Crosses-named name id ((n, u), h) =
    Crosses-both string_wire u64_wire name id (Crosses-string name n u) (Crosses-u64 id h)

-- A record: the tag, then the fields.
Crosses-record :
    {A : Type 0} (t : Wire A) (tag : ℕ) (make : A → View) (a : A)
    → fields tag ≡ read_as make t.decode
    → encode (make a) ≡ (Writer.u8 tag >>> t.encode a)
    → Crosses t a
    → Crosses view_wire (make a)
unfolding read_view Writer.u8
Crosses-record t tag make a f e c = record {
  printed = tag ∷ c.printed;
  prints = λ w. rw (e, c.prints (w ++ tag ∷ [])) (ap some (append_assoc w (tag ∷ []) c.printed));
  reads = λ rest. rw (u8-cons tag (c.printed ++ rest), f, c.reads rest);
}

-- A view that fits is written without a panic, and a host that follows the table of tags reads it
-- back.
pub view-Crosses : (v : View) → Fits v → Crosses view_wire v
unfolding encode fields as_u8 pair both
view-Crosses (View.count id) h =
    Crosses-record u64_wire 1 View.count id refl refl (Crosses-u64 id h)
view-Crosses (View.read_line id) h =
    Crosses-record u64_wire 3 View.read_line id refl refl (Crosses-u64 id h)
view-Crosses (View.now id) h = Crosses-record u64_wire 8 View.now id refl refl (Crosses-u64 id h)
view-Crosses (View.spawned id) h =
    Crosses-record u64_wire 6 View.spawned id refl refl (Crosses-u64 id h)
view-Crosses (View.spawned_pinned id) h =
    Crosses-record u64_wire 7 View.spawned_pinned id refl refl (Crosses-u64 id h)
view-Crosses (View.write_line text) (n, u) =
    Crosses-record string_wire 5 View.write_line text refl refl (Crosses-string text n u)
view-Crosses (View.sleep millis id) (m, h) =
    Crosses-record (both u64_wire u64_wire) 4 (λ (millis, id). View.sleep millis id) (millis, id)
      refl refl (Crosses-both u64_wire u64_wire millis id (Crosses-u64 millis m) (Crosses-u64 id h))
view-Crosses (View.random len id) (m, h) =
    Crosses-record (both u32_wire u64_wire) 9 (λ (len, id). View.random len id) (len, id) refl refl
      (Crosses-both u32_wire u64_wire len id (Crosses-u32 len m) (Crosses-u64 id h))
view-Crosses (View.lookup name id) h =
    Crosses-record (both string_wire u64_wire) 2 (λ (name, id). View.lookup name id) (name, id) refl
      refl (Crosses-named name id h)
view-Crosses (View.var name id) h =
    Crosses-record (both string_wire u64_wire) 10 (λ (name, id). View.var name id) (name, id) refl
      refl (Crosses-named name id h)
view-Crosses (View.read_file path id) h =
    Crosses-record (both string_wire u64_wire) 11 (λ (path, id). View.read_file path id) (path, id)
      refl refl (Crosses-named path id h)
view-Crosses (View.write_file path bytes id) ((n, u), m, h) =
    Crosses-record (both string_wire (both vec_wire u64_wire)) 12
      (λ (path, (bytes, id)). View.write_file path bytes id) (path, (bytes, id)) refl refl
      (Crosses-both string_wire (both vec_wire u64_wire) path (bytes, id) (Crosses-string path n u)
        (Crosses-both vec_wire u64_wire bytes id (Crosses-vec bytes m) (Crosses-u64 id h)))
