-- ===== src/Boundary.antt =====
-- demo/driven/boundary/src/lib.rs, with the feature `table`: the vocabularies that the host of the
-- demonstration offers, what it shows of an effect, and the record of that. A child is the machine
-- that its routine runs in, as the table keeps it, or the closure that starts a pinned one.
pub mod Views
pub mod Splits
mod Tests
use sans_effort.Shared.{ℕ, List, Option, none, some}
use sans_effort.Codec.Writer.{Write, ◌>>>◌, ◌>>=◌}
use sans_effort.Codec.Writer
use sans_effort.Reply.{Kind, Pending, into_pending}
use sans_effort.Effects.{
  Asked, WriteFileEffect, millis, read_line_answer, var_answer, read_file_answer, write_file_answer,
  unix_time_answer,
}
use sans_effort.Table.Process.{State}
use sans_effort.Table.Process

pub data Tag : Type 0 where
  count lookup read_line sleep write_line spawned spawned_pinned now random var read_file : Tag
  write_file : Tag

-- `tag as u8`.
unfoldable pub as_u8 : Tag → ℕ
as_u8 Tag.count = 1
as_u8 Tag.lookup = 2
as_u8 Tag.read_line = 3
as_u8 Tag.sleep = 4
as_u8 Tag.write_line = 5
as_u8 Tag.spawned = 6
as_u8 Tag.spawned_pinned = 7
as_u8 Tag.now = 8
as_u8 Tag.random = 9
as_u8 Tag.var = 10
as_u8 Tag.read_file = 11
as_u8 Tag.write_file = 12

-- The request id comes last.
pub data View : Type 0 where
  count : ℕ → View
  lookup : List ℕ → ℕ → View
  read_line : ℕ → View
  sleep : ℕ → ℕ → View
  write_line : List ℕ → View
  now : ℕ → View
  random : ℕ → ℕ → View
  var : List ℕ → ℕ → View
  read_file : List ℕ → ℕ → View
  write_file : List ℕ → List ℕ → ℕ → View
  spawned : ℕ → View
  spawned_pinned : ℕ → View

unfoldable pub encode : View → Write
encode (View.count id) = Writer.u8 (as_u8 Tag.count) >>> Writer.u64 id
encode (View.lookup name id) = Writer.u8 (as_u8 Tag.lookup) >>> (Writer.str name >>> Writer.u64 id)
encode (View.read_line id) = Writer.u8 (as_u8 Tag.read_line) >>> Writer.u64 id
encode (View.sleep millis id) =
    Writer.u8 (as_u8 Tag.sleep) >>> (Writer.u64 millis >>> Writer.u64 id)
encode (View.write_line text) = Writer.u8 (as_u8 Tag.write_line) >>> Writer.str text
encode (View.now id) = Writer.u8 (as_u8 Tag.now) >>> Writer.u64 id
encode (View.random len id) = Writer.u8 (as_u8 Tag.random) >>> (Writer.u32 len >>> Writer.u64 id)
encode (View.var name id) = Writer.u8 (as_u8 Tag.var) >>> (Writer.str name >>> Writer.u64 id)
encode (View.read_file path id) =
    Writer.u8 (as_u8 Tag.read_file) >>> (Writer.str path >>> Writer.u64 id)
encode (View.write_file path bytes id) =
    Writer.u8 (as_u8 Tag.write_file)
    >>> (Writer.str path >>> (Writer.bytes bytes >>> Writer.u64 id))
encode (View.spawned handle) = Writer.u8 (as_u8 Tag.spawned) >>> Writer.u64 handle
encode (View.spawned_pinned handle) = Writer.u8 (as_u8 Tag.spawned_pinned) >>> Writer.u64 handle

pub data Full (M P : Type 0) : Type 0 where
  count : Asked (Unit {0}) → Full M P
  lookup : Asked (List ℕ) → Full M P
  read_line : Asked (Unit {0}) → Full M P
  sleep : Asked ℕ → Full M P
  write_line : List ℕ → Full M P
  now : Asked (Unit {0}) → Full M P
  random : Asked ℕ → Full M P
  var : Asked (List ℕ) → Full M P
  read_file : Asked (List ℕ) → Full M P
  write_file : Asked WriteFileEffect → Full M P
  spawn : M → Full M P
  spawn_pinned : P → Full M P

pub data Quiet : Type 0 where
  sleep : Asked ℕ → Quiet
  write_line : List ℕ → Quiet

-- What is shown, the pending request, and the process after it.
abbrev pub Shown : Type 0 → Type 0 → Type 0
Shown M P = View × Option Pending × State M P

module _ {M P : Type 0} where
  -- `none` where the table has no handle left.
  unfoldable pub split : Full M P → State M P → Option (Shown M P)
  split (Full.count a) s = some (View.count a.reply.id, some (into_pending Kind.u64 a.reply), s)
  split (Full.lookup a) s =
      some (View.lookup a.request a.reply.id, some (into_pending Kind.str a.reply), s)
  split (Full.read_line a) s =
      some (View.read_line a.reply.id, some (into_pending read_line_answer.wire a.reply), s)
  split (Full.sleep a) s =
      some (View.sleep (millis a.request) a.reply.id, some (into_pending Kind.unit a.reply), s)
  split (Full.write_line text) s = some (View.write_line text, none, s)
  split (Full.now a) s =
      some (View.now a.reply.id, some (into_pending unix_time_answer.wire a.reply), s)
  split (Full.random a) s =
      some (View.random a.request a.reply.id, some (into_pending Kind.bytes a.reply), s)
  split (Full.var a) s =
      some (View.var a.request a.reply.id, some (into_pending var_answer.wire a.reply), s)
  split (Full.read_file a) s =
      some
        (View.read_file a.request a.reply.id, some (into_pending read_file_answer.wire a.reply), s)
  split (Full.write_file a) s = some (
    View.write_file a.request.path a.request.contents a.reply.id,
    some (into_pending write_file_answer.wire a.reply),
    s,
  )
  split (Full.spawn child) s = do
    (handle, s) ← Process.insert child s
    some (View.spawned handle, none, s)
  split (Full.spawn_pinned child) s = do
    (handle, s) ← Process.new_pinned child s
    some (View.spawned_pinned handle, none, s)

  unfoldable pub split_quiet : Quiet → State M P → Option (Shown M P)
  unfolding split
  split_quiet (Quiet.sleep asked) s = split (Full.sleep asked) s
  split_quiet (Quiet.write_line text) s = split (Full.write_line text) s
