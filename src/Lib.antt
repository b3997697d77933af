-- ===== src/Lib.antt =====
-- A verification library of sans-effort: routines that are stepped by a host, one wait at a time.
--
-- The program. A routine records effects in an outbox and waits for replies in a mailbox; a driver
-- polls it and hands the host what it recorded (sans-effort-core). Over the driver, a machine keeps
-- the handles of what a host was shown, and a host in another language replies by request id and in
-- bytes, to a machine that it names by its handle in a table (sans-effort-host). The requests are
-- those of sans-effort-effects, and a boundary crate says which of them a host offers. The modules
-- follow that order: `Mail` is the state of the replies, `Outbox` holds a mailbox and the effects, `Driver` an outbox and the routine, `Host` a driver and
-- the requests that a host was shown, and `Table` the machines of all the threads.
--
-- The files.
--   Shared          numbers, tests, lists and results that the other modules use.
--   Batch           sans-effort-core/src/driver/batch.rs: the effects of one yield. The newtype and
--                   its `Inline` are one data type; `Batch.Iter` is `IntoIter`.
--   Codec           sans-effort-core/src/boundary/codec.rs: `Codec.Reader` is `Reader` and
--                   `DecodeError`, `Codec.Writer` is `Writer`, `Codec.Values` the traits `Encode` and
--                   `Decode` and their implementations, `Codec.Words` the little-endian words, and
--                   `Codec.Utf8` the check of `core::str::from_utf8`.
--   Reply           sans-effort-core/src/reply.rs, reply/*.rs and boundary/pending.rs: the four
--                   kinds of reply and the answers that cross as one of them.
--   Mail            sans-effort-core/src/driver/mail.rs: the mailbox, one function per method.
--                   `Mail.Map` is what it promises, a map of the open requests, and `Mail.Refine`
--                   and `Mail.History` relate single calls and sequences of calls to it.
--   Outbox          sans-effort-core/src/driver/outbox.rs: `Inner` and its methods (`record_held` is
--                   `Inner::record`, `open_request` is `Outbox::open`). `Outbox.Asking` is asking.rs
--                   and awaiting.rs. `Outbox.Places` is what the outbox promises about order, one
--                   list of places, to which `Outbox.Order` relates the operations.
--   Driver          sans-effort-core/src/driver.rs and driver/status.rs; `Driver.Stepper` is
--                   driver/stepper.rs, `Driver.Wake` is driver/wake.rs, and `Driver.Steps` and
--                   `Driver.Replies` are about what can happen to a driver.
--   Host            sans-effort-host/src/error.rs and contract.rs; `Host.Machine` is machine.rs,
--                   `Host.Input` is encoded/input.rs and `Host.Encoded` is encoded.rs. `Host.Pending`
--                   and `Host.Wallet` are about the table of requests, and `Host.Frames` about a host
--                   that reads the bytes. `Host.Record` is the log of record.rs, and
--                   `Host.Handles` how table.rs issues handles.
--   Table           sans-effort-host/src/table.rs, the table of handles. `Table.Process` has the
--                   statics, the thread-locals and how machines are registered, `Table.Calls` has
--                   `find`, `guarded`, `reply`, `resume` and `free`, `Table.Sessions` the
--                   recordings, and `Table.Replay` is `replay` of record.rs. `Table.System` is any
--                   number of threads that call the table, step by step, and `Table.Runs` what
--                   calls one after the other lead to.
--   Combine         sans-effort-core/src/join.rs and select.rs: a combinator is the poll of a state,
--                   over the polls of its two futures.
--   Testing         sans-effort-core/src/testing.rs and testing/schedule.rs: machines driven on one
--                   thread in an order that a schedule picks. `Testing.World` has the ready actions,
--                   the timers and the virtual clock, and `Testing.Turn` one turn of `drive_with`
--                   and its loop.
--   Effects         sans-effort-effects/src: the requests of fs.rs, console.rs, env.rs, random.rs and
--                   time.rs, their records and their answers.
--   Boundary        demo/driven/boundary/src/lib.rs: the vocabularies of the demonstration's host,
--                   over the requests of `Effects` and the table of handles. The table of tags at
--                   its head, which a host in another language follows, is `Boundary.Views` for the
--                   records and `Boundary.Splits` for the replies.
--
-- How it is modelled. A `u64` is a native number and its increment is taken modulo 2 ^ 64, as a
-- release build does; a byte is a number; `Vec`, slices and `String` are lists, a `String` of its
-- UTF-8 bytes. A panic is `none`. A waker is a number, and `will_wake` compares numbers; the calls
-- of a driver's hook are counted. `usize` has 64 bits. The shared state behind a lock is passed
-- explicitly, and an operation under the lock is one step. The routine's future, its drop and its
-- wakers, which may panic, the closure that builds an effect, and `HostEffect::split` are code of the caller, and
-- arguments of the functions that call them. To the table of handles a machine is a value: how it
-- runs, how a parked one is built and what its destructors wake are arguments, and what its routine
-- does to the table while it runs is a list of acts. A machine's lock is a cell with the number of
-- its holders, at an address that entries share. What a driver is after a panic of its routine that
-- the host catches is not described, except that the table drops the machine.
--
-- Fuel. The binary search of the mailbox has one unit for each slot, which is enough since each
-- round at least halves the slots left. The host that reads frames has one unit for each byte, and a
-- frame has at least one. The loop that issues a handle has one unit more than there are handles
-- in use. `drive_with` runs as long as its routines do, and takes fuel for its turns; what is said of
-- it is said of every turn.
--
-- Not modelled: `Debug` and `Display` text, allocation and capacities, the synchronisation
-- primitives, calls of a routine into other machines while it runs (except as steps of
-- `Table.System`), the effect traits and the contexts that
-- implement them, the tokio and wasm contexts, the fixtures of tests, and the routines and bindings
-- of the demo.
pub mod Shared
pub mod Batch
pub mod Codec
pub mod Reply
pub mod Mail
pub mod Outbox
pub mod Driver
pub mod Host
pub mod Combine
pub mod Table
pub mod Effects
pub mod Boundary
pub mod Testing
