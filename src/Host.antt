-- ===== src/Host.antt =====
-- sans-effort-host/src/error.rs and contract.rs: why a call failed, and the numbers that cross to a
-- foreign host.
pub mod Codes
pub mod Machine
pub mod Pending
pub mod Takes
pub mod Removal
pub mod Wallet
pub mod Input
pub mod Encoded
pub mod Record
pub mod Handles
pub mod Frames
mod Tests
use sans_effort.Shared.{ℕ, Result, ok, err}
use sans_effort.Codec.Reader.{DecodeError}
use sans_effort.Reply.{Kind}
use sans_effort.Driver.{Status, awaiting, complete, idle}

pub data Error : Type 0 where
  bad_handle : Error
  bad_input : Error
  malformed : DecodeError → Error
  stale : ℕ → Error
  wrong_kind : ℕ → Kind → Kind → Error
  busy wrong_thread finished panicked : Error

-- An `i32` of the contract: `negsuc n` is `-(n + 1)`.
pub data ℤ : Type 0 where
  pos : ℕ → ℤ
  negsuc : ℕ → ℤ

abbrev pub frame_tell : ℕ
frame_tell = 1

abbrev pub frame_ask : ℕ
frame_ask = 2

abbrev pub frame_closed : ℕ
frame_closed = 3

abbrev pub frame_woke : ℕ
frame_woke = 4

abbrev pub revision : ℕ
revision = 0

abbrev pub ok_code : ℤ
ok_code = pos 0

abbrev pub awaiting_code : ℤ
awaiting_code = pos 0

abbrev pub complete_code : ℤ
complete_code = pos 1

abbrev pub idle_code : ℤ
idle_code = pos 2

abbrev pub busy_code : ℤ
busy_code = negsuc 0

abbrev pub finished_code : ℤ
finished_code = negsuc 1

abbrev pub wrong_kind_code : ℤ
wrong_kind_code = negsuc 2

abbrev pub panicked_code : ℤ
panicked_code = negsuc 3

abbrev pub bad_handle_code : ℤ
bad_handle_code = negsuc 4

abbrev pub bad_input_code : ℤ
bad_input_code = negsuc 5

abbrev pub malformed_code : ℤ
malformed_code = negsuc 6

abbrev pub stale_code : ℤ
stale_code = negsuc 7

abbrev pub wrong_thread_code : ℤ
wrong_thread_code = negsuc 8

-- `Error::code`.
unfoldable pub code : Error → ℤ
code bad_handle = bad_handle_code
code bad_input = bad_input_code
code (malformed _) = malformed_code
code (stale _) = stale_code
code busy = busy_code
code finished = finished_code
code panicked = panicked_code
code (wrong_kind _ _ _) = wrong_kind_code
code wrong_thread = wrong_thread_code

unfoldable pub status_code : Status → ℤ
status_code awaiting = awaiting_code
status_code complete = complete_code
status_code idle = idle_code

unfoldable pub code_of : Result (Unit {0}) Error → ℤ
code_of (ok _) = ok_code
code_of (err error) = code error
