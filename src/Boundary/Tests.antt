-- ===== src/Boundary/Tests.antt =====
-- Runs of demo/driven/boundary/src/lib.rs and of sans-effort-effects/src, and the theorems on them
-- at concrete inputs.
use sans_effort.Shared.{ℕ, ◌≡◌, refl, List, [], ◌∷◌, some, ok, err, arith}
use sans_effort.Codec.Utf8
use sans_effort.Codec.Reader
use sans_effort.Codec.Writer
use sans_effort.Codec.Words
use sans_effort.Codec.Values.{to_bytes, from_bytes}
use sans_effort.Codec.RoundTrip.{Crosses}
use sans_effort.Reply.{ReplyHandle, Pending, into_pending}
use sans_effort.Effects.{millis, saturate, sleep_wire, fs_error_wire, decode_fs_error}
use sans_effort.Effects.Requests.{Rounds, sleep-Rounds}
use sans_effort.Table.Process.{State}
use sans_effort.Table
use sans_effort.Table.Process
use sans_effort.Boundary.{View, Full, encode, as_u8, split}
use sans_effort.Boundary.Views.{view_wire, view-Crosses}
use sans_effort.Boundary.Splits.{Gives, Splits, split-Splits}

abbrev handle : ReplyHandle
handle = record { driver = 1; id = 3 }

abbrev no_machines : State ℕ ℕ
no_machines = Process.start 0

looked_up :
    encode (View.lookup (b'h' ∷ b'i' ∷ []) 3) []
    ≡ some (2 ∷ 2 ∷ 0 ∷ 0 ∷ 0 ∷ b'h' ∷ b'i' ∷ 3 ∷ 0 ∷ 0 ∷ 0 ∷ 0 ∷ 0 ∷ 0 ∷ 0 ∷ [])
unfolding encode as_u8 Writer.u8 Writer.u64 Writer.str Writer.bytes Words.to_le_bytes
looked_up = refl

slept :
    split (Full.sleep (record { request = 1500000; reply = handle })) no_machines
    ≡ some (View.sleep 1 3, some (Pending.unit handle), no_machines)
unfolding split millis saturate into_pending
slept = refl

unknown_fs_error : from_bytes fs_error_wire (3 ∷ []) ≡ err (Reader.unknown_tag 3)
unfolding from_bytes decode_fs_error Reader.u8 Words.from_le_bytes
unknown_fs_error = refl

abbrev new_file : View
new_file = View.write_file (b'a' ∷ []) (255 ∷ 0 ∷ []) 7

view-Crosses_example : Crosses view_wire new_file
unfolding Utf8.invalid_from
view-Crosses_example = view-Crosses new_file ((omega arith, refl), omega arith, omega arith)

split-Splits_example : Gives (Splits (Full.spawn 5) no_machines) (split (Full.spawn 5) no_machines)
unfolding Process.start Table.new_table Table.issue_fuel
split-Splits_example = split-Splits (Full.spawn 5) no_machines (omega arith, omega arith, tt)

sleep-Rounds_example :
    (bs : List ℕ) × (r : ℕ) × (to_bytes sleep_wire 1500000 ≡ some bs)
    × (from_bytes sleep_wire bs ≡ ok r)
    × Rounds 1500000 r
sleep-Rounds_example = sleep-Rounds 1500000
