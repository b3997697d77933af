-- ===== src/Table/Sessions.antt =====
-- sans-effort-host/src/table.rs, the recording sessions.
use sans_effort.Shared.{
  ℕ, ◌+◌, ◌-◌, ◌%◌, List, [], ◌∷◌, ◌++◌, Option, none, some, ◌==◌, if◌then◌else◌, u32_mod,
}
use sans_effort.Host.Record.{Log, Event, Outcome, outcome, machine_of, outcome_of, handle_at}
use sans_effort.Host.Record
use sans_effort.Table.{Tap, taps_or_default}
use sans_effort.Table.Entries
use sans_effort.Table.Process.{State}

abbrev pub new_log : Log
new_log = record { handles = []; events = [] }

abbrev pub log_or_default : Option Log → Log
log_or_default none = new_log
log_or_default (some log) = log

-- `taps.retain(|tap| tap.session != session)`.
unfoldable pub retain_taps : ℕ → List Tap → List Tap
retain_taps session [] = []
retain_taps session (tap ∷ taps) =
    let rest = retain_taps session taps in if tap.session == session then rest else tap ∷ rest

abbrev keep_taps : ℕ → List Tap → List (ℕ × List Tap) → List (ℕ × List Tap)
keep_taps handle [] kept = kept
keep_taps handle (tap ∷ taps) kept = (handle, tap ∷ taps) ∷ kept

-- `recorded.retain(…)`: a machine with no tap left is not recorded.
unfoldable pub retain_recorded : ℕ → List (ℕ × List Tap) → List (ℕ × List Tap)
retain_recorded session [] = []
retain_recorded session ((handle, taps) ∷ recorded) =
    keep_taps handle (retain_taps session taps) (retain_recorded session recorded)

-- One session fewer, if there was one to remove.
abbrev pub one_fewer : Option Log → ℕ → ℕ
one_fewer none n = n
one_fewer (some _) n = n - 1

abbrev pub handle_in : ℕ → Option Log → Option ℕ
handle_in machine none = none
handle_in machine (some log) = handle_at machine log

module _ {M P : Type 0} where
  -- `start_recording`; the number of the session wraps around, as in a release build.
  unfoldable pub start_recording : ℕ → State M P → ℕ × State M P
  start_recording root s =
      let t = s.shared.table in
      let session = t.next_session in
      let (machine, log) = Record.adopt root new_log in
      (
        session,
        record s {
          shared = record s.shared {
            session_count = s.shared.session_count + 1;
            table = record t {
              next_session = (session + 1) % u32_mod;
              sessions = Entries.insert session log t.sessions;
              recorded =
                  Entries.insert root
                    (taps_or_default (Entries.get root t.recorded)
                      ++ record { session = session; machine = machine } ∷ [])
                    t.recorded;
            };
          };
        },
      )

  unfoldable pub finish_recording : ℕ → State M P → Log × State M P
  finish_recording session s =
      let t = s.shared.table in
      let log = Entries.get session t.sessions in
      (
        log_or_default log,
        record s {
          shared = record s.shared {
            session_count = one_fewer log s.shared.session_count;
            table = record t {
              recorded = retain_recorded session t.recorded;
              sessions = Entries.remove session t.sessions;
            };
          };
        },
      )

  unfoldable pub recorded_handle : ℕ → ℕ → State M P → Option ℕ
  recorded_handle session machine s =
      handle_in machine (Entries.get session s.shared.table.sessions)

  unfoldable pub reissue : List ℕ → State M P → State M P
  reissue handles s = record s { own = record s.own { reissue = handles } }

  -- `Reissue`'s drop.
  unfoldable pub stop_reissuing : State M P → State M P
  stop_reissuing s = record s { own = record s.own { reissue = [] } }
