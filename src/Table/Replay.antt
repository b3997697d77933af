-- ===== src/Table/Replay.antt =====
-- sans-effort-host/src/record.rs: a recording, and its replay through the table.
use sans_effort.Shared.{
  ℕ, ◌+◌, List, [], ◌∷◌, Option, none, some, Result, ok, err, Bool, true, false, ◌&&◌, ◌==◌,
}
use sans_effort.Codec.Writer.{◌>>=◌}
use sans_effort.Host.{ℤ, pos, negsuc, code_of}
use sans_effort.Host.Record.{Log, Event, Outcome, outcome, machine_of, outcome_of}
use sans_effort.Table.Process.{State, Stepped}
use sans_effort.Table.Calls
use sans_effort.Table.Sessions.{
  new_log, start_recording, finish_recording, recorded_handle, reissue, stop_reissuing,
}

-- A call that went otherwise, or a machine that was never created.
pub data Divergence : Type 0 where
  diverged : ℕ → Outcome → Outcome → Divergence
  missing : ℕ → ℕ → Divergence

-- The derived `PartialEq` of `Outcome`.
unfoldable pub same_code : ℤ → ℤ → Bool
same_code (pos m) (pos n) = m == n
same_code (negsuc m) (negsuc n) = m == n
same_code _ _ = false

unfoldable pub same_bytes : List ℕ → List ℕ → Bool
same_bytes [] [] = true
same_bytes (b ∷ bs) (c ∷ cs) = (b == c) && same_bytes bs cs
same_bytes _ _ = false

unfoldable pub same_outcome : Outcome → Outcome → Bool
same_outcome a b = same_code a.status b.status && same_bytes a.bytes b.bytes

-- A recording in progress: its session, until it is finished.
pub record Recorder : Type 0 where
  pub session : Option ℕ

module _ {M P : Type 0} where
  -- `record`.
  unfoldable pub record_root : ℕ → State M P → Recorder × State M P
  record_root root s =
      let (session, s) = start_recording root s in (record { session = some session }, s)

  finish_session : Option ℕ → State M P → Log × State M P
  finish_session none s = (new_log, s)
  finish_session (some session) s = finish_recording session s

  -- `Recorder::finish`, and its drop, which discards the log.
  unfoldable pub finish : Recorder → State M P → Log × State M P
  unfolding finish_session
  finish recorder s = finish_session recorder.session s

  module _ (stepped : Stepped M P) where
    -- An event's call, made again.
    unfoldable pub call_again : Event → ℕ → State M P → Option (Outcome × State M P)
    call_again (Event.resume _ _) handle s = do
      (result, s) ← Calls.resume stepped handle s
      some (outcome result, s)
    call_again (Event.reply _ line _) handle s = do
      (result, s) ← Calls.reply stepped handle line s
      some (outcome result, s)
    call_again (Event.free _ _) handle s =
        let (result, s) = Calls.free stepped handle s in
        some (record { status = code_of result; bytes = [] }, s)

    abbrev Replayed : Type 0
    Replayed = Option (Result (Unit {0}) Divergence × State M P)

    -- `events.iter().enumerate().try_for_each(…)`, from the call of number `at` on.
    unfoldable pub replay_events : ℕ → ℕ → List Event → State M P → Replayed
    replay_events session at [] s = some (ok tt, s)
    replay_events session at (event ∷ events) s =
        elim (recorded_handle session (machine_of event) s) [
          | none ↦ some (err (missing at (machine_of event)), s)
          | some handle ↦ do
            (actual, s) ← call_again event handle s
            elim (same_outcome actual (outcome_of event)) [
              | true ↦ replay_events session (at + 1) events s
              | false ↦ some (err (diverged at (outcome_of event) actual), s)
            ]
        ]

    -- Most of them are gone already, and the results are ignored.
    unfoldable pub free_each : List ℕ → State M P → State M P
    free_each [] s = s
    free_each (handle ∷ handles) s = free_each handles (Calls.free stepped handle s).1

    abbrev session_or_default : Option ℕ → ℕ
    session_or_default none = 0
    session_or_default (some session) = session

    -- `replay`, where `root` creates the root and returns its handle.
    unfoldable pub replay : Log → (State M P → Option (ℕ × State M P)) → State M P → Replayed
    replay log root s = do
      (handle, s) ← root (reissue log.handles s)
      let (recorder, s) = record_root handle s in
          do
            (result, s) ← replay_events (session_or_default recorder.session) 0 log.events s
            let (recorded, s) = finish recorder (stop_reissuing s) in
                some (result, free_each recorded.handles s)
