-- ===== src/Host/Codes.antt =====
-- sans-effort-host/src/contract.rs and error.rs: the codes, and a host's table of them.
use sans_effort.Shared.{◌≡◌, refl, Option, none, some, Result, ok, err, List, [], ◌∷◌, get_elem?}
use sans_effort.Driver.{Status, awaiting, complete, idle}
use sans_effort.Host.{
  Error, bad_handle, bad_input, malformed, stale, wrong_kind, busy, wrong_thread, finished,
  panicked, ℤ, pos, negsuc, code, status_code, code_of,
}

-- An error without its details, which do not cross.
pub data Reason : Type 0 where
  driven_elsewhere done mistyped crashed no_handle no_request unreadable expired pinned : Reason

abbrev pub reason : Error → Reason
reason busy = Reason.driven_elsewhere
reason finished = Reason.done
reason (wrong_kind _ _ _) = Reason.mistyped
reason panicked = Reason.crashed
reason bad_handle = Reason.no_handle
reason bad_input = Reason.no_request
reason (malformed _) = Reason.unreadable
reason (stale _) = Reason.expired
reason wrong_thread = Reason.pinned

-- The table of codes that a host keeps: a status, or a reason.
abbrev statuses : List Status
statuses = awaiting ∷ complete ∷ idle ∷ []

abbrev reasons : List Reason
reasons =
    Reason.driven_elsewhere ∷ Reason.done ∷ Reason.mistyped ∷ Reason.crashed ∷ Reason.no_handle
    ∷ Reason.no_request ∷ Reason.unreadable ∷ Reason.expired ∷ Reason.pinned ∷ []

abbrev pub status_read : ℤ → Option Status
status_read (pos n) = get_elem? statuses n
status_read (negsuc _) = none

abbrev pub reason_read : ℤ → Option Reason
reason_read (pos _) = none
reason_read (negsuc n) = get_elem? reasons n

-- What a call without a status reads back as.
abbrev pub ReadsBack : Result (Unit {0}) Error → Type 0
ReadsBack (ok _) = reason_read (code_of (ok tt)) ≡ none
ReadsBack (err error) =
    (reason_read (code error) ≡ some (reason error))
    × (code_of (err error) ≡ code error)
    × (status_read (code error) ≡ none)

-- A host reads every code back: a status as that status and as no error, and an error as its
-- reason and as no status, so that no two statuses and no two reasons share a code.
pub code_of-ReadsBack :
    (status : Status) (result : Result (Unit {0}) Error)
    → (status_read (status_code status) ≡ some status)
      × (reason_read (status_code status) ≡ none)
      × ReadsBack result
unfolding code status_code code_of
code_of-ReadsBack status result = (read status, unread status, back result)
  where
    read : (status : Status) → status_read (status_code status) ≡ some status
    read awaiting = refl
    read complete = refl
    read idle = refl

    unread : (status : Status) → reason_read (status_code status) ≡ none
    unread awaiting = refl
    unread complete = refl
    unread idle = refl

    back : (result : Result (Unit {0}) Error) → ReadsBack result
    back (ok _) = refl
    back (err busy) = (refl, refl, refl)
    back (err finished) = (refl, refl, refl)
    back (err (wrong_kind _ _ _)) = (refl, refl, refl)
    back (err panicked) = (refl, refl, refl)
    back (err bad_handle) = (refl, refl, refl)
    back (err bad_input) = (refl, refl, refl)
    back (err (malformed _)) = (refl, refl, refl)
    back (err (stale _)) = (refl, refl, refl)
    back (err wrong_thread) = (refl, refl, refl)
