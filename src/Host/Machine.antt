-- ===== src/Host/Machine.antt =====
-- sans-effort-host/src/machine.rs: a driver and the requests that it has outstanding, by id. What
-- `HostEffect::split` makes of an effect is an argument.
use mathlib.Core.Option
use sans_effort.Shared.{
  ℕ, zero, suc, ◌+◌, ◌-◌, max, List, [], ◌∷◌, ◌++◌, Option, none, some, Result, ok, err, Bool, true,
  false, not, ◌&&◌, ◌||◌, leb, ◌==◌, if◌then◌else◌, get_elem?, set, last?,
}
use sans_effort.Reply.{
  Kind, ReplyHandle, Pending, Payload, pending_id, pending_kind, from_pending, into_pending,
  into_value, kind_of,
}
use sans_effort.Batch.{Batch, empty, one, two, many}
use sans_effort.Driver.{Yield, Refused, map_yield}
use sans_effort.Driver.Stepper
use sans_effort.Driver.Stepper.{Stepper, Routine}
use sans_effort.Host.{Error, malformed, finished, stale, bad_input, wrong_kind}

pub record HostEffect (E V : Type 0) : Type 0 where
  pub split : E → V × Option Pending

pub record Shown (V : Type 0) : Type 0 where
  pub view : V
  pub awaits : Bool

-- The fields of `Machine` beside its driver.
pub record Wallet : Type 0 where
  pub pending : List (ℕ × Pending)
  pub highest_shown : ℕ
  pub never_shown : List ℕ

pub record Machine (F E : Type 0) : Type 0 where
  pub driver : Stepper F E
  pub wallet : Wallet

unfoldable pub from_driver : {F E : Type 0} → Stepper F E → Machine F E
from_driver driver = record {
  driver = driver;
  wallet = record { pending = []; highest_shown = 0; never_shown = [] };
}

-- `first..first + count`.
unfoldable pub ids_from : ℕ → ℕ → List ℕ
ids_from first zero = []
ids_from first (suc count) = first ∷ ids_from (first + 1) count

-- The handle of an effect that is shown, kept.
unfoldable pub keep : Pending → Wallet → Wallet
keep p w = record {
  pending = w.pending ++ (pending_id p, p) ∷ [];
  highest_shown = max w.highest_shown (pending_id p);
  never_shown =
      w.never_shown ++ ids_from (w.highest_shown + 1) (pending_id p - (w.highest_shown + 1));
}

unfoldable pub shown_effect : {V : Type 0} → V × Option Pending → Wallet → Shown V × Wallet
shown_effect (view, none) w = (record { view = view; awaits = false }, w)
shown_effect (view, some p) w = (record { view = view; awaits = true }, keep p w)

-- `pending.retain(|(i, _)| i != id)`.
unfoldable pub forget : ℕ → List (ℕ × Pending) → List (ℕ × Pending)
forget id [] = []
forget id ((i, p) ∷ pending) =
    let rest = forget id pending in if i == id then rest else (i, p) ∷ rest

unfoldable pub forget_all : List ℕ → List (ℕ × Pending) → List (ℕ × Pending)
forget_all [] pending = pending
forget_all (id ∷ ids) pending = forget_all ids (forget id pending)

module _ {E V : Type 0} (host : HostEffect E V) where
  unfoldable pub show_list : List E → Wallet → List (Shown V) × Wallet
  show_list [] w = ([], w)
  show_list (effect ∷ effects) w =
      let (shown, w') = shown_effect (host.split effect) w in
      let (rest, w'') = show_list effects w' in (shown ∷ rest, w'')

  -- `Batch::map` with the closure of `show`, which keeps the handles.
  unfoldable pub show_batch : Batch E → Wallet → Batch (Shown V) × Wallet
  show_batch empty w = (empty, w)
  show_batch (one first) w = let (shown, w') = shown_effect (host.split first) w in (one shown, w')
  show_batch (two first second) w =
      let (shown, w') = shown_effect (host.split first) w in
      let (shown', w'') = shown_effect (host.split second) w' in (two shown shown', w'')
  show_batch (many effects) w = let (shown, w') = show_list effects w in (many shown, w')

  unfoldable pub show : Yield E → Wallet → Yield (Shown V) × Wallet
  show step w =
      let (shown, w') = show_batch step.effects w in
      (
        record { effects = shown; closed = step.closed },
        record w' { pending = forget_all step.closed w'.pending },
      )

-- `iter().position(|(i, _)| *i == id)`.
unfoldable pub position : ℕ → List (ℕ × Pending) → Option ℕ
position id [] = none
position id ((i, p) ∷ pending) =
    let rest = position id pending in
    if i == id then some 0 else elim rest [ none ↦ none | some at ↦ some (suc at) ]

-- All but the last.
unfoldable pub pop : List (ℕ × Pending) → List (ℕ × Pending)
pop [] = []
pop (x ∷ []) = []
pop (x ∷ y ∷ xs) = x ∷ pop (y ∷ xs)

abbrev pub over_last : List (ℕ × Pending) → ℕ → Option (ℕ × Pending) → List (ℕ × Pending)
over_last pending at none = pending
over_last pending at (some last) = pop (set pending at last)

-- `swap_remove`, what it leaves: the last in the place of the one removed.
unfoldable pub swap_remove : ℕ → List (ℕ × Pending) → List (ℕ × Pending)
swap_remove at pending = over_last pending at (last? pending)

unfoldable pub contains : ℕ → List ℕ → Bool
contains id [] = false
contains id (i ∷ ids) = i == id || contains id ids

-- Whether the host was shown this id.
unfoldable pub was_shown : ℕ → Wallet → Bool
was_shown id w = not (id == 0) && leb id w.highest_shown && not (contains id w.never_shown)

unfoldable pub take_at :
    ℕ → Wallet → Option ℕ → Option (ℕ × Pending) → Result (Pending × Wallet) Error
take_at id w (some at) (some (_, p)) = ok (p, record w { pending = swap_remove at w.pending })
take_at id w _ _ = if was_shown id w then err (stale id) else err bad_input

abbrev pub elem_at : List (ℕ × Pending) → Option ℕ → Option (ℕ × Pending)
elem_at pending none = none
elem_at pending (some at) = get_elem? pending at

-- `Machine::take`, on a driver that is not finished.
unfoldable pub take_pending : ℕ → Wallet → Result (Pending × Wallet) Error
take_pending id w = take_at id w (position id w.pending) (elem_at w.pending (position id w.pending))

unfoldable pub take : {F E : Type 0} → ℕ → Machine F E → Result (Pending × Wallet) Error
take id m = if Stepper.is_finished m.driver then err finished else take_pending id m.wallet

unfoldable pub put_back : ℕ → Pending → Wallet → Wallet
put_back id p w = record w { pending = w.pending ++ (id, p) ∷ [] }

abbrev pub Replied : Type 0 → Type 0 → Type 0 → Type 0
Replied F E V = Result (Yield (Shown V)) Error × Machine F E

unfoldable pub views : {V : Type 0} → Yield (Shown V) → Yield V
views step = map_yield (λ shown. shown.view) step

unfoldable pub on_wake : {F E : Type 0} → Machine F E → Machine F E
on_wake m = record m { driver = Stepper.on_wake m.driver }

module _ {F E V : Type 0} (routine : Routine F E) (host : HostEffect E V) where
  abbrev show_step : Yield E × Stepper F E → Wallet → Replied F E V
  show_step (step, driver) w =
      let (shown, w') = show host step w in (ok shown, record { driver = driver; wallet = w' })

  -- `Machine::deliver`, after the driver's `try_reply`.
  unfoldable pub delivered :
      Kind → ℕ → Wallet → Option (Result (Yield E) Refused × Stepper F E) → Option (Replied F E V)
  delivered k id w none = none
  delivered k id w (some (ok step, driver)) = some (show_step (step, driver) w)
  delivered k id w (some (err refusal, driver)) = some (
    err (malformed refusal.error),
    record { driver = driver; wallet = put_back id (into_pending k refusal.reply) w },
  )

  -- The match of `reply_shown` on `from_pending`.
  unfoldable pub reply_taken :
      (k : Kind)
      → ℕ
      → Payload k
      → Stepper F E
      → Wallet
      → Result ReplyHandle Pending
      → Option (Replied F E V)
  reply_taken k id value driver w (ok handle) =
      delivered k id w (Stepper.try_reply_wire routine handle (into_value k value) driver)
  reply_taken k id value driver w (err p) = some (
    err (wrong_kind id (pending_kind p) (kind_of (into_value k value))),
    record { driver = driver; wallet = put_back id p w },
  )

  unfoldable pub reply_pending :
      (k : Kind)
      → ℕ
      → Payload k
      → Machine F E
      → Result (Pending × Wallet) Error
      → Option (Replied F E V)
  reply_pending k id value m (err error) = some (err error, m)
  reply_pending k id value m (ok (p, w)) = reply_taken k id value m.driver w (from_pending k p)

  -- `none` is a panic.
  unfoldable pub reply_shown : (k : Kind) → ℕ → Payload k → Machine F E → Option (Replied F E V)
  reply_shown k id value m = reply_pending k id value m (take id m)

  abbrev resumed : Wallet → Option (Yield E × Stepper F E) → Option (Replied F E V)
  resumed w none = none
  resumed w (some stepped) = some (show_step stepped w)

  unfoldable pub resume_shown : Machine F E → Option (Replied F E V)
  resume_shown m =
      if Stepper.is_finished m.driver
      then some (err finished, m)
      else resumed m.wallet (Stepper.resume routine m.driver)

  abbrev viewed : Replied F E V → Result (Yield V) Error × Machine F E
  viewed (ok shown, m) = (ok (views shown), m)
  viewed (err error, m) = (err error, m)

  unfoldable pub reply :
      (k : Kind) → ℕ → Payload k → Machine F E → Option (Result (Yield V) Error × Machine F E)
  reply k id value m = Option.map viewed (reply_shown k id value m)

  unfoldable pub resume : Machine F E → Option (Result (Yield V) Error × Machine F E)
  resume m = Option.map viewed (resume_shown m)
