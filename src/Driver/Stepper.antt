-- ===== src/Driver/Stepper.antt =====
-- sans-effort-core/src/driver/stepper.rs, and the methods of `Driver` in driver.rs, which wrap it.
-- The routine is code of the caller: its poll, its drop, and what a waker that it gave out does are
-- arguments. Each acts on what it shares with the driver, the outbox and the driver's waker.
use sans_effort.Shared.{ℕ, Option, none, some, Result, ok, err, Bool, true, false}
use sans_effort.Codec.Writer.{◌>>=◌}
use sans_effort.Reply.{Kind, Value, ReplyHandle, Answer, Payload, into_value}
use sans_effort.Mail.{Delivery, delivered, gone, refused}
use sans_effort.Outbox
use sans_effort.Outbox.{Inner}
use sans_effort.Driver.{Status, awaiting, classify, Yield, new_from_batch, nothing, Refused}
use sans_effort.Driver.Wake
use sans_effort.Driver.Wake.{Wakeup}

-- What the driver and its routine share.
pub record Shares (E : Type 0) : Type 0 where
  pub outbox : Inner E
  pub wakeup : Wakeup

-- The poll tells whether the routine returned; `none` is a panic.
pub record Routine (F E : Type 0) : Type 0 where
  pub poll_future : F → ℕ → Shares E → Option ((Bool × F) × Shares E)
  pub drop_future : F → Shares E → Option (Shares E)
  pub wake : ℕ → Shares E → Option (Shares E)

pub record Stepper (F E : Type 0) : Type 0 where
  pub future : Option F
  pub shares : Shares E
  pub status : Status
  pub waker : ℕ

module _ {F E : Type 0} where
  unfoldable pub new : F → ℕ → Inner E → Stepper F E
  new future waker outbox = record {
    future = some future;
    shares = record { outbox = Outbox.adopt waker outbox; wakeup = Wake.new };
    status = awaiting;
    waker = waker;
  }

  unfoldable pub on_wake : Stepper F E → Stepper F E
  on_wake s = record s { shares = record s.shares { wakeup = Wake.set_hook s.shares.wakeup } }

  -- `is_finished`.
  unfoldable pub is_finished : Stepper F E → Bool
  is_finished s = elim s.future [ none ↦ true | some _ ↦ false ]

module _ {F E : Type 0} (routine : Routine F E) where
  -- The future, unless it returned; then it is dropped.
  unfoldable pub after_poll : (Bool × F) × Shares E → Option (Option F × Shares E)
  after_poll ((true, future), shares) = do
    shares ← routine.drop_future future shares
    some (none, shares)
  after_poll ((false, future), shares) = some (some future, shares)

  unfoldable pub drained : Bool → ℕ → Option F × Shares E → Yield E × Stepper F E
  drained is_ready waker (future, shares) =
      let (((effects, closed), outstanding), outbox) = Outbox.drain shares.outbox in
      (
        new_from_batch effects closed,
        record {
          future = future;
          shares = record shares { outbox = outbox };
          status = classify is_ready outstanding;
          waker = waker;
        },
      )

  abbrev pub polled : ℕ → (Bool × F) × Shares E → Option (Yield E × Stepper F E)
  polled waker r = do left ← after_poll r; some (drained r.0.0 waker left)

  -- `poll`, on the future.
  unfoldable pub poll_some : Option F → Stepper F E → Option (Yield E × Stepper F E)
  poll_some none s = some (nothing, s)
  poll_some (some future) s = do
    r ← routine.poll_future future s.waker (record s.shares { wakeup = Wake.clear s.shares.wakeup })
    polled s.waker r

  unfoldable pub poll : Stepper F E → Option (Yield E × Stepper F E)
  poll s = poll_some s.future s

  -- The waker that the request kept is woken with the driver's own held.
  unfoldable pub wake_kept : Option ℕ → Shares E → Option (Shares E)
  wake_kept none shares = some shares
  wake_kept (some waker) shares =
      routine.wake waker (record shares { wakeup = Wake.hold shares.wakeup })

  unfoldable pub on_delivery :
      Delivery → Stepper F E → Option (Result (Yield E) Refused × Stepper F E)
  on_delivery (delivered waker) s = do
    shares ← wake_kept waker s.shares
    (yielded, s') ← poll (record s { shares = shares })
    some (ok yielded, s')
  on_delivery gone s = some (ok nothing, s)
  on_delivery (refused reply error) s = some (err (record { reply = reply; error = error }), s)

  abbrev pub when_delivered :
      Stepper F E → Option (Delivery × Inner E) → Option (Result (Yield E) Refused × Stepper F E)
  when_delivered s none = none
  when_delivered s (some (delivery, outbox)) =
      on_delivery delivery (record s { shares = record s.shares { outbox = outbox } })

  -- `none` is a panic: of `into_wire`, of the check, of the routine, or for another driver's handle.
  unfoldable pub try_reply_wire :
      ReplyHandle → Value → Stepper F E → Option (Result (Yield E) Refused × Stepper F E)
  try_reply_wire reply value s = when_delivered s (Outbox.deliver reply value s.shares.outbox)

  abbrev with_wire :
      (k : Kind)
      → ReplyHandle
      → Stepper F E
      → Option (Payload k)
      → Option (Result (Yield E) Refused × Stepper F E)
  with_wire k reply s none = none
  with_wire k reply s (some wire) = try_reply_wire reply (into_value k wire) s

  unfoldable pub try_reply :
      {A : Type 0}
      → Answer A
      → ReplyHandle
      → A
      → Stepper F E
      → Option (Result (Yield E) Refused × Stepper F E)
  try_reply a reply answer s = with_wire a.wire reply s (a.into_wire answer)

  abbrev or_panic : Option (Result (Yield E) Refused × Stepper F E) → Option (Yield E × Stepper F E)
  or_panic none = none
  or_panic (some (ok yielded, s)) = some (yielded, s)
  or_panic (some (err _, s)) = none

  unfoldable pub reply :
      {A : Type 0} → Answer A → ReplyHandle → A → Stepper F E → Option (Yield E × Stepper F E)
  reply a handle answer s = or_panic (try_reply a handle answer s)

-- `Driver::new` and its three variants: `make` gets the new outbox, on which it may act, and
-- returns the future.
unfoldable pub new_driver : {F E : Type 0} → (Inner E → F × Inner E) → ℕ → ℕ → Stepper F E
new_driver make driver waker =
    let (future, outbox) = make (Outbox.new driver) in new future waker outbox

-- `Driver::resume`.
unfoldable pub resume : {F E : Type 0} → Routine F E → Stepper F E → Option (Yield E × Stepper F E)
resume routine s = poll routine s
