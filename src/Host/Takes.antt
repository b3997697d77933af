-- ===== src/Host/Takes.antt =====
-- sans-effort-host/src/machine.rs, `reply_shown` and `take`: what a reply by id does to the table
-- of requests.
use sans_effort.Shared.{
  ℕ, ◌≡◌, refl, sym, ap, ◌∙◌, subst, Option, none, some, Result, ok, err, ◌==◌, if◌then◌else◌, inl,
  inr, Bool-cases, ==→eq,
}
use sans_effort.Reply.{Kind, ReplyHandle, Pending, Payload, from_pending, into_pending, into_value}
use sans_effort.Reply.Menu.{Unwraps, from_pending-Unwraps}
use sans_effort.Driver.{Yield, Refused}
use sans_effort.Driver.Stepper.{Routine, Stepper, is_finished, try_reply_wire}
use sans_effort.Driver.Replies.{Rejects, try_reply_wire-Rejects}
use sans_effort.Host.{Error, stale, bad_input}
use sans_effort.Host.Machine.{
  Wallet, Machine, HostEffect, elem_at, take_at, take_pending, take, put_back, was_shown, Replied,
  reply_shown, reply_pending, reply_taken, delivered,
}
use sans_effort.Host.Pending.{
  lookup, without, IsDistinct, Found, absent, found, lookup_cases, or_else, lookup-append,
}

-- What `take` makes of an id on a driver that is not finished.
abbrev pub Takes : ℕ → Wallet → Result (Pending × Wallet) Error → Type 0
Takes id w (ok (p, w')) =
    (lookup id w.pending ≡ some p)
    × ((j : ℕ) → lookup j w'.pending ≡ without id w.pending j)
    × (w'.highest_shown ≡ w.highest_shown)
    × (w'.never_shown ≡ w.never_shown)
Takes id w (err error) =
    (lookup id w.pending ≡ none) × (error ≡ (if was_shown id w then stale id else bad_input))

take_at-absent :
    (id : ℕ) (w : Wallet) → lookup id w.pending ≡ none → Takes id w (take_at id w none none)
unfolding take_at
take_at-absent id w e = elim (Bool-cases (was_shown id w)) [
  | inl shown ↦ rw shown (e, rw shown refl)
  | inr unseen ↦ rw unseen (e, rw unseen refl)
]

take_pending_by_cases : (id : ℕ) (w : Wallet) → Found id w.pending → Takes id w (take_pending id w)
unfolding take_pending
take_pending_by_cases id w (absent e f) =
    subst (λ at. Takes id w (take_at id w at (elem_at w.pending at))) (sym e)
      (take_at-absent id w f)
take_pending_by_cases id w (found at p e g f s) =
    subst (λ r. Takes id w (take_at id w r (elem_at w.pending r))) (sym e)
      (subst (λ q. Takes id w (take_at id w (some at) q)) (sym g)
        (unfold take_at in (f, s, refl, refl)))

pub take_pending-Takes :
    (id : ℕ) (w : Wallet) → IsDistinct w.pending → Takes id w (take_pending id w)
take_pending-Takes id w d = take_pending_by_cases id w (lookup_cases id w.pending d)

or_else-none : (r : Option Pending) → or_else r none ≡ r
or_else-none none = refl
or_else-none (some p) = refl

-- A request taken and put back is where it was.
lookup-put_back :
    (id j : ℕ) (p q : Pending) (w w' : Wallet)
    → Takes id w (ok (p, w'))
    → q ≡ p
    → lookup j (put_back id q w').pending ≡ lookup j w.pending
unfolding put_back
lookup-put_back id j p q w w' (f, s, _, _) e =
    lookup-append id j q w'.pending
    ∙ ap (λ r. or_else r (if id == j then some q else none)) (s j)
    ∙ restored
  where
    restored :
        or_else (without id w.pending j) (if id == j then some q else none) ≡ lookup j w.pending
    restored = elim (Bool-cases (id == j)) [
      | inl same ↦
          rw same (ap some e ∙ sym (subst (λ k. lookup k w.pending ≡ some p) (==→eq id j same) f))
      | inr other ↦ rw other (or_else-none (lookup j w.pending))
    ]

module _ {F E V : Type 0} (routine : Routine F E) (host : HostEffect E V) (m : Machine F E) where
  -- After an error, the same requests are outstanding and the driver is unchanged.
  abbrev pub Keeps : Option (Replied F E V) → Type 0
  Keeps none = Unit
  Keeps (some (ok _, _)) = Unit
  Keeps (some (err _, m')) =
      (m'.driver ≡ m.driver) × ((j : ℕ) → lookup j m'.wallet.pending ≡ lookup j m.wallet.pending)

  module _ (k : Kind) (id : ℕ) (value : Payload k) where
    delivered-Keeps :
        (handle : ReplyHandle) (p : Pending) (w : Wallet)
        (r : Option (Result (Yield E) Refused × Stepper F E))
        → Takes id m.wallet (ok (p, w))
        → p ≡ into_pending k handle
        → Rejects routine handle m.driver r
        → Keeps (delivered routine host k id w r)
    unfolding delivered
    delivered-Keeps handle p w none t e q = tt
    delivered-Keeps handle p w (some (ok step, driver)) t e q = tt
    delivered-Keeps handle p w (some (err refusal, driver)) t e (h, d) = (
      d,
      λ j.
          lookup-put_back id j p (into_pending k refusal.reply) m.wallet w t
            (ap (into_pending k) h ∙ sym e),
    )

    reply_taken-Keeps :
        (p : Pending) (w : Wallet) (r : Result ReplyHandle Pending)
        → Takes id m.wallet (ok (p, w))
        → Unwraps k p r
        → Keeps (reply_taken routine host k id value m.driver w r)
    unfolding reply_taken
    reply_taken-Keeps p w (ok handle) t (e, _, _) =
        delivered-Keeps handle p w (try_reply_wire routine handle (into_value k value) m.driver) t e
          (try_reply_wire-Rejects routine handle (into_value k value) m.driver)
    reply_taken-Keeps p w (err q) t (e, _) = (refl, λ j. lookup-put_back id j p q m.wallet w t e)

    reply_pending-Keeps :
        (r : Result (Pending × Wallet) Error)
        → Takes id m.wallet r
        → Keeps (reply_pending routine host k id value m r)
    unfolding reply_pending
    reply_pending-Keeps (err error) t = (refl, λ j. refl)
    reply_pending-Keeps (ok (p, w)) t =
        reply_taken-Keeps p w (from_pending k p) t (from_pending-Unwraps k p)

    -- A reply by id, on a table where no id stands twice, that fails with any error, on a finished
    -- routine, for an id that nothing awaits, of another kind, or with a value that is malformed:
    -- the driver is unchanged and every request is outstanding as before, so that the host may
    -- reply again.
    pub reply_shown-Keeps :
        IsDistinct m.wallet.pending → Keeps (reply_shown routine host k id value m)
    unfolding reply_shown take reply_pending
    reply_shown-Keeps d = elim (Bool-cases (is_finished m.driver)) [
      | inl done ↦ rw done (refl, λ j. refl)
      | inr running ↦
          rw running
            (reply_pending-Keeps (take_pending id m.wallet) (take_pending-Takes id m.wallet d))
    ]
