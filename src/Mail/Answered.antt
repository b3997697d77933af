-- ===== src/Mail/Answered.antt =====
-- sans-effort-core/src/driver/mail.rs, `open`, `deliver` and `collect`: a request, its reply, and
-- the poll after it.
use mathlib.Core.Option
use sans_effort.Shared.{ℕ, ◌+◌, ◌<◌, ◌≡◌, refl, ap, ◌∙◌, Option, none, some, ok, u64_mod, ==-refl}
use sans_effort.Reply.{Value, ReplyHandle, Check}
use sans_effort.Reply
use sans_effort.Mail.{Mail, Delivery, deliver, collect, open_slot, mint, fresh_slot}
use sans_effort.Mail.Invariant.{IsValid, mint-IsValid}
use sans_effort.Mail.Map.{Spec, view, spec_deliver, spec_collect, spec_open}
use sans_effort.Mail.Refine.{view_delivery, deliver-view, collect-view, open_slot-view}
use sans_effort.Mail.Valid.{DeliverKeeps, deliver-Keeps, ask-IsValid, mint-Absent}

-- What a later poll collects, after a reply.
abbrev pub collect_after : ℕ → Option ℕ → Option (Delivery × Mail) → Option (Option Value)
collect_after id waker r = Option.map (λ (_, m). (collect id waker m).0) r

abbrev spec_collect_after : ℕ → Option ℕ → Option (Delivery × Spec) → Option (Option Value)
spec_collect_after id waker r = Option.map (λ (_, s). (spec_collect id waker s).0) r

collect_after-view :
    (id : ℕ) (waker : Option ℕ) (m : Mail) (r : Option (Delivery × Mail))
    → DeliverKeeps m r
    → collect_after id waker r ≡ spec_collect_after id waker (Option.map view_delivery r)
collect_after-view id waker m none k = refl
collect_after-view id waker m (some (d, m')) (v, e) =
    ap (λ r. some r.0) (collect-view id waker m' v)

-- The mailbox with a request asked.
abbrev pub ask : Check → Mail → Mail
ask check m = open_slot (mint m).0.id check (mint m).1

module _ (check : Check) (m : Mail) (v : IsValid m) (h : m.next + 1 < u64_mod) where
  ask-view : view (ask check m) ≡ spec_open m.next check (view (mint m).1)
  unfolding mint Reply.mint
  ask-view = open_slot-view m.next check (mint m).1 (mint-IsValid m v h) (mint-Absent m v)

  asked_deliver :
      (value : Value)
      → check value ≡ some (ok tt)
      → (waker : Option ℕ)
      → spec_collect_after m.next waker
          (spec_deliver (mint m).0 value (spec_open m.next check (view (mint m).1)))
        ≡ some (some value)
  unfolding mint Reply.mint fresh_slot
  asked_deliver value c waker = rw (==-refl m.driver, ==-refl m.next, c, ==-refl m.next) refl

  -- On a valid mailbox with an id left, a reply that the request's check accepts is what the next
  -- poll of the request collects, whatever its waker.
  pub collect-deliver :
      (value : Value) (waker : Option ℕ)
      → check value ≡ some (ok tt)
      → collect_after (mint m).0.id waker (deliver (mint m).0 value (ask check m))
        ≡ some (some value)
  unfolding mint Reply.mint
  collect-deliver value waker c =
      let asked = ask-IsValid check m v h in
      collect_after-view m.next waker (ask check m) (deliver (mint m).0 value (ask check m))
        (deliver-Keeps (mint m).0 value (ask check m) asked)
      ∙ ap (spec_collect_after m.next waker) (deliver-view (mint m).0 value (ask check m) asked)
      ∙ ap (λ s. spec_collect_after m.next waker (spec_deliver (mint m).0 value s)) ask-view
      ∙ asked_deliver value c waker
