-- ===== src/Outbox/Replies.antt =====
-- sans-effort-core/src/driver/awaiting.rs and outbox.rs: a reply, from the outbox to the future
-- that waits for it.
use mathlib.Core.Option
use sans_effort.Shared.{
  ℕ, ◌+◌, ◌<◌, ◌≡◌, refl, ap, ◌∙◌, List, [], ◌∷◌, Option, none, some, ok, u64_mod, either_way,
}
use sans_effort.Reply.{ReplyHandle, Answer, Payload, into_value, check}
use sans_effort.Reply.Menu.{from_value-into_value}
use sans_effort.Reply.Answers.{check-into_value}
use sans_effort.Mail.{Mail, Delivery}
use sans_effort.Mail
use sans_effort.Mail.Invariant.{IsValid}
use sans_effort.Mail.Answered.{ask, collect_after, collect-deliver}
use sans_effort.Outbox.{
  Held, ready, reserved, Inner, displace, record_behind, record_held, release, open_held,
  fill_place, place_effect, is_building, mint, open_request, deliver, with_mail, collect,
  waker_to_keep,
}
use sans_effort.Outbox.Asking.{into_future, when_built, poll, poll_value, from_checked}

module _ {E : Type 0} where
  displace-mail : (b : Option ℕ) (s : Inner E) → (displace b s).mail ≡ s.mail
  unfolding displace
  displace-mail none s = refl
  displace-mail (some id) s = refl

  record_behind-mail :
      (hs : List (Held E)) (held : Held E) (s : Inner E) → (record_behind hs held s).mail ≡ s.mail
  unfolding record_behind
  record_behind-mail (_ ∷ _) held s = refl
  record_behind-mail [] (ready effect) s = refl
  record_behind-mail [] (reserved id) s = refl

  record_held-mail : (held : Held E) (s : Inner E) → (record_held held s).mail ≡ s.mail
  unfolding record_held
  record_held-mail held s =
      let s' = displace s.building s in
      record_behind-mail s'.held held s' ∙ displace-mail s.building s

  open_held-mail : (hs : Option (List (Held E))) (s : Inner E) → (open_held hs s).mail ≡ s.mail
  unfolding open_held release
  open_held-mail none s = refl
  open_held-mail (some hs) s = refl

  place_effect-mail : (id : ℕ) (effect : E) (s : Inner E) → (place_effect id effect s).mail ≡ s.mail
  unfolding place_effect
  place_effect-mail id effect s =
      either_way (λ (s' : Inner E). s'.mail ≡ s.mail) (is_building id s.building) refl
        (open_held-mail (fill_place id effect s.held) s)

  abbrev pub building : (ReplyHandle → E) → ReplyHandle → Inner E → Option E × Inner E
  building build reply s = (some (build reply), s)

  into_future-mail :
      {A : Type 0} (a : Answer A) (build : ReplyHandle → E) (s : Inner E)
      → (into_future (building build) (check a) s).1.mail ≡ ask (check a) s.mail
  unfolding into_future when_built open_request mint
  into_future-mail a build s =
      let minted = record s { mail = (Mail.mint s.mail).1 } in
      place_effect-mail (Mail.mint s.mail).0.id (build (Mail.mint s.mail).0) _
      ∙ ap (Mail.open_slot (Mail.mint s.mail).0.id (check a))
          (record_held-mail (reserved (Mail.mint s.mail).0.id) minted)

  -- What a later poll returns, after a reply.
  abbrev pub poll_after :
      {A : Type 0} → Answer A → ℕ → ℕ → Option (Delivery × Inner E) → Option (Option (Option A))
  poll_after a id waker = Option.map (λ (_, s). (poll a id waker s).0)

  poll_after-with_mail :
      {A : Type 0} (a : Answer A) (id waker : ℕ) (s : Inner E) (r : Option (Delivery × Mail))
      → poll_after a id waker (with_mail s r)
        ≡ Option.map (poll_value a) (collect_after id (waker_to_keep waker s.driver_waker) r)
  unfolding poll collect
  poll_after-with_mail a id waker s none = refl
  poll_after-with_mail a id waker s (some (d, m)) = refl

module _ {A : Type 0} (a : Answer A) (wire : Payload a.wire) (answer : A) where
  poll_value-into_value :
      a.from_wire wire ≡ ok answer
      → poll_value a (some (into_value a.wire wire)) ≡ some (some answer)
  unfolding poll_value from_checked
  poll_value-into_value f = rw (from_value-into_value a.wire wire, f) refl

module _ {E A : Type 0} (a : Answer A) (s : Inner E) (v : IsValid s.mail) where
  -- On an outbox with a valid mailbox and an id left, a request is asked. A reply whose wire value
  -- the answer's check accepts and from_wire reads is delivered, and the next poll of the request
  -- returns that answer: nothing on the way panics or leaves the poll pending.
  pub poll-deliver :
      (build : ReplyHandle → E) (wire : Payload a.wire) (answer : A) (waker : ℕ)
      → s.mail.next + 1 < u64_mod
      → a.check wire ≡ ok tt
      → a.from_wire wire ≡ ok answer
      → poll_after a
          (mint s).0.id
          waker
          (deliver (mint s).0 (into_value a.wire wire) (into_future (building build) (check a) s).1)
        ≡ some (some (some answer))
  unfolding deliver mint
  poll-deliver build wire answer waker h c f =
      let asked = (into_future (building build) (check a) s).1 in
      let value = into_value a.wire wire in
      let reply = (Mail.mint s.mail).0 in
      let kept = waker_to_keep waker asked.driver_waker in
      poll_after-with_mail a reply.id waker asked (Mail.deliver reply value asked.mail)
      ∙ ap
          (λ m.
            Option.map (poll_value a) (collect_after reply.id kept (Mail.deliver reply value m)))
          (into_future-mail a build s)
      ∙ ap (Option.map (poll_value a))
          (collect-deliver (check a) s.mail v h value kept (check-into_value a wire ∙ ap some c))
      ∙ ap some (poll_value-into_value a wire answer f)
