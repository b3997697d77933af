-- ===== src/Outbox.antt =====
-- sans-effort-core/src/driver/outbox.rs: the effects recorded between two polls, in order, and the
-- mailbox of their replies. The lock is held for one operation at a time, and an operation is a
-- function of the state under it.
pub mod Places
pub mod Order
pub mod Asking
pub mod Requests
pub mod Replies
mod Tests
use sans_effort.Shared.{
  ℕ, zero, suc, List, [], ◌∷◌, ◌++◌, Option, none, some, Bool, true, false, ◌==◌, if◌then◌else◌,
  length, take, drop,
}
use sans_effort.Reply.{Value, ReplyHandle, Check}
use sans_effort.Batch.{Batch}
use sans_effort.Batch
use sans_effort.Mail.{Mail, Delivery}
use sans_effort.Mail

pub data Held (E : Type 0) : Type 0 where
  ready : E → Held E
  reserved : ℕ → Held E

pub record Inner (E : Type 0) : Type 0 where
  pub effects : Batch E
  pub building : Option ℕ
  pub held : List (Held E)
  pub mail : Mail
  pub driver_waker : Option ℕ

abbrev pub is_building : ℕ → Option ℕ → Bool
is_building id none = false
is_building id (some r) = r == id

-- `(!own).then_some(waker)`
unfoldable pub waker_to_keep : ℕ → Option ℕ → Option ℕ
waker_to_keep waker none = some waker
waker_to_keep waker (some own) = if own == waker then none else some waker

module _ {E : Type 0} where
  -- The number of the new mailbox's driver is an argument, as it is of `Mail.new`.
  unfoldable pub new : ℕ → Inner E
  new driver = record {
    effects = Batch.new;
    building = none;
    held = [];
    mail = Mail.new driver;
    driver_waker = none;
  }

  -- `if let Some(id) = self.building.take() { self.held.push(Held::Reserved(id)); }`
  unfoldable pub displace : Option ℕ → Inner E → Inner E
  displace none s = s
  displace (some id) s = record s { building = none; held = s.held ++ reserved id ∷ [] }

  unfoldable pub record_behind : List (Held E) → Held E → Inner E → Inner E
  record_behind (_ ∷ _) held s = record s { held = s.held ++ held ∷ [] }
  record_behind [] (ready effect) s = record s { effects = Batch.push s.effects effect }
  record_behind [] (reserved id) s = record s { building = some id }

  -- `Inner::record`.
  unfoldable pub record_held : Held E → Inner E → Inner E
  record_held held s = let s' = displace s.building s in record_behind s'.held held s'

  -- `position(|held| matches!(held, Held::Reserved(_))).unwrap_or(self.held.len())`
  unfoldable pub ready_count : List (Held E) → ℕ
  ready_count [] = 0
  ready_count (reserved _ ∷ _) = 0
  ready_count (ready _ ∷ held) = suc (ready_count held)

  -- The loop of `release`.
  unfoldable pub push_ready : Batch E → List (Held E) → Batch E
  push_ready effects [] = effects
  push_ready effects (ready effect ∷ held) = push_ready (Batch.push effects effect) held
  push_ready effects (reserved _ ∷ held) = push_ready effects held

  unfoldable pub release : Inner E → Inner E
  release s = record s {
    effects = push_ready s.effects (take (ready_count s.held) s.held);
    held = drop (ready_count s.held) s.held;
  }

  unfoldable pub tell : E → Inner E → Inner E
  tell effect s = record_held (ready effect) s

  unfoldable pub mint : Inner E → ReplyHandle × Inner E
  mint s =
      let (reply, mail) = Mail.mint s.mail in
      (reply, record_held (reserved reply.id) (record s { mail = mail }))

  abbrev pub is_reserved : ℕ → Held E → Bool
  is_reserved id (ready _) = false
  is_reserved id (reserved r) = r == id

  -- `find` and the write to what it finds; `none` where nothing is found.
  unfoldable pub fill_place : ℕ → E → List (Held E) → Option (List (Held E))
  fill_place id effect [] = none
  fill_place id effect (place ∷ held) =
      let rest = fill_place id effect held in
      if is_reserved id place
      then some (ready effect ∷ held)
      else elim rest [ none ↦ none | some held' ↦ some (place ∷ held') ]

  unfoldable pub open_held : Option (List (Held E)) → Inner E → Inner E
  open_held none s = s
  open_held (some held) s = release (record s { held = held })

  -- `Outbox::open`, once the slot is open.
  unfoldable pub place_effect : ℕ → E → Inner E → Inner E
  place_effect id effect s =
      if is_building id s.building
      then record s { building = none; effects = Batch.push s.effects effect }
      else open_held (fill_place id effect s.held) s

  unfoldable pub open_request : ℕ → E → Check → Inner E → Inner E
  open_request id effect check s =
      place_effect id effect (record s { mail = Mail.open_slot id check s.mail })

  -- `retain(|held| !matches!(held, Held::Reserved(r) if *r == id))`
  unfoldable pub retain_others : ℕ → List (Held E) → List (Held E)
  retain_others id [] = []
  retain_others id (place ∷ held) =
      let rest = retain_others id held in if is_reserved id place then rest else place ∷ rest

  unfoldable pub unreserve : ℕ → Inner E → Inner E
  unreserve id s =
      if is_building id s.building
      then record s { building = none }
      else release (record s { held = retain_others id s.held })

  unfoldable pub adopt : ℕ → Inner E → Inner E
  adopt waker s = record s { driver_waker = some waker }

  unfoldable pub collect : ℕ → ℕ → Inner E → Option Value × Inner E
  collect id waker s =
      let (value, mail) = Mail.collect id (waker_to_keep waker s.driver_waker) s.mail in
      (value, record s { mail = mail })

  unfoldable pub close : ℕ → Inner E → Inner E
  close id s = record s { mail = Mail.close id s.mail }

  abbrev pub with_mail : Inner E → Option (Delivery × Mail) → Option (Delivery × Inner E)
  with_mail s none = none
  with_mail s (some (delivery, mail)) = some (delivery, record s { mail = mail })

  unfoldable pub deliver : ReplyHandle → Value → Inner E → Option (Delivery × Inner E)
  deliver reply value s = with_mail s (Mail.deliver reply value s.mail)

  -- The yield, as its effects and the ids it closed, and how many requests are open.
  unfoldable pub drain : Inner E → ((Batch E × List ℕ) × ℕ) × Inner E
  drain s =
      let (closed, mail) = Mail.take_closed s.mail in
      (((s.effects, closed), Mail.outstanding mail), record s { effects = Batch.new; mail = mail })
