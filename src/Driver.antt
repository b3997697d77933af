-- ===== src/Driver.antt =====
-- sans-effort-core/src/driver.rs and driver/status.rs: what a poll yields, where it stopped, and
-- the reply that is refused.
pub mod Wake
pub mod Stepper
pub mod Steps
pub mod Replies
mod Tests
use sans_effort.Shared.{ℕ, zero, suc, List, [], ◌∷◌, Bool, true, false, ◌&&◌}
use sans_effort.Codec.Reader.{DecodeError}
use sans_effort.Reply.{ReplyHandle}
use sans_effort.Batch.{Batch}
use sans_effort.Batch
use sans_effort.Batch.Iter

pub data Status : Type 0 where
  awaiting complete idle : Status

-- The poll is `true` where it is ready.
unfoldable pub classify : Bool → ℕ → Status
classify true outstanding = complete
classify false (suc _) = awaiting
classify false zero = idle

pub record Yield (E : Type 0) : Type 0 where
  pub effects : Batch E
  pub closed : List ℕ

abbrev none_closed : List ℕ → Bool
none_closed [] = true
none_closed (_ ∷ _) = false

abbrev none_yielded {ℓ} : {E : Type ℓ} → List E → Bool
none_yielded [] = true
none_yielded (_ ∷ _) = false

module _ {E : Type 0} where
  unfoldable pub new_from_batch : Batch E → List ℕ → Yield E
  new_from_batch effects closed = record { effects = effects; closed = closed }

  unfoldable pub new_from_vec : List E → List ℕ → Yield E
  new_from_vec effects closed = record { effects = Batch.from_vec effects; closed = closed }

  unfoldable pub effects_slice : Yield E → List E
  effects_slice y = Batch.as_slice y.effects

  unfoldable pub closed_slice : Yield E → List ℕ
  closed_slice y = y.closed

  unfoldable pub is_empty : Yield E → Bool
  is_empty y = none_yielded (Batch.as_slice y.effects) && none_closed y.closed

  unfoldable pub into_parts : Yield E → Batch E × List ℕ
  into_parts y = (y.effects, y.closed)

  -- `Yield::default`.
  unfoldable pub nothing : Yield E
  nothing = record { effects = Batch.new; closed = [] }

  unfoldable pub yield_iter : Yield E → Batch.Iter.Draining E
  yield_iter y = Batch.Iter.into_iter y.effects

  unfoldable pub yield_vec : Yield E → List E
  yield_vec y = Batch.into_vec y.effects

unfoldable pub map_yield : {E F : Type 0} → (E → F) → Yield E → Yield F
map_yield f y = record { effects = Batch.map f y.effects; closed = y.closed }

pub record Refused : Type 0 where
  pub reply : ReplyHandle
  pub error : DecodeError

unfoldable pub refused_parts : Refused → ReplyHandle × DecodeError
refused_parts r = (r.reply, r.error)
