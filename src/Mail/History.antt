-- ===== src/Mail/History.antt =====
-- sans-effort-core/src/driver/mail.rs: sequences of calls on a mailbox, against calls on a map of
-- the open requests.
use mathlib.Core.Option
use sans_effort.Shared.{
  ℕ, suc, ◌+◌, ◌<◌, ◌≤◌, ◌≡◌, refl, ap, ◌∙◌, List, [], ◌∷◌, Option, none, some, u64_mod, length,
  arith,
}
use sans_effort.Reply.{Value, ReplyHandle, Check}
use sans_effort.Reply
use sans_effort.Mail.{Mail, Delivery, deliver, collect, close, open_slot, mint, take_closed, new}
use sans_effort.Mail.Invariant.{IsValid, new-IsValid, mint-IsValid}
use sans_effort.Mail.Map.{
  Spec, view, spec_mint, spec_open, spec_deliver, spec_collect, spec_close, spec_take_closed,
}
use sans_effort.Mail.Refine.{view_delivery, deliver-view, collect-view, close-view, open_slot-view}
use sans_effort.Mail.Valid.{
  Keeps, DeliverKeeps, deliver-Keeps, collect-Keeps, close-Keeps, take_closed-Keeps, ask-IsValid,
  mint-Absent,
}

-- `asks` mints a request and opens its slot.
pub data Call : Type 0 where
  asks : Check → Call
  delivers : ReplyHandle → Value → Call
  collects : ℕ → Option ℕ → Call
  closes : ℕ → Call
  drains : Call

pub data Output : Type 0 where
  asked : ReplyHandle → Output
  became : Delivery → Output
  collected : Option Value → Output
  dropped : Output
  reported : List ℕ → Output

-- `none` is a panic.
unfoldable pub step : Mail → Call → Option (Output × Mail)
step m (asks check) = some (asked (mint m).0, open_slot (mint m).0.id check (mint m).1)
step m (delivers reply value) = Option.map (λ (d, m'). (became d, m')) (deliver reply value m)
step m (collects id waker) = some (collected (collect id waker m).0, (collect id waker m).1)
step m (closes id) = some (dropped, close id m)
step m drains = some (reported (take_closed m).0, (take_closed m).1)

unfoldable pub spec_step : Spec → Call → Option (Output × Spec)
spec_step s (asks check) =
    some (asked (spec_mint s).0, spec_open (spec_mint s).0.id check (spec_mint s).1)
spec_step s (delivers reply value) =
    Option.map (λ (d, s'). (became d, s')) (spec_deliver reply value s)
spec_step s (collects id waker) =
    some (collected (spec_collect id waker s).0, (spec_collect id waker s).1)
spec_step s (closes id) = some (dropped, spec_close id s)
spec_step s drains = some (reported (spec_take_closed s).0, (spec_take_closed s).1)

abbrev view_output : Output × Mail → Output × Spec
view_output (o, m) = (o, view m)

abbrev became_of {ℓ} : {A : Type ℓ} → Delivery × A → Output × A
became_of (d, a) = (became d, a)

became-view :
    (r : Option (Delivery × Mail))
    → Option.map view_output (Option.map became_of r)
      ≡ Option.map became_of (Option.map view_delivery r)
became-view none = refl
became-view (some r) = refl

step-view :
    (m : Mail) (c : Call)
    → IsValid m
    → m.next + 1 < u64_mod
    → Option.map view_output (step m c) ≡ spec_step (view m) c
unfolding step spec_step mint Reply.mint
step-view m (asks check) v h =
    ap (λ s. some (asked (Reply.mint m.driver m.next), s))
      (open_slot-view m.next check (mint m).1 (mint-IsValid m v h) (mint-Absent m v))
step-view m (delivers reply value) v h =
    became-view (deliver reply value m) ∙ ap (Option.map became_of) (deliver-view reply value m v)
step-view m (collects id waker) v h =
    ap (λ r. some (collected r.0, r.1)) (collect-view id waker m v)
step-view m (closes id) v h = ap (λ s. some (dropped, s)) (close-view id m v)
step-view m drains v h = drained m
  where
    drained :
        (m : Mail)
        → Option.map view_output (some (reported (take_closed m).0, (take_closed m).1))
          ≡ some (reported m.closed, record (view m) { closed = [] })
    drained m = unfold take_closed in refl

-- After a call the mailbox is valid, and at most one id was minted.
abbrev StepKeeps : Mail → Option (Output × Mail) → Type 0
StepKeeps m none = Unit {0}
StepKeeps m (some (_, m')) = IsValid m' × (m'.next ≤ m.next + 1)

delivers-StepKeeps :
    (m : Mail) (r : Option (Delivery × Mail))
    → DeliverKeeps m r
    → StepKeeps m (Option.map became_of r)
delivers-StepKeeps m none k = tt
delivers-StepKeeps m (some (d, m')) (v, e) = (v, omega arith)

Keeps-StepKeeps : (m m' : Mail) → Keeps m m' → IsValid m' × (m'.next ≤ m.next + 1)
Keeps-StepKeeps m m' (v, e) = (v, omega arith)

step-StepKeeps : (m : Mail) (c : Call) → IsValid m → m.next + 1 < u64_mod → StepKeeps m (step m c)
unfolding step
step-StepKeeps m (asks check) v h = (ask-IsValid check m v h, asked_once)
  where
    asked_once : (open_slot (mint m).0.id check (mint m).1).next ≤ m.next + 1
    asked_once = unfold mint open_slot in omega arith
step-StepKeeps m (delivers reply value) v h =
    delivers-StepKeeps m (deliver reply value m) (deliver-Keeps reply value m v)
step-StepKeeps m (collects id waker) v h =
    Keeps-StepKeeps m (collect id waker m).1 (collect-Keeps id waker m v)
step-StepKeeps m (closes id) v h = Keeps-StepKeeps m (close id m) (close-Keeps id m v)
step-StepKeeps m drains v h = Keeps-StepKeeps m (take_closed m).1 (take_closed-Keeps m v)

-- A run: the outputs, and the mailbox at the end.
abbrev then_run {ℓ} :
    {S : Type ℓ} → (S → Option (List Output × S)) → Option (Output × S) → Option (List Output × S)
then_run rest none = none
then_run rest (some (o, s)) = Option.map (λ (os, s'). (o ∷ os, s')) (rest s)

unfoldable pub run : Mail → List Call → Option (List Output × Mail)
run m [] = some ([], m)
run m (c ∷ cs) = then_run (λ m'. run m' cs) (step m c)

unfoldable pub spec_run : Spec → List Call → Option (List Output × Spec)
spec_run s [] = some ([], s)
spec_run s (c ∷ cs) = then_run (λ s'. spec_run s' cs) (spec_step s c)

abbrev pub view_run : List Output × Mail → List Output × Spec
view_run (os, m) = (os, view m)

abbrev put_first {ℓ} : {S : Type ℓ} → Output → List Output × S → List Output × S
put_first o (os, s) = (o ∷ os, s)

put_first-view :
    (o : Output) (r : Option (List Output × Mail))
    → Option.map view_run (Option.map (put_first o) r)
      ≡ Option.map (put_first o) (Option.map view_run r)
put_first-view o none = refl
put_first-view o (some r) = refl

then_run-view :
    (m : Mail) (cs : List Call) (r : Option (Output × Mail))
    → StepKeeps m r
    → m.next + suc (length cs) < u64_mod
    → ((m' : Mail)
        → IsValid m'
        → m'.next + length cs < u64_mod
        → Option.map view_run (run m' cs) ≡ spec_run (view m') cs)
    → Option.map view_run (then_run (λ m'. run m' cs) r)
      ≡ then_run (λ s'. spec_run s' cs) (Option.map view_output r)
then_run-view m cs none k h ih = refl
then_run-view m cs (some (o, m')) (v, e) h ih =
    put_first-view o (run m' cs) ∙ ap (Option.map (put_first o)) (ih m' v (omega arith))

run-view_from :
    (m : Mail) (cs : List Call)
    → IsValid m
    → m.next + length cs < u64_mod
    → Option.map view_run (run m cs) ≡ spec_run (view m) cs
unfolding run spec_run
run-view_from m [] v h = refl
run-view_from m (c ∷ cs) v h =
    then_run-view m cs (step m c) (step-StepKeeps m c v (omega arith)) h
      (λ m' v' h'. run-view_from m' cs v' h')
    ∙ ap (then_run (λ s'. spec_run s' cs)) (step-view m c v (omega arith))

-- Any sequence of fewer than 2 ^ 64 - 1 calls on a new mailbox (requests asked, replies delivered
-- and collected, requests dropped, closed ids drained, in any order and on any ids) has the
-- outputs, or the panic, of the same calls on a map of the open requests, and leaves the mailbox a
-- view of that map.
pub run-view :
    (driver : ℕ) (cs : List Call)
    → 1 + length cs < u64_mod
    → Option.map view_run (run (new driver) cs) ≡ spec_run (view (new driver)) cs
unfolding new
run-view driver cs h = run-view_from (new driver) cs (new-IsValid driver) h

abbrev pub RunKeeps : Option (List Output × Mail) → Type 0
RunKeeps none = Unit {0}
RunKeeps (some (_, m)) = IsValid m

put_first-RunKeeps :
    (o : Output) (r : Option (List Output × Mail))
    → RunKeeps r
    → RunKeeps (Option.map (put_first o) r)
put_first-RunKeeps o none k = tt
put_first-RunKeeps o (some (os, m)) k = k

then_run-RunKeeps :
    (m : Mail) (cs : List Call) (r : Option (Output × Mail))
    → StepKeeps m r
    → m.next + suc (length cs) < u64_mod
    → ((m' : Mail) → IsValid m' → m'.next + length cs < u64_mod → RunKeeps (run m' cs))
    → RunKeeps (then_run (λ m'. run m' cs) r)
then_run-RunKeeps m cs none k h ih = tt
then_run-RunKeeps m cs (some (o, m')) (v, e) h ih =
    put_first-RunKeeps o (run m' cs) (ih m' v (omega arith))

-- A run of calls on a valid mailbox, with an id left for each, panics or leaves a valid mailbox: ids
-- strictly rising and below the next one, the count of open slots right, the last slot open, and no
-- more closed slots than open ones.
pub run-IsValid :
    (m : Mail) (cs : List Call) → IsValid m → m.next + length cs < u64_mod → RunKeeps (run m cs)
unfolding run
run-IsValid m [] v h = v
run-IsValid m (c ∷ cs) v h =
    then_run-RunKeeps m cs (step m c) (step-StepKeeps m c v (omega arith)) h
      (λ m' v' h'. run-IsValid m' cs v' h')
