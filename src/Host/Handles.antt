-- ===== src/Host/Handles.antt =====
-- sans-effort-host/src/table.rs, the handles: which are in use, and how the next is issued. The maps
-- are their keys, and a thread's queue of handles to issue again is an argument.
pub mod Fresh
use sans_effort.Shared.{
  ℕ, zero, suc, ◌+◌, max, List, [], ◌∷◌, Option, none, some, Bool, not, ◌&&◌, ◌||◌, ltb, ◌==◌,
  if◌then◌else◌, u64_mod,
}
use sans_effort.Host.Machine.{contains}

pub record Handles : Type 0 where
  pub machines : List ℕ
  pub parked : List ℕ
  pub pinned : List ℕ
  pub next : ℕ

unfoldable pub new : Handles
new = record { machines = []; parked = []; pinned = []; next = 1 }

unfoldable pub in_use : ℕ → Handles → Bool
in_use handle t =
    contains handle t.machines || (contains handle t.parked || contains handle t.pinned)

-- `checked_add(1).unwrap_or(1)`.
unfoldable pub after : ℕ → ℕ
after n = if ltb (n + 1) u64_mod then n + 1 else 1

-- The loop of `issue`.
unfoldable pub issue_loop : ℕ → Handles → Option (ℕ × Handles)
issue_loop zero t = none
issue_loop (suc fuel) t =
    let t' = record t { next = after t.next } in
    let rest = issue_loop fuel t' in if in_use t.next t then rest else some (t.next, t')

-- `if let Some(past) = handle.checked_add(1) { self.next = self.next.max(past); }`
unfoldable pub go_past : ℕ → Handles → Handles
go_past handle t =
    if ltb (handle + 1) u64_mod then record t { next = max t.next (handle + 1) } else t

-- `Table::issue`, with the queue popped.
unfoldable pub issue : ℕ → List ℕ → Handles → Option (ℕ × Handles)
issue fuel [] t = issue_loop fuel t
issue fuel (handle ∷ queue) t =
    let issued = issue_loop fuel t in
    if not (handle == 0) && not (in_use handle t) then some (handle, go_past handle t) else issued
