-- ===== src/Boundary/Splits.antt =====
-- demo/driven/boundary/src/lib.rs, `split`: the request that the host layer keeps against the view
-- that is shown, and what splitting does to the table.
use sans_effort.Shared.{
  ℕ, ◌+◌, ◌≤◌, ◌<◌, ◌≡◌, refl, ap, ◌∙◌, inl, inr, ◌⊎◌, List, [], ◌∷◌, ◌++◌, length, Option, none,
  some, All, false, u64_mod, arith,
}
use sans_effort.Reply.{Kind, Pending, pending_id, pending_kind, into_pending}
use sans_effort.Host.Handles.{Handles, in_use}
use sans_effort.Host.Handles
use sans_effort.Host.Handles.Fresh.{Issued, issue-Issued}
use sans_effort.Table.{Table, issue, issued, issue_fuel, handles}
use sans_effort.Table.Entries.{get, get-insert_same}
use sans_effort.Table.Entry.{adopt-machines, adopt-parked}
use sans_effort.Table.Process.{State, Lock, insert, new_pinned, issue_here, allocate}
use sans_effort.Boundary.{Tag, View, Full, Quiet, Shown, split, split_quiet, as_u8}

-- The result is there, and `Q` holds of it.
abbrev pub Gives : {A : Type 0} → (A → Type 0) → Option A → Type 0
Gives Q none = ⊥
Gives Q (some a) = Q a

-- The column `reply with` of the table of tags: the id at the end of the record, and the kind.
unfoldable pub reply_with : View → Option (ℕ × Kind)
reply_with (View.count id) = some (id, Kind.u64)
reply_with (View.lookup _ id) = some (id, Kind.str)
reply_with (View.read_line id) = some (id, Kind.bytes)
reply_with (View.sleep _ id) = some (id, Kind.unit)
reply_with (View.write_line _) = none
reply_with (View.now id) = some (id, Kind.u64)
reply_with (View.random _ id) = some (id, Kind.bytes)
reply_with (View.var _ id) = some (id, Kind.bytes)
reply_with (View.read_file _ id) = some (id, Kind.bytes)
reply_with (View.write_file _ _ id) = some (id, Kind.bytes)
reply_with (View.spawned _) = none
reply_with (View.spawned_pinned _) = none

-- The tag of the record.
unfoldable pub tag_of : View → Tag
tag_of (View.count _) = Tag.count
tag_of (View.lookup _ _) = Tag.lookup
tag_of (View.read_line _) = Tag.read_line
tag_of (View.sleep _ _) = Tag.sleep
tag_of (View.write_line _) = Tag.write_line
tag_of (View.now _) = Tag.now
tag_of (View.random _ _) = Tag.random
tag_of (View.var _ _) = Tag.var
tag_of (View.read_file _ _) = Tag.read_file
tag_of (View.write_file _ _ _) = Tag.write_file
tag_of (View.spawned _) = Tag.spawned
tag_of (View.spawned_pinned _) = Tag.spawned_pinned

unfoldable pub kept : Option Pending → Option (ℕ × Kind)
kept none = none
kept (some pending) = some (pending_id pending, pending_kind pending)

module _ {P : Type 0} where
  -- Handles last for one more, and what the thread has queued to issue again is below the last.
  abbrev pub HaveHandles : List ℕ → Table P → Type 0
  HaveHandles queue t =
      (1 ≤ t.next) × (t.next + issue_fuel t < u64_mod) × All (λ handle. handle + 1 < u64_mod) queue

  -- A handle that was not in use.
  abbrev pub IsNew : ℕ → Table P → Type 0
  IsNew h t = (1 ≤ h) × (in_use h (handles t) ≡ false)

  issue-IsNew :
      (queue : List ℕ) (t : Table P)
      → HaveHandles queue t
      → (h : ℕ) × (t' : Table P) × (issue queue t ≡ some (h, t')) × IsNew h t
  unfolding issue issue_fuel
  issue-IsNew queue t (l, n, q) =
      go (Handles.issue (issue_fuel t) queue (handles t))
        (issue-Issued (issue_fuel t) queue (handles t) (omega arith) l n q)
    where
      go :
          (r : Option (ℕ × Handles))
          → Issued (handles t) r
          → (h : ℕ) × (t' : Table P) × (issued t r ≡ some (h, t')) × IsNew h t
      go none i = absurd i
      go (some (h, hs)) (l, free, _, _, _, _) = (h, record t { next = hs.next }, refl, (l, free))

module _ {M P : Type 0} where
  -- What splitting an effect leaves: the child that is shown is in the table under a new handle, a
  -- machine in a new lock or a parked closure, and any other effect changes nothing.
  abbrev pub Leaves : Full M P → State M P → View → State M P → Type 0
  Leaves (Full.spawn child) s v s' =
      (handle : ℕ) × (v ≡ View.spawned handle)
      × IsNew handle s.shared.table
      × (get handle s'.shared.table.machines ≡ some (length s.shared.cells))
      × (s'.shared.cells
          ≡ s.shared.cells ++ record { machine = some child; lock = Lock.unlocked; count = 1 } ∷ [])
  Leaves (Full.spawn_pinned child) s v s' =
      (handle : ℕ) × (v ≡ View.spawned_pinned handle)
      × IsNew handle s.shared.table
      × (get handle s'.shared.table.parked ≡ some child)
  Leaves _ s v s' = s' ≡ s

  -- What the theorem says of one result.
  abbrev pub Splits : Full M P → State M P → Shown M P → Type 0
  Splits f s (v, pending, s') = (reply_with v ≡ kept pending) × Leaves f s v s'

  spawn-Splits :
      (child : M) (s : State M P)
      → HaveHandles s.own.reissue s.shared.table
      → Gives (Splits (Full.spawn child) s) (split (Full.spawn child) s)
  unfolding split insert issue_here allocate reply_with kept
  spawn-Splits child s last =
      let (h, t, e, fresh) = issue-IsNew s.own.reissue s.shared.table last in
      rw (e, insert, issue_here)
        (
          refl,
          (
            h,
            refl,
            fresh,
            ap (get h) (adopt-machines _ h _) ∙ get-insert_same h _ t.machines,
            refl,
          ),
        )

  spawn_pinned-Splits :
      (child : P) (s : State M P)
      → HaveHandles s.own.reissue s.shared.table
      → Gives (Splits (Full.spawn_pinned child) s) (split (Full.spawn_pinned child) s)
  unfolding split new_pinned issue_here reply_with kept
  spawn_pinned-Splits child s last =
      let (h, t, e, fresh) = issue-IsNew s.own.reissue s.shared.table last in
      rw (e, new_pinned, issue_here)
        (refl, (h, refl, fresh, ap (get h) (adopt-parked _ h _) ∙ get-insert_same h child t.parked))

  -- While handles last, splitting an effect keeps a request exactly when the table of tags lists a
  -- reply for what is shown, under the id shown and of the kind listed; a child that is shown is in
  -- the handle table under its handle, which is new, and any other effect leaves the process as it
  -- was.
  pub split-Splits :
      (f : Full M P) (s : State M P)
      → HaveHandles s.own.reissue s.shared.table
      → Gives (Splits f s) (split f s)
  unfolding split reply_with kept into_pending pending_id pending_kind
  split-Splits (Full.spawn child) s last = spawn-Splits child s last
  split-Splits (Full.spawn_pinned child) s last = spawn_pinned-Splits child s last
  split-Splits (Full.count a) s _ = (refl, refl)
  split-Splits (Full.lookup a) s _ = (refl, refl)
  split-Splits (Full.read_line a) s _ = (refl, refl)
  split-Splits (Full.sleep a) s _ = (refl, refl)
  split-Splits (Full.write_line text) s _ = (refl, refl)
  split-Splits (Full.now a) s _ = (refl, refl)
  split-Splits (Full.random a) s _ = (refl, refl)
  split-Splits (Full.var a) s _ = (refl, refl)
  split-Splits (Full.read_file a) s _ = (refl, refl)
  split-Splits (Full.write_file a) s _ = (refl, refl)

  -- A host that offers only a clock and an output is shown a sleep or a line, and nothing changes.
  pub split_quiet-Shows :
      (q : Quiet) (s : State M P)
      → (v : View) × (pending : Option Pending) × (split_quiet q s ≡ some (v, pending, s))
        × ((as_u8 (tag_of v) ≡ 4) ⊎ (as_u8 (tag_of v) ≡ 5))
  unfolding split split_quiet tag_of as_u8
  split_quiet-Shows (Quiet.sleep a) s = (_, _, refl, inl refl)
  split_quiet-Shows (Quiet.write_line text) s = (_, _, refl, inr refl)
