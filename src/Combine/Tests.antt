-- ===== src/Combine/Tests.antt =====
-- Two countdowns awaited at once, and the theorems on join.rs and select.rs for them.
use sans_effort.Shared.{ℕ, zero, suc, ◌+◌, ◌≡◌, refl, none, some}
use sans_effort.Combine.{Poll, Join, Select, join, select, poll_side, join_first, join_second, both}
use sans_effort.Combine.Safe.{IsSafe, Behaves, JoinLive, SelectLive, join-Behaves, select-Behaves}

-- The world counts polls. A future with `suc n` left is ready at its last poll, and one with none
-- left panics.
abbrev countdown : Poll ℕ ℕ ℕ
countdown zero w = none
countdown (suc zero) w = some ((some w, zero), w + 1)
countdown (suc (suc n)) w = some ((none, suc n), w + 1)

abbrev Left : ℕ → Type 0
Left zero = ⊥
Left (suc _) = Unit

countdown-IsSafe : IsSafe Left countdown
countdown-IsSafe zero w l = absurd l
countdown-IsSafe (suc zero) w l = tt
countdown-IsSafe (suc (suc n)) w l = tt

abbrev once_and_twice : Join ℕ ℕ ℕ ℕ
once_and_twice = record { a = 1; b = 2; ra = none; rb = none }

abbrev half : Join ℕ ℕ ℕ ℕ
half = record { a = 0; b = 1; ra = some 0; rb = none }

first_poll : join countdown countdown once_and_twice 0 ≡ some ((none, half), 2)
unfolding join poll_side join_first join_second both
first_poll = refl

second_poll :
    join countdown countdown half 2
    ≡ some ((some (0, 2), record { a = 0; b = 0; ra = none; rb = none }), 3)
unfolding join poll_side join_first join_second both
second_poll = refl

join-Behaves_example :
    Behaves
      (JoinLive countdown countdown Left Left countdown-IsSafe countdown-IsSafe)
      (join countdown countdown half 2)
join-Behaves_example =
    join-Behaves countdown countdown Left Left countdown-IsSafe countdown-IsSafe half 2 (tt, tt)

abbrev raced : Select ℕ ℕ
raced = record { a = 2; b = 1 }

select-Behaves_example :
    Behaves
      (SelectLive countdown countdown Left Left countdown-IsSafe countdown-IsSafe)
      (select countdown countdown raced 0)
select-Behaves_example =
    select-Behaves countdown countdown Left Left countdown-IsSafe countdown-IsSafe raced 0 (tt, tt)
