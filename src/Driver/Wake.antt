-- ===== src/Driver/Wake.antt =====
-- sans-effort-core/src/driver/wake.rs: the flag and the hook of a driver's waker. A call of the
-- hook is counted.
use sans_effort.Shared.{ℕ, zero, suc, ◌+◌, ◌≡◌, refl, Bool, true, false}

pub record Wakeup : Type 0 where
  pub woken : Bool
  pub has_hook : Bool
  pub calls : ℕ

unfoldable pub new : Wakeup
new = record { woken = false; has_hook = false; calls = 0 }

unfoldable pub set_hook : Wakeup → Wakeup
set_hook w = record w { has_hook = true }

unfoldable pub clear : Wakeup → Wakeup
clear w = record w { woken = false }

unfoldable pub hold : Wakeup → Wakeup
hold w = record w { woken = true }

abbrev pub call_hook : Bool → ℕ → ℕ
call_hook true calls = calls + 1
call_hook false calls = calls

abbrev after_swap : Bool → Wakeup → Wakeup
after_swap true w = w
after_swap false w = record w { woken = true; calls = call_hook w.has_hook w.calls }

-- `swap` returns what the flag was; the hook is called if it was not set.
unfoldable pub wake_up : Wakeup → Wakeup
wake_up w = after_swap w.woken w

-- Any number of wakes.
pub wake_times : ℕ → Wakeup → Wakeup
wake_times zero w = w
wake_times (suc n) w = wake_times n (wake_up w)

woken_before :
    (n calls : ℕ) (has_hook : Bool)
    → wake_times n (record { woken = true; has_hook = has_hook; calls = calls })
      ≡ record { woken = true; has_hook = has_hook; calls = calls }
unfolding wake_times wake_up
woken_before zero calls has_hook = refl
woken_before (suc n) calls has_hook = woken_before n calls has_hook

-- Once woken or held, no further wake calls the hook or changes anything.
pub wake_times-hold : (n : ℕ) (w : Wakeup) → wake_times n (hold w) ≡ hold w
unfolding hold
wake_times-hold n w = woken_before n w.calls w.has_hook

-- After `clear`, the first of one or more wakes calls the hook, if there is one, and the others do
-- not: however often the routine is woken until its next poll, the host is told once.
pub wake_times-clear :
    (n : ℕ) (w : Wakeup)
    → wake_times (suc n) (clear w)
      ≡ record { woken = true; has_hook = w.has_hook; calls = call_hook w.has_hook w.calls }
unfolding wake_times wake_up clear
wake_times-clear n w = woken_before n (call_hook w.has_hook w.calls) w.has_hook
