-- ===== src/RateLimit.antt =====
-- `rate_limit_allow` of Guardian/src/player.cpp: a fixed window of one second. Times are uint64_t
-- milliseconds, so the difference wraps; a count is a uint16_t.
pub mod Window
use nicechunk_guardian.Base.{ℕ, ◌+◌, ◌-◌, ◌%◌, ◌^◌, Bool, true, false, leb, if◌then◌else◌}

-- `now_ms - window_ms` on uint64_t.
abbrev pub sub64 : ℕ → ℕ → ℕ
sub64 a b = (a + (2 ^ 64 - b)) % 2 ^ 64

-- The two counters that the function is given by reference.
pub record RateWindow : Type 0 where
  pub window_ms : ℕ
  pub count : ℕ

abbrev pub roll : ℕ → RateWindow → RateWindow
roll now w = if leb 1000 (sub64 now w.window_ms) then record { window_ms = now; count = 0 } else w

unfoldable pub rate_limit_allow : ℕ → RateWindow → ℕ → RateWindow × Bool
rate_limit_allow now w limit =
    let w' = roll now w in
    if leb limit w'.count
    then (w', false)
    else (record w' { count = (w'.count + 1) % 2 ^ 16 }, true)
