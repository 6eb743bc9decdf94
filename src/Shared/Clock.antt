-- ===== src/Shared/Clock.antt =====
-- Moments in microseconds since the epoch, and durations in seconds.
use Prim.Native.Nat.{ℕ, ◌*◌, ◌/◌, ◌-◌}

-- `timedelta(seconds=s)`, and `int(moment.timestamp())`
abbrev pub seconds : ℕ → ℕ
seconds s = s * 1000000

abbrev pub timestamp : ℕ → ℕ
timestamp t = t / 1000000

-- `max(0, int((later - now).total_seconds()))`
abbrev pub seconds_left : ℕ → ℕ → ℕ
seconds_left later now = (later - now) / 1000000
