-- ===== src/Prelude/Time.antt =====
-- An aware `datetime` is the number of microseconds since 0001-01-01T00:00 UTC, the earliest one:
-- `now - timedelta(...)` before that raises OverflowError in Python, and stops at 0 here.
use edgewatch_telemetry.Prelude.Tests.{leb, if◌then◌else◌}
use edgewatch_telemetry.Prelude.Int.{ℤ, pos, negate}
use Prim.Native.Nat.{ℕ, ◌-◌, ◌*◌, ◌/◌}

abbrev pub Time : Type 0
Time = ℕ

-- `timedelta(seconds=s)` in microseconds
abbrev pub seconds : ℕ → ℕ
seconds s = s * 1000000

-- `int((b - a).total_seconds())`, which truncates towards zero
abbrev pub whole_seconds : Time → Time → ℤ
whole_seconds a b = if leb a b then pos ((b - a) / 1000000) else negate ((a - b) / 1000000)
