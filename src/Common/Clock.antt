-- ===== src/Common/Clock.antt =====
-- Moments and spans of chrono, in nanoseconds; a moment counts from chrono's least one.
use Prim.Native.Nat.{ℕ, ◌-◌, ◌*◌, ◌/◌}

abbrev pub Time : Type 0
Time = ℕ

abbrev pub milliseconds : ℕ → ℕ
milliseconds n = n * 1000000

abbrev pub seconds : ℕ → ℕ
seconds n = n * 1000000000

abbrev pub hours : ℕ → ℕ
hours n = seconds (n * 3600)

abbrev pub days : ℕ → ℕ
days n = seconds (n * 86400)

-- `(end - start).num_seconds()` and `num_milliseconds()`, with a negative span as 0.
abbrev pub seconds_between : Time → Time → ℕ
seconds_between start end = (end - start) / 1000000000

abbrev pub milliseconds_between : Time → Time → ℕ
milliseconds_between start end = (end - start) / 1000000
