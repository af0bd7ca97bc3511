-- ===== src/Base/Time.antt =====
-- Go times as numbers of nanoseconds since the zero time, which 0 stands for, and what `Sub` gives.
use pikopod.Base.{ℕ, ◌-◌, min, Bool, ltb}

abbrev pub max_duration : ℕ
max_duration = 9223372036854775807

-- `t.Sub(u)`, which stops at the longest duration, when `t` is not before `u`; and `t.Sub(u) > d`.
abbrev pub elapsed : ℕ → ℕ → ℕ
elapsed t u = min (t - u) max_duration

abbrev pub longer : ℕ → ℕ → ℕ → Bool
longer t u d = ltb d (elapsed t u)
