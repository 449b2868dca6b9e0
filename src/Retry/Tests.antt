-- ===== src/Retry/Tests.antt =====
-- A function that meets a deadlock until it has been called three times.
use aurweb.Prelude.{ℕ, ◌+◌, ◌≤◌, some, ◌≡◌, refl, if◌then◌else◌, ltb}
use aurweb.Retry.{Attempt, returned, deadlock, wrapper, wrapper-ends, EndsAfter}

abbrev third : ℕ → Attempt ℕ × ℕ
third n = (if ltb n 2 then deadlock else returned n, n + 1)

retried : wrapper 11 0 third 0 ≡ some (returned 2, 3)
unfolding wrapper
retried = refl

wrapper-ends_example : (k : ℕ) × (k ≤ 10) × EndsAfter 11 0 k third 0
wrapper-ends_example = wrapper-ends third 0
