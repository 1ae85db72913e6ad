-- ===== src/Core/Quota/Day.antt =====
-- The lifetime of a day's counter.
use anime_recommendation_eng.Base.{ℕ, ◌+◌, ◌-◌, ◌*◌, ◌/◌, ◌≤◌, ◌<◌, ◌≡◌, arith}
use anime_recommendation_eng.Core.Quota.{micros_per_day, seconds_until_utc_midnight}

-- The lifetime is at least a second and at most a day. A request with a second or more left of its
-- day gets a counter that ends at midnight or less than a second before it; in the last second it
-- ends after midnight.
pub seconds_until_utc_midnight-bounds :
    (day since : ℕ)
    → since < micros_per_day
    → let ttl = seconds_until_utc_midnight (day * micros_per_day + since) in
      let left = micros_per_day - since in
      (1 ≤ ttl)
      × (ttl ≤ 86_400)
      × (1_000_000 ≤ left → (ttl * 1_000_000 ≤ left) × (left < (ttl + 1) * 1_000_000))
      × (left < 1_000_000 → ttl ≡ 1)
unfolding seconds_until_utc_midnight
seconds_until_utc_midnight-bounds day since h =
    let same : (day * micros_per_day + since) / micros_per_day ≡ day = omega arith in
    rw same (omega arith, omega arith, λ long. (omega arith, omega arith), λ short. omega arith)
