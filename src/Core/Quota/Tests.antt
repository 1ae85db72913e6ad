-- ===== src/Core/Quota/Tests.antt =====
-- Tests of the quota.
use anime_recommendation_eng.Base.{ℕ, ◌+◌, ◌-◌, ◌*◌, ◌≤◌, ◌<◌, ◌≡◌, refl, arith, [], ◌∷◌, min}
use anime_recommendation_eng.Base.Action.{ok, raised, Exc, other_error}
use anime_recommendation_eng.Base.Text.{Text, codes}
use anime_recommendation_eng.Core.Cache.{RedisClient, null_cache, redis_cache}
use anime_recommendation_eng.Core.Cache.Memory.{new_cache, dict_get}
use anime_recommendation_eng.Core.Quota.{
  micros_per_day, seconds_until_utc_midnight, enforce_quota, admitted,
}
use anime_recommendation_eng.Core.Quota.Day.{seconds_until_utc_midnight-bounds}
use anime_recommendation_eng.Core.Quota.Gate.{admissions, admissions_lem, enforce_quota-fails_open}

abbrev date : ℕ → Text
date now = codes "2026-09-20"

abbrev down : Exc
down = record { kind = other_error; message = codes "connection refused" }

-- A Redis that answers nothing, over a count of the connections that were tried.
abbrev redis : RedisClient ℕ
redis = record {
  get = λ key w. (raised down, w + 1);
  set = λ key value ttl w. (raised down, w + 1);
  set_nx = λ key value ttl w. (raised down, w + 1);
  delete = λ key w. (raised down, w + 1);
  incr = λ key w. (raised down, w + 1);
  incr_then_expire = λ key ttl w. (raised down, w + 1);
  lpush_then_ltrim = λ key member max_len w. (raised down, w + 1);
  lrange = λ key start stop w. (raised down, w + 1);
}

-- One and a half seconds before midnight the counter is given one second.
seconds_until_utc_midnight-bounds_example :
    let ttl = seconds_until_utc_midnight (20_000 * micros_per_day + (micros_per_day - 1_500_000)) in
    let left = micros_per_day - (micros_per_day - 1_500_000) in
    (1 ≤ ttl)
    × (ttl ≤ 86_400)
    × (1_000_000 ≤ left → (ttl * 1_000_000 ≤ left) × (left < (ttl + 1) * 1_000_000))
    × (left < 1_000_000 → ttl ≡ 1)
seconds_until_utc_midnight-bounds_example =
    seconds_until_utc_midnight-bounds 20_000 (micros_per_day - 1_500_000) (omega arith)

admissions_lem_example :
    admissions date 2 (codes "quota:u") ((0, 100) ∷ (10, 90) ∷ (20, 80) ∷ []) new_cache ≡ min 2 3
unfolding dict_get
admissions_lem_example =
    admissions_lem date 2 (codes "quota:u") 0 100 ((10, 90) ∷ (20, 80) ∷ []) new_cache refl
      (omega arith, (omega arith, tt))

enforce_quota-fails_open_test :
    (enforce_quota date (null_cache {W = ℕ}) (codes "u") 20 7 0 ≡ (ok admitted, 0))
    × (enforce_quota date (redis_cache redis) (codes "u") 20 7 0 ≡ (ok admitted, 1))
enforce_quota-fails_open_test = enforce_quota-fails_open date (codes "u") 20 7 0 redis down 1 refl
