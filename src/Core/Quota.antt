-- ===== src/Core/Quota.antt =====
-- The daily quota (packages/core/src/anime_core/quotas.py) and its gate, `enforce_quota`
-- (apps/api/src/anime_api/quota.py). A moment is the number of microseconds since the epoch in UTC;
-- `strftime` is an argument.
pub mod Day
pub mod Gate
mod Tests
use anime_recommendation_eng.Base.{ℕ, ◌+◌, ◌-◌, ◌*◌, ◌/◌, ◌%◌, max, Bool, ◌++◌, ltb, if◌then◌else◌}
use anime_recommendation_eng.Base.Action.{Action, pure, ◌>>=◌}
use anime_recommendation_eng.Base.Text.{Text, codes, decimal}
use anime_recommendation_eng.Core.Cache.{Cache}

pub record CounterResult : Type 0 where
  pub count : ℕ
  pub remaining : ℕ
  pub over_limit : Bool
  pub retry_after_seconds : ℕ

abbrev pub micros_per_day : ℕ
micros_per_day = 86_400_000_000

-- `_seconds_until_utc_midnight`
unfoldable pub seconds_until_utc_midnight : ℕ → ℕ
seconds_until_utc_midnight now =
    let next_midnight = (now / micros_per_day + 1) * micros_per_day in
    let seconds = (next_midnight - now) / 1_000_000 in max seconds 1

-- What `enforce_quota` does: it returns, or raises 429 with a detail and the Retry-After header.
pub data GateResult : Type 0 where
  admitted : GateResult
  too_many_requests : Text → ℕ → GateResult

module _ (date : ℕ → Text) where
  -- `_key`, where `date` is `strftime('%Y-%m-%d')`
  unfoldable pub quota_key : Text → ℕ → Text
  quota_key user_id now = codes "quota:" ++ (user_id ++ (codes ":" ++ date now))

  -- The result for a count.
  abbrev pub result_for : ℕ → ℕ → ℕ → CounterResult
  result_for limit ttl count = record {
    count = count;
    remaining = max (limit - count) 0;
    over_limit = ltb limit count;
    retry_after_seconds = ttl;
  }

  -- `incr_and_check`
  unfoldable pub incr_and_check : {W : Type 0} → Cache W → Text → ℕ → ℕ → Action W CounterResult
  unfolding quota_key seconds_until_utc_midnight
  incr_and_check cache user_id limit now =
      let ttl = seconds_until_utc_midnight now in
      cache.incr_with_ttl (quota_key user_id now) ttl >>= λ count. pure (result_for limit ttl count)

  abbrev pub gate_of : ℕ → CounterResult → GateResult
  gate_of limit r =
      if r.over_limit
      then too_many_requests
          (codes "daily quota of "
            ++ (decimal limit
                ++ (codes " requests exceeded; resets in "
                    ++ (decimal r.retry_after_seconds ++ codes "s"))))
          r.retry_after_seconds
      else admitted

  -- `enforce_quota`
  unfoldable pub enforce_quota : {W : Type 0} → Cache W → Text → ℕ → ℕ → Action W GateResult
  unfolding incr_and_check decimal
  enforce_quota cache user_id limit now =
      incr_and_check cache user_id limit now >>= λ r. pure (gate_of limit r)
