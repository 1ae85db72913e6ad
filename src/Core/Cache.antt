-- ===== src/Core/Cache.antt =====
-- The cache of strings (packages/core/src/anime_core/cache.py): its interface, the cache that does
-- nothing, and the cache that keeps no error of Redis.
pub mod Memory
pub mod Counter
pub mod Object
use anime_recommendation_eng.Base.{
  ℕ, Bool, true, false, Option, none, some, List, [], if◌then◌else◌,
}
use anime_recommendation_eng.Base.Action.{Action, Exc, pure, catch, ◌>>=◌, ◌>>◌}
use anime_recommendation_eng.Base.Text.{Text}

-- `Cache`. The bounds of `list_range` are not negative, with `none` for the default `stop=-1`.
pub record Cache (W : Type 0) : Type 0 where
  pub get : Text → Action W (Option Text)
  pub set : Text → Text → Option ℕ → Action W (Unit {0})
  pub set_nx : Text → Text → ℕ → Action W Bool
  pub delete : Text → Action W (Unit {0})
  pub incr : Text → Action W ℕ
  pub incr_with_ttl : Text → ℕ → Action W ℕ
  pub push_capped : Text → Text → ℕ → Action W (Unit {0})
  pub list_range : Text → ℕ → Option ℕ → Action W (List Text)

-- `NullCache`
unfoldable pub null_cache : {W : Type 0} → Cache W
null_cache = record {
  get = λ key. pure none;
  set = λ key value ttl. pure tt;
  set_nx = λ key value ttl. pure true;
  delete = λ key. pure tt;
  incr = λ key. pure 0;
  incr_with_ttl = λ key ttl. pure 0;
  push_capped = λ key member max_len. pure tt;
  list_range = λ key start stop. pure [];
}

-- What the source calls of redis-py, with the pipelines as one call. `set_nx` gives `bool(result)`.
pub record RedisClient (W : Type 0) : Type 0 where
  pub get : Text → Action W (Option Text)
  pub set : Text → Text → Option ℕ → Action W (Unit {0})
  pub set_nx : Text → Text → ℕ → Action W Bool
  pub delete : Text → Action W (Unit {0})
  pub incr : Text → Action W ℕ
  pub incr_then_expire : Text → ℕ → Action W ℕ
  pub lpush_then_ltrim : Text → Text → ℕ → Action W (Unit {0})
  pub lrange : Text → ℕ → Option ℕ → Action W (List Text)

abbrev pub best_effort : {W A : Type 0} → A → Action W A → Action W A
best_effort fallback m = catch m (λ _. pure fallback)

-- `RedisCache`
unfoldable pub redis_cache : {W : Type 0} → RedisClient W → Cache W
redis_cache r = record {
  get = λ key. best_effort none (r.get key);
  set = λ key value ttl. best_effort tt (r.set key value ttl);
  set_nx = λ key value ttl. best_effort true (r.set_nx key value ttl);
  delete = λ key. best_effort tt (r.delete key);
  incr = λ key. best_effort 0 (r.incr key);
  incr_with_ttl = λ key ttl. best_effort 0 (r.incr_then_expire key ttl);
  push_capped = λ key member max_len. best_effort tt (r.lpush_then_ltrim key member max_len);
  list_range = λ key start stop. best_effort [] (r.lrange key start stop);
}
