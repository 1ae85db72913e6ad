-- ===== src/Core/Quota/Gate.antt =====
-- How many requests pass the gate in one window, and what it does without its cache.
use anime_recommendation_eng.Base.{
  ℕ, suc, ◌+◌, ◌-◌, ◌≤◌, ◌≡◌, refl, inl, inr, min, Bool, true, false, Option, none, some, List, [],
  ◌∷◌, arith, ltb, leb, Bool-cases, if◌then◌else◌, length, All,
}
use anime_recommendation_eng.Base.Action.{Exc, ok, raised}
use anime_recommendation_eng.Base.Text.{Text}
use anime_recommendation_eng.Core.Cache.{null_cache, RedisClient, redis_cache}
use anime_recommendation_eng.Core.Cache.Memory.{InMemoryCache, incr_with_ttl, dict_get}
use anime_recommendation_eng.Core.Cache.Counter.{Holds, incr_with_ttl-counts, incr_with_ttl-starts}
use anime_recommendation_eng.Core.Quota.{
  quota_key, seconds_until_utc_midnight, result_for, incr_and_check, gate_of, GateResult, admitted,
  too_many_requests, enforce_quota,
}

-- One request of a window: the time that the cache reads, and the lifetime that is asked for.
abbrev pub Request : Type 0
Request = ℕ × ℕ

abbrev pub is_admitted : GateResult → Bool
is_admitted admitted = true
is_admitted (too_many_requests _ _) = false

module _ (date : ℕ → Text) where
  -- Whether the gate lets the request pass, whose increment gave the count; no count is an exception.
  abbrev pub within : ℕ → ℕ → Option ℕ → Bool
  within limit ttl none = false
  within limit ttl (some count) = is_admitted (gate_of date limit (result_for date limit ttl count))

  within-le : (limit ttl count : ℕ) → within limit ttl (some count) ≡ leb count limit
  within-le limit ttl count = elim (Bool-cases (ltb limit count)) [
    | inl over ↦ rw over (ground arith)
    | inr fine ↦ rw fine (ground arith)
  ]

  -- How many of the requests to one counter of the in-memory cache pass the gate.
  pub admissions : ℕ → Text → List Request → InMemoryCache → ℕ
  admissions limit key [] m = 0
  admissions limit key ((now, ttl) ∷ rs) m =
      let rest = admissions limit key rs (incr_with_ttl now key ttl m).1 in
      if within limit ttl (incr_with_ttl now key ttl m).0 then suc rest else rest

  admissions-Holds :
      (limit : ℕ) (key : Text) (rs : List Request) (n t : ℕ) (m : InMemoryCache)
      → Holds key n t m
      → All (λ r. r.0 ≤ t) rs
      → admissions limit key rs m ≡ min (limit - n) (length rs)
  unfolding admissions
  admissions-Holds limit key [] n t m h alive = omega arith
  admissions-Holds limit key ((now, ttl) ∷ rs) n t m h alive =
      let (counted, held) = incr_with_ttl-counts now key ttl n t m h alive.0 in
      let later =
        admissions-Holds limit key rs (n + 1) t (incr_with_ttl now key ttl m).1 held alive.1 in
      rw counted (rw (within-le limit ttl (n + 1), later) (ground arith))

  -- Of the requests that reach a fresh counter of the in-memory cache before it expires, exactly the
  -- first `limit` pass the gate, or all if they are fewer: no increment is lost, and no request
  -- extends the lifetime that the first one set.
  pub admissions_lem :
      (limit : ℕ) (key : Text) (now ttl : ℕ) (rs : List Request) (m : InMemoryCache)
      → dict_get key m.kv ≡ none
      → All (λ r. r.0 ≤ now + ttl) rs
      → admissions limit key ((now, ttl) ∷ rs) m ≡ min limit (suc (length rs))
  unfolding admissions
  admissions_lem limit key now ttl rs m fresh alive =
      let (counted, held) = incr_with_ttl-starts now key ttl m fresh in
      let later =
        admissions-Holds limit key rs 1 (now + ttl) (incr_with_ttl now key ttl m).1 held alive in
      rw counted (rw (within-le limit ttl 1, later) (ground arith))

module _ {W : Type 0} (date : ℕ → Text) (user_id : Text) (limit now : ℕ) (w : W) where
  -- The gate is open without a cache, and while Redis raises: the request is admitted, with a count
  -- of zero, and a failing Redis never fails a request.
  pub enforce_quota-fails_open :
      (r : RedisClient W) (exc : Exc) (w' : W)
      → r.incr_then_expire (quota_key date user_id now) (seconds_until_utc_midnight now) w
        ≡ (raised exc, w')
      → (enforce_quota date null_cache user_id limit now w ≡ (ok admitted, w))
        × (enforce_quota date (redis_cache r) user_id limit now w ≡ (ok admitted, w'))
  unfolding enforce_quota incr_and_check null_cache redis_cache
  enforce_quota-fails_open r exc w' down =
      let open_gate : ltb limit 0 ≡ false = ground arith in
      (rw open_gate refl, rw down (rw open_gate refl))
