-- ===== src/Core/Cache/Object.antt =====
-- The cache that is an `InMemoryCache` object (packages/core/src/anime_core/cache.py), at a moment.
use anime_recommendation_eng.Base.{ℕ, Option, none, some}
use anime_recommendation_eng.Base.Action.{Action, Slot, Exc, Outcome, ok, raised, value_error}
use anime_recommendation_eng.Base.Text.{codes}
use anime_recommendation_eng.Core.Cache.{Cache}
use anime_recommendation_eng.Core.Cache.Memory
use anime_recommendation_eng.Core.Cache.Memory.{InMemoryCache}

-- `int` of a value that is no number
abbrev pub not_int : Exc
not_int = record { kind = value_error; message = codes "invalid literal for int()" }

abbrev pub int_outcome : Option ℕ → Outcome ℕ
int_outcome none = raised not_int
int_outcome (some n) = ok n

module _ {W : Type 0} (mem : Slot W InMemoryCache) where
  abbrev pub returning : {A : Type 0} → (InMemoryCache → A × InMemoryCache) → Action W A
  returning f w = let (a, m) = f (mem.read w) in (ok a, mem.write m w)

  abbrev pub counting : (InMemoryCache → Option ℕ × InMemoryCache) → Action W ℕ
  counting f w = let (n, m) = f (mem.read w) in (int_outcome n, mem.write m w)

  abbrev pub changing : (InMemoryCache → InMemoryCache) → Action W (Unit {0})
  changing f w = (ok tt, mem.write (f (mem.read w)) w)

  abbrev pub memory_cache : ℕ → Cache W
  memory_cache now = record {
    get = λ key. returning (Memory.get now key);
    set = λ key value ttl. changing (Memory.set now key value ttl);
    set_nx = λ key value ttl. returning (Memory.set_nx now key value ttl);
    delete = λ key. changing (Memory.delete key);
    incr = λ key. counting (Memory.incr now key);
    incr_with_ttl = λ key ttl. counting (Memory.incr_with_ttl now key ttl);
    push_capped = λ key member max_len. changing (Memory.push_capped key member max_len);
    list_range = λ key start stop. returning (λ m. (Memory.list_range key start stop m, m));
  }
