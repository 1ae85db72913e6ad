-- ===== src/Core/Cache/Memory.antt =====
-- `InMemoryCache` (packages/core/src/anime_core/cache.py). The two dicts are association lists, and
-- `time.time()` is a number that each operation is given.
use anime_recommendation_eng.Base.{
  ℕ, suc, ◌+◌, ◌-◌, ◌*◌, Bool, true, false, ◌&&◌, Option, none, some, List, [], ◌∷◌, leb, ltb, take,
  drop, if◌then◌else◌,
}
use anime_recommendation_eng.Base.Text.{Text, text_eq, decimal}

pub record Entry : Type 0 where
  pub value : Text
  pub expiry : Option ℕ

module _ {A : Type 0} where
  -- `d.get(key)`
  unfoldable pub dict_get : Text → List (Text × A) → Option A
  dict_get key [] = none
  dict_get key ((k, a) ∷ d) = if text_eq k key then some a else dict_get key d

  -- `d[key] = a`
  unfoldable pub dict_set : Text → A → List (Text × A) → List (Text × A)
  dict_set key a [] = (key, a) ∷ []
  dict_set key a ((k, b) ∷ d) = if text_eq k key then (k, a) ∷ d else (k, b) ∷ dict_set key a d

  -- `d.pop(key, None)`
  unfoldable pub dict_pop : Text → List (Text × A) → List (Text × A)
  dict_pop key [] = []
  dict_pop key ((k, a) ∷ d) = if text_eq k key then d else (k, a) ∷ dict_pop key d

pub record InMemoryCache : Type 0 where
  pub kv : List (Text × Entry)
  pub lists : List (Text × List Text)

abbrev pub new_cache : InMemoryCache
new_cache = record { kv = []; lists = [] }

-- `int(s)` of a text of digits; a sign, spaces or underscores, which Python's `int` takes as well,
-- are never written by `str` of a counter.
unfoldable pub digits_value : ℕ → Text → Option ℕ
digits_value n [] = some n
digits_value n (c ∷ s) =
    if leb b'0' c && leb c b'9' then digits_value (n * 10 + (c - b'0')) s else none

unfoldable pub int_of : Text → Option ℕ
unfolding digits_value
int_of [] = none
int_of (c ∷ s) = digits_value 0 (c ∷ s)

-- `expiry is not None and expiry < time.time()`
abbrev pub expired : ℕ → Entry → Bool
expired now e = elim e.expiry [ none ↦ false | some t ↦ ltb t now ]

-- `get` from the item on: an expired entry is deleted.
unfoldable pub read_item : ℕ → Text → InMemoryCache → Option Entry → Option Text × InMemoryCache
unfolding dict_pop
read_item now key m none = (none, m)
read_item now key m (some e) =
    if expired now e then (none, record m { kv = dict_pop key m.kv }) else (some e.value, m)

unfoldable pub get : ℕ → Text → InMemoryCache → Option Text × InMemoryCache
unfolding read_item dict_get
get now key m = read_item now key m (dict_get key m.kv)

unfoldable pub set : ℕ → Text → Text → Option ℕ → InMemoryCache → InMemoryCache
unfolding dict_set
set now key value ttl m =
    let expiry : Option ℕ = elim ttl [ none ↦ none | some seconds ↦ some (now + seconds) ] in
    record m { kv = dict_set key (record { value = value; expiry = expiry }) m.kv }

unfoldable pub set_if_none :
    ℕ → Text → Text → ℕ → Option Text × InMemoryCache → Bool × InMemoryCache
unfolding set
set_if_none now key value ttl (some _, m) = (false, m)
set_if_none now key value ttl (none, m) = (true, set now key value (some ttl) m)

unfoldable pub set_nx : ℕ → Text → Text → ℕ → InMemoryCache → Bool × InMemoryCache
unfolding get set_if_none
set_nx now key value ttl m = set_if_none now key value ttl (get now key m)

unfoldable pub delete : Text → InMemoryCache → InMemoryCache
unfolding dict_pop
delete key m = record m { kv = dict_pop key m.kv }

abbrev pub expiry_of : Option Entry → Option ℕ
expiry_of none = none
expiry_of (some e) = e.expiry

-- `self._kv[key][1] if key in self._kv else None`
abbrev pub kept_expiry : Text → InMemoryCache → Option ℕ
kept_expiry key m = expiry_of (dict_get key m.kv)

abbrev pub store : Text → ℕ → Option ℕ → InMemoryCache → InMemoryCache
store key n expiry m = record m {
  kv = dict_set key (record { value = decimal n; expiry = expiry }) m.kv;
}

-- The count that was read goes up by one, and keeps its expiry; `none` is the `ValueError` of `int`
-- on a value that is no number.
unfoldable pub count_on : Text → InMemoryCache → Option ℕ → Option ℕ × InMemoryCache
unfolding dict_set dict_get decimal
count_on key m none = (none, m)
count_on key m (some n) = (some (n + 1), store key (n + 1) (kept_expiry key m) m)

unfoldable pub incr_value : Text → Option Text × InMemoryCache → Option ℕ × InMemoryCache
unfolding count_on int_of
incr_value key (none, m) = count_on key m (some 0)
incr_value key (some text, m) = count_on key m (int_of text)

-- `incr`
unfoldable pub incr : ℕ → Text → InMemoryCache → Option ℕ × InMemoryCache
unfolding get incr_value
incr now key m = incr_value key (get now key m)

unfoldable pub incr_or_start : ℕ → Text → ℕ → Option Text × InMemoryCache → Option ℕ × InMemoryCache
unfolding count_on int_of dict_set decimal
incr_or_start now key ttl (none, m) = (some 1, store key 1 (some (now + ttl)) m)
incr_or_start now key ttl (some text, m) = count_on key m (int_of text)

-- `incr_with_ttl`: the lifetime is that of the first increment.
unfoldable pub incr_with_ttl : ℕ → Text → ℕ → InMemoryCache → Option ℕ × InMemoryCache
unfolding get incr_or_start
incr_with_ttl now key ttl m = incr_or_start now key ttl (get now key m)

abbrev pub list_at : Text → InMemoryCache → List Text
list_at key m = elim (dict_get key m.lists) [ none ↦ [] | some l ↦ l ]

-- `push_capped`: newest first, at most `max_len`.
unfoldable pub push_capped : Text → Text → ℕ → InMemoryCache → InMemoryCache
unfolding dict_get dict_set
push_capped key member max_len m = record m {
  lists = dict_set key (take max_len (member ∷ list_at key m)) m.lists;
}

-- `list_range`
unfoldable pub list_range : Text → ℕ → Option ℕ → InMemoryCache → List Text
unfolding dict_get
list_range key start none m = drop start (list_at key m)
list_range key start (some stop) m = drop start (take (suc stop) (list_at key m))
