-- ===== src/Retrieval/Cached.antt =====
-- `CachedRecommendationService` (packages/retrieval/src/anime_retrieval/cached_service.py) and
-- `ResponseCache` (packages/core/src/anime_core/caches.py). The digest, the Unicode tables and the
-- JSON forms of a result are arguments.
pub mod Replay
pub mod Normal
mod Tests
use anime_recommendation_eng.Base.{
  ℕ, Bool, true, false, not, ◌||◌, Option, none, some, List, [], ◌∷◌, ◌++◌, map, is_empty as is_nil,
  if◌then◌else◌,
}
use anime_recommendation_eng.Base.Action.{
  Action, Exc, Outcome, ok, raised, cancelled, pure, proceed, ◌>>=◌, ◌>>◌,
}
use anime_recommendation_eng.Base.Text.{Text, Unicode, codes, strip}
use anime_recommendation_eng.Core.Cache.{Cache}
use anime_recommendation_eng.Core.Schemas.{Recommendation, RecommendationResult}
use anime_recommendation_eng.Llm.{Stream}

-- `Recommender`, with the tenant of each call.
pub record Recommender (W : Type 0) : Type 0 where
  pub recommend : Text → Option Text → Action W RecommendationResult
  pub astream : Text → Option Text → Stream W

-- What the library gives: NFKC and case folding, the class \w, SHA-256 in hexadecimal, the JSON text
-- of `model_dump`, and its reading back, which raises on a text that is no result.
pub record Codec : Type 0 where
  pub unicode : Unicode
  pub nfkc : Text → Text
  pub casefold : Text → Text
  pub is_word : ℕ → Bool
  pub sha256_hex : Text → Text
  pub dumps : RecommendationResult → Text
  pub loads : Text → Outcome RecommendationResult

module _ (o : Codec) where
  -- `_PUNCT.sub(" ", text)`: characters that are neither of \w nor of \s.
  unfoldable pub punct_to_space : Text → Text
  punct_to_space [] = []
  punct_to_space (c ∷ t) =
      (if o.is_word c || o.unicode.is_space c then c else b' ') ∷ punct_to_space t

  -- `_WHITESPACE.sub(" ", text)`: `inside` says that the last character was a space.
  unfoldable pub one_space : Bool → Text → Text
  one_space inside [] = []
  one_space inside (c ∷ t) =
      if o.unicode.is_space c
      then (if inside then one_space true t else b' ' ∷ one_space true t)
      else c ∷ one_space false t

  -- `normalize_query`
  unfoldable pub normalize_query : Text → Text
  unfolding punct_to_space one_space
  normalize_query query =
      strip o.unicode
        (one_space false (punct_to_space (strip o.unicode (o.casefold (o.nfkc query)))))

  -- `tenant or 'anon'`
  abbrev pub tenant_or_anon : Option Text → Text
  tenant_or_anon none = codes "anon"
  tenant_or_anon (some t) = if is_nil t then codes "anon" else t

  -- `ResponseCache._key`, CORPUS_VERSION being `version`
  unfoldable pub response_key : Text → Option Text → Text → Text
  unfolding normalize_query
  response_key version tenant query =
      codes "resp:"
      ++ (version
          ++ (codes ":"
              ++ (tenant_or_anon tenant ++ (codes ":" ++ o.sha256_hex (normalize_query query)))))

abbrev pub response_ttl_seconds : ℕ
response_ttl_seconds = 86_400

-- `f"{rec.title}: {rec.why_match}\n"`
abbrev pub line_of : Recommendation → Text
line_of rec = rec.title ++ (codes ": " ++ (rec.why_match ++ b'\n' ∷ []))

module _ {W : Type 0} (o : Codec) (version : Text) (cache : Cache W) (inner : Recommender W) where
  module _ (query : Text) (tenant : Option Text) where
    abbrev pub key : Text
    key = response_key o version tenant query

    -- A hit: `json.loads`, then `model_validate`; a miss is `none`.
    unfoldable pub decode : Option Text → Action W (Option RecommendationResult)
    decode none w = (ok none, w)
    decode (some raw) w = proceed (λ r. pure (some r)) (o.loads raw, w)

    -- `ResponseCache.get`
    unfoldable pub get : Action W (Option RecommendationResult)
    unfolding decode response_key
    get = cache.get key >>= decode

    -- `ResponseCache.set`
    unfoldable pub set : RecommendationResult → Action W (Unit {0})
    unfolding response_key
    set result = cache.set key (o.dumps result) (some response_ttl_seconds)

    -- The end of `recommend`: only a result that is not degraded is stored.
    unfoldable pub remember : RecommendationResult → Action W RecommendationResult
    unfolding set
    remember result = if result.degraded then pure result else (set result >> pure result)

    unfoldable pub unless_cached : Option RecommendationResult → Action W RecommendationResult
    unfolding remember
    unless_cached (some result) w = (ok result, w)
    unless_cached none w = proceed remember (inner.recommend query tenant w)

    -- `CachedRecommendationService.recommend`
    unfoldable pub recommend : Action W RecommendationResult
    unfolding get unless_cached
    recommend = get >>= unless_cached

    -- `CachedRecommendationService.astream`, from the end of the lookup on
    unfoldable pub replay :
        Outcome (Option RecommendationResult) × W → List Text × Outcome (Unit {0}) × W
    replay (ok (some result), w) = (map line_of result.items, ok tt, w)
    replay (ok none, w) = inner.astream query tenant w
    replay (raised e, w) = ([], raised e, w)
    replay (cancelled, w) = ([], cancelled, w)

    -- `CachedRecommendationService.astream`
    unfoldable pub astream : Stream W
    unfolding get replay
    astream w = replay (get w)
