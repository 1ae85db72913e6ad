-- ===== src/Core/Embedder.antt =====
-- `CachingEmbedder` (packages/core/src/anime_core/embedder.py) over `EmbeddingCache`
-- (packages/core/src/anime_core/caches.py). The inner embedder, the digest and the JSON form of a
-- vector are arguments; the latency is left out.
pub mod Transparent
mod Tests
use anime_recommendation_eng.Base.{
  ℕ, zero, Bool, Option, none, some, List, [], ◌∷◌, ◌++◌, is_empty, if◌then◌else◌,
}
use anime_recommendation_eng.Base.Action.{
  Action, Exc, Outcome, ok, raised, cancelled, pure, raise, proceed, ◌>>=◌, ◌>>◌, value_error,
}
use anime_recommendation_eng.Base.Text.{Text, codes}
use anime_recommendation_eng.Core.Cache.{Cache}

-- `EmbedResult`
pub record EmbedResult (V : Type 0) : Type 0 where
  pub embeddings : List V
  pub total_tokens : ℕ

pub record CachingEmbedder (W V : Type 0) : Type 0 where
  pub inner : List Text → Action W (EmbedResult V)
  pub cache : Cache W
  pub sha256_hex : Text → Text
  pub dumps : V → Text
  pub loads : Text → Outcome V

abbrev pub strict_zip : Exc
strict_zip = record { kind = value_error; message = codes "zip() argument lengths differ" }

module _ {W V : Type 0} (e : CachingEmbedder W V) where
  abbrev pub embed_key : Text → Text
  embed_key text = codes "embed:" ++ e.sha256_hex text

  unfoldable pub decode : Option Text → Action W (Option V)
  decode none w = (ok none, w)
  decode (some raw) w = proceed (λ v. pure (some v)) (e.loads raw, w)

  -- `EmbeddingCache.get`
  unfoldable pub get : Text → Action W (Option V)
  unfolding decode
  get text = e.cache.get (embed_key text) >>= decode

  -- `EmbeddingCache.set`
  unfoldable pub set : Text → V → Action W (Unit {0})
  set text v = e.cache.set (embed_key text) (e.dumps v) none

  -- `[await self._cache.get(t) for t in text_list]`
  unfoldable pub look_up : List Text → Action W (List (Option V))
  unfolding get
  look_up [] = pure []
  look_up (t ∷ ts) = get t >>= λ v. look_up ts >>= λ vs. pure (v ∷ vs)

  -- `miss_texts`
  unfoldable pub misses : List Text → List (Option V) → List Text
  misses (t ∷ ts) (none ∷ vs) = t ∷ misses ts vs
  misses (t ∷ ts) (some v ∷ vs) = misses ts vs
  misses _ _ = []

  -- The loop over `zip(miss_indices, result.embeddings, strict=True)`, which raises at the end of the
  -- shorter one, and the list of what is not `None` then.
  unfoldable pub fill : List Text → List (Option V) → List V → Action W (List V)
  unfolding set
  fill (t ∷ ts) (some v ∷ vs) found w = proceed (λ rest. pure (v ∷ rest)) (fill ts vs found w)
  fill (t ∷ ts) (none ∷ vs) [] w = (raised strict_zip, w)
  fill (t ∷ ts) (none ∷ vs) (x ∷ found) w =
      proceed (λ _. fill ts vs found >>= λ rest. pure (x ∷ rest)) (set t x w)
  fill (t ∷ ts) [] found w = (ok [], w)
  fill [] vs (_ ∷ _) w = (raised strict_zip, w)
  fill [] vs [] w = (ok [], w)

  -- The values that were all cached.
  unfoldable pub present : List (Option V) → List V
  present [] = []
  present (some v ∷ vs) = v ∷ present vs
  present (none ∷ vs) = present vs

  unfoldable pub embed_misses : List Text → List (Option V) → Action W (EmbedResult V)
  unfolding misses fill present
  embed_misses texts cached =
      if is_empty (misses texts cached)
      then pure (record { embeddings = present cached; total_tokens = 0 })
      else (e.inner (misses texts cached) >>= λ r. fill texts cached r.embeddings >>= λ vs.
          pure (record { embeddings = vs; total_tokens = r.total_tokens }))

  -- `CachingEmbedder.embed`
  unfoldable pub embed : List Text → Action W (EmbedResult V)
  unfolding look_up embed_misses
  embed texts = look_up texts >>= embed_misses texts
