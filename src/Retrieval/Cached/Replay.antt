-- ===== src/Retrieval/Cached/Replay.antt =====
-- What is stored, and what a hit gives (packages/retrieval/src/anime_retrieval/cached_service.py).
use anime_recommendation_eng.Base.{
  ◌≡◌, refl, ap, ◌∙◌, true, false, ◌&&◌, Option, none, some, List, [], ◌∷◌, map, is_empty as is_nil,
  if◌then◌else◌,
}
use anime_recommendation_eng.Base.Action.{ok, pure, proceed, ◌>>◌}
use anime_recommendation_eng.Base.Text.{Text}
use anime_recommendation_eng.Core.Cache.{Cache}
use anime_recommendation_eng.Core.Schemas.{
  Recommendation, RecommendationResult, declines, is_stated,
}
use anime_recommendation_eng.Retrieval.Cached.{
  Codec, Recommender, response_ttl_seconds, line_of, key, decode, get, set, remember, unless_cached,
  recommend, replay, astream,
}

no_items :
    (items : List Recommendation) (refusal : Option Text)
    → (is_nil items && is_stated refusal) ≡ true
    → items ≡ []
no_items [] refusal h = refl
no_items (r ∷ rs) refusal h = cc

module _ {W : Type 0} (o : Codec) (version : Text) (cache : Cache W) (inner : Recommender W)
    (query : Text) (tenant : Option Text) where
  get_miss :
      (w w1 : W)
      → cache.get (key o version cache inner query tenant) w ≡ (ok none, w1)
      → get o version cache inner query tenant w ≡ (ok none, w1)
  unfolding get
  get_miss w w1 e =
      ap (proceed (decode o version cache inner query tenant)) e ∙ unfold decode in refl

  -- A degraded result is returned and never stored: on a miss, the world is as the inner service
  -- left it, so that no outage outlives itself in the cache.
  pub recommend-degraded :
      (w w1 w2 : W) (result : RecommendationResult)
      → cache.get (key o version cache inner query tenant) w ≡ (ok none, w1)
      → inner.recommend query tenant w1 ≡ (ok result, w2)
      → result.degraded ≡ true
      → recommend o version cache inner query tenant w ≡ (ok result, w2)
  unfolding recommend
  recommend-degraded w w1 w2 result miss answers degraded =
      ap (proceed (unless_cached o version cache inner query tenant)) (get_miss w w1 miss)
      ∙ unfold unless_cached in
        (ap (proceed (remember o version cache inner query tenant)) answers
          ∙ unfold remember in rw degraded refl)

  -- A result that is not degraded is stored, and the next call for the same query and tenant gives
  -- the same result without the inner service, where the cache gives back the text that was set,
  -- and the JSON text of a result reads back as it. A failing write of the cache excluded.
  pub recommend-replayed :
      (w w1 w2 w3 : W) (result : RecommendationResult)
      → cache.get (key o version cache inner query tenant) w ≡ (ok none, w1)
      → inner.recommend query tenant w1 ≡ (ok result, w2)
      → result.degraded ≡ false
      → cache.set
          (key o version cache inner query tenant)
          (o.dumps result)
          (some response_ttl_seconds)
          w2
        ≡ (ok tt, w3)
      → cache.get (key o version cache inner query tenant) w3 ≡ (ok (some (o.dumps result)), w3)
      → o.loads (o.dumps result) ≡ ok result
      → (recommend o version cache inner query tenant w ≡ (ok result, w3))
        × (recommend o version cache inner query tenant w3 ≡ (ok result, w3))
  unfolding recommend
  recommend-replayed w w1 w2 w3 result miss answers healthy stores finds reads = (
    ap (proceed (unless_cached o version cache inner query tenant)) (get_miss w w1 miss)
        ∙ unfold unless_cached in
          (ap (proceed (remember o version cache inner query tenant)) answers
            ∙ unfold remember set in
              (ap
                  (λ b.
                    (if b
                        then pure result
                        else (set o version cache inner query tenant result >> pure result))
                      w2)
                  healthy
                ∙ ap (proceed (λ _. pure result)) stores)),
    unfold get in
        (ap
            (λ p.
              proceed (unless_cached o version cache inner query tenant)
                (proceed (decode o version cache inner query tenant) p))
            finds
          ∙ unfold decode unless_cached in
            ap
              (λ r.
                proceed (unless_cached o version cache inner query tenant)
                  (proceed (λ (r : RecommendationResult). pure (some r)) (r, w3)))
              reads),
  )

  -- A stored refusal is replayed by the streaming call as no text at all: the lines of the items are
  -- all that a hit says, and a refusal has none.
  pub astream-silent :
      (w w' : W) (raw : Text) (result : RecommendationResult)
      → cache.get (key o version cache inner query tenant) w ≡ (ok (some raw), w')
      → o.loads raw ≡ ok result
      → declines result ≡ true
      → astream o version cache inner query tenant w ≡ ([], ok tt, w')
  unfolding astream
  astream-silent w w' raw result finds reads refuses =
      unfold get in
      (ap
          (λ p.
            replay o version cache inner query tenant
              (proceed (decode o version cache inner query tenant) p))
          finds
        ∙ unfold decode in
          ap
            (λ r.
              replay o version cache inner query tenant
                (proceed (λ (r : RecommendationResult). pure (some r)) (r, w')))
            reads
          ∙ unfold replay in
            ap (λ items. (map line_of items, ok tt, w'))
              (no_items result.items result.refusal refuses))
