-- ===== src/Retrieval/Cached/Tests.antt =====
-- Tests of the response cache: the world is the stored entry, and a count of the model's calls.
use anime_recommendation_eng.Base.{
  ℕ, ◌+◌, ◌≡◌, refl, true, false, ◌&&◌, leb, Option, none, some, [], ◌∷◌,
}
use anime_recommendation_eng.Base.Action.{ok}
use anime_recommendation_eng.Base.Text.{Text, codes, latin, ascii_lower}
use anime_recommendation_eng.Core.Cache.{Cache, null_cache}
use anime_recommendation_eng.Core.Schemas.{RecommendationResult}
use anime_recommendation_eng.Retrieval.Cached.{
  Codec, Recommender, normalize_query, one_space, punct_to_space, recommend, astream,
}
use anime_recommendation_eng.Retrieval.Cached.Replay.{
  recommend-degraded, recommend-replayed, astream-silent,
}

abbrev World : Type 0
World = Option Text × ℕ

abbrev refusal : RecommendationResult
refusal = record { items = []; refusal = some (codes "no"); degraded = false; notice = none }

abbrev degraded : RecommendationResult
degraded = record { items = []; refusal = none; degraded = true; notice = some (codes "n") }

-- Texts whose words are of lower-case letters; the one result that is stored is the refusal.
abbrev codec : Codec
codec = record {
  unicode = latin;
  nfkc = λ t. t;
  casefold = ascii_lower;
  is_word = λ c. leb b'a' c && leb c b'z';
  sha256_hex = λ t. t;
  dumps = λ r. codes "{}";
  loads = λ t. ok refusal;
}

-- A cache of one entry.
abbrev one_entry : Cache World
one_entry = record (null_cache {W = World}) {
  get = λ key w. (ok w.0, w);
  set = λ key value ttl w. (ok tt, (some value, w.1));
}

abbrev inner : RecommendationResult → Recommender World
inner result = record {
  recommend = λ query tenant w. (ok result, (w.0, w.1 + 1));
  astream = λ query tenant w. (codes "t" ∷ [], ok tt, (w.0, w.1 + 1));
}

normalizes :
    normalize_query codec (codes "  Show me, sports   anime!") ≡ codes "show me sports anime"
unfolding normalize_query one_space punct_to_space
normalizes = refl

recommend-degraded_test :
    recommend codec [] one_entry (inner degraded) (codes "q") none (none, 0)
    ≡ (ok degraded, (none, 1))
unfolding null_cache
recommend-degraded_test =
    recommend-degraded codec [] one_entry (inner degraded) (codes "q") none (none, 0) (none, 0)
      (none, 1) degraded refl refl refl

recommend-replayed_example :
    (recommend codec [] one_entry (inner refusal) (codes "q") none (none, 0)
      ≡ (ok refusal, (some (codes "{}"), 1)))
    × (recommend codec [] one_entry (inner refusal) (codes "q") none (some (codes "{}"), 1)
        ≡ (ok refusal, (some (codes "{}"), 1)))
unfolding null_cache
recommend-replayed_example =
    recommend-replayed codec [] one_entry (inner refusal) (codes "q") none (none, 0) (none, 0)
      (none, 1) (some (codes "{}"), 1) refusal refl refl refl refl refl refl

astream-silent_example :
    astream codec [] one_entry (inner refusal) (codes "q") none (some (codes "{}"), 1)
    ≡ ([], ok tt, (some (codes "{}"), 1))
unfolding null_cache
astream-silent_example =
    astream-silent codec [] one_entry (inner refusal) (codes "q") none (some (codes "{}"), 1)
      (some (codes "{}"), 1) (codes "{}") refusal refl refl refl
