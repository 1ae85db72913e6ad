-- ===== src/Core/Embedder/Tests.antt =====
-- Tests of the caching embedder: the world is the list of the texts that are stored.
use anime_recommendation_eng.Base.{
  ◌≡◌, refl, inl, inr, Bool-cases, none, some, List, [], ◌∷◌, ◌++◌, map, length, any, if◌then◌else◌,
}
use anime_recommendation_eng.Base.Action.{ok}
use anime_recommendation_eng.Base.Raises.{Yields}
use anime_recommendation_eng.Base.Text.{Text, codes, text_eq}
use anime_recommendation_eng.Core.Cache.{Cache, null_cache}
use anime_recommendation_eng.Core.Embedder.{
  CachingEmbedder, embed, get, set, decode, look_up, embed_misses, misses, fill, present,
}
use anime_recommendation_eng.Core.Embedder.Transparent.{embed-vectors, SoundOne}

-- Each text is its own vector, and its own key; the cache stores the vector under the text.
abbrev stored : Cache (List Text)
stored = record (null_cache {W = List Text}) {
  get = λ key w. (ok (if any (text_eq key) w then some key else none), w);
  set = λ key value ttl w. (ok tt, key ∷ w);
}

abbrev embedder : CachingEmbedder (List Text) Text
embedder = record {
  inner = λ texts w. (
    ok (record { embeddings = map (λ t. codes "embed:" ++ t) texts; total_tokens = length texts }),
    w,
  );
  cache = stored;
  sha256_hex = λ t. t;
  dumps = λ v. v;
  loads = λ t. ok t;
}

abbrev vector : Text → Text
vector t = codes "embed:" ++ t

-- The second text is stored already: one text is sent.
sends_misses : embed embedder (codes "a" ∷ codes "b" ∷ []) (codes "embed:b" ∷ []) ≡ (
  ok (record { embeddings = vector (codes "a") ∷ vector (codes "b") ∷ []; total_tokens = 1 }),
  codes "embed:a" ∷ codes "embed:b" ∷ [],
)
unfolding embed get set decode look_up embed_misses misses fill present null_cache
sends_misses = refl

get-Sound : (t : Text) (w : List Text) → Yields (SoundOne embedder vector t) (get embedder t w)
unfolding get decode null_cache
get-Sound t w = elim (Bool-cases (any (text_eq (vector t)) w)) [
  | inl hit ↦ rw hit refl
  | inr miss ↦ rw miss tt
]

set-ends : (t v : Text) (w : List Text) → Yields (λ _. Unit) (set embedder t v w)
unfolding set null_cache
set-ends t v w = tt

embed-vectors_example :
    Yields
      (λ r. r.embeddings ≡ map vector (codes "a" ∷ codes "b" ∷ []))
      (embed embedder (codes "a" ∷ codes "b" ∷ []) (codes "embed:b" ∷ []))
embed-vectors_example =
    embed-vectors embedder vector get-Sound set-ends (λ ts w. refl) (codes "a" ∷ codes "b" ∷ [])
      (codes "embed:b" ∷ [])
