-- ===== src/Retrieval/Engine/Tests.antt =====
-- Tests of the whole: the dense index and the model are down, and the world is a clock, the two
-- breakers and the confidence.
use anime_recommendation_eng.Base.{ℕ, ◌+◌, ◌*◌, refl, none, some, List, [], ◌∷◌, Option}
use anime_recommendation_eng.Base.Action.{Slot, Exc, ok, raised, other_error}
use anime_recommendation_eng.Base.Float.{millionths}
use anime_recommendation_eng.Base.Text.{codes}
use anime_recommendation_eng.Core.Breaker.{Breaker}
use anime_recommendation_eng.Core.Cache.{null_cache}
use anime_recommendation_eng.Llm.{LlmClient}
use anime_recommendation_eng.Retrieval.{Hit}
use anime_recommendation_eng.Retrieval.Engine.{Parts}
use anime_recommendation_eng.Retrieval.Hybrid.{
  HybridRetriever, default_dense_breaker, default_sparse_breaker,
}
use anime_recommendation_eng.Retrieval.Mmr.{Vectors}
use anime_recommendation_eng.Retrieval.Pipeline.{Pipeline}
use anime_recommendation_eng.Retrieval.Service.{recommend, astream}

abbrev World : Type 0
World = ℕ × (Breaker × (Breaker × Option ℕ))

abbrev dense_slot : Slot World Breaker
dense_slot = record {
  read = λ w. w.1.0;
  write = λ b w. (w.0, (b, w.1.1));
  read-write = λ b w. refl;
  write-read = λ w. refl;
  write-write = λ b c w. refl;
}

abbrev sparse_slot : Slot World Breaker
sparse_slot = record {
  read = λ w. w.1.1.0;
  write = λ b w. (w.0, (w.1.0, (b, w.1.1.1)));
  read-write = λ b w. refl;
  write-read = λ w. refl;
  write-write = λ b c w. refl;
}

abbrev confidence : Slot World (Option ℕ)
confidence = record {
  read = λ w. w.1.1.1;
  write = λ c w. (w.0, (w.1.0, (w.1.1.0, c)));
  read-write = λ c w. refl;
  write-read = λ w. refl;
  write-write = λ c d w. refl;
}

abbrev outage : Exc
outage = record { kind = other_error; message = codes "503" }

abbrev hits : List (Hit ℕ)
hits = record { mal_id = 19; chunk_index = 0; text = codes "Title: Monster"; score = 9 } ∷ []

abbrev numbers : Vectors ℕ
numbers = record { V = ℕ; normalize = λ x. x; dot = λ x y. x * y }

abbrev retriever : HybridRetriever World ℕ ℕ
retriever = record {
  clock = λ w. w.0;
  search_dense = λ v k w. (raised outage, (w.0 + 1, w.1));
  search_sparse = λ query k w. (ok hits, (w.0 + 1, w.1));
  embed = λ texts w. (ok (0 ∷ []), w);
  rrf_k = 60;
  timeout = 5;
  on_leg_failure = none;
  dense_breaker = dense_slot;
  sparse_breaker = sparse_slot;
}

abbrev pipeline : Pipeline World millionths numbers
pipeline = record {
  hybrid = retriever;
  score = λ query texts w. (ok (7 ∷ []), w);
  fetch_embeddings = λ keys w. (ok (λ key. some 3), w);
  rerank_timeout = 2;
  hybrid_k = 50;
  rerank_k = 10;
  final_k = 5;
  mmr_lambda = 850_000;
}

abbrev model_down : LlmClient World
model_down = record {
  object_id = 0;
  model = codes "m";
  recommend = λ query context w. (raised outage, w);
  astream = λ query context w. ([], raised outage, w);
}

abbrev parts : Parts World millionths numbers
parts = record {
  pipeline = pipeline;
  llm = model_down;
  cache = null_cache;
  llm_enabled_env = none;
  missing_titles = λ query. [];
  confidence = confidence;
  refuse_below = 0;
}

abbrev start : World
start = (100, (default_dense_breaker, (default_sparse_breaker, none)))
