-- ===== src/Retrieval/Pipeline/Tests.antt =====
-- Tests of the pipeline, over the world of the hybrid retriever.
use anime_recommendation_eng.Base.{ℕ, ◌+◌, ◌*◌, ◌≡◌, refl, none, some, List, [], ◌∷◌, All}
use anime_recommendation_eng.Base.Action.{ok, raised, retrieval_unavailable}
use anime_recommendation_eng.Base.Float.{millionths, millionths-IsOrdered}
use anime_recommendation_eng.Base.Raises.{Raises, Returns, OfKind}
use anime_recommendation_eng.Base.Text.{codes}
use anime_recommendation_eng.Core.Breaker.{with_timeout, timeout_exc}
use anime_recommendation_eng.Retrieval.{Candidate}
use anime_recommendation_eng.Retrieval.Hybrid.Samples.{World, over, fresh, hits, broken}
use anime_recommendation_eng.Retrieval.Mmr.{Vectors}
use anime_recommendation_eng.Retrieval.Pipeline.{
  Pipeline, dedup_by_anime, rerank, by_score, retrieve,
}
use anime_recommendation_eng.Retrieval.Pipeline.Dedup.{Once, Covered, dedup_by_anime-Covered}
use anime_recommendation_eng.Retrieval.Pipeline.Stages.{
  rerank-degrades, retrieve-Raises_unavailable,
}
use anime_recommendation_eng.Retrieval.Pipeline.Result.{IsRanked, retrieve-IsRanked}

abbrev numbers : Vectors ℕ
numbers = record { V = ℕ; normalize = λ x. x; dot = λ x y. x * y }

-- A pipeline whose reranker takes twenty seconds.
abbrev pipeline : Pipeline World millionths numbers
pipeline = record {
  hybrid = over (ok hits) (raised broken);
  score = λ query texts w. (ok (7 ∷ []), (w.0 + 20, w.1));
  fetch_embeddings = λ keys w. (ok (λ key. some 3), w);
  rerank_timeout = 2;
  hybrid_k = 50;
  rerank_k = 10;
  final_k = 5;
  mmr_lambda = 700_000;
}

abbrev scored_at : ℕ → ℕ → Candidate ℕ
scored_at mal_id score = record {
  mal_id = mal_id;
  chunk_index = score;
  text = codes "t";
  dense_score = none;
  sparse_score = none;
  hybrid_score = some score;
  rerank_score = none;
  mmr_score = none;
  rank = none;
}

abbrev chunks : List (Candidate ℕ)
chunks = scored_at 1 30 ∷ scored_at 2 20 ∷ scored_at 1 10 ∷ []

dedup_by_anime-Covered_test :
    Once millionths [] (dedup_by_anime chunks)
    × All (λ c. Covered millionths c (dedup_by_anime chunks)) chunks
dedup_by_anime-Covered_test =
    dedup_by_anime-Covered millionths millionths-IsOrdered chunks
      ((refl, (refl, tt)), ((refl, tt), (tt, tt)))

rerank-degrades_test :
    rerank millionths numbers pipeline (codes "q") chunks fresh ≡ (ok chunks, (120, fresh.1))
unfolding by_score with_timeout
rerank-degrades_test =
    rerank-degrades millionths numbers pipeline (codes "q") chunks fresh (120, fresh.1) timeout_exc
      refl refl

retrieve-Raises_unavailable_example :
    Raises (OfKind retrieval_unavailable) (retrieve millionths numbers pipeline (codes "q") fresh)
retrieve-Raises_unavailable_example =
    retrieve-Raises_unavailable millionths numbers pipeline refl (λ keys w. tt) (codes "q") fresh

retrieve-IsRanked_test :
    Returns
      (IsRanked millionths numbers pipeline)
      (retrieve millionths numbers pipeline (codes "q") fresh)
retrieve-IsRanked_test = retrieve-IsRanked millionths numbers pipeline (codes "q") fresh
