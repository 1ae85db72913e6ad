-- ===== src/Retrieval/Pipeline.antt =====
-- `RetrievalPipeline.retrieve` (packages/retrieval/src/anime_retrieval/pipeline.py). The embedder, the
-- cross-encoder and the table of embeddings are arguments; the metrics of the stages are left out.
pub mod Dedup
pub mod Stages
pub mod Result
pub mod Known
pub mod Origin
mod Tests
use anime_recommendation_eng.Base.{
  ℕ, suc, ◌+◌, Bool, true, false, Option, none, some, List, [], ◌∷◌, map, take, keep, is_empty,
  is_some, elem, if◌then◌else◌,
}
use anime_recommendation_eng.Base.Action.{
  Action, Exc, Outcome, ok, raised, cancelled, pure, raise, proceed, resume, ◌>>=◌, catch,
  retrieval_unavailable, value_error,
}
use anime_recommendation_eng.Base.Float.{FloatOps}
use anime_recommendation_eng.Base.Sort.{sort_desc}
use anime_recommendation_eng.Base.Text.{Text, codes}
use anime_recommendation_eng.Core.Breaker.{with_timeout}
use anime_recommendation_eng.Retrieval.{Candidate, Key, key_of}
use anime_recommendation_eng.Retrieval.Fusion.{or_zero}
use anime_recommendation_eng.Retrieval.Hybrid.{HybridRetriever, first_of_list}
use anime_recommendation_eng.Retrieval.Hybrid as Hybrid
use anime_recommendation_eng.Retrieval.Mmr.{Vectors, Selected, picks, MmrError, mmr_select}
use anime_recommendation_eng.Retrieval.Mmr as Mmr

module _ {F : Type 0} where
  -- `_dedup_by_anime`: the first chunk of each anime.
  unfoldable pub dedup_from : List ℕ → List (Candidate F) → List (Candidate F)
  dedup_from seen [] = []
  dedup_from seen (c ∷ cs) =
      if elem c.mal_id seen then dedup_from seen cs else c ∷ dedup_from (c.mal_id ∷ seen) cs

  unfoldable pub dedup_by_anime : List (Candidate F) → List (Candidate F)
  unfolding dedup_from
  dedup_by_anime candidates = dedup_from [] candidates

  -- `[replace(c, rerank_score=s) for c, s in zip(deduped, scores, strict=True)]`
  unfoldable pub scored : List (Candidate F) → List F → Option (List (Candidate F))
  scored [] [] = some []
  scored [] (_ ∷ _) = none
  scored (_ ∷ _) [] = none
  scored (c ∷ cs) (s ∷ ss) = elim (scored cs ss) [
    | none ↦ none
    | some rest ↦ some (record c { rerank_score = some s } ∷ rest)
  ]

  -- `[replace(c, rank=i + 1) for i, c in enumerate(final)]`
  unfoldable pub ranked : ℕ → List (Candidate F) → List (Candidate F)
  ranked i [] = []
  ranked i (c ∷ cs) = record c { rank = some (suc i) } ∷ ranked (suc i) cs

pub record Pipeline (W : Type 0) (f : FloatOps) (v : Vectors f.F) : Type 1 where
  pub hybrid : HybridRetriever W v.V f.F
  -- `asyncio.to_thread(self._reranker.score, query, texts)`
  pub score : Text → List Text → Action W (List f.F)
  -- `_fetch_embeddings`: the rows found for the keys
  pub fetch_embeddings : List Key → Action W (Key → Option v.V)
  pub rerank_timeout : ℕ
  pub hybrid_k : ℕ
  pub rerank_k : ℕ
  pub final_k : ℕ
  pub mmr_lambda : f.F

abbrev pub embedding_failed : Exc
embedding_failed = record { kind = retrieval_unavailable; message = codes "query embedding failed" }

abbrev pub strict_zip : Exc
strict_zip = record { kind = value_error; message = codes "zip() argument lengths differ" }

-- The `ValueError` that `mmr_select` raises.
abbrev pub mmr_error : MmrError → Exc
mmr_error Mmr.misaligned = record {
  kind = value_error;
  message = codes "candidates and candidate_embeddings must align";
}
mmr_error Mmr.lambda_out_of_range = record {
  kind = value_error;
  message = codes "lambda_ must be in [0, 1]";
}

module _ {W : Type 0} (f : FloatOps) (v : Vectors f.F) (p : Pipeline W f v) where
  open f use {F}
  open v use {V}

  abbrev pub rerank_key : Candidate F → F
  rerank_key c = or_zero f c.rerank_score

  -- The body of the `try` block: the scores, and the list in their order.
  unfoldable pub by_score : Text → List (Candidate F) → Action W (List (Candidate F))
  unfolding scored sort_desc with_timeout
  by_score query deduped =
      with_timeout p.hybrid.clock p.rerank_timeout (p.score query (map (λ c. c.text) deduped))
      >>= λ scores. elim (scored deduped scores) [
        | none ↦ raise strict_zip
        | some reranked ↦ pure (take p.rerank_k (sort_desc f rerank_key reranked))
      ]

  -- Step 4: on any exception the order of the hybrid retriever stays.
  unfoldable pub rerank : Text → List (Candidate F) → Action W (List (Candidate F))
  unfolding by_score
  rerank query deduped =
      if is_empty deduped
      then pure []
      else catch (by_score query deduped) (λ _. pure (take p.rerank_k deduped))

  -- `[emb_map[c.key] for c in top if c.key in emb_map]`
  unfoldable pub found : (Key → Option V) → List (Candidate F) → List V
  found emb_map [] = []
  found emb_map (c ∷ cs) = elim (emb_map (key_of c)) [
    | none ↦ found emb_map cs
    | some e ↦ e ∷ found emb_map cs
  ]

  abbrev pub aligned : (Key → Option V) → List (Candidate F) → List (Candidate F)
  aligned emb_map top = keep (λ c. is_some (emb_map (key_of c))) top

  abbrev pub chosen : Selected (List (Candidate F)) → Action W (List (Candidate F))
  chosen (picks final) = pure (ranked 0 final)
  chosen (Mmr.value_error e) = raise (mmr_error e)

  -- Steps 5 and 6.
  unfoldable pub diversify : V → List (Candidate F) → Action W (List (Candidate F))
  unfolding found mmr_select ranked
  diversify query_embedding top = p.fetch_embeddings (map key_of top) >>= λ emb_map. chosen (
      mmr_select f v (aligned emb_map top) query_embedding (found emb_map top) p.final_k
        p.mmr_lambda)

  -- Step 1: any exception of the embedder is `RetrievalUnavailableError`.
  unfoldable pub embed_query : Text → Action W V
  unfolding first_of_list
  embed_query query =
      catch (p.hybrid.embed (query ∷ []) >>= first_of_list) (λ _. raise embedding_failed)

  unfoldable pub finish : V → List (Candidate F) → Action W (List (Candidate F))
  unfolding diversify
  finish query_embedding top = if is_empty top then pure [] else diversify query_embedding top

  -- `RetrievalPipeline.retrieve`
  unfoldable pub retrieve : Text → Action W (List (Candidate F))
  unfolding embed_query Hybrid.retrieve dedup_by_anime rerank finish
  retrieve query = embed_query query >>= λ e.
      Hybrid.retrieve f p.hybrid query p.hybrid_k (some e) >>= λ hybrid_candidates.
      rerank query (dedup_by_anime hybrid_candidates) >>= λ top. finish e top
