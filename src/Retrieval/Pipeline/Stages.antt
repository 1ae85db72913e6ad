-- ===== src/Retrieval/Pipeline/Stages.antt =====
-- Degradation of the stages, and the one exception that callers of the pipeline catch.
use anime_recommendation_eng.Base.{
  ℕ, ◌≡◌, refl, ap, inl, inr, true, false, ◌&&◌, Option, some, List, [], ◌∷◌, arith, Bool-cases,
  length, is_empty, take, map, ◌==◌,
}
use anime_recommendation_eng.Base.Action.{
  Exc, Outcome, ok, raised, cancelled, ◌>>=◌, retrieval_unavailable,
}
use anime_recommendation_eng.Base.Float.{FloatOps}
use anime_recommendation_eng.Base.Raises.{
  Raises, Never, OfKind, proceed-Raises, resume-Raises, Raises-of_Never,
}
use anime_recommendation_eng.Base.Text.{Text}
use anime_recommendation_eng.Retrieval.{Candidate, Key, key_of}
use anime_recommendation_eng.Retrieval.Hybrid as Hybrid
use anime_recommendation_eng.Retrieval.Hybrid.Legs.{retrieve-Raises, IsUnavailable}
use anime_recommendation_eng.Retrieval.Mmr.{Vectors, mmr_select}
use anime_recommendation_eng.Retrieval.Pipeline.{
  Pipeline, dedup_by_anime, by_score, rerank, found, aligned, chosen, diversify, embed_query,
  finish, retrieve,
}

module _ {W : Type 0} (f : FloatOps) (v : Vectors f.F) (p : Pipeline W f v) where
  open f use {F}
  open v use {V}

  -- A reranker that raises, is too slow, or returns the wrong number of scores costs the request its
  -- reranking and nothing else: the first `rerank_k` candidates stay, in the hybrid order and with
  -- no rerank score added.
  pub rerank-degrades :
      (query : Text) (deduped : List (Candidate F)) (w w' : W) (exc : Exc)
      → by_score f v p query deduped w ≡ (raised exc, w')
      → is_empty deduped ≡ false
      → rerank f v p query deduped w ≡ (ok (take p.rerank_k deduped), w')
  unfolding rerank
  rerank-degrades query deduped w w' exc e full = rw full (rw e)

  rerank-Never :
      (query : Text) (deduped : List (Candidate F)) (w : W)
      → Raises Never (rerank f v p query deduped w)
  unfolding rerank
  rerank-Never query deduped w = elim (Bool-cases (is_empty deduped)) [
    | inl empty ↦ rw empty tt
    | inr full ↦ rw full (resume-Raises Never _ (by_score f v p query deduped w) (λ e w'. tt))
  ]

  -- The candidates and the vectors that `mmr_select` is given are as many.
  length-found :
      (emb_map : Key → Option V) (top : List (Candidate F))
      → length (aligned f v p emb_map top) ≡ length (found f v p emb_map top)
  unfolding found
  length-found emb_map [] = refl
  length-found emb_map (c ∷ cs) = ground (arith, length-found emb_map cs)

  chosen-Never :
      (candidates : List (Candidate F)) (query : V) (embeddings : List V) (k : ℕ) (lambda_ : F)
      → length candidates ≡ length embeddings
      → (f.le f.zero_f lambda_ && f.le lambda_ f.one_f) ≡ true
      → (w : W)
      → Raises Never (chosen f v p (mmr_select f v candidates query embeddings k lambda_) w)
  unfolding mmr_select
  chosen-Never candidates query embeddings k lambda_ same range w =
      elim (Bool-cases (is_empty candidates)) [
        | inl empty ↦ rw empty tt
        | inr full ↦
            let agrees : (length candidates == length embeddings) ≡ true = ground arith in
            rw (full, agrees, range) tt
      ]

  embed_query-Raises :
      (query : Text) (w : W) → Raises (OfKind retrieval_unavailable) (embed_query f v p query w)
  unfolding embed_query
  embed_query-Raises query w =
      resume-Raises (OfKind retrieval_unavailable) _
        ((p.hybrid.embed (query ∷ []) >>= Hybrid.first_of_list) w) (λ e w'. refl)

  hybrid-Raises :
      (query : Text) (k : ℕ) (e : V) (w : W)
      → Raises (OfKind retrieval_unavailable) (Hybrid.retrieve f p.hybrid query k (some e) w)
  hybrid-Raises query k e w = weaken _ (retrieve-Raises f p.hybrid query k e w)
    where
      weaken :
          (q : Outcome (List (Candidate F)) × W)
          → Raises (IsUnavailable f p.hybrid) q
          → Raises (OfKind retrieval_unavailable) q
      weaken (ok a, w') h = tt
      weaken (raised x, w') h = ap (λ (x : Exc). x.kind) h
      weaken (cancelled, w') h = tt

  module _ (range : (f.le f.zero_f p.mmr_lambda && f.le p.mmr_lambda f.one_f) ≡ true)
      (fetches : (keys : List Key) (w : W) → Raises Never (p.fetch_embeddings keys w)) where
    finish-Never : (e : V) (top : List (Candidate F)) (w : W) → Raises Never (finish f v p e top w)
    unfolding finish diversify
    finish-Never e top w = elim (Bool-cases (is_empty top)) [
      | inl empty ↦ rw empty tt
      | inr full ↦ rw full (
          proceed-Raises Never _ (p.fetch_embeddings (map key_of top) w) (fetches _ w) λ emb_map w'.
            chosen-Never (aligned f v p emb_map top) e (found f v p emb_map top) p.final_k
              p.mmr_lambda (length-found emb_map top) range w')
    ]

    -- With a λ in [0, 1], and while the embeddings of the chosen chunks can be read, the pipeline
    -- raises nothing but `RetrievalUnavailableError`, the one exception for which the service
    -- degrades: not for a failing embedder, index, breaker, recovery hook or reranker.
    pub retrieve-Raises_unavailable :
        (query : Text) (w : W) → Raises (OfKind retrieval_unavailable) (retrieve f v p query w)
    unfolding retrieve
    retrieve-Raises_unavailable query w =
        proceed-Raises (OfKind retrieval_unavailable) _ (embed_query f v p query w)
          (embed_query-Raises query w)
          λ e w1.
            proceed-Raises (OfKind retrieval_unavailable) _
              (Hybrid.retrieve f p.hybrid query p.hybrid_k (some e) w1)
              (hybrid-Raises query p.hybrid_k e w1)
              λ hits w2.
                proceed-Raises (OfKind retrieval_unavailable) _
                  (rerank f v p query (dedup_by_anime hits) w2)
                  (Raises-of_Never (OfKind retrieval_unavailable) _ (rerank-Never query _ w2))
                  λ top w3. Raises-of_Never (OfKind retrieval_unavailable) _ (finish-Never e top w3)
