-- ===== src/Retrieval/Pipeline/Origin.antt =====
-- The stages of the pipeline add no candidate of their own
-- (packages/retrieval/src/anime_retrieval/pipeline.py).
use anime_recommendation_eng.Base.{
  ℕ, zero, suc, ◌≡◌, ◌⊎◌, inl, inr, Bool, true, false, not, ◌&&◌, none, some, List, [], ◌∷◌, map,
  take, length, elem, is_empty, is_some, ◌==◌, Bool-cases, Option-cases, All-take, All-append,
}
use mathlib.Core.Path.{subst}
use anime_recommendation_eng.Base.Action.{Action, Outcome, ok, raised, cancelled, pure, raise}
use anime_recommendation_eng.Base.Float.{FloatOps}
use anime_recommendation_eng.Base.Raises.{
  Returns, proceed-Returns, proceed-Returns_from, resume-Returns,
}
use anime_recommendation_eng.Base.Sort.{sort_desc, All-sort_desc}
use anime_recommendation_eng.Base.Text.{Text}
use anime_recommendation_eng.Retrieval.{Candidate, key_of, Hit}
use anime_recommendation_eng.Retrieval.Hybrid.{after_leg, dense_leg, sparse_leg, fuse, recover}
use anime_recommendation_eng.Retrieval.Hybrid as Hybrid
use anime_recommendation_eng.Retrieval.Mmr.{Vectors, place, placed, mmr_select}
use anime_recommendation_eng.Retrieval.Pipeline.{
  Pipeline, dedup_by_anime, scored, ranked, strict_zip, rerank_key, by_score, rerank, found,
  aligned, chosen, diversify, embed_query, finish, retrieve,
}
use anime_recommendation_eng.Retrieval.Pipeline.Known.{
  Known, KnownHits, KnownIf, dedup_from-Known, scored-Known, ranked-Known, keep-Known, fusion-Known,
  guarded-Returns,
}

module _ (catalogue : List ℕ) (f : FloatOps) (v : Vectors f.F) where
  open f use {F}
  open v use {V}

  -- The hits of a leg, whether or not it succeeded.
  abbrev KnownLeg : List (Hit F) × Bool → Type 0
  KnownLeg leg = KnownHits catalogue leg.0

  place-Known :
      (cs : List (Candidate F)) (p : ℕ × F) → Known catalogue cs → Known catalogue (place f v cs p)
  place-Known [] p h = tt
  place-Known (c ∷ cs) (zero, m) h = (h.0, tt)
  place-Known (c ∷ cs) (suc i, m) h = place-Known cs (i, m) h.1

  placed-Known :
      (cs : List (Candidate F)) (ps : List (ℕ × F))
      → Known catalogue cs
      → Known catalogue (placed f v cs ps)
  unfolding placed
  placed-Known cs [] h = tt
  placed-Known cs (p ∷ ps) h =
      All-append (λ c. elem c.mal_id catalogue ≡ true) (place f v cs p) (placed f v cs ps)
        (place-Known cs p h) (placed-Known cs ps h)

  module _ {W : Type 0} (p : Pipeline W f v) where
    after_leg-Known :
        (q : Outcome (List (Hit F)) × W)
        → Returns (KnownHits catalogue) q
        → Returns KnownLeg (after_leg f p.hybrid q)
    unfolding after_leg
    after_leg-Known (ok hits, w) h = h
    after_leg-Known (raised e, w) h =
        proceed-Returns KnownLeg (λ _. pure ([], false)) (recover f p.hybrid w) λ _ w'. tt
    after_leg-Known (cancelled, w) h = tt

    fuse-Known :
        (k : ℕ) (dense sparse : List (Hit F) × Bool) (w : W)
        → KnownLeg dense
        → KnownLeg sparse
        → Returns (Known catalogue) (fuse f p.hybrid k dense sparse w)
    unfolding fuse
    fuse-Known k (dense_hits, dense_ok) (sparse_hits, sparse_ok) w h l =
        elim (Bool-cases (not dense_ok && not sparse_ok)) [
          | inl both ↦ rw both tt
          | inr one ↦ rw one (fusion-Known catalogue f dense_hits sparse_hits p.hybrid.rrf_k k h l)
        ]

    by_score-Known :
        (query : Text) (cs : List (Candidate F)) (w : W)
        → Known catalogue cs
        → Returns (Known catalogue) (by_score f v p query cs w)
    unfolding by_score
    by_score-Known query cs w h =
        proceed-Returns (Known catalogue) _ _
          λ scores w'. scores-Known scores w' (Option-cases (scored cs scores))
      where
        scores-Known :
            (scores : List F) (w' : W)
            → (scored cs scores ≡ none)
              ⊎ ((rest : List (Candidate F)) × (scored cs scores ≡ some rest))
            → Returns (Known catalogue) (
                (elim (scored cs scores) as (λ _. Action W (List (Candidate F))) [
                  | none ↦ raise strict_zip
                  | some reranked ↦ pure (take p.rerank_k (sort_desc f (rerank_key f v p) reranked))
                ])
                  w')
        scores-Known scores w' (inl short) = rw short tt
        scores-Known scores w' (inr (rest, e)) = rw e (
            All-take (λ c. elem c.mal_id catalogue ≡ true) p.rerank_k _
              (All-sort_desc f (rerank_key f v p) (λ c. elem c.mal_id catalogue ≡ true) rest
                (subst (KnownIf catalogue) e (scored-Known catalogue cs scores h))))

    rerank-Known :
        (query : Text) (cs : List (Candidate F)) (w : W)
        → Known catalogue cs
        → Returns (Known catalogue) (rerank f v p query cs w)
    unfolding rerank
    rerank-Known query cs w h = elim (Bool-cases (is_empty cs)) [
      | inl empty ↦ rw empty tt
      | inr full ↦ rw full (
          resume-Returns (Known catalogue) _ (by_score f v p query cs w)
            (by_score-Known query cs w h)
            λ e w'. All-take (λ c. elem c.mal_id catalogue ≡ true) p.rerank_k cs h)
    ]

    chosen-Known :
        (cs : List (Candidate F)) (query : V) (embeddings : List V) (w : W)
        → Known catalogue cs
        → Returns
            (Known catalogue)
            (chosen f v p (mmr_select f v cs query embeddings p.final_k p.mmr_lambda) w)
    unfolding mmr_select ranked
    chosen-Known cs query embeddings w h = elim (Bool-cases (is_empty cs)) [
      | inl empty ↦ rw empty tt
      | inr full ↦ elim (Bool-cases (not (length cs == length embeddings))) [
        | inl odd ↦ rw (full, odd) tt
        | inr even ↦
            elim (Bool-cases (not (f.le f.zero_f p.mmr_lambda && f.le p.mmr_lambda f.one_f))) [
              | inl wide ↦ rw (full, even, wide) tt
              | inr range ↦
                  rw (full, even, range) (ranked-Known catalogue 0 _ (placed-Known cs _ h))
            ]
      ]
    ]

    finish-Known :
        (e : V) (top : List (Candidate F)) (w : W)
        → Known catalogue top
        → Returns (Known catalogue) (finish f v p e top w)
    unfolding finish diversify
    finish-Known e top w h = elim (Bool-cases (is_empty top)) [
      | inl empty ↦ rw empty tt
      | inr full ↦ rw full (
          proceed-Returns (Known catalogue) _ (p.fetch_embeddings (map key_of top) w) λ emb_map w'.
            chosen-Known (aligned f v p emb_map top) e (found f v p emb_map top) w'
              (keep-Known catalogue (λ c. is_some (emb_map (key_of c))) top h))
    ]

    module _
        (dense : (e : V) (k : ℕ) (w : W)
          → Returns (KnownHits catalogue) (p.hybrid.search_dense e k w))
        (sparse : (q : Text) (k : ℕ) (w : W)
          → Returns (KnownHits catalogue) (p.hybrid.search_sparse q k w)) where
      hybrid-Known :
          (query : Text) (k : ℕ) (e : V) (w : W)
          → Returns (Known catalogue) (Hybrid.retrieve f p.hybrid query k (some e) w)
      unfolding Hybrid.retrieve dense_leg sparse_leg
      hybrid-Known query k e w =
          proceed-Returns_from KnownLeg (Known catalogue) _ (dense_leg f p.hybrid e k w)
            (after_leg-Known _ (
              guarded-Returns (KnownHits catalogue) p.hybrid.clock p.hybrid.dense_breaker
                p.hybrid.timeout (p.hybrid.search_dense e k) w (dense e k)))
            λ dense_leg_end w1 h.
              proceed-Returns_from KnownLeg (Known catalogue) _ (sparse_leg f p.hybrid query k w1)
                (after_leg-Known _ (
                  guarded-Returns (KnownHits catalogue) p.hybrid.clock p.hybrid.sparse_breaker
                    p.hybrid.timeout (p.hybrid.search_sparse query k) w1 (sparse query k)))
                λ sparse_leg_end w2 l. fuse-Known k dense_leg_end sparse_leg_end w2 h l

      -- Where the hits of both indexes are of the catalogue, so is every candidate that the pipeline
      -- returns.
      pub retrieve-Known :
          (query : Text) (w : W) → Returns (Known catalogue) (retrieve f v p query w)
      unfolding retrieve dedup_by_anime
      retrieve-Known query w =
          proceed-Returns (Known catalogue) _ (embed_query f v p query w) λ e w1.
            proceed-Returns_from (Known catalogue) (Known catalogue) _
              (Hybrid.retrieve f p.hybrid query p.hybrid_k (some e) w1)
              (hybrid-Known query p.hybrid_k e w1)
              λ hits w2 h.
                proceed-Returns_from (Known catalogue) (Known catalogue) _
                  (rerank f v p query (dedup_by_anime hits) w2)
                  (rerank-Known query (dedup_by_anime hits) w2
                    (dedup_from-Known catalogue [] hits h))
                  λ top w3 l. finish-Known e top w3 l
