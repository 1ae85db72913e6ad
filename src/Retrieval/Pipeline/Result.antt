-- ===== src/Retrieval/Pipeline/Result.antt =====
-- The list that the pipeline returns (packages/retrieval/src/anime_retrieval/pipeline.py).
use anime_recommendation_eng.Base.{
  ℕ, zero, suc, ◌-◌, ◌≤◌, ◌≡◌, refl, inl, inr, not, ◌&&◌, ◌||◌, none, some, List, [], ◌∷◌, ◌++◌,
  arith, Bool-cases, Option-cases, length, length-append, is_empty, leb, map, ◌==◌,
}
use anime_recommendation_eng.Base.Float.{FloatOps}
use anime_recommendation_eng.Base.Raises.{Returns, proceed-Returns}
use anime_recommendation_eng.Base.Text.{Text}
use anime_recommendation_eng.Retrieval.{Candidate, key_of}
use anime_recommendation_eng.Retrieval.Hybrid as Hybrid
use anime_recommendation_eng.Retrieval.Mmr.{
  Vectors, picks, pick, remove, select, place, placed, mmr_select,
}
use anime_recommendation_eng.Retrieval.Pipeline.{
  Pipeline, dedup_by_anime, ranked, rerank, found, aligned, chosen, diversify, embed_query, finish,
  retrieve,
}

module _ {F : Type 0} where
  -- Ranks that count from i + 1.
  abbrev pub RankedFrom : ℕ → List (Candidate F) → Type 0
  RankedFrom i [] = Unit
  RankedFrom i (c ∷ cs) = (c.rank ≡ some (suc i)) × RankedFrom (suc i) cs

  ranked-RankedFrom : (i : ℕ) (cs : List (Candidate F)) → RankedFrom i (ranked i cs)
  unfolding ranked
  ranked-RankedFrom i [] = tt
  ranked-RankedFrom i (c ∷ cs) = (refl, ranked-RankedFrom (suc i) cs)

  length-ranked : (i : ℕ) (cs : List (Candidate F)) → length (ranked i cs) ≡ length cs
  unfolding ranked
  length-ranked i [] = refl
  length-ranked i (c ∷ cs) = omega (arith, length-ranked (suc i) cs)

module _ (f : FloatOps) where
  open f use {F}

  length-select-le :
      (lambda_ : F) (relevance : ℕ → F) (similarity : ℕ → ℕ → F) (fuel k : ℕ)
      (remaining selected : List ℕ)
      → length (select f lambda_ relevance similarity fuel k remaining selected)
        ≤ k - length selected
  unfolding select
  length-select-le lambda_ relevance similarity zero k remaining selected = omega arith
  length-select-le lambda_ relevance similarity (suc fuel) k remaining selected =
      elim (Bool-cases (is_empty remaining || leb k (length selected))) [
        | inl done ↦ rw done (omega arith)
        | inr more ↦
            elim (Option-cases (pick f lambda_ relevance similarity selected remaining none)) [
              | inl nothing ↦ rw (more, nothing) (omega arith)
              | inr ((i, m), hit) ↦
                  rw (more, hit)
                    (ground (
                      arith,
                      length-append selected (i ∷ []),
                      length-select-le lambda_ relevance similarity fuel k (remove i remaining)
                          (selected ++ i ∷ []),
                    ))
            ]
      ]

  module _ (v : Vectors F) where
    open v use {V}

    length-place-le : (cs : List (Candidate F)) (p : ℕ × F) → length (place f v cs p) ≤ 1
    length-place-le [] p = omega arith
    length-place-le (c ∷ cs) (zero, m) = omega arith
    length-place-le (c ∷ cs) (suc i, m) = length-place-le cs (i, m)

    length-placed-le :
        (cs : List (Candidate F)) (ps : List (ℕ × F)) → length (placed f v cs ps) ≤ length ps
    unfolding placed
    length-placed-le cs [] = omega arith
    length-placed-le cs (p ∷ ps) = omega (
      arith,
      length-append (place f v cs p) (placed f v cs ps),
      length-place-le cs p,
      length-placed-le cs ps,
    )

    module _ {W : Type 0} (p : Pipeline W f v) where
      abbrev pub IsRanked : List (Candidate F) → Type 0
      IsRanked cs = RankedFrom 0 cs × (length cs ≤ p.final_k)

      picks-IsRanked :
          (cs : List (Candidate F)) (w : W)
          → length cs ≤ p.final_k
          → Returns IsRanked (chosen f v p (picks cs) w)
      picks-IsRanked cs w few = (ranked-RankedFrom 0 cs, omega (arith, length-ranked 0 cs, few))

      chosen-IsRanked :
          (cs : List (Candidate F)) (query : V) (embeddings : List V) (w : W)
          → Returns IsRanked
              (chosen f v p (mmr_select f v cs query embeddings p.final_k p.mmr_lambda) w)
      unfolding mmr_select
      chosen-IsRanked cs query embeddings w = elim (Bool-cases (is_empty cs)) [
        | inl empty ↦ rw empty (picks-IsRanked [] w (omega arith))
        | inr full ↦ elim (Bool-cases (not (length cs == length embeddings))) [
          | inl odd ↦ rw (full, odd) tt
          | inr even ↦
              elim (Bool-cases (not (f.le f.zero_f p.mmr_lambda && f.le p.mmr_lambda f.one_f))) [
                | inl wide ↦ rw (full, even, wide) tt
                | inr range ↦
                    rw (full, even, range)
                      (picks-IsRanked _ w (
                        omega (
                          arith,
                          length-placed-le cs _,
                          length-select-le p.mmr_lambda _ _ _ p.final_k _ [],
                        )))
              ]
        ]
      ]

      finish-IsRanked :
          (e : V) (top : List (Candidate F)) (w : W) → Returns IsRanked (finish f v p e top w)
      unfolding finish diversify
      finish-IsRanked e top w = elim (Bool-cases (is_empty top)) [
        | inl empty ↦ rw empty (tt, omega arith)
        | inr full ↦ rw full (
            proceed-Returns IsRanked _ (p.fetch_embeddings (map key_of top) w) λ emb_map w'.
              chosen-IsRanked (aligned f v p emb_map top) e (found f v p emb_map top) w')
      ]

      -- What the pipeline returns is numbered 1, 2, 3, ... in its order, and is no longer than
      -- `final_k`, whatever the indexes, the reranker and the table of embeddings give.
      pub retrieve-IsRanked : (query : Text) (w : W) → Returns IsRanked (retrieve f v p query w)
      unfolding retrieve
      retrieve-IsRanked query w = proceed-Returns IsRanked _ (embed_query f v p query w) λ e w1.
          proceed-Returns IsRanked _ (Hybrid.retrieve f p.hybrid query p.hybrid_k (some e) w1)
            λ hits w2.
              proceed-Returns IsRanked _ (rerank f v p query (dedup_by_anime hits) w2)
                λ top w3. finish-IsRanked e top w3
