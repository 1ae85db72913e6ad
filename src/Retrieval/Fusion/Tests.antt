-- ===== src/Retrieval/Fusion/Tests.antt =====
-- Tests of the fusion, over millionths.
use mathlib.Core.List.{Nodup}
use anime_recommendation_eng.Base.{ℕ, ◌≤◌, ◌≡◌, refl, some, List, [], ◌∷◌, map, length, All}
use anime_recommendation_eng.Base.Float.{millionths, millionths-IsOrdered}
use anime_recommendation_eng.Base.Sort.{IsDescending}
use anime_recommendation_eng.Base.Text.{codes}
use anime_recommendation_eng.Retrieval.{Hit, key_of}
use anime_recommendation_eng.Retrieval.Fusion.{
  hybrid_key, reciprocal_rank_fusion, fused_table, absorb, upsert,
}
use anime_recommendation_eng.Base.Sort.{sort_desc}
use anime_recommendation_eng.Retrieval.Fusion.Score.{rrf_score, hybrid_score-rrf}
use anime_recommendation_eng.Retrieval.Fusion.Order.{reciprocal_rank_fusion-IsRanked}

abbrev hit : ℕ → ℕ → Hit ℕ
hit mal_id score = record { mal_id = mal_id; chunk_index = 0; text = codes "t"; score = score }

abbrev dense : List (Hit ℕ)
dense = hit 1 900 ∷ hit 2 800 ∷ []

abbrev sparse : List (Hit ℕ)
sparse = hit 2 70 ∷ hit 3 60 ∷ []

fuses : map key_of (reciprocal_rank_fusion millionths dense sparse 60 2) ≡ (2, 0) ∷ (1, 0) ∷ []
unfolding reciprocal_rank_fusion fused_table absorb upsert sort_desc
fuses = refl

hybrid_score-rrf_example :
    All
      (λ c. c.hybrid_score ≡ some (rrf_score millionths (key_of c) 60 dense sparse))
      (reciprocal_rank_fusion millionths dense sparse 60 2)
hybrid_score-rrf_example = hybrid_score-rrf millionths dense sparse 60 2

reciprocal_rank_fusion-IsRanked_example :
    let fused = reciprocal_rank_fusion millionths dense sparse 60 2 in
    IsDescending millionths (hybrid_key millionths) fused
    × Nodup (map key_of fused)
    × (length fused ≤ 2)
reciprocal_rank_fusion-IsRanked_example =
    reciprocal_rank_fusion-IsRanked millionths millionths-IsOrdered dense sparse 60 2
