-- ===== src/Retrieval/Grounding/Tests.antt =====
-- Tests of the grounding.
use anime_recommendation_eng.Base.{
  ℕ, ◌≤◌, ◌≡◌, refl, true, none, [], ◌∷◌, map, elem, length, take, All,
}
use anime_recommendation_eng.Base.Text.{codes, latin}
use anime_recommendation_eng.Core.Schemas.{
  Recommendation, Recommendations, max_recommendations, new_recommendations,
}
use anime_recommendation_eng.Retrieval.{Candidate}
use anime_recommendation_eng.Retrieval.Grounding.{
  ground_recommendations, grounded, title_to_id, titles_from, assign, candidate_title, match_title,
  match_part, title_lookup,
}
use anime_recommendation_eng.Retrieval.Grounding.Valid.{
  ground_recommendations-In, ground_recommendations_valid,
}

abbrev candidate : Candidate ℕ
candidate = record {
  mal_id = 19;
  chunk_index = 0;
  text = codes "Title: Monster\nGenres: Drama\n\nA surgeon.";
  dense_score = none;
  sparse_score = none;
  hybrid_score = none;
  rerank_score = none;
  mmr_score = none;
  rank = none;
}

abbrev named : ℕ → Recommendation
named i = record {
  mal_id = i;
  title = codes "monster ";
  summary = codes "s";
  why_match = codes "w";
}

abbrev invented : Recommendation
invented = record { mal_id = 5; title = codes "Bleach"; summary = codes "s"; why_match = codes "w" }

abbrev answer : Recommendations
answer = record { items = named 7 ∷ invented ∷ []; refusal = none }

-- A wrong id is replaced by the id of the title, and an unknown title is dropped.
canonicalizes : (ground_recommendations latin answer (candidate ∷ [])).items ≡ named 19 ∷ []
unfolding ground_recommendations new_recommendations grounded title_to_id titles_from assign
    candidate_title match_title match_part title_lookup
canonicalizes = refl

ground_recommendations-In_example :
    let items = (ground_recommendations latin answer (candidate ∷ [])).items in
    All (λ r. elem r.mal_id (map (λ c. c.mal_id) (candidate ∷ [])) ≡ true) items
    × (length items ≤ max_recommendations)
ground_recommendations-In_example = ground_recommendations-In latin answer (candidate ∷ [])

ground_recommendations_valid_test :
    (ground_recommendations latin
      (record { items = named 19 ∷ []; refusal = none })
      (candidate ∷ [])).items
    ≡ take max_recommendations (named 19 ∷ [])
ground_recommendations_valid_test =
    ground_recommendations_valid latin (record { items = named 19 ∷ []; refusal = none })
      (candidate ∷ []) (refl, tt)
