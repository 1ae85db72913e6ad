-- ===== src/Retrieval/Grounding.antt =====
-- `ground_recommendations` and `_match_title` (packages/retrieval/src/anime_retrieval/service.py).
pub mod Valid
mod Tests
use anime_recommendation_eng.Base.{
  ℕ, Bool, true, false, ◌&&◌, ◌||◌, Option, none, some, List, [], ◌∷◌, ◌++◌, drop, map, elem,
  is_empty as is_nil, ◌==◌, if◌then◌else◌, length,
}
use anime_recommendation_eng.Base.Text.{Text, Unicode, codes, text_eq, starts_with, contains, strip}
use anime_recommendation_eng.Core.Schemas.{Recommendation, Recommendations, new_recommendations}
use anime_recommendation_eng.Core.Schemas as Schemas
use anime_recommendation_eng.Retrieval.{Candidate}

-- `text.split("\n", 1)[0]`
abbrev pub first_line : Text → Text
first_line [] = []
first_line (c ∷ t) = if c == 10 then [] else c ∷ first_line t

-- A dict from titles to ids, as the list of its items.
abbrev pub Titles : Type 0
Titles = List (Text × ℕ)

-- `d[title] = mal_id`: the place of a key is that of its first insertion.
unfoldable pub assign : Text → ℕ → Titles → Titles
assign title mal_id [] = (title, mal_id) ∷ []
assign title mal_id ((t, i) ∷ d) =
    if text_eq t title then (t, mal_id) ∷ d else (t, i) ∷ assign title mal_id d

unfoldable pub title_lookup : Text → Titles → Option ℕ
title_lookup title [] = none
title_lookup title ((t, i) ∷ d) = if text_eq t title then some i else title_lookup title d

module _ (u : Unicode) where
  -- `_candidate_title`
  unfoldable pub candidate_title : Text → Text
  candidate_title text =
      let line = first_line text in
      if starts_with (codes "Title: ") line
      then strip u (drop (length (codes "Title: ")) line)
      else []

  unfoldable pub titles_from : {F : Type 0} → List (Candidate F) → Titles → Titles
  unfolding candidate_title assign
  titles_from [] d = d
  titles_from (c ∷ cs) d = titles_from cs (
      if is_nil (candidate_title c.text)
      then d
      else assign (u.lower (candidate_title c.text)) c.mal_id d)

  -- `title_to_id`
  unfoldable pub title_to_id : {F : Type 0} → List (Candidate F) → Titles
  unfolding titles_from
  title_to_id candidates = titles_from candidates []

  -- The last loop of `_match_title`: the first title that contains the needle, or is in it.
  unfoldable pub match_part : Text → Titles → Option ℕ
  match_part needle [] = none
  match_part needle ((t, i) ∷ d) =
      if contains needle t || contains t needle then some i else match_part needle d

  -- `_match_title`
  unfoldable pub match_title : Text → Titles → Option ℕ
  unfolding title_lookup match_part
  match_title title d =
      let needle = u.lower (strip u title) in
      if is_nil needle
      then none
      else elim (title_lookup needle d) [ some i ↦ some i | none ↦ match_part needle d ]

  -- The loop over the recommendations.
  unfoldable pub grounded : List ℕ → Titles → List Recommendation → List Recommendation
  unfolding match_title
  grounded valid_ids d [] = []
  grounded valid_ids d (r ∷ rs) =
      let rest = grounded valid_ids d rs in
      if elem r.mal_id valid_ids then r ∷ rest else elim (match_title r.title d) [
        | none ↦ rest
        | some canonical ↦ record r { mal_id = canonical } ∷ rest
      ]

  unfoldable pub ground_recommendations :
      {F : Type 0} → Recommendations → List (Candidate F) → Recommendations
  unfolding grounded title_to_id new_recommendations
  ground_recommendations recs candidates =
      new_recommendations
        (grounded (map (λ c. c.mal_id) candidates) (title_to_id candidates) recs.items) none
