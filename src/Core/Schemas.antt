-- ===== src/Core/Schemas.antt =====
-- The structured answer of a model and the result of the service (packages/core/src/anime_core/schemas.py),
-- with the static fallback (packages/core/src/anime_core/fallback.py).
-- MyAnimeList ids are only compared, so they are naturals.
use anime_recommendation_eng.Base.{
  ℕ, Bool, true, false, not, ◌&&◌, Option, none, some, List, [], ◌∷◌, take, is_empty as is_nil,
  if◌then◌else◌,
}
use anime_recommendation_eng.Base.Text.{Text, codes}

pub record Recommendation : Type 0 where
  pub mal_id : ℕ
  pub title : Text
  pub summary : Text
  pub why_match : Text

pub record Recommendations : Type 0 where
  pub items : List Recommendation
  pub refusal : Option Text

abbrev pub max_recommendations : ℕ
max_recommendations = 5

-- The constructor: the validator `_cap` cuts the list.
unfoldable pub new_recommendations : List Recommendation → Option Text → Recommendations
new_recommendations items refusal = record {
  items = take max_recommendations items;
  refusal = refusal;
}

-- `bool(refusal)`: neither `None` nor the empty string.
abbrev pub is_stated : Option Text → Bool
is_stated none = false
is_stated (some t) = not (is_nil t)

abbrev pub is_empty : Recommendations → Bool
is_empty r = is_nil r.items

abbrev pub is_refusal : Recommendations → Bool
is_refusal r = is_nil r.items && is_stated r.refusal

pub record RecommendationResult : Type 0 where
  pub items : List Recommendation
  pub refusal : Option Text
  pub degraded : Bool
  pub notice : Option Text

-- `RecommendationResult.of`
unfoldable pub result_of : Recommendations → RecommendationResult
result_of recs = record {
  items = recs.items;
  refusal = if is_refusal recs then recs.refusal else none;
  degraded = false;
  notice = none;
}

-- `RecommendationResult.is_refusal`
abbrev pub declines : RecommendationResult → Bool
declines r = is_nil r.items && is_stated r.refusal

-- `RecommendationResult(items=[], refusal=…)`
unfoldable pub refusal_result : Option Text → RecommendationResult
refusal_result refusal = record { items = []; refusal = refusal; degraded = false; notice = none }

abbrev pub degraded_notice : Text
degraded_notice =
    codes
      "We couldn't generate tailored recommendations right now — here are some widely loved anime while we recover."

abbrev pub no_match_notice : Text
no_match_notice =
    codes "We didn't find strong matches for that — here are some popular anime you might enjoy."

-- `_POPULAR`
abbrev pub popular : List Recommendation
popular =
    record {
      mal_id = 1;
      title = codes "Cowboy Bebop";
      summary =
          codes
            "A ragtag crew of bounty hunters drifts across the solar system chasing criminals and their own pasts.";
      why_match = codes "A near-universally loved classic — a safe, excellent starting point.";
    }
    ∷ record {
      mal_id = 19;
      title = codes "Monster";
      summary =
          codes
            "A brilliant surgeon hunts a charismatic killer he once saved, across a tense psychological cat-and-mouse.";
      why_match = codes "One of the most acclaimed thrillers in the medium.";
    }
    ∷ record {
      mal_id = 21;
      title = codes "One Piece";
      summary =
          codes
            "A young pirate and his crew sail a vast world chasing the ultimate treasure and their dreams.";
      why_match = codes "A long-running, beloved adventure with broad appeal.";
    }
    ∷ []

unfoldable pub popular_fallback : Text → RecommendationResult
popular_fallback notice = record {
  items = popular;
  refusal = none;
  degraded = true;
  notice = some notice;
}
