-- ===== src/Retrieval/Engine/Whole.antt =====
-- The guarantees of the service, with its parts in place.
use anime_recommendation_eng.Base.Action.{Action}
use anime_recommendation_eng.Base.Raises.{Raises}
use anime_recommendation_eng.Base.Text.{Text}
use anime_recommendation_eng.Retrieval.Pipeline.Known.{Known}
