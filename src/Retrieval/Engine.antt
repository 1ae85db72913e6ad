-- ===== src/Retrieval/Engine.antt =====
-- The service as the API builds it for a request (`get_service`,
-- apps/api/src/anime_api/dependencies.py): the pipeline is its retriever, and the kill switch reads
-- the cache.
pub mod Whole
mod Tests
use anime_recommendation_eng.Base.{Option, List}
use anime_recommendation_eng.Base.Action.{Action, Slot}
use anime_recommendation_eng.Base.Float.{FloatOps}
use anime_recommendation_eng.Base.Text.{Text, Unicode}
use anime_recommendation_eng.Core.Cache.{Cache}
use anime_recommendation_eng.Core.KillSwitch.{llm_enabled}
use anime_recommendation_eng.Llm.{LlmClient}
use anime_recommendation_eng.Retrieval.Mmr.{Vectors}
use anime_recommendation_eng.Retrieval.Pipeline.{Pipeline}
use anime_recommendation_eng.Retrieval.Pipeline as Pipeline
use anime_recommendation_eng.Retrieval.Service.{Service}

pub record Parts (W : Type 0) (f : FloatOps) (v : Vectors f.F) : Type 1 where
  pub pipeline : Pipeline W f v
  pub llm : LlmClient W
  pub cache : Cache W
  pub llm_enabled_env : Option Text
  pub missing_titles : Text → List Text
  pub confidence : Slot W (Option f.F)
  pub refuse_below : f.F

unfoldable pub service_of :
    {W : Type 0} (u : Unicode) (f : FloatOps) (v : Vectors f.F) → Parts W f v → Service W f
unfolding llm_enabled Pipeline.retrieve
service_of u f v parts = record {
  retriever = Pipeline.retrieve f v parts.pipeline;
  llm = parts.llm;
  named_but_absent = parts.missing_titles;
  generation_enabled = llm_enabled u parts.cache.get parts.llm_enabled_env;
  confidence = parts.confidence;
  refuse_below = parts.refuse_below;
}
