-- ===== src/Llm.antt =====
-- The client layer of the language models (packages/core/src/anime_core/llm_client.py and venue.py).
-- A client is a record of its two calls over a world W. What the provider does is a parameter: the
-- LangChain chain behind a `_LangChainClient` is any such record.
mod Samples
pub mod Tiered
pub mod Budget
pub mod Venue
pub mod Build
use anime_recommendation_eng.Base.{ℕ, List, ◌==◌, Bool}
use anime_recommendation_eng.Base.Action.{Action, Outcome}
use anime_recommendation_eng.Base.Text.{Text}
use anime_recommendation_eng.Core.Schemas.{Recommendations}

-- An async generator that is read to its end: the tokens it yields, and how it ends.
abbrev pub Stream : Type 0 → Type 0
Stream W = W → List Text × Outcome (Unit {0}) × W

-- `LLMClient`. The identity of the object is what `is` compares.
pub record LlmClient (W : Type 0) : Type 0 where
  pub object_id : ℕ
  pub model : Text
  pub recommend : Text → Text → Action W Recommendations
  pub astream : Text → Text → Stream W

-- `a is b`
abbrev pub same_object : {W : Type 0} → LlmClient W → LlmClient W → Bool
same_object a b = a.object_id == b.object_id
