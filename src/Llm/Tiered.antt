-- ===== src/Llm/Tiered.antt =====
-- `TieredLLMClient`, `ResilientLLMClient` and the two tests that route between tiers
-- (packages/core/src/anime_core/llm_client.py).
pub mod Answers
pub mod Cost
pub mod Streams
mod Tests
use anime_recommendation_eng.Base.{
  ℕ, Bool, true, false, not, ◌&&◌, List, [], ◌∷◌, ◌++◌, any, ltb, if◌then◌else◌,
}
use anime_recommendation_eng.Base.Action.{
  Action, Slot, Exc, Outcome, ok, raised, cancelled, pure, ◌>>=◌, catch,
}
use anime_recommendation_eng.Base.Text.{Text, Unicode, codes, contains, word_count}
use anime_recommendation_eng.Core.Breaker.{Breaker, guarded}
use anime_recommendation_eng.Core.Schemas.{Recommendations, is_empty, is_refusal}
use anime_recommendation_eng.Llm.{LlmClient, Stream, same_object}

-- `_PARSE_ERROR_MARKERS`
abbrev pub parse_error_markers : List Text
parse_error_markers =
    codes "unknown tool type" ∷ codes "output_parsing_failure" ∷ codes "failed to parse" ∷ []

-- `_is_structured_output_parse_error`
unfoldable pub is_parse_error : Unicode → Exc → Bool
is_parse_error u exc =
    let text = u.lower exc.message in any (λ marker. contains marker text) parse_error_markers

-- `default_should_escalate`, the threshold being `ESCALATION_WORD_THRESHOLD`
unfoldable pub default_should_escalate : Unicode → ℕ → Text → Bool
default_should_escalate u threshold query = ltb threshold (word_count u query)

pub record Tiers (W : Type 0) : Type 0 where
  pub default : LlmClient W
  pub escalation : LlmClient W
  pub fallback : LlmClient W
  pub should_escalate : Text → Bool

module _ {W : Type 0} where
  -- `ResilientLLMClient`
  unfoldable pub resilient : (W → ℕ) → ℕ → Slot W Breaker → ℕ → LlmClient W → LlmClient W
  unfolding guarded
  resilient clock object_id breaker timeout inner = record {
    object_id = object_id;
    model = inner.model;
    recommend = λ query context. guarded clock breaker timeout (inner.recommend query context);
    astream = inner.astream;
  }

  -- `_primary`
  abbrev pub primary : Tiers W → Text → LlmClient W
  primary t query = if t.should_escalate query then t.escalation else t.default

  module _ (t : Tiers W) (query context : Text) where
    abbrev pub ask_primary : Action W Recommendations
    ask_primary = (primary t query).recommend query context

    abbrev pub ask_fallback : Action W Recommendations
    ask_fallback = t.fallback.recommend query context

    abbrev pub distinct : Bool
    distinct = not (same_object (primary t query) t.fallback)

    -- How `astream` goes on from the primary's stream: a failure before the first token falls
    -- through, a later one is passed on.
    unfoldable pub after_stream :
        List Text × Outcome (Unit {0}) × W → List Text × Outcome (Unit {0}) × W
    after_stream ([], raised exc, w) = t.fallback.astream query context w
    after_stream ([], ok done, w) = ([], ok done, w)
    after_stream ([], cancelled, w) = ([], cancelled, w)
    after_stream (first ∷ rest, end, w) = (first ∷ rest, end, w)

    -- `TieredLLMClient.astream`
    unfoldable pub astream : Stream W
    unfolding after_stream
    astream w = after_stream ((primary t query).astream query context w)

    module _ (u : Unicode) where
      -- The `except` clause of `recommend`: one more attempt for an unparseable answer.
      unfoldable pub after_error : Exc → Action W Recommendations
      after_error exc =
          if is_parse_error u exc && distinct
          then catch ask_primary (λ _. ask_fallback)
          else ask_fallback

      -- What `recommend` does with an answer of the primary.
      unfoldable pub after_answer : Recommendations → Action W Recommendations
      after_answer result =
          if is_refusal result
          then pure result
          else (if is_empty result && distinct
              then (ask_fallback >>= λ second. pure (if is_empty second then result else second))
              else pure result)

      -- How `recommend` goes on from the end of the first attempt.
      unfoldable pub after_attempt : Outcome Recommendations × W → Outcome Recommendations × W
      unfolding after_error after_answer
      after_attempt (ok result, w) = after_answer result w
      after_attempt (raised exc, w) = after_error exc w
      after_attempt (cancelled, w) = (cancelled, w)

      -- `TieredLLMClient.recommend`
      unfoldable pub recommend : Action W Recommendations
      unfolding after_attempt
      recommend w = after_attempt (ask_primary w)

  -- The object: `model` names two of the tiers.
  unfoldable pub tiered : Unicode → ℕ → Tiers W → LlmClient W
  unfolding recommend astream
  tiered u object_id t = record {
    object_id = object_id;
    model =
        codes "tiered(default="
        ++ (t.default.model ++ (codes ", fallback=" ++ (t.fallback.model ++ codes ")")));
    recommend = λ query context. recommend t query context u;
    astream = astream t;
  }
