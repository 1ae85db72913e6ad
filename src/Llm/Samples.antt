-- ===== src/Llm/Samples.antt =====
-- Test data for the clients: answers, and clients that count their calls in the world.
use anime_recommendation_eng.Base.{ℕ, ◌+◌, none, some, List, [], ◌∷◌}
use anime_recommendation_eng.Base.Action.{Exc, Outcome, timeout_error, validation_error}
use anime_recommendation_eng.Base.Text.{Text, codes}
use anime_recommendation_eng.Core.Schemas.{Recommendation, Recommendations}
use anime_recommendation_eng.Llm.{LlmClient}

abbrev pub monster : Recommendation
monster = record {
  mal_id = 19;
  title = codes "Monster";
  summary = codes "s";
  why_match = codes "w";
}

abbrev pub filled : Recommendations
filled = record { items = monster ∷ []; refusal = none }

abbrev pub nothing : Recommendations
nothing = record { items = []; refusal = none }

abbrev pub declined : Recommendations
declined = record { items = []; refusal = some (codes "not about anime") }

abbrev pub malformed : Exc
malformed = record { kind = validation_error; message = codes "Failed to parse tool call" }

abbrev pub late : Exc
late = record { kind = timeout_error; message = [] }

-- A client over a count of calls, which always ends in the same way.
abbrev pub client : ℕ → Outcome Recommendations → List Text → Outcome (Unit {0}) → LlmClient ℕ
client object_id answer tokens end = record {
  object_id = object_id;
  model = codes "m";
  recommend = λ query context w. (answer, w + 1);
  astream = λ query context w. (tokens, end, w + 1);
}
