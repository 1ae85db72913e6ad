-- ===== src/Retrieval/Service/Tests.antt =====
-- Tests of the service: the world is the published confidence and a count of the model's calls.
use anime_recommendation_eng.Base.{ℕ, ◌+◌, ◌≡◌, refl, true, Option, none, some, List, [], ◌∷◌}
use anime_recommendation_eng.Base.Action.{Slot, ok, raised, Exc, other_error}
use anime_recommendation_eng.Base.Float.{millionths}
use anime_recommendation_eng.Base.Text.{Text, codes, latin}
use anime_recommendation_eng.Core.Schemas.{refusal_result}
use anime_recommendation_eng.Llm.{LlmClient}
use anime_recommendation_eng.Retrieval.{Candidate}
use anime_recommendation_eng.Retrieval.Service.{
  Service, top_rerank_confidence, out_of_scope_refusal, refusal_for, recommend, astream,
}
use anime_recommendation_eng.Retrieval.Service.Verdict.{Gives, recommend-Gives}
use anime_recommendation_eng.Retrieval.Service.Gates.{recommend-named, recommend-below_floor}
use anime_recommendation_eng.Retrieval.Service.Agreement.{EndsQuietly, astream-EndsQuietly}

abbrev World : Type 0
World = Option ℕ × ℕ

abbrev confidence : Slot World (Option ℕ)
confidence = record {
  read = λ w. w.0;
  write = λ c w. (c, w.1);
  read-write = λ c w. refl;
  write-read = λ w. refl;
  write-write = λ c d w. refl;
}

abbrev outage : Exc
outage = record { kind = other_error; message = codes "503" }

abbrev model_down : LlmClient World
model_down = record {
  object_id = 0;
  model = codes "m";
  recommend = λ query context w. (raised outage, (w.0, w.1 + 1));
  astream = λ query context w. ([], raised outage, (w.0, w.1 + 1));
}

abbrev candidate : Candidate ℕ
candidate = record {
  mal_id = 19;
  chunk_index = 0;
  text = codes "Title: Monster\nA surgeon.";
  dense_score = none;
  sparse_score = none;
  hybrid_score = none;
  rerank_score = some 5;
  mmr_score = none;
  rank = some 1;
}

-- A service over one candidate, with what the query names and the floor.
abbrev service : List Text → ℕ → Service World millionths
service missing floor = record {
  retriever = λ query w. (ok (candidate ∷ []), w);
  llm = model_down;
  named_but_absent = λ query. missing;
  generation_enabled = λ w. (ok true, w);
  confidence = confidence;
  refuse_below = floor;
}

abbrev q : Text
q = codes "a surgeon hunts a killer"

recommend-named_test :
    (recommend latin millionths (service (codes "Bleach" ∷ []) 0) q (none, 0)
      ≡ (ok (refusal_result (some (refusal_for (codes "Bleach" ∷ [])))), (none, 0)))
    × (astream latin millionths (service (codes "Bleach" ∷ []) 0) q (none, 0)
        ≡ (refusal_for (codes "Bleach" ∷ []) ∷ [], ok tt, (none, 0)))
recommend-named_test =
    recommend-named latin millionths (service (codes "Bleach" ∷ []) 0) q (none, 0) (none, 0)
      (codes "Bleach") [] refl refl

recommend-below_floor_test :
    (recommend latin millionths (service [] 6) q (none, 0)
      ≡ (ok (refusal_result (some out_of_scope_refusal)), (some 5, 0)))
    × (astream latin millionths (service [] 6) q (none, 0)
        ≡ (out_of_scope_refusal ∷ [], ok tt, (some 5, 0)))
unfolding top_rerank_confidence
recommend-below_floor_test =
    recommend-below_floor latin millionths (service [] 6) q (none, 0) (none, 0) (none, 0) candidate
      [] refl refl refl refl

recommend-Gives_example : Gives (19 ∷ []) (recommend latin millionths (service [] 0) q (none, 0))
recommend-Gives_example =
    recommend-Gives latin millionths (service [] 0) (19 ∷ []) q (none, 0) (λ w. tt)
      (λ w. (refl, tt))

astream-EndsQuietly_test : EndsQuietly (astream latin millionths (service [] 0) q (none, 0))
astream-EndsQuietly_test =
    astream-EndsQuietly latin millionths (service [] 0) q (none, 0) (λ w. tt) (λ w. tt)
