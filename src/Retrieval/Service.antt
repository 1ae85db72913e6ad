-- ===== src/Retrieval/Service.antt =====
-- `RecommendationService` (packages/retrieval/src/anime_retrieval/service.py): the two entry points,
-- recommend and astream. The retriever, the language model, the check for named titles and the kill
-- switch are arguments; the metrics are left out. RETRIEVAL_CONFIDENCE is a slot of the world.
pub mod Verdict
pub mod Gates
pub mod Agreement
mod Tests
use anime_recommendation_eng.Base.{
  ℕ, Bool, true, false, not, ◌&&◌, Option, none, some, List, [], ◌∷◌, ◌++◌, map, take,
  is_empty as is_nil, if◌then◌else◌,
}
use anime_recommendation_eng.Base.Action.{
  Action, Slot, Exc, Kind, Outcome, ok, raised, cancelled, pure, raise, proceed, resume, ◌>>=◌,
  ◌>>◌, modify, retrieval_unavailable,
}
use anime_recommendation_eng.Base.Float.{FloatOps}
use anime_recommendation_eng.Base.Text.{Text, Unicode, codes, decimal, join}
use anime_recommendation_eng.Core.Schemas.{
  Recommendations, RecommendationResult, is_empty, is_refusal, result_of, refusal_result,
  popular_fallback, degraded_notice, no_match_notice,
}
use anime_recommendation_eng.Llm.{LlmClient, Stream}
use anime_recommendation_eng.Retrieval.{Candidate}
use anime_recommendation_eng.Retrieval.Grounding.{ground_recommendations}

abbrev pub max_candidate_chars : ℕ
max_candidate_chars = 800

abbrev pub out_of_scope_refusal : Text
out_of_scope_refusal =
    codes
      "I only cover anime in this catalogue, and nothing in it matches that. Try describing the kind of show you want -- a genre, a mood, or a premise."

-- `refusal_for` of catalog.py
unfoldable pub refusal_for : List Text → Text
unfolding join
refusal_for missing =
    codes "This catalogue doesn't include "
    ++ (join (codes ", ") missing
        ++ codes
            ", so I can't recommend or describe it. It covers classic anime up to the mid-2000s — tell me a genre, mood or premise and I'll find something in it.")

-- `except RetrievalUnavailableError`
abbrev pub is_unavailable : Exc → Bool
is_unavailable e = elim e.kind [ retrieval_unavailable ↦ true | _ ↦ false ]

module _ {F : Type 0} where
  -- `_top_rerank_confidence`: the first rerank score there is.
  unfoldable pub top_rerank_confidence : List (Candidate F) → Option F
  top_rerank_confidence [] = none
  top_rerank_confidence (c ∷ cs) = elim c.rerank_score [
    | some s ↦ some s
    | none ↦ top_rerank_confidence cs
  ]

  abbrev pub context_part : Candidate F → Text
  context_part c =
      codes "[mal_id=" ++ (decimal c.mal_id ++ (codes "]\n" ++ take max_candidate_chars c.text))

  unfoldable pub build_context : List (Candidate F) → Text
  unfolding join decimal
  build_context candidates = join (codes "\n\n") (map context_part candidates)

pub record Service (W : Type 0) (f : FloatOps) : Type 0 where
  pub retriever : Text → Action W (List (Candidate f.F))
  pub llm : LlmClient W
  -- `_named_but_absent`, `[]` without a catalogue
  pub named_but_absent : Text → List Text
  -- `_generation_enabled`
  pub generation_enabled : Action W Bool
  pub confidence : Slot W (Option f.F)
  pub refuse_below : f.F

module _ {W : Type 0} (u : Unicode) (f : FloatOps) (s : Service W f) where
  open f use {F}

  -- The `try` of the retriever: no list where it is unavailable; other exceptions are passed on.
  unfoldable pub after_retriever :
      Outcome (List (Candidate F)) × W → Outcome (Option (List (Candidate F))) × W
  after_retriever (ok candidates, w) = (ok (some candidates), w)
  after_retriever (raised e, w) = if is_unavailable e then (ok none, w) else (raised e, w)
  after_retriever (cancelled, w) = (cancelled, w)

  unfoldable pub find : Text → Action W (Option (List (Candidate F)))
  unfolding after_retriever
  find query w = after_retriever (s.retriever query w)

  -- `confidence is not None and confidence < REFUSE_BELOW_CONFIDENCE`
  abbrev pub below_floor : Option F → Bool
  below_floor none = false
  below_floor (some c) = f.lt c s.refuse_below

  -- What an answer of the model becomes.
  unfoldable pub answer : List (Candidate F) → Recommendations → RecommendationResult
  unfolding ground_recommendations result_of refusal_result popular_fallback
  answer candidates recs =
      if is_refusal recs
      then refusal_result recs.refusal
      else (if is_empty (ground_recommendations u recs candidates)
          then popular_fallback no_match_notice
          else result_of (ground_recommendations u recs candidates))

  -- The degradation boundary of the model: any exception is the popular fallback.
  unfoldable pub after_model :
      List (Candidate F) → Outcome Recommendations × W → Outcome RecommendationResult × W
  unfolding answer
  after_model candidates (ok recs, w) = (ok (answer candidates recs), w)
  after_model candidates (raised e, w) = (ok (popular_fallback degraded_notice), w)
  after_model candidates (cancelled, w) = (cancelled, w)

  unfoldable pub generate : Text → List (Candidate F) → Action W RecommendationResult
  unfolding after_model build_context
  generate query candidates w =
      after_model candidates (s.llm.recommend query (build_context candidates) w)

  -- From the candidates on: the confidence is published, then the floor, then the model.
  unfoldable pub from_candidates :
      Text → Option (List (Candidate F)) → Action W RecommendationResult
  unfolding generate top_rerank_confidence
  from_candidates query none = pure (popular_fallback degraded_notice)
  from_candidates query (some []) = pure (popular_fallback no_match_notice)
  from_candidates query (some (c ∷ cs)) =
      let confidence = top_rerank_confidence (c ∷ cs) in
      modify (s.confidence.write confidence)
      >> (if below_floor confidence
          then pure (refusal_result (some out_of_scope_refusal))
          else generate query (c ∷ cs))

  unfoldable pub unless_named : Text → List Text → Action W RecommendationResult
  unfolding find from_candidates refusal_for
  unless_named query [] = find query >>= from_candidates query
  unless_named query (t ∷ ts) = pure (refusal_result (some (refusal_for (t ∷ ts))))

  -- `RecommendationService.recommend`
  unfoldable pub recommend : Text → Action W RecommendationResult
  unfolding unless_named
  recommend query = s.generation_enabled >>= λ enabled.
      if enabled
      then unless_named query (s.named_but_absent query)
      else pure (popular_fallback degraded_notice)

  abbrev pub say : Text → Stream W
  say text w = (text ∷ [], ok tt, w)

  -- A failing stream ends with the notice, behind the tokens that were sent.
  unfoldable pub after_tokens :
      List Text × Outcome (Unit {0}) × W → List Text × Outcome (Unit {0}) × W
  after_tokens (tokens, ok done, w) = (tokens, ok done, w)
  after_tokens (tokens, raised e, w) = (tokens ++ degraded_notice ∷ [], ok tt, w)
  after_tokens (tokens, cancelled, w) = (tokens, cancelled, w)

  unfoldable pub stream_candidates : Text → Option (List (Candidate F)) → Stream W
  unfolding after_tokens build_context top_rerank_confidence
  stream_candidates query none w = say degraded_notice w
  stream_candidates query (some []) w = say no_match_notice w
  stream_candidates query (some (c ∷ cs)) w =
      let confidence = top_rerank_confidence (c ∷ cs) in
      let w' = s.confidence.write confidence w in
      if below_floor confidence
      then say out_of_scope_refusal w'
      else after_tokens (s.llm.astream query (build_context (c ∷ cs)) w')

  -- A stream that follows a call: an exception of the call ends the stream with no token.
  unfoldable pub stream_after :
      {A : Type 0} → (A → Stream W) → Outcome A × W → List Text × Outcome (Unit {0}) × W
  stream_after g (ok a, w) = g a w
  stream_after g (raised e, w) = ([], raised e, w)
  stream_after g (cancelled, w) = ([], cancelled, w)

  unfoldable pub stream_unless_named : Text → List Text → Stream W
  unfolding find stream_candidates stream_after refusal_for
  stream_unless_named query [] w = stream_after (stream_candidates query) (find query w)
  stream_unless_named query (t ∷ ts) w = say (refusal_for (t ∷ ts)) w

  -- `RecommendationService.astream`
  unfoldable pub astream : Text → Stream W
  unfolding stream_unless_named stream_after
  astream query w =
      stream_after
        (λ enabled.
          if enabled
          then stream_unless_named query (s.named_but_absent query)
          else say degraded_notice)
        (s.generation_enabled w)
