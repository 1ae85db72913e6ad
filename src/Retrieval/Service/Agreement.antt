-- ===== src/Retrieval/Service/Agreement.antt =====
-- The streaming call beside the structured one (packages/retrieval/src/anime_retrieval/service.py).
use anime_recommendation_eng.Base.{
  ◌≡◌, inl, inr, Bool, true, false, Option, none, some, List, [], ◌∷◌, if◌then◌else◌, Bool-cases,
}
use anime_recommendation_eng.Base.Action.{Outcome, ok, raised, cancelled}
use anime_recommendation_eng.Base.Float.{FloatOps}
use anime_recommendation_eng.Base.Raises.{Raises, Never}
use anime_recommendation_eng.Base.Text.{Text, Unicode}
use anime_recommendation_eng.Core.Schemas.{RecommendationResult, degraded_notice}
use anime_recommendation_eng.Retrieval.{Candidate}
use anime_recommendation_eng.Retrieval.Service.{
  Service, top_rerank_confidence, is_unavailable, below_floor, after_retriever, find, say,
  after_tokens, stream_candidates, stream_after, stream_unless_named, astream,
}

-- The text for the user that a result without an answer of the model has.
abbrev pub told : RecommendationResult → Text
told r = elim r.notice [
  | some notice ↦ notice
  | none ↦ elim r.refusal [ some refusal ↦ refusal | none ↦ [] ]
]

module _ {W : Type 0} where
  -- The stream gives the text of the result and ends well, in the same world; or both calls fail in
  -- the same way, the stream with no text.
  abbrev pub Agrees : Outcome RecommendationResult × W → List Text × Outcome (Unit {0}) × W → Type 0
  Agrees (ok r, w) p = p ≡ (told r ∷ [], ok tt, w)
  Agrees (raised e, w) p = p ≡ ([], raised e, w)
  Agrees (cancelled, w) p = p ≡ ([], cancelled, w)

  -- A stream that raised nothing at its end.
  abbrev pub EndsQuietly : List Text × Outcome (Unit {0}) × W → Type 0
  EndsQuietly (tokens, raised e, w) = ⊥
  EndsQuietly (tokens, ok done, w) = Unit
  EndsQuietly (tokens, cancelled, w) = Unit

module _ {W : Type 0} (u : Unicode) (f : FloatOps) (s : Service W f) (query : Text) where
  open f use {F}

  -- Only a retriever that raises something else than that it is unavailable, or a kill switch that
  -- raises, could break a stream off.
  after_tokens-EndsQuietly :
      (p : List Text × Outcome (Unit {0}) × W) → EndsQuietly (after_tokens u f s p)
  unfolding after_tokens
  after_tokens-EndsQuietly (tokens, ok done, w) = tt
  after_tokens-EndsQuietly (tokens, raised e, w) = tt
  after_tokens-EndsQuietly (tokens, cancelled, w) = tt

  stream_candidates-EndsQuietly :
      (found : Option (List (Candidate F))) (w : W)
      → EndsQuietly (stream_candidates u f s query found w)
  unfolding stream_candidates
  stream_candidates-EndsQuietly none w = tt
  stream_candidates-EndsQuietly (some []) w = tt
  stream_candidates-EndsQuietly (some (c ∷ cs)) w =
      elim (Bool-cases (below_floor u f s (top_rerank_confidence (c ∷ cs)))) [
        | inl low ↦ rw low tt
        | inr fair ↦ rw fair (after_tokens-EndsQuietly _)
      ]

  find-EndsQuietly :
      (p : Outcome (List (Candidate F)) × W)
      → Raises (λ e. is_unavailable e ≡ true) p
      → EndsQuietly (stream_after u f s (stream_candidates u f s query) (after_retriever u f s p))
  unfolding stream_after after_retriever
  find-EndsQuietly (ok cs, w) h = stream_candidates-EndsQuietly (some cs) w
  find-EndsQuietly (raised e, w) h = rw h (stream_candidates-EndsQuietly none w)
  find-EndsQuietly (cancelled, w) h = tt

  unless_named-EndsQuietly :
      (missing : List Text) (w : W)
      → ((w : W) → Raises (λ e. is_unavailable e ≡ true) (s.retriever query w))
      → EndsQuietly (stream_unless_named u f s query missing w)
  unfolding stream_unless_named find
  unless_named-EndsQuietly [] w h = find-EndsQuietly (s.retriever query w) (h w)
  unless_named-EndsQuietly (t ∷ ts) w h = tt

  enabled-EndsQuietly :
      (p : Outcome Bool × W)
      → Raises Never p
      → ((w : W) → Raises (λ e. is_unavailable e ≡ true) (s.retriever query w))
      → EndsQuietly (
          stream_after u f s
            (λ enabled.
              if enabled
              then stream_unless_named u f s query (s.named_but_absent query)
              else say u f s degraded_notice)
            p)
  unfolding stream_after
  enabled-EndsQuietly (ok true, w) k h = unless_named-EndsQuietly (s.named_but_absent query) w h
  enabled-EndsQuietly (ok false, w) k h = tt
  enabled-EndsQuietly (raised e, w) k h = k
  enabled-EndsQuietly (cancelled, w) k h = tt

  -- Whatever the model does in the middle of a stream, the client's stream does not break off with
  -- an exception, where the check of the kill switch never raises and the retriever raises only that
  -- it is unavailable.
  pub astream-EndsQuietly :
      (w : W)
      → ((w : W) → Raises Never (s.generation_enabled w))
      → ((w : W) → Raises (λ e. is_unavailable e ≡ true) (s.retriever query w))
      → EndsQuietly (astream u f s query w)
  unfolding astream
  astream-EndsQuietly w k h = enabled-EndsQuietly (s.generation_enabled w) (k w) h
