-- ===== src/Llm/Tiered/Answers.antt =====
-- Which tier's answer `TieredLLMClient.recommend` gives, and when a second model is asked.
use anime_recommendation_eng.Base.{
  ◌≡◌, ◌≢◌, refl, inl, inr, Bool, true, false, not, ◌&&◌, arith, ap, ◌∙◌, if◌then◌else◌, Bool-cases,
}
use anime_recommendation_eng.Base.Action.{
  Exc, Outcome, ok, raised, cancelled, pure, resume, proceed,
}
use anime_recommendation_eng.Base.Text.{Text, Unicode}
use anime_recommendation_eng.Core.Schemas.{Recommendations, is_empty, is_refusal}
use anime_recommendation_eng.Llm.Tiered.{
  Tiers, is_parse_error, ask_primary, ask_fallback, distinct, after_answer, after_attempt,
  recommend,
}

-- An answer that is not to be asked again: a refusal, or one with items.
abbrev pub is_final : Recommendations → Bool
is_final r = if is_refusal r then true else not (is_empty r)

module _ {W : Type 0} (u : Unicode) (t : Tiers W) (query context : Text) where
  -- A refusal and an answer with items are final: no other model is asked, and no work is done
  -- after the primary's.
  pub recommend-final :
      (w w' : W) (result : Recommendations)
      → ask_primary t query context w ≡ (ok result, w')
      → is_final result ≡ true
      → recommend t query context u w ≡ (ok result, w')
  unfolding recommend
  recommend-final w w' result e f = ap (after_attempt t query context u) e ∙ ground arith

  -- An empty answer with no refusal goes to the fallback, whose answer is taken if it has items;
  -- otherwise the primary's stands.
  pub recommend-empty :
      (w w' w'' : W) (result second : Recommendations)
      → ask_primary t query context w ≡ (ok result, w')
      → is_empty result ≡ true
      → is_refusal result ≡ false
      → distinct t query context ≡ true
      → ask_fallback t query context w' ≡ (ok second, w'')
      → recommend t query context u w ≡ (ok (if is_empty second then result else second), w'')
  unfolding recommend
  recommend-empty w w' w'' result second e empty open_answer d f =
      ap (after_attempt t query context u) e ∙ (rw (open_answer, empty, d) (rw f))

  -- A failure that is not a malformed answer (a timeout, a rate limit, an open breaker) is never
  -- asked again: the fallback answers, and its outcome is the outcome.
  pub recommend-unavailable :
      (w w' : W) (exc : Exc)
      → ask_primary t query context w ≡ (raised exc, w')
      → is_parse_error u exc ≡ false
      → recommend t query context u w ≡ ask_fallback t query context w'
  unfolding recommend
  recommend-unavailable w w' exc e p = ap (after_attempt t query context u) e ∙ (rw p)

  -- The call returned an answer.
  abbrev pub Answers : Outcome Recommendations × W → Type 0
  Answers (ok result, w) = Unit
  Answers (raised _, w) = ⊥
  Answers (cancelled, w) = ⊥

  module _ (back : (w : W) → Answers (ask_fallback t query context w)) where
    proceed-Answers :
        (f : Recommendations → Recommendations) (p : Outcome Recommendations × W)
        → Answers p
        → Answers (proceed (λ a. pure (f a)) p)
    proceed-Answers f (ok result, w) h = tt
    proceed-Answers f (raised e, w) h = h
    proceed-Answers f (cancelled, w) h = h

    after_answer-Answers :
        (result : Recommendations) (w : W) → Answers (after_answer t query context u result w)
    unfolding after_answer
    after_answer-Answers result w = elim (Bool-cases (is_refusal result)) [
      | inl refuses ↦ rw refuses tt
      | inr open_answer ↦ elim (Bool-cases (is_empty result && distinct t query context)) [
        | inl asks ↦ rw (open_answer, asks) (proceed-Answers _ _ (back w))
        | inr stands ↦ rw (open_answer, stands) tt
      ]
    ]

    module _ (stays : (w : W) → (ask_primary t query context w).0 ≢ cancelled) where
      resume-Answers :
          (p : Outcome Recommendations × W)
          → p.0 ≢ cancelled
          → Answers (resume (λ _. ask_fallback t query context) p)
      resume-Answers (ok result, w) h = tt
      resume-Answers (raised e, w) h = back w
      resume-Answers (cancelled, w) h = h refl

      after_attempt-Answers :
          (p : Outcome Recommendations × W)
          → p.0 ≢ cancelled
          → Answers (after_attempt t query context u p)
      unfolding after_attempt
      after_attempt-Answers (ok result, w) h = after_answer-Answers result w
      after_attempt-Answers (raised exc, w) h =
          elim (Bool-cases (is_parse_error u exc && distinct t query context)) [
            | inl again ↦ rw again (resume-Answers _ (stays w))
            | inr never ↦ rw never (back w)
          ]
      after_attempt-Answers (cancelled, w) h = h refl

      -- While the fallback answers in every state of the world, so does the tiered client, whatever
      -- the primary does: any exception of the primary, at the first or at the second attempt, is
      -- absorbed. Only a cancellation of the task is passed on, and is excluded here.
      pub recommend-Answers : (w : W) → Answers (recommend t query context u w)
      unfolding recommend
      recommend-Answers w = after_attempt-Answers (ask_primary t query context w) (stays w)
