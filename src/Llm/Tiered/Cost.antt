-- ===== src/Llm/Tiered/Cost.antt =====
-- How many provider calls one request can cost.
use anime_recommendation_eng.Base.{
  ℕ, ◌+◌, ◌≤◌, ◌≡◌, refl, inl, inr, ◌&&◌, arith, if◌then◌else◌, Bool-cases,
}
use anime_recommendation_eng.Base.Action.{Outcome, ok, raised, cancelled, pure, resume, proceed}
use anime_recommendation_eng.Base.Text.{Text, Unicode}
use anime_recommendation_eng.Core.Schemas.{Recommendations, is_empty, is_refusal}
use anime_recommendation_eng.Llm.Tiered.{
  Tiers, is_parse_error, ask_primary, ask_fallback, distinct, after_answer, after_attempt,
  recommend,
}

module _ {W : Type 0} (u : Unicode) (t : Tiers W) (query context : Text) (calls : W → ℕ) where
  module _ (one : (w : W) → calls (ask_primary t query context w).1 ≡ calls w + 1)
      (other : (w : W) → calls (ask_fallback t query context w).1 ≡ calls w + 1) where
    proceed-calls :
        (f : Recommendations → Recommendations) (p : Outcome Recommendations × W)
        → calls (proceed (λ a. pure (f a)) p).1 ≡ calls p.1
    proceed-calls f (ok a, w) = refl
    proceed-calls f (raised e, w) = refl
    proceed-calls f (cancelled, w) = refl

    after_answer-calls :
        (result : Recommendations) (w : W)
        → calls (after_answer t query context u result w).1 ≤ calls w + 1
    unfolding after_answer
    after_answer-calls result w = elim (Bool-cases (is_refusal result)) [
      | inl refuses ↦ rw refuses (omega arith)
      | inr open_answer ↦ elim (Bool-cases (is_empty result && distinct t query context)) [
        | inl asks ↦
            let better = λ (second : Recommendations). if is_empty second then result else second in
            rw (open_answer, asks)
              (omega (arith, proceed-calls better (ask_fallback t query context w), other w))
        | inr stands ↦ rw (open_answer, stands) (omega arith)
      ]
    ]

    resume-calls :
        (p : Outcome Recommendations × W)
        → calls (resume (λ _. ask_fallback t query context) p).1 ≤ calls p.1 + 1
    resume-calls (ok a, w) = omega arith
    resume-calls (raised e, w) = omega (arith, other w)
    resume-calls (cancelled, w) = omega arith

    after_attempt-calls :
        (p : Outcome Recommendations × W)
        → calls (after_attempt t query context u p).1 ≤ calls p.1 + 2
    unfolding after_attempt
    after_attempt-calls (ok result, w) = omega (arith, after_answer-calls result w)
    after_attempt-calls (raised exc, w) =
        elim (Bool-cases (is_parse_error u exc && distinct t query context)) [
          | inl again ↦
              rw again (omega (arith, resume-calls (ask_primary t query context w), one w))
          | inr never ↦ rw never (omega (arith, other w))
        ]
    after_attempt-calls (cancelled, w) = omega arith

    -- Where each client makes one provider call per request, a request to the tiered client makes at
    -- most three: the primary at most twice and the fallback at most once.
    pub recommend-calls : (w : W) → calls (recommend t query context u w).1 ≤ calls w + 3
    unfolding recommend
    recommend-calls w = omega (arith, after_attempt-calls (ask_primary t query context w), one w)
