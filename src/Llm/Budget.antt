-- ===== src/Llm/Budget.antt =====
-- `BudgetedLLMClient` (packages/core/src/anime_core/llm_client.py).
mod Tests
use anime_recommendation_eng.Base.{
  ℕ, ◌+◌, ◌*◌, ◌/◌, ◌≤◌, ◌<◌, ◌≡◌, refl, Bool, true, false, [], List, arith, ltb, if◌then◌else◌,
}
use anime_recommendation_eng.Base.Action.{
  Action, Exc, Outcome, ok, raised, pure, ◌>>=◌, proceed, budget_exceeded,
}
use anime_recommendation_eng.Base.Text.{Text, Unicode, codes, word_count}
use anime_recommendation_eng.Core.Schemas.{Recommendations}
use anime_recommendation_eng.Llm.{LlmClient, Stream}

pub record Budget (W : Type 0) : Type 0 where
  pub inner : LlmClient W
  pub max_input_tokens : ℕ
  pub max_output_tokens : ℕ

-- `_estimated_input_tokens`: `int(words * 1.5)` in whole numbers.
pub estimated_input_tokens : Unicode → Text → Text → ℕ
estimated_input_tokens u query context = (word_count u query + word_count u context) * 3 / 2

-- The exception, without the numbers in its message.
abbrev pub budget_error : Exc
budget_error = record { kind = budget_exceeded; message = codes "input exceeds budget" }

module _ {W : Type 0} (u : Unicode) (b : Budget W) (query context : Text) where
  -- `_check_budget`
  pub check_budget : Action W (Unit {0})
  unfolding estimated_input_tokens
  check_budget w =
      if ltb b.max_input_tokens (estimated_input_tokens u query context)
      then (raised budget_error, w)
      else (ok tt, w)

  pub recommend : Action W Recommendations
  unfolding check_budget
  recommend = check_budget >>= λ _. b.inner.recommend query context

  -- `astream`: the check raises before the first token.
  pub astream : Stream W
  astream w =
      if ltb b.max_input_tokens (estimated_input_tokens u query context)
      then ([], raised budget_error, w)
      else b.inner.astream query context w

  -- An input of n words is refused exactly when one and a half tokens a word come to more than the
  -- cap, rounded down. A refusal reaches no provider and changes nothing, on both paths; any other
  -- request is the inner client's.
  pub recommend-within :
      (word_count u query + word_count u context) * 3 < (b.max_input_tokens + 1) * 2
      → (w : W)
      → (recommend w ≡ b.inner.recommend query context w)
        × (astream w ≡ b.inner.astream query context w)
  unfolding recommend astream estimated_input_tokens
  recommend-within h w =
      let within : ltb b.max_input_tokens ((word_count u query + word_count u context) * 3 / 2)
          ≡ false =
        ground arith in
      (rw within refl, rw within refl)

  pub recommend-beyond :
      (b.max_input_tokens + 1) * 2 ≤ (word_count u query + word_count u context) * 3
      → (w : W)
      → (recommend w ≡ (raised budget_error, w)) × (astream w ≡ ([], raised budget_error, w))
  unfolding recommend astream estimated_input_tokens
  recommend-beyond h w =
      let beyond : ltb b.max_input_tokens ((word_count u query + word_count u context) * 3 / 2)
          ≡ true =
        ground arith in
      (rw beyond refl, rw beyond refl)

-- The object: `model` is the inner client's.
unfoldable pub budgeted : {W : Type 0} → Unicode → ℕ → Budget W → LlmClient W
unfolding recommend astream
budgeted u object_id b = record {
  object_id = object_id;
  model = b.inner.model;
  recommend = recommend u b;
  astream = astream u b;
}
