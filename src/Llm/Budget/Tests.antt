-- ===== src/Llm/Budget/Tests.antt =====
-- Tests of the budget on the input.
use anime_recommendation_eng.Base.{ℕ, ◌≡◌, [], ◌∷◌, arith}
use anime_recommendation_eng.Base.Action.{ok, raised}
use anime_recommendation_eng.Base.Text.{codes, latin}
use anime_recommendation_eng.Llm.Samples.{filled, client}
use anime_recommendation_eng.Llm.Budget.{
  Budget, budget_error, recommend, astream, recommend-within, recommend-beyond,
}

abbrev small : Budget ℕ
small = record {
  inner = client 0 (ok filled) (codes "t" ∷ []) (ok tt);
  max_input_tokens = 3;
  max_output_tokens = 100;
}

-- Two words are three tokens.
recommend-within_test :
    (recommend latin small (codes "sports") (codes "drama") 0 ≡ (ok filled, 1))
    × (astream latin small (codes "sports") (codes "drama") 0 ≡ (codes "t" ∷ [], ok tt, 1))
recommend-within_test =
    recommend-within latin small (codes "sports") (codes "drama") (omega arith) 0

recommend-beyond_test :
    (recommend latin small (codes "sports anime") (codes "drama") 0 ≡ (raised budget_error, 0))
    × (astream latin small (codes "sports anime") (codes "drama") 0 ≡ ([], raised budget_error, 0))
recommend-beyond_test =
    recommend-beyond latin small (codes "sports anime") (codes "drama") (omega arith) 0
