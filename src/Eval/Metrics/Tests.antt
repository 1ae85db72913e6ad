-- ===== src/Eval/Metrics/Tests.antt =====
-- Tests of the metrics, with quotients in millionths.
use anime_recommendation_eng.Base.{ℕ, ◌*◌, ◌/◌, ◌≤◌, ◌≡◌, refl, [], ◌∷◌, if◌then◌else◌, ◌==◌, arith}
use anime_recommendation_eng.Base.Float.{millionths}
use anime_recommendation_eng.Eval.Metrics.{
  Quotients, hits_in, success_at_k, precision_at_k, recall_at_k, mrr, mrr_from, ndcg_at_k, dcg_from,
  ideal_from, distinct_ratio, set_of,
}
use anime_recommendation_eng.Eval.Metrics.Share.{recall_at_k-share}

-- The gains of the first three ranks.
abbrev quotients : Quotients ℕ
quotients = record {
  quotient = λ a b. a * 1_000_000 / b;
  gain = λ i. if i == 1 then 1_000_000 else (if i == 2 then 630_929 else 500_000);
  div = λ a b. a * 1_000_000 / b;
}

ranks_first : mrr millionths quotients (5 ∷ 7 ∷ []) (7 ∷ []) ≡ 500_000
unfolding mrr mrr_from
ranks_first = refl

discounts : ndcg_at_k millionths quotients (5 ∷ 7 ∷ []) (7 ∷ []) 3 ≡ 630_929
unfolding ndcg_at_k dcg_from ideal_from
discounts = refl

counts_distinct : distinct_ratio millionths quotients (5 ∷ 5 ∷ []) ≡ 500_000
unfolding distinct_ratio set_of
counts_distinct = refl

-- An id that is retrieved twice counts twice: the recall is 2.
counts_twice : recall_at_k millionths quotients (7 ∷ 7 ∷ []) (7 ∷ []) 3 ≡ 2_000_000
unfolding recall_at_k hits_in
counts_twice = refl

recall_at_k-share_example :
    (hits : ℕ) × (precision_at_k millionths quotients (5 ∷ 7 ∷ []) (7 ∷ []) 3
      ≡ quotients.quotient hits 3)
    × (recall_at_k millionths quotients (5 ∷ 7 ∷ []) (7 ∷ []) 3 ≡ quotients.quotient hits 1)
    × (success_at_k millionths quotients (5 ∷ 7 ∷ []) (7 ∷ []) 3
        ≡ (if 0 == hits then 0 else 1_000_000))
    × (hits ≤ 3)
    × (hits ≤ 1)
recall_at_k-share_example =
    recall_at_k-share millionths quotients (5 ∷ 7 ∷ []) (7 ∷ []) 3 (refl, (refl, tt)) (omega arith)
      (omega arith)
