-- ===== src/Core/CostMeter/Tests.antt =====
-- Tests of the cost meter. A rate is a number of whole dollars.
use anime_recommendation_eng.Base.{ℕ, ◌+◌, ◌*◌, ◌/◌, ◌≡◌, refl, false, Option, some, [], ◌∷◌}
use anime_recommendation_eng.Base.Action.{ok, raised}
use anime_recommendation_eng.Base.Text.{Text, codes, latin}
use anime_recommendation_eng.Core.Cache.Memory.{int_of}
use anime_recommendation_eng.Core.CostMeter.{
  DecimalOps, PricingJson, object, rate_list, get_pricing, parse_pricing, cost_for, config_error,
}

abbrev dollars : DecimalOps
dollars = record {
  D = ℕ;
  zero_d = 0;
  parse = int_of;
  is_negative = λ _. ok false;
  of_nat = λ n. n;
  add = ◌+◌;
  mul = ◌*◌;
  div = ◌/◌;
}

abbrev loads : Text → Option PricingJson
loads raw = some (object ((codes "gpt", rate_list (codes "2" ∷ codes "8" ∷ [])) ∷ []))

costs :
    cost_for dollars
      ((codes "gpt", record { in_rate = 2; out_rate = 8 }) ∷ [])
      (record { model = codes "gpt"; input_tokens = 1_000_000; output_tokens = 500_000 })
      tt
    ≡ (ok 6, tt)
unfolding cost_for
costs = refl

prices : get_pricing dollars latin loads (codes " venue ") (codes "…") tt ≡ (
  ok (
      (codes "venue", record { in_rate = 0; out_rate = 0 })
      ∷ (codes "gpt", record { in_rate = 2; out_rate = 8 })
      ∷ []),
  tt,
)
unfolding get_pricing int_of
prices = refl

empty :
    parse_pricing dollars latin loads (codes " ") tt
    ≡ (raised (config_error (codes "LLM_PRICING is empty")), tt)
unfolding parse_pricing
empty = refl
