-- ===== src/Api/Routes/Recommend.antt =====
-- What a request for a recommendation leaves in the tables (apps/api/src/anime_api/routes/recommend.py).
use anime_recommendation_eng.Base.{
  ℕ, ◌+◌, ◌≡◌, refl, inl, inr, Option, none, some, [], ◌∷◌, ◌++◌, Option-cases,
}
use anime_recommendation_eng.Base.Action.{Slot, ok}
use anime_recommendation_eng.Base.Text.{Text}
use anime_recommendation_eng.Core.Cache.Memory.{dict_get}
use anime_recommendation_eng.Core.Schemas.{RecommendationResult}
use anime_recommendation_eng.Core.CostMeter.{DecimalOps, TokenUsage, Price, Table, cost_for}
use anime_recommendation_eng.Api.Auth.{AuthedUser}
use anime_recommendation_eng.Api.Repository.{
  Tables, HistoryRow, UsageRow, upsert_user, upsert_usage, ensure_user, add_query_history,
  record_usage,
}
use anime_recommendation_eng.Api.Repository.Laws.{user_exists-upsert}
use anime_recommendation_eng.Api.Routes.{
  App, Costs, costs_of, response_of, record_request, recommend,
}

module _ (d : DecimalOps) (to_column : d.D → d.D) {W : Type 0} (db : Slot W (Tables d.D))
    (app : App W d.D) (pricing : Table d) where
  -- The dollars of a call: nothing for a model without a price.
  abbrev charge : TokenUsage → Option (Price d.D) → d.D
  charge usage none = d.zero_d
  charge usage (some p) =
      d.div
        (d.add (d.mul (d.of_nat usage.input_tokens) p.in_rate)
          (d.mul (d.of_nat usage.output_tokens) p.out_rate))
        (d.of_nat 1_000_000)

  -- What a request costs: nothing where no model ran.
  abbrev pub measured : Option TokenUsage → Costs d.D
  measured none = record { input_tokens = 0; output_tokens = 0; cost = d.zero_d }
  measured (some usage) = record {
    input_tokens = usage.input_tokens;
    output_tokens = usage.output_tokens;
    cost = charge usage (dict_get usage.model pricing);
  }

  costs_of-ok :
      (usage : Option TokenUsage) (w : W)
      → costs_of d to_column db app pricing usage w ≡ (ok (measured usage), w)
  unfolding costs_of cost_for
  costs_of-ok none w = refl
  costs_of-ok (some usage) w = elim (Option-cases (dict_get usage.model pricing)) [
    | inl unpriced ↦ rw unpriced refl
    | inr (p, priced) ↦ rw priced refl
  ]

  -- The row that a request adds to the day.
  abbrev pub usage_row : AuthedUser → Option TokenUsage → UsageRow d.D
  usage_row user usage = record {
    user_id = user.id;
    day = app.today;
    query_count = 1;
    input_tokens = (measured usage).input_tokens;
    output_tokens = (measured usage).output_tokens;
    cost_usd = to_column (measured usage).cost;
  }

  abbrev pub history_row : AuthedUser → Text → RecommendationResult → ℕ → HistoryRow
  history_row user query result id = record {
    id = id;
    user_id = some user.id;
    query = query;
    response = result;
    created_at = app.started;
  }

  abbrev pub recorded :
      AuthedUser → Text → RecommendationResult → Option TokenUsage → Tables d.D → Tables d.D
  recorded user query result usage t = record t {
    users = upsert_user user.id user.email t.users;
    query_history = t.query_history ++ history_row user query result t.next_history ∷ [];
    next_history = t.next_history + 1;
    usage_daily = upsert_usage d to_column (usage_row user usage) t.usage_daily;
  }

  record_request-ok :
      (user : AuthedUser) (query : Text) (result : RecommendationResult) (w : W)
      → ((t : Tables d.D) (v : W) → app.last_usage (db.write t v) ≡ app.last_usage v)
      → record_request d to_column db app pricing user query result w ≡ (
        ok (response_of d to_column db app pricing query result (db.read w).next_history),
        db.write (recorded user query result (app.last_usage w) (db.read w)) w,
      )
  unfolding record_request ensure_user add_query_history record_usage
  record_request-ok user query result w calm =
      simp (db.read-write, db.write-write, user_exists-upsert, calm, costs_of-ok)

  -- The tables that a request leaves, after the service's answer.
  pub recommend-recorded :
      (user : AuthedUser) (query : Text) (result : RecommendationResult) (w w' : W)
      → ((t : Tables d.D) (v : W) → app.last_usage (db.write t v) ≡ app.last_usage v)
      → app.service.recommend query none w ≡ (ok result, w')
      → recommend d to_column db app pricing user query w ≡ (
        ok (response_of d to_column db app pricing query result (db.read w').next_history),
        db.write (recorded user query result (app.last_usage w') (db.read w')) w',
      )
  unfolding recommend
  recommend-recorded user query result w w' calm answers =
      rw answers (record_request-ok user query result w' calm)
