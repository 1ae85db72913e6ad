-- ===== src/Api/Routes.antt =====
-- The routes of apps/api/src/anime_api/routes: recommend.py, history.py and feedback.py, with the wire
-- models of schemas.py. The clock is an argument: the microseconds since the epoch at which the
-- request's transaction began, and its day in UTC. Metrics, logs and the timing header are left out.
pub mod Recommend
pub mod History
mod Tests
use anime_recommendation_eng.Base.{
  ℕ, ◌≤◌, Bool, true, false, not, ◌&&◌, Option, none, some, List, [], ◌∷◌, ◌++◌, map, length, leb,
  min, if◌then◌else◌,
}
use anime_recommendation_eng.Base.Int.{ℤ, pos, is_unit}
use anime_recommendation_eng.Base.Action.{
  Action, Slot, Exc, Kind, unknown_model, validation_error, pure, raise, gets, catch, catch_if,
  ◌>>=◌, ◌>>◌,
}
use anime_recommendation_eng.Base.Text.{Text, codes, decimal}
use anime_recommendation_eng.Core.Schemas.{Recommendation, RecommendationResult}
use anime_recommendation_eng.Core.CostMeter.{DecimalOps, TokenUsage, Table, cost_for}
use anime_recommendation_eng.Core.Quota.{GateResult, admitted, too_many_requests}
use anime_recommendation_eng.Core.Session.{session_scope}
use anime_recommendation_eng.Retrieval.Cached.{Recommender}
use anime_recommendation_eng.Worker.Payload.{Value, Payload, int, null}
use anime_recommendation_eng.Worker.{JobMessage, JobType, feedback_recorded}
use anime_recommendation_eng.Api.Auth.{AuthedUser, http_error}
use anime_recommendation_eng.Api.Repository.{
  Tables, HistoryRow, ensure_user, add_query_history, list_query_history, add_feedback,
  record_usage,
}

-- `RecommendationOut.from_core`: the wire shape has the same four fields.
abbrev pub RecommendationOut : Type 0
RecommendationOut = Recommendation

unfoldable pub from_core : Recommendation → RecommendationOut
from_core r = record {
  mal_id = r.mal_id;
  title = r.title;
  summary = r.summary;
  why_match = r.why_match;
}

pub record RecommendResponse : Type 0 where
  pub query : Text
  pub query_history_id : ℕ
  pub recommendations : List RecommendationOut
  pub refusal : Option Text
  pub degraded : Bool
  pub notice : Option Text

-- The three numbers that a request adds to the day.
pub record Costs (D : Type 0) : Type 0 where
  pub input_tokens : ℕ
  pub output_tokens : ℕ
  pub cost : D

-- What the routes are given, beside the database: the service, the context variable LAST_USAGE, and
-- the price table of the cost meter.
pub record App (W D : Type 0) : Type 0 where
  pub service : Recommender W
  pub last_usage : W → Option TokenUsage
  pub started : ℕ
  pub today : ℕ

abbrev pub is_unknown_model : Kind → Bool
is_unknown_model unknown_model = true
is_unknown_model _ = false

module _ (d : DecimalOps) (to_column : d.D → d.D) {W : Type 0} (db : Slot W (Tables d.D)) where
  module _ (app : App W d.D) (pricing : Table d) where
    -- The cost meter's part: the tokens are kept also where the model has no price.
    unfoldable pub costs_of : Option TokenUsage → Action W (Costs d.D)
    unfolding cost_for
    costs_of none = pure (record { input_tokens = 0; output_tokens = 0; cost = d.zero_d })
    costs_of (some usage) =
        catch_if is_unknown_model (cost_for d pricing usage) (λ _. pure d.zero_d) >>= λ cost.
        pure (record {
          input_tokens = usage.input_tokens;
          output_tokens = usage.output_tokens;
          cost = cost;
        })

    abbrev pub response_of : Text → RecommendationResult → ℕ → RecommendResponse
    response_of query result query_history_id = record {
      query = query;
      query_history_id = query_history_id;
      recommendations = map from_core result.items;
      refusal = result.refusal;
      degraded = result.degraded;
      notice = result.notice;
    }

    -- The bookkeeping behind the service's result.
    unfoldable pub record_request :
        AuthedUser → Text → RecommendationResult → Action W RecommendResponse
    unfolding costs_of ensure_user add_query_history record_usage
    record_request user query result =
        ensure_user d to_column db user.id user.email
        >> (add_query_history d to_column db (some user.id) query result app.started >>= λ id.
            gets app.last_usage >>= λ usage. costs_of usage >>= λ c.
            record_usage d to_column db user.id app.today 1 c.input_tokens c.output_tokens c.cost
            >> pure (response_of query result id))

    -- `recommend`
    unfoldable pub recommend : AuthedUser → Text → Action W RecommendResponse
    unfolding record_request
    recommend user query = app.service.recommend query none >>= record_request user query

    -- `RecommendRequest`
    abbrev pub valid_query : Text → Bool
    valid_query query = leb 1 (length query) && leb (length query) 500

    abbrev pub if_valid : AuthedUser → Text → Action W RecommendResponse
    if_valid user query =
        if valid_query query
        then session_scope db (recommend user query)
        else raise (http_error 422 (codes "query"))

    abbrev pub if_admitted : AuthedUser → Text → GateResult → Action W RecommendResponse
    if_admitted user query admitted = if_valid user query
    if_admitted user query (too_many_requests detail retry_after) = raise (http_error 429 detail)

    -- The request, with its dependencies in their order: the user, the quota, the session; the body is
    -- checked behind them.
    unfoldable pub recommend_request :
        Action W AuthedUser → (Text → Action W GateResult) → Text → Action W RecommendResponse
    unfolding recommend session_scope
    recommend_request authenticate quota query =
        authenticate >>= λ user. quota user.id >>= if_admitted user query

  -- `HistoryItem`
  pub record HistoryItem : Type 0 where
    pub id : ℕ
    pub query : Text
    pub recommendations : List RecommendationOut
    pub created_at : ℕ

  unfoldable pub item_of : HistoryRow → HistoryItem
  item_of row = record {
    id = row.id;
    query = row.query;
    recommendations = row.response.items;
    created_at = row.created_at;
  }

  -- `list_history`, where the framework has checked the bounds of `limit` and `offset`
  unfoldable pub list_history : ℕ → AuthedUser → ℕ → ℕ → Action W (List HistoryItem)
  unfolding item_of list_query_history
  list_history history_max_limit user limit offset =
      list_query_history d to_column db (some user.id) (min limit history_max_limit) offset
      >>= λ rows. pure (map item_of rows)

-- `FeedbackRequest`
pub record FeedbackRequest : Type 0 where
  pub query_history_id : Option ℕ
  pub mal_id : ℕ
  pub rating : ℤ

-- `int | None`
abbrev pub int_or_null : Option ℕ → Value
int_or_null none = null
int_or_null (some n) = int (pos n)

abbrev pub validate_rating : ℤ → Bool
validate_rating rating = is_unit rating

module _ (d : DecimalOps) (to_column : d.D → d.D) {W : Type 0} (db : Slot W (Tables d.D)) where
  -- The message, with an `id` that is drawn for it.
  abbrev pub feedback_job : Text → ℕ → FeedbackRequest → JobMessage Payload
  feedback_job job_id feedback_id body = record {
    id = job_id;
    type = feedback_recorded;
    payload =
        (codes "feedback_id", int (pos feedback_id))
        ∷ (codes "query_history_id", int_or_null body.query_history_id)
        ∷ (codes "mal_id", int (pos body.mal_id))
        ∷ (codes "rating", int body.rating)
        ∷ [];
    idempotency_key = codes "feedback:" ++ decimal feedback_id;
  }

  -- `publisher.publish` under its `try`, where there is a publisher.
  abbrev pub enqueue :
      Option (JobMessage Payload → Action W (Unit {0})) → JobMessage Payload → Action W (Unit {0})
  enqueue none job = pure tt
  enqueue (some publish) job = catch (publish job) (λ _. pure tt)

  -- `submit_feedback`: the id of the row.
  unfoldable pub submit_feedback :
      Option (JobMessage Payload → Action W (Unit {0}))
      → Text
      → ℕ
      → AuthedUser
      → FeedbackRequest
      → Action W ℕ
  unfolding ensure_user add_feedback
  submit_feedback publisher job_id started user body =
      if validate_rating body.rating
      then (ensure_user d to_column db user.id user.email
          >> (add_feedback d to_column db (some user.id) body.query_history_id body.mal_id
                body.rating started
              >>= λ feedback_id.
                  enqueue publisher (feedback_job job_id feedback_id body) >> pure feedback_id))
      else raise (http_error 422 (codes "rating must be 1 (up) or -1 (down)"))
