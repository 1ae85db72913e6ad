-- ===== src/Worker/Handlers.antt =====
-- The handlers of the jobs (apps/worker/src/anime_worker/handlers and registry.py). `json.dumps`,
-- Python's reading of a number from a text, the clock, and the ingestion with its embedder are
-- arguments; the logs are left out. The two databases are the tables of packages/core with the columns
-- that each handler reads.
pub mod Effects
pub mod Popular
pub mod Top
mod Tests
use anime_recommendation_eng.Base.{
  ℕ, zero, suc, ◌+◌, ◌-◌, ◌*◌, Bool, true, false, ◌&&◌, ◌==◌, Option, none, some, List, [], ◌∷◌,
  ◌++◌, map, keep, take, leb, is_empty, if◌then◌else◌,
}
use anime_recommendation_eng.Base.Int.{ℤ, pos, negsuc, is_negative}
use anime_recommendation_eng.Base.Float.{millionths}
use anime_recommendation_eng.Base.Sort.{sort_desc}
use anime_recommendation_eng.Base.Action.{
  Action, Slot, Exc, Outcome, ok, value_error, other_error, pure, raise, ◌>>=◌, ◌>>◌,
}
use anime_recommendation_eng.Base.Text.{Text, codes}
use anime_recommendation_eng.Core.Cache.{Cache}
use anime_recommendation_eng.Core.Session.{session_scope}
use anime_recommendation_eng.Core.Quota.{micros_per_day}
use anime_recommendation_eng.Account.{
  Db, delete_feedback, delete_history, delete_usage, delete_users,
}
use anime_recommendation_eng.Api.Repository.{Tables, FeedbackRow}
use anime_recommendation_eng.Worker.{
  JobType, feedback_recorded, reembed_corpus, popular_precompute, gdpr_delete,
}
use anime_recommendation_eng.Worker.Payload.{Value, Payload, int, text, null, get}

abbrev pub feedback_count_key : Text
feedback_count_key = codes "eval:feedback_count"

abbrev pub review_queue_key : Text
review_queue_key = codes "eval:review_queue"

abbrev pub review_queue_max : ℕ
review_queue_max = 500

abbrev pub popular_key : Text
popular_key = codes "popular:this_week"

abbrev pub popular_ttl_seconds : ℕ
popular_ttl_seconds = 8 * 24 * 3600

abbrev pub top_n : ℕ
top_n = 10

-- `HandlerContext`, and what the handlers call beside it.
pub record HandlerContext (W D : Type 0) : Type 0 where
  pub cache : Cache W
  pub accounts : Slot W Db
  pub tables : Slot W (Tables D)
  pub now : ℕ
  pub parse_int : Text → Option ℤ
  pub dumps_member : Option Value → Option Value → Text
  pub dumps_ids : List ℕ → Text
  pub ingest : Text → Action W (Unit {0})

abbrev pub value_error_of : Text → Exc
value_error_of message = record { kind = value_error; message = message }

-- `int(v)`, which raises `TypeError` on None
abbrev pub parsed_int : {W : Type 0} → Option ℤ → Action W ℤ
parsed_int (some n) = pure n
parsed_int none = raise (value_error_of (codes "invalid literal for int()"))

unfoldable pub int_of_value : {W : Type 0} → (Text → Option ℤ) → ℤ → Option Value → Action W ℤ
int_of_value parse_int default none = pure default
int_of_value parse_int default (some (int n)) = pure n
int_of_value parse_int default (some (text t)) = parsed_int (parse_int t)
int_of_value parse_int default (some null) =
    raise (record { kind = other_error; message = codes "int() argument must not be None" })

-- The rows of thumbs-up since a moment, `Feedback.rating == 1, Feedback.created_at >= since`
abbrev pub is_up : ℤ → Bool
is_up (pos n) = n == 1
is_up (negsuc _) = false

abbrev pub up_since : ℕ → FeedbackRow → Bool
up_since since r = is_up r.rating && leb since r.created_at

-- `GROUP BY mal_id` with `count()`
abbrev pub Tally : Type 0
Tally = List (ℕ × ℕ)

unfoldable pub count_one : ℕ → Tally → Tally
count_one a [] = (a, 1) ∷ []
count_one a ((b, n) ∷ t) = if b == a then (b, n + 1) ∷ t else (b, n) ∷ count_one a t

unfoldable pub tally : List ℕ → Tally
unfolding count_one
tally [] = []
tally (a ∷ ids) = count_one a (tally ids)

-- `ORDER BY count() DESC LIMIT n`
unfoldable pub most_counted : ℕ → List ℕ → Tally
unfolding tally sort_desc
most_counted n ids = take n (sort_desc millionths (λ e. e.1) (tally ids))

abbrev pub ids_since : ℕ → List FeedbackRow → List ℕ
ids_since since rows = map (λ r. r.mal_id) (keep (up_since since) rows)

-- `now - timedelta(days=window_days)`. Before the epoch there is no row.
unfoldable pub window_start : ℕ → ℤ → ℕ
window_start now (pos days) = now - days * micros_per_day
window_start now (negsuc days) = now + (days + 1) * micros_per_day

module _ {W D : Type 0} (ctx : HandlerContext W D) where
  abbrev pub review : Payload → ℤ → Action W (Unit {0})
  review payload rating =
      if is_negative rating
      then ctx.cache.push_capped review_queue_key
          (ctx.dumps_member (get (codes "query_history_id") payload) (get (codes "mal_id") payload))
          review_queue_max
      else pure tt

  -- `handle_feedback_recorded`
  unfoldable pub handle_feedback_recorded : Payload → Action W (Unit {0})
  unfolding int_of_value
  handle_feedback_recorded payload =
      int_of_value ctx.parse_int (pos 0) (get (codes "rating") payload) >>= λ rating.
      ctx.cache.incr feedback_count_key >> review payload rating

  -- The statements of `handle_gdpr_delete`, in their order.
  unfoldable pub erase : Text → Db → Db
  erase uid db = delete_users uid (delete_usage uid (delete_history uid (delete_feedback uid db)))

  abbrev pub erase_user : Text → Action W (Unit {0})
  erase_user uid w = (ok tt, ctx.accounts.write (erase uid (ctx.accounts.read w)) w)

  abbrev pub missing_user : Exc
  missing_user = value_error_of (codes "gdpr.delete_user requires a 'user_id' in the payload")

  -- The test `not user_id`; a number names no user, since the column is a text.
  unfoldable pub delete_named : Option Value → Action W (Unit {0})
  unfolding erase session_scope
  delete_named (some (text uid)) =
      if is_empty uid then raise missing_user else session_scope ctx.accounts (erase_user uid)
  delete_named (some (int (pos zero))) = raise missing_user
  delete_named (some (int n)) =
      raise (record { kind = other_error; message = codes "a user's id is a text" })
  delete_named (some null) = raise missing_user
  delete_named none = raise missing_user

  -- `handle_gdpr_delete`
  unfoldable pub handle_gdpr_delete : Payload → Action W (Unit {0})
  unfolding delete_named
  handle_gdpr_delete payload = delete_named (get (codes "user_id") payload)

  abbrev pub precompute : ℤ → Action W (Unit {0})
  precompute window_days w =
      let since = window_start ctx.now window_days in
      let top = most_counted top_n (ids_since since (ctx.tables.read w).feedback) in
      ctx.cache.set popular_key (ctx.dumps_ids (map (λ e. e.0) top)) (some popular_ttl_seconds) w

  -- `handle_popular_precompute`
  unfoldable pub handle_popular_precompute : Payload → Action W (Unit {0})
  unfolding int_of_value window_start most_counted
  handle_popular_precompute payload =
      int_of_value ctx.parse_int (pos 7) (get (codes "window_days") payload) >>= precompute

  abbrev pub missing_path : Exc
  missing_path = value_error_of (codes "reembed.corpus requires a 'csv_path' in the payload")

  unfoldable pub reembed_path : Option Value → Action W (Unit {0})
  reembed_path (some (text path)) = if is_empty path then raise missing_path else ctx.ingest path
  reembed_path (some (int (pos zero))) = raise missing_path
  reembed_path (some (int n)) =
      raise (record { kind = other_error; message = codes "a path is a text" })
  reembed_path (some null) = raise missing_path
  reembed_path none = raise missing_path

  -- `handle_reembed_corpus`, where `ingest` runs in its session
  unfoldable pub handle_reembed_corpus : Payload → Action W (Unit {0})
  unfolding reembed_path
  handle_reembed_corpus payload = reembed_path (get (codes "csv_path") payload)

  -- `REGISTRY`
  unfoldable pub registry : JobType → Option (Payload → Action W (Unit {0}))
  unfolding handle_feedback_recorded handle_popular_precompute handle_gdpr_delete
      handle_reembed_corpus
  registry feedback_recorded = some handle_feedback_recorded
  registry popular_precompute = some handle_popular_precompute
  registry gdpr_delete = some handle_gdpr_delete
  registry reembed_corpus = some handle_reembed_corpus
