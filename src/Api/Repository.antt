-- ===== src/Api/Repository.antt =====
-- The repository (apps/api/src/anime_api/repository.py) over the tables that it reads and writes
-- (packages/core/src/anime_core/db/models.py). A statement of SQL is the function on the tables that it
-- stands for, with the foreign keys that can fail it; `to_column` is the rounding of NUMERIC(12, 6),
-- whose overflow is not modelled. The text column is the value that its JSON stands for. Rows of one
-- instant, whose order SQL leaves open, are in the order of the table. A number that a rolled-back
-- insertion took is taken again, which PostgreSQL does not do.
pub mod Laws
use anime_recommendation_eng.Base.{
  ℕ, suc, ◌+◌, Bool, true, false, ◌&&◌, ◌||◌, ◌==◌, Option, none, some, List, [], ◌∷◌, ◌++◌, any,
  keep, take, drop, ltb, if◌then◌else◌,
}
use anime_recommendation_eng.Base.Int.{ℤ}
use anime_recommendation_eng.Base.Action.{
  Action, Slot, Exc, ok, raised, integrity_error, pure, raise, modify, ◌>>=◌, ◌>>◌,
}
use anime_recommendation_eng.Base.Text.{Text, codes, text_eq}
use anime_recommendation_eng.Core.Schemas.{RecommendationResult}
use anime_recommendation_eng.Core.CostMeter.{DecimalOps}

pub record UserRow : Type 0 where
  pub id : Text
  pub email : Option Text

pub record HistoryRow : Type 0 where
  pub id : ℕ
  pub user_id : Option Text
  pub query : Text
  pub response : RecommendationResult
  pub created_at : ℕ

pub record FeedbackRow : Type 0 where
  pub id : ℕ
  pub user_id : Option Text
  pub query_history_id : Option ℕ
  pub mal_id : ℕ
  pub rating : ℤ
  pub created_at : ℕ

pub record UsageRow (D : Type 0) : Type 0 where
  pub user_id : Text
  pub day : ℕ
  pub query_count : ℕ
  pub input_tokens : ℕ
  pub output_tokens : ℕ
  pub cost_usd : D

pub record Tables (D : Type 0) : Type 0 where
  pub users : List UserRow
  pub query_history : List HistoryRow
  pub feedback : List FeedbackRow
  pub usage_daily : List (UsageRow D)
  pub next_history : ℕ
  pub next_feedback : ℕ

abbrev pub integrity : Exc
integrity = record { kind = integrity_error; message = codes "a foreign key names no row" }

-- `INSERT … ON CONFLICT (id) DO UPDATE SET email = …`
unfoldable pub upsert_user : Text → Option Text → List UserRow → List UserRow
upsert_user id email [] = record { id = id; email = email } ∷ []
upsert_user id email (r ∷ rs) =
    if text_eq r.id id then record r { email = email } ∷ rs else r ∷ upsert_user id email rs

-- The foreign key to users.id, which NULL satisfies.
abbrev pub user_exists : Option Text → List UserRow → Bool
user_exists none users = true
user_exists (some id) users = any (λ r. text_eq r.id id) users

abbrev pub history_exists : Option ℕ → List HistoryRow → Bool
history_exists none rows = true
history_exists (some id) rows = any (λ r. r.id == id) rows

-- `user_id IS NULL`, or `user_id = :user_id`
abbrev pub owned_by : Option Text → HistoryRow → Bool
owned_by none r = elim r.user_id [ none ↦ true | some _ ↦ false ]
owned_by (some id) r = elim r.user_id [ none ↦ false | some owner ↦ text_eq owner id ]

-- `ORDER BY created_at DESC`
unfoldable pub insert_newest : HistoryRow → List HistoryRow → List HistoryRow
insert_newest x [] = x ∷ []
insert_newest x (y ∷ ys) =
    if ltb x.created_at y.created_at then y ∷ insert_newest x ys else x ∷ y ∷ ys

unfoldable pub newest_first : List HistoryRow → List HistoryRow
unfolding insert_newest
newest_first [] = []
newest_first (x ∷ xs) = insert_newest x (newest_first xs)

unfoldable pub page : Option Text → ℕ → ℕ → List HistoryRow → List HistoryRow
unfolding newest_first
page user_id limit offset rows =
    take limit (drop offset (newest_first (keep (owned_by user_id) rows)))

module _ (d : DecimalOps) (to_column : d.D → d.D) where
  abbrev pub same_key : Text → ℕ → UsageRow d.D → Bool
  same_key user_id day r = text_eq r.user_id user_id && r.day == day

  abbrev pub add_usage : UsageRow d.D → UsageRow d.D → UsageRow d.D
  add_usage old excluded = record old {
    query_count = old.query_count + excluded.query_count;
    input_tokens = old.input_tokens + excluded.input_tokens;
    output_tokens = old.output_tokens + excluded.output_tokens;
    cost_usd = d.add old.cost_usd excluded.cost_usd;
  }

  -- `INSERT … ON CONFLICT (user_id, day) DO UPDATE SET col = usage_daily.col + EXCLUDED.col`
  unfoldable pub upsert_usage : UsageRow d.D → List (UsageRow d.D) → List (UsageRow d.D)
  upsert_usage new [] = new ∷ []
  upsert_usage new (r ∷ rs) =
      if same_key new.user_id new.day r then add_usage r new ∷ rs else r ∷ upsert_usage new rs

  module _ {W : Type 0} (db : Slot W (Tables d.D)) where
    abbrev pub update : (Tables d.D → Tables d.D) → Action W (Unit {0})
    update f w = (ok tt, db.write (f (db.read w)) w)

    -- A statement that fails where a foreign key names no row.
    abbrev pub checked : {A : Type 0} → Bool → Action W A → Action W A
    checked true m = m
    checked false m = raise integrity

    -- `ensure_user`
    unfoldable pub ensure_user : Text → Option Text → Action W (Unit {0})
    unfolding upsert_user
    ensure_user user_id email = update (λ t. record t { users = upsert_user user_id email t.users })

    abbrev pub insert_history : Option Text → Text → RecommendationResult → ℕ → Action W ℕ
    insert_history user_id query response now w =
        let t = db.read w in
        let row : HistoryRow = record {
          id = t.next_history;
          user_id = user_id;
          query = query;
          response = response;
          created_at = now;
        } in
        (
          ok t.next_history,
          db.write
              (record t {
                query_history = t.query_history ++ row ∷ [];
                next_history = t.next_history + 1;
              })
              w,
        )

    -- `add_query_history`
    unfoldable pub add_query_history : Option Text → Text → RecommendationResult → ℕ → Action W ℕ
    add_query_history user_id query response now w =
        checked (user_exists user_id (db.read w).users) (insert_history user_id query response now)
          w

    -- `list_query_history`
    unfoldable pub list_query_history : Option Text → ℕ → ℕ → Action W (List HistoryRow)
    unfolding page
    list_query_history user_id limit offset w =
        (ok (page user_id limit offset (db.read w).query_history), w)

    abbrev pub insert_feedback : Option Text → Option ℕ → ℕ → ℤ → ℕ → Action W ℕ
    insert_feedback user_id query_history_id mal_id rating now w =
        let t = db.read w in
        let row : FeedbackRow = record {
          id = t.next_feedback;
          user_id = user_id;
          query_history_id = query_history_id;
          mal_id = mal_id;
          rating = rating;
          created_at = now;
        } in
        (
          ok t.next_feedback,
          db.write
              (record t { feedback = t.feedback ++ row ∷ []; next_feedback = t.next_feedback + 1 })
              w,
        )

    -- `add_feedback`
    unfoldable pub add_feedback : Option Text → Option ℕ → ℕ → ℤ → ℕ → Action W ℕ
    add_feedback user_id query_history_id mal_id rating now w =
        checked
          (user_exists user_id (db.read w).users
            && history_exists query_history_id (db.read w).query_history)
          (insert_feedback user_id query_history_id mal_id rating now) w

    -- `record_usage`
    unfoldable pub record_usage : Text → ℕ → ℕ → ℕ → ℕ → d.D → Action W (Unit {0})
    unfolding upsert_usage
    record_usage user_id day query_count_inc input_tokens output_tokens cost_usd w =
        let row : UsageRow d.D = record {
          user_id = user_id;
          day = day;
          query_count = query_count_inc;
          input_tokens = input_tokens;
          output_tokens = output_tokens;
          cost_usd = to_column cost_usd;
        } in
        checked (user_exists (some user_id) (db.read w).users)
          (update (λ t. record t { usage_daily = upsert_usage row t.usage_daily })) w
