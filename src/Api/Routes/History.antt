-- ===== src/Api/Routes/History.antt =====
-- The history that a user reads (apps/api/src/anime_api/routes/history.py), behind a request for a
-- recommendation (recommend.py).
use mathlib.Core.List.{append-nil}
use anime_recommendation_eng.Base.{
  ℕ, suc, ◌≡◌, refl, ap, ◌∙◌, true, false, none, some, List, [], ◌∷◌, ◌++◌, map, keep, min, All,
  arith,
}
use anime_recommendation_eng.Base.Action.{Slot, ok}
use anime_recommendation_eng.Base.Text.{Text, text_eq, text_eq_self}
use anime_recommendation_eng.Core.Schemas.{RecommendationResult}
use anime_recommendation_eng.Core.CostMeter.{DecimalOps, Table}
use anime_recommendation_eng.Api.Auth.{AuthedUser}
use anime_recommendation_eng.Api.Repository.{Tables, HistoryRow, owned_by, page, list_query_history}
use anime_recommendation_eng.Api.Repository.Laws.{
  Before, newest_first-append, keep-append, All-keep,
}
use anime_recommendation_eng.Api.Routes.{App, HistoryItem, item_of, recommend, list_history}
use anime_recommendation_eng.Api.Routes.Recommend.{history_row, recorded, recommend-recorded}

page-append :
    (user_id : Text) (n : ℕ) (rows : List HistoryRow) (new : HistoryRow)
    → All (Before new.created_at) rows
    → owned_by (some user_id) new ≡ true
    → page (some user_id) (suc n) 0 (rows ++ new ∷ []) ≡ new ∷ page (some user_id) n 0 rows
unfolding page
page-append user_id n rows new h own =
    let p = owned_by (some user_id) in
    let mine : keep p (new ∷ []) ≡ new ∷ [] = rw own refl in
    rw
      (
        keep-append p rows (new ∷ []),
        mine,
        newest_first-append (keep p rows) new (All-keep p (Before new.created_at) rows h),
      )
      refl

page-append_other :
    (user_id : Text) (limit offset : ℕ) (rows : List HistoryRow) (new : HistoryRow)
    → owned_by (some user_id) new ≡ false
    → page (some user_id) limit offset (rows ++ new ∷ []) ≡ page (some user_id) limit offset rows
unfolding page
page-append_other user_id limit offset rows new foreign =
    let p = owned_by (some user_id) in
    let gone : keep p (new ∷ []) ≡ [] = rw foreign refl in
    rw (keep-append p rows (new ∷ []), gone, append-nil (keep p rows)) refl

module _ (d : DecimalOps) (to_column : d.D → d.D) {W : Type 0} (db : Slot W (Tables d.D))
    (app : App W d.D) (pricing : Table d) where
  -- The items that a page of the history has.
  abbrev pub history_of : Text → ℕ → ℕ → Tables d.D → List (HistoryItem d to_column db)
  history_of user_id limit offset t =
      map (item_of d to_column db) (page (some user_id) limit offset t.query_history)

  list_history-page :
      (cap : ℕ) (user : AuthedUser) (limit offset : ℕ) (w : W)
      → list_history d to_column db cap user limit offset w
        ≡ (ok (history_of user.id (min limit cap) offset (db.read w)), w)
  unfolding list_history list_query_history
  list_history-page cap user limit offset w = refl

  -- After a request that the service answered, the newest item of the user's history is that request,
  -- with its query and its recommendations, and behind it stands what stood there before. What any
  -- other user reads is the same as before. Each read gives at most the cap of items. The request is
  -- asked to be later than the rows that are there.
  pub recommend-history :
      (user other : AuthedUser) (query : Text) (result : RecommendationResult) (n limit offset : ℕ)
      (w w' : W)
      → ((t : Tables d.D) (v : W) → app.last_usage (db.write t v) ≡ app.last_usage v)
      → app.service.recommend query none w ≡ (ok result, w')
      → All (Before app.started) (db.read w').query_history
      → text_eq user.id other.id ≡ false
      → let after = (recommend d to_column db app pricing user query w).1 in
        (list_history d to_column db (suc n) user (suc n) 0 after ≡ (
          ok (
              record {
                id = (db.read w').next_history;
                query = query;
                recommendations = result.items;
                created_at = app.started;
              }
              ∷ history_of user.id n 0 (db.read w')),
          after,
        ))
        × (list_history d to_column db n other limit offset after
            ≡ (ok (history_of other.id (min limit n) offset (db.read w')), after))
  unfolding item_of
  recommend-history user other query result n limit offset w w' calm answers older apart =
      let t = db.read w' in
      let row = history_row d to_column db app pricing user query result t.next_history in
      let after = recorded d to_column db app pricing user query result (app.last_usage w') t in
      let own = page-append user.id n t.query_history row older (text_eq_self user.id) in
      let foreign = page-append_other other.id (min limit n) offset t.query_history row apart in
      let cap : min (suc n) (suc n) ≡ suc n = omega arith in
      rw (recommend-recorded d to_column db app pricing user query result w w' calm answers) (
        list_history-page (suc n) user (suc n) 0 (db.write after w')
            ∙ rw (db.read-write, cap)
                (ap (λ rows. (ok (map (item_of d to_column db) rows), db.write after w')) own),
        list_history-page n other limit offset (db.write after w')
            ∙ rw db.read-write
                (ap (λ rows. (ok (map (item_of d to_column db) rows), db.write after w')) foreign),
      )
