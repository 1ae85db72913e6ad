-- ===== src/Account/Scope.antt =====
-- A deletion leaves the rows of other users (packages/core/src/anime_core/rtbf.py).
use anime_recommendation_eng.Base.{◌≡◌, false, keep}
use anime_recommendation_eng.Base.Action.{Action}
use anime_recommendation_eng.Base.Text.{Text, text_eq}
use anime_recommendation_eng.Account.{Db, history_of, usage_of, user_of}

module _ (uid other : Text) (distinct : text_eq other uid ≡ false) where
  -- The rows of the other user in the three tables.
  abbrev pub Same : Db → Db → Type 0
  Same db db' =
      (keep (user_of other) db.users ≡ keep (user_of other) db'.users)
      × (keep (history_of other) db.query_history ≡ keep (history_of other) db'.query_history)
      × (keep (usage_of other) db.usage_daily ≡ keep (usage_of other) db'.usage_daily)
