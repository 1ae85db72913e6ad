-- ===== src/Account/Rows.antt =====
-- Rows without a user: what the rounds of a deletion leave (packages/core/src/anime_core/rtbf.py).
use anime_recommendation_eng.Base.{
  ℕ, suc, ◌≡◌, refl, inl, inr, Bool, true, false, Option, none, some, List, [], ◌∷◌, ◌++◌, map,
  keep, any, ltb, arith, Bool-cases, All,
}
use anime_recommendation_eng.Base.Text.{Text, text_eq, text_eq_self}
use anime_recommendation_eng.Account.{
  Db, FeedbackRow, HistoryRow, DeletionRow, owned, count_where, delete_where, feedback_of,
  history_of, usage_of, user_of, unlink, unlink_history, unlink_feedback, delete_feedback,
  delete_history, delete_usage, delete_users, delete_if, without_feedback, without_history,
  without_usage, without_users, rows_deleted, delete_rows, has_audit, audit,
}

module _ {R : Type 0} where
  -- No row satisfies the condition.
  abbrev pub Clean : (R → Bool) → List R → Type 0
  Clean p rows = All (λ r. p r ≡ false) rows

  pub keep-Clean : (p q : R → Bool) (rows : List R) → Clean p rows → Clean p (keep q rows)
  keep-Clean p q [] h = tt
  keep-Clean p q (r ∷ rs) h = elim (Bool-cases (q r)) [
    | inl kept ↦ rw kept (h.0, keep-Clean p q rs h.1)
    | inr gone ↦ rw gone (keep-Clean p q rs h.1)
  ]

  pub delete-Clean : (p : R → Bool) (rows : List R) → Clean p (delete_where p rows)
  delete-Clean p [] = tt
  delete-Clean p (r ∷ rs) = elim (Bool-cases (p r)) [
    | inl gone ↦ rw gone (delete-Clean p rs)
    | inr kept ↦ rw kept (kept, delete-Clean p rs)
  ]

  count_zero-Clean :
      (p : R → Bool) (rows : List R) → ltb 0 (count_where p rows) ≡ false → Clean p rows
  count_zero-Clean p [] h = tt
  count_zero-Clean p (r ∷ rs) h = elim (Bool-cases (p r)) [
    | inl hit ↦
        let h' : ltb 0 (suc (count_where p rs)) ≡ false = rw hit at h in absurd (ground (arith, h'))
    | inr miss ↦ (miss, count_zero-Clean p rs (rw miss at h))
  ]

  Clean-count : (p : R → Bool) (rows : List R) → Clean p rows → count_where p rows ≡ 0
  Clean-count p [] h = refl
  Clean-count p (r ∷ rs) h = rw h.0 (Clean-count p rs h.1)

module _ (uid : Text) where
  unlink-Clean : (owner : Option Text) → owned uid (unlink uid owner) ≡ false
  unlink-Clean none = refl
  unlink-Clean (some u) = elim (Bool-cases (text_eq u uid)) [
    | inl same ↦ rw same refl
    | inr other ↦ rw other other
  ]

  pub unlink-history :
      (rows : List HistoryRow) → Clean (history_of uid) (map (unlink_history uid) rows)
  unlink-history [] = tt
  unlink-history (r ∷ rs) = (unlink-Clean r.user_id, unlink-history rs)

  pub unlink-feedback :
      (rows : List FeedbackRow) → Clean (feedback_of uid) (map (unlink_feedback uid) rows)
  unlink-feedback [] = tt
  unlink-feedback (r ∷ rs) = (unlink-Clean r.user_id, unlink-feedback rs)

  -- No row of the four tables is the user's.
  pub record IsErased (db : Db) : Type 0 where
    pub feedback : Clean (feedback_of uid) db.feedback
    pub query_history : Clean (history_of uid) db.query_history
    pub usage_daily : Clean (usage_of uid) db.usage_daily
    pub users : Clean (user_of uid) db.users

  without_feedback-Clean :
      (db : Db) → Clean (feedback_of uid) (without_feedback uid false db).feedback
  unfolding without_feedback delete_if
  without_feedback-Clean db =
      elim (Bool-cases (ltb 0 (count_where (feedback_of uid) db.feedback))) [
        | inl found ↦ rw found (delete-Clean (feedback_of uid) db.feedback)
        | inr nothing ↦ rw nothing (count_zero-Clean (feedback_of uid) db.feedback nothing)
      ]

  without_history-Clean :
      (db : Db)
      → Clean (feedback_of uid) db.feedback
      → Clean (feedback_of uid) (without_history uid false db).feedback
        × Clean (history_of uid) (without_history uid false db).query_history
  unfolding without_history delete_if
  without_history-Clean db h =
      elim (Bool-cases (ltb 0 (count_where (history_of uid) db.query_history))) [
        | inl found ↦ rw found (
          keep-Clean (feedback_of uid) _ db.feedback h,
          delete-Clean (history_of uid) db.query_history,
        )
        | inr nothing ↦ rw nothing (h, count_zero-Clean (history_of uid) db.query_history nothing)
      ]

  without_usage-Clean :
      (db : Db)
      → Clean (feedback_of uid) db.feedback
      → Clean (history_of uid) db.query_history
      → Clean (feedback_of uid) (without_usage uid false db).feedback
        × Clean (history_of uid) (without_usage uid false db).query_history
        × Clean (usage_of uid) (without_usage uid false db).usage_daily
  unfolding without_usage delete_if
  without_usage-Clean db h k =
      elim (Bool-cases (ltb 0 (count_where (usage_of uid) db.usage_daily))) [
        | inl found ↦ rw found (h, k, delete-Clean (usage_of uid) db.usage_daily)
        | inr nothing ↦ rw nothing (h, k, count_zero-Clean (usage_of uid) db.usage_daily nothing)
      ]

  without_users-IsErased :
      (db : Db)
      → Clean (feedback_of uid) db.feedback
      → Clean (history_of uid) db.query_history
      → Clean (usage_of uid) db.usage_daily
      → IsErased (without_users uid false db)
  unfolding without_users delete_if
  without_users-IsErased db h k l = elim (Bool-cases (ltb 0 (count_where (user_of uid) db.users))) [
    | inl found ↦ rw found (record {
      feedback = unlink-feedback db.feedback;
      query_history = unlink-history db.query_history;
      usage_daily = delete-Clean (usage_of uid) db.usage_daily;
      users = delete-Clean (user_of uid) db.users;
    })
    | inr nothing ↦ rw nothing (record {
      feedback = h;
      query_history = k;
      usage_daily = l;
      users = count_zero-Clean (user_of uid) db.users nothing;
    })
  ]

  -- A live run leaves no row of the user in the four tables, whatever they held before.
  pub delete_rows-IsErased : (db : Db) → IsErased (delete_rows uid false db)
  unfolding delete_rows
  delete_rows-IsErased db =
      let db1 = without_feedback uid false db in
      let db2 = without_history uid false db1 in
      let db3 = without_usage uid false db2 in
      let (f2, h2) = without_history-Clean db1 (without_feedback-Clean db) in
      let (f3, h3, u3) = without_usage-Clean db2 f2 h2 in without_users-IsErased db3 f3 h3 u3

  delete_if-idle :
      (n : ℕ) (statement : Db → Db) (db : Db) → n ≡ 0 → delete_if uid false n statement db ≡ db
  unfolding delete_if
  delete_if-idle n statement db h = rw h refl

  -- Where no row is the user's, a live run finds none, and changes nothing.
  pub delete_rows-idle :
      (db : Db)
      → IsErased db
      → (delete_rows uid false db ≡ db) × (rows_deleted uid false db ≡ 0 ∷ 0 ∷ 0 ∷ 0 ∷ [])
  unfolding delete_rows rows_deleted
  delete_rows-idle db e =
      let a = Clean-count (feedback_of uid) db.feedback e.feedback in
      let b = Clean-count (history_of uid) db.query_history e.query_history in
      let c = Clean-count (usage_of uid) db.usage_daily e.usage_daily in
      let d = Clean-count (user_of uid) db.users e.users in
      let s1 : without_feedback uid false db ≡ db =
        unfold without_feedback in delete_if-idle _ (delete_feedback uid) db a in
      let s2 : without_history uid false db ≡ db =
        unfold without_history in delete_if-idle _ (delete_history uid) db b in
      let s3 : without_usage uid false db ≡ db =
        unfold without_usage in delete_if-idle _ (delete_usage uid) db c in
      let s4 : without_users uid false db ≡ db =
        unfold without_users in delete_if-idle _ (delete_users uid) db d in
      (simp (s1, s2, s3, s4), simp (a, b, c, d))

  pub has_audit-audit :
      (reason source : Text) (db : Db) → has_audit uid (audit uid reason source db) ≡ true
  unfolding audit
  has_audit-audit reason source db = elim (Bool-cases (has_audit uid db)) [
    | inl old ↦ rw old old
    | inr new ↦ rw new (any-append db.account_deletions)
  ]
    where
      any-append :
          (rows : List DeletionRow)
          → any
              (λ r. text_eq r.user_id uid)
              (rows ++ record { user_id = uid; reason = reason; source = source } ∷ [])
            ≡ true
      any-append [] = rw (text_eq_self uid) refl
      any-append (r ∷ rs) = elim (Bool-cases (text_eq r.user_id uid)) [
        | inl hit ↦ rw hit refl
        | inr miss ↦ rw miss (any-append rs)
      ]

  pub audit-IsErased :
      (reason source : Text) (db : Db) → IsErased db → IsErased (audit uid reason source db)
  unfolding audit
  audit-IsErased reason source db e = elim (Bool-cases (has_audit uid db)) [
    | inl old ↦ rw old e
    | inr new ↦ rw new (record {
      feedback = e.feedback;
      query_history = e.query_history;
      usage_daily = e.usage_daily;
      users = e.users;
    })
  ]
