-- ===== src/Account.antt =====
-- Deletion of an account (`delete_user`, packages/core/src/anime_core/rtbf.py), over the tables of
-- packages/core/src/anime_core/db/models.py with the columns that it reads, and their foreign keys.
-- A statement of SQL is the function on the tables that it stands for, which does not fail; Clerk's API is an argument.
pub mod Rows
pub mod Erasure
pub mod Scope
mod Tests
use anime_recommendation_eng.Base.{
  ℕ, ◌+◌, Bool, true, false, not, ◌&&◌, ◌||◌, Option, none, some, List, [], ◌∷◌, ◌++◌, map, any,
  elem, keep, length, ltb, if◌then◌else◌,
}
use anime_recommendation_eng.Base.Action.{
  Action, Slot, Outcome, ok, raised, cancelled, pure, proceed, ◌>>=◌,
}
use anime_recommendation_eng.Base.Text.{Text, text_eq}

pub record FeedbackRow : Type 0 where
  pub user_id : Option Text
  pub query_history_id : Option ℕ
  pub mal_id : ℕ

pub record HistoryRow : Type 0 where
  pub id : ℕ
  pub user_id : Option Text
  pub query : Text

pub record UsageRow : Type 0 where
  pub user_id : Text
  pub query_count : ℕ

pub record UserRow : Type 0 where
  pub id : Text
  pub email : Option Text

pub record DeletionRow : Type 0 where
  pub user_id : Text
  pub reason : Text
  pub source : Text

pub record Db : Type 0 where
  pub feedback : List FeedbackRow
  pub query_history : List HistoryRow
  pub usage_daily : List UsageRow
  pub users : List UserRow
  pub account_deletions : List DeletionRow

-- `user_id = :uid`, which no NULL satisfies
abbrev pub owned : Text → Option Text → Bool
owned uid none = false
owned uid (some u) = text_eq u uid

abbrev pub count_where : {R : Type 0} → (R → Bool) → List R → ℕ
count_where p rows = length (keep p rows)

abbrev pub delete_where : {R : Type 0} → (R → Bool) → List R → List R
delete_where p rows = keep (λ r. not (p r)) rows

module _ (uid : Text) where
  abbrev pub feedback_of : FeedbackRow → Bool
  feedback_of r = owned uid r.user_id

  abbrev pub history_of : HistoryRow → Bool
  history_of r = owned uid r.user_id

  abbrev pub usage_of : UsageRow → Bool
  usage_of r = text_eq r.user_id uid

  abbrev pub user_of : UserRow → Bool
  user_of r = text_eq r.id uid

  -- `ondelete="CASCADE"` of feedback.query_history_id
  abbrev pub refers_to : List ℕ → FeedbackRow → Bool
  refers_to ids r = elim r.query_history_id [ none ↦ false | some id ↦ elem id ids ]

  -- `ondelete="SET NULL"`
  abbrev pub unlink : Option Text → Option Text
  unlink owner = if owned uid owner then none else owner

  abbrev pub unlink_history : HistoryRow → HistoryRow
  unlink_history r = record r { user_id = unlink r.user_id }

  abbrev pub unlink_feedback : FeedbackRow → FeedbackRow
  unlink_feedback r = record r { user_id = unlink r.user_id }

  abbrev pub delete_feedback : Db → Db
  delete_feedback db = record db { feedback = delete_where feedback_of db.feedback }

  abbrev pub delete_history : Db → Db
  delete_history db = record db {
    query_history = delete_where history_of db.query_history;
    feedback =
        delete_where (refers_to (map (λ r. r.id) (keep history_of db.query_history))) db.feedback;
  }

  abbrev pub delete_usage : Db → Db
  delete_usage db = record db { usage_daily = delete_where usage_of db.usage_daily }

  abbrev pub delete_users : Db → Db
  delete_users db = record db {
    users = delete_where user_of db.users;
    usage_daily = delete_where usage_of db.usage_daily;
    query_history = map unlink_history db.query_history;
    feedback = map unlink_feedback db.feedback;
  }

  -- One round of the loop: `if not dry_run and n > 0`.
  unfoldable pub delete_if : Bool → ℕ → (Db → Db) → Db → Db
  delete_if dry_run n statement db = if not dry_run && ltb 0 n then statement db else db

  -- The tables after the rounds for feedback, query_history, usage_daily and users.
  unfoldable pub without_feedback : Bool → Db → Db
  unfolding delete_if
  without_feedback dry_run db =
      delete_if dry_run (count_where feedback_of db.feedback) delete_feedback db

  unfoldable pub without_history : Bool → Db → Db
  unfolding delete_if
  without_history dry_run db =
      delete_if dry_run (count_where history_of db.query_history) delete_history db

  unfoldable pub without_usage : Bool → Db → Db
  unfolding delete_if
  without_usage dry_run db = delete_if dry_run (count_where usage_of db.usage_daily) delete_usage db

  unfoldable pub without_users : Bool → Db → Db
  unfolding delete_if
  without_users dry_run db = delete_if dry_run (count_where user_of db.users) delete_users db

  -- `rows_deleted`, in the order of the tables
  unfoldable pub rows_deleted : Bool → Db → List ℕ
  unfolding without_feedback without_history without_usage
  rows_deleted dry_run db =
      let db1 = without_feedback dry_run db in
      let db2 = without_history dry_run db1 in
      let db3 = without_usage dry_run db2 in
      count_where feedback_of db.feedback
      ∷ count_where history_of db1.query_history
      ∷ count_where usage_of db2.usage_daily
      ∷ count_where user_of db3.users
      ∷ []

  unfoldable pub delete_rows : Bool → Db → Db
  unfolding without_feedback without_history without_usage without_users
  delete_rows dry_run db =
      without_users dry_run
        (without_usage dry_run (without_history dry_run (without_feedback dry_run db)))

  abbrev pub has_audit : Db → Bool
  has_audit db = any (λ r. text_eq r.user_id uid) db.account_deletions

  -- `INSERT … ON CONFLICT (user_id) DO NOTHING`
  unfoldable pub audit : Text → Text → Db → Db
  audit reason source db = if has_audit db then db else record db {
    account_deletions =
        db.account_deletions ++ record { user_id = uid; reason = reason; source = source } ∷ [];
  }

-- `DeletionSummary`
pub record DeletionSummary : Type 0 where
  pub user_id : Text
  pub dry_run : Bool
  pub clerk_deleted : Option Bool
  pub rows_deleted : List ℕ
  pub audit_row_inserted : Bool

module _ {W : Type 0} (db : Slot W Db) (uid reason source : Text) where
  -- The database steps, for what Clerk said.
  unfoldable pub delete_local : Bool → Option Bool → Action W DeletionSummary
  unfolding delete_rows rows_deleted audit
  delete_local dry_run clerk_deleted w =
      let before = db.read w in
      let after = delete_rows uid dry_run before in
      (
        ok (record {
          user_id = uid;
          dry_run = dry_run;
          clerk_deleted = clerk_deleted;
          rows_deleted = rows_deleted uid dry_run before;
          audit_row_inserted = not dry_run && not (has_audit uid after);
        }),
        db.write (if dry_run then after else audit uid reason source after) w,
      )

  -- `delete_user`: Clerk first, in a live run with a client.
  unfoldable pub delete_user : Bool → Option (Text → Action W Bool) → Action W DeletionSummary
  unfolding delete_local
  delete_user dry_run none = delete_local dry_run none
  delete_user true (some clerk) = delete_local true none
  delete_user false (some clerk) = clerk uid >>= λ deleted. delete_local false (some deleted)
