-- ===== src/Account/Erasure.antt =====
-- What a deletion leaves (packages/core/src/anime_core/rtbf.py).
use anime_recommendation_eng.Base.{◌≡◌, refl, Bool, true, false, Option, none, some, [], ◌∷◌}
use anime_recommendation_eng.Base.Action.{Action, Slot, Exc, Outcome, ok, raised, cancelled}
use anime_recommendation_eng.Base.Text.{Text}
use anime_recommendation_eng.Account.{
  Db, DeletionSummary, delete_rows, has_audit, delete_local, delete_user,
}
use anime_recommendation_eng.Account.Rows.{
  IsErased, delete_rows-IsErased, delete_rows-idle, has_audit-audit, audit-IsErased,
}

module _ {W : Type 0} (db : Slot W Db) (uid reason source : Text) where
  -- A deletion returned, and left no row of the user in feedback, query_history, usage_daily and
  -- users, and a row in account_deletions.
  abbrev pub Erases : Outcome DeletionSummary × W → Type 0
  Erases (ok summary, w) = IsErased uid (db.read w) × (has_audit uid (db.read w) ≡ true)
  Erases (raised _, w) = ⊥
  Erases (cancelled, w) = ⊥

  delete_local-Erases :
      (clerk_deleted : Option Bool) (w : W)
      → Erases (delete_local db uid reason source false clerk_deleted w)
  unfolding delete_local
  delete_local-Erases clerk_deleted w = rw db.read-write (
    audit-IsErased uid reason source _ (delete_rows-IsErased uid (db.read w)),
    has_audit-audit uid reason source (delete_rows uid false (db.read w)),
  )

  -- A live deletion, without Clerk or where Clerk answers, leaves no row of the user in the four
  -- tables, whatever they held before, and leaves evidence of the deletion.
  pub delete_user-Erases :
      (w w' : W) (clerk : Text → Action W Bool) (deleted : Bool)
      → clerk uid w ≡ (ok deleted, w')
      → Erases (delete_user db uid reason source false none w)
        × Erases (delete_user db uid reason source false (some clerk) w)
  unfolding delete_user
  delete_user-Erases w w' clerk deleted answers =
      (delete_local-Erases none w, rw answers (delete_local-Erases (some deleted) w'))

  -- A run again on an account that is erased with its evidence there reports no row in any table and
  -- no new evidence, and leaves the world as it was. So does a run where Clerk raises: its exception
  -- is passed on, and the tables are as Clerk's call left them.
  pub delete_user-idempotent :
      (w w' : W) (clerk : Text → Action W Bool) (exc : Exc)
      → IsErased uid (db.read w)
      → has_audit uid (db.read w) ≡ true
      → clerk uid w ≡ (raised exc, w')
      → (delete_user db uid reason source false none w ≡ (
        ok (record {
          user_id = uid;
          dry_run = false;
          clerk_deleted = none;
          rows_deleted = 0 ∷ 0 ∷ 0 ∷ 0 ∷ [];
          audit_row_inserted = false;
        }),
        w,
      ))
        × (delete_user db uid reason source false (some clerk) w ≡ (raised exc, w'))
  unfolding delete_user delete_local
  delete_user-idempotent w w' clerk exc erased evidence fails =
      let (same, zero_rows) = delete_rows-idle uid (db.read w) erased in
      (simp (same, zero_rows, evidence, db.write-read), rw fails refl)
