-- ===== src/Account/Tests.antt =====
-- Tests of the deletion of an account: the world is the database.
use anime_recommendation_eng.Base.{◌≡◌, refl, true, false, none, some, [], ◌∷◌, Bool}
use anime_recommendation_eng.Base.Action.{Action, Slot, Exc, ok, raised, other_error}
use anime_recommendation_eng.Base.Text.{Text, codes}
use anime_recommendation_eng.Account.{
  Db, delete_user, delete_local, delete_rows, rows_deleted, audit, without_feedback,
  without_history, without_usage, without_users, delete_if,
}
use anime_recommendation_eng.Account.Rows.{IsErased}
use anime_recommendation_eng.Account.Erasure.{Erases, delete_user-Erases, delete_user-idempotent}

abbrev database : Slot Db Db
database = record {
  read = λ w. w;
  write = λ s w. s;
  read-write = λ s w. refl;
  write-read = λ w. refl;
  write-write = λ s t w. refl;
}

abbrev ann : Text
ann = codes "ann"

-- Two users; Bob rated an answer of Ann's.
abbrev before : Db
before = record {
  feedback = record { user_id = some (codes "bob"); query_history_id = some 1; mal_id = 19 } ∷ [];
  query_history =
      record { id = 1; user_id = some ann; query = codes "q" }
      ∷ record { id = 2; user_id = some (codes "bob"); query = codes "r" }
      ∷ [];
  usage_daily = record { user_id = ann; query_count = 3 } ∷ [];
  users = record { id = ann; email = none } ∷ record { id = codes "bob"; email = none } ∷ [];
  account_deletions = [];
}

abbrev after : Db
after = record {
  feedback = [];
  query_history = record { id = 2; user_id = some (codes "bob"); query = codes "r" } ∷ [];
  usage_daily = [];
  users = record { id = codes "bob"; email = none } ∷ [];
  account_deletions = record { user_id = ann; reason = codes "r"; source = codes "operator" } ∷ [];
}

-- The row of feedback goes with the history that it refers to.
deletes : delete_user database ann (codes "r") (codes "operator") false none before ≡ (
  ok (record {
    user_id = ann;
    dry_run = false;
    clerk_deleted = none;
    rows_deleted = 0 ∷ 1 ∷ 1 ∷ 1 ∷ [];
    audit_row_inserted = true;
  }),
  after,
)
unfolding delete_user delete_local delete_rows rows_deleted audit without_feedback without_history
    without_usage without_users delete_if
deletes = refl

abbrev gone : Text → Action Db Bool
gone uid w = (ok true, w)

abbrev outage : Exc
outage = record { kind = other_error; message = codes "HTTP 503" }

abbrev down : Text → Action Db Bool
down uid w = (raised outage, w)

delete_user-Erases_example :
    Erases database ann
      (codes "r")
      (codes "operator")
      (delete_user database ann (codes "r") (codes "operator") false none before)
    × Erases database ann
        (codes "r")
        (codes "operator")
        (delete_user database ann (codes "r") (codes "operator") false (some gone) before)
delete_user-Erases_example =
    delete_user-Erases database ann (codes "r") (codes "operator") before before gone true refl

after-IsErased : IsErased ann after
after-IsErased = record {
  feedback = tt;
  query_history = (refl, tt);
  usage_daily = tt;
  users = (refl, tt);
}

delete_user-idempotent_test :
    (delete_user database ann (codes "r") (codes "operator") false none after ≡ (
      ok (record {
        user_id = ann;
        dry_run = false;
        clerk_deleted = none;
        rows_deleted = 0 ∷ 0 ∷ 0 ∷ 0 ∷ [];
        audit_row_inserted = false;
      }),
      after,
    ))
    × (delete_user database ann (codes "r") (codes "operator") false (some down) after
        ≡ (raised outage, after))
delete_user-idempotent_test =
    delete_user-idempotent database ann (codes "r") (codes "operator") after after down outage
      after-IsErased refl refl
