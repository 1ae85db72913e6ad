-- ===== src/Api/DeleteAccount.antt =====
-- The deletion of one's own account (apps/api/src/anime_api/routes/account.py), in the session of the
-- request (Core/Session).
pub mod Answers
mod Tests
use anime_recommendation_eng.Base.{Bool, true, false, Option, none, some}
use anime_recommendation_eng.Base.Action.{
  Action, Slot, Exc, Kind, Outcome, ok, raised, cancelled, clerk_api_error, pure, raise, catch_if,
  ◌>>=◌,
}
use anime_recommendation_eng.Base.Text.{Text, codes}
use anime_recommendation_eng.Core.Session.{session_scope}
use anime_recommendation_eng.Account.{Db, delete_user}
use anime_recommendation_eng.Api.Auth.{AuthedUser, http_error}
use anime_recommendation_eng.Api.Clerk
use anime_recommendation_eng.Api.Clerk.{Httpx, ClerkClient}

abbrev pub is_clerk_error : Kind → Bool
is_clerk_error clerk_api_error = true
is_clerk_error _ = false

module _ {W : Type 0} (db : Slot W Db) (http : Httpx W) where
  abbrev pub clerk_of : Option ClerkClient → Option (Text → Action W Bool)
  clerk_of none = none
  clerk_of (some client) = some (Clerk.delete_user http client)

  -- `delete_my_account`
  unfoldable pub delete_my_account : AuthedUser → Option ClerkClient → Action W (Unit {0})
  delete_my_account user client =
      catch_if is_clerk_error
        (delete_user db user.id (codes "user-initiated via DELETE /v1/account")
          (codes "self_service") false (clerk_of client))
        (λ e.
          raise (http_error 502 (codes "Identity provider unavailable; please try again shortly.")))
      >>= λ summary. pure tt

  -- The request, with its session.
  unfoldable pub delete_account_request : AuthedUser → Option ClerkClient → Action W (Unit {0})
  unfolding delete_my_account session_scope
  delete_account_request user client = session_scope db (delete_my_account user client)
