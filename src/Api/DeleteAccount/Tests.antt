-- ===== src/Api/DeleteAccount/Tests.antt =====
-- Tests of the deletion of one's own account: the world is the database, which Clerk does not touch.
use anime_recommendation_eng.Base.{ℕ, ◌≡◌, refl, none, some, [], ◌∷◌}
use anime_recommendation_eng.Base.Action.{Slot, ok, raised, pure}
use anime_recommendation_eng.Base.Text.{codes}
use anime_recommendation_eng.Account.{Db}
use anime_recommendation_eng.Api.Auth.{AuthedUser, http_error}
use anime_recommendation_eng.Api.Clerk.{Httpx, ClerkClient, Reply, new_client}
use anime_recommendation_eng.Api.DeleteAccount.{delete_account_request}
use anime_recommendation_eng.Api.DeleteAccount.Answers.{
  Answers, confirmed, delete_account_request-Answers,
}

abbrev database : Slot Db Db
database = record {
  read = λ w. w;
  write = λ s w. s;
  read-write = λ s w. refl;
  write-read = λ w. refl;
  write-write = λ s t w. refl;
}

abbrev ann : AuthedUser
ann = record { id = codes "ann"; email = none }

abbrev client : ClerkClient
client = record { secret_key = codes "sk"; base_url = codes "https://api.clerk.com/v1" }

abbrev reply : ℕ → Reply
reply status = record { status_code = status; text = [] }

abbrev answering : ℕ → Httpx Db
answering status = record {
  delete = λ url auth. pure (reply status);
  describe = λ e. e.message;
  repr = λ t. t;
}

abbrev before : Db
before = record {
  feedback = [];
  query_history = record { id = 1; user_id = some ann.id; query = codes "q" } ∷ [];
  usage_daily = record { user_id = ann.id; query_count = 3 } ∷ [];
  users = record { id = ann.id; email = none } ∷ [];
  account_deletions = [];
}

-- A slash at the end of the address is dropped.
strips :
    new_client {W = Db} (codes "sk") (codes "https://api.clerk.com/v1/") before
    ≡ (ok client, before)
unfolding new_client
strips = refl

fails : delete_account_request database (answering 500) ann (some client) before ≡ (
  raised (http_error 502 (codes "Identity provider unavailable; please try again shortly.")),
  before,
)
unfolding delete_account_request anime_recommendation_eng.Account.delete_user
    anime_recommendation_eng.Api.Clerk.delete_user
fails = refl

delete_account_request-Answers_example :
    Answers database
      (answering 404)
      client
      ann
      before
      (confirmed (ok (reply 404)))
      (delete_account_request database (answering 404) ann (some client) before)
delete_account_request-Answers_example =
    delete_account_request-Answers database (answering 404) client ann (ok (reply 404)) before
      before refl tt
