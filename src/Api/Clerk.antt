-- ===== src/Api/Clerk.antt =====
-- The client of Clerk's API (packages/core/src/anime_core/clerk.py). A request of httpx is an argument:
-- the reply, or an exception. So are the texts of an exception and of a body in a message.
use anime_recommendation_eng.Base.{
  ℕ, Bool, true, false, ◌==◌, ◌||◌, [], ◌∷◌, ◌++◌, reverse, take, is_empty, if◌then◌else◌,
}
use anime_recommendation_eng.Base.Action.{
  Action, Exc, Kind, httpx_error, clerk_api_error, value_error, pure, raise, catch_if, ◌>>=◌,
}
use anime_recommendation_eng.Base.Text.{Text, codes, decimal}

pub record Reply : Type 0 where
  pub status_code : ℕ
  pub text : Text

-- `client.delete(url, headers=headers)`, with the value of the Authorization header.
pub record Httpx (W : Type 0) : Type 0 where
  pub delete : Text → Text → Action W Reply
  pub describe : Exc → Text
  pub repr : Text → Text

pub record ClerkClient : Type 0 where
  pub secret_key : Text
  pub base_url : Text

abbrev pub is_httpx_error : Kind → Bool
is_httpx_error httpx_error = true
is_httpx_error _ = false

abbrev pub clerk_error : Text → Exc
clerk_error message = record { kind = clerk_api_error; message = message }

abbrev pub lstrip_slash : Text → Text
lstrip_slash [] = []
lstrip_slash (c ∷ s) = if c == b'/' then lstrip_slash s else c ∷ s

-- `ClerkClient.__init__`
unfoldable pub new_client : {W : Type 0} → Text → Text → Action W ClerkClient
new_client secret_key base_url =
    if is_empty secret_key
    then raise (record {
      kind = value_error;
      message = codes "ClerkClient requires a non-empty secret_key";
    })
    else pure
        (record { secret_key = secret_key; base_url = reverse (lstrip_slash (reverse base_url)) })

-- `response.status_code in (200, 204)`, or 404
abbrev pub accepted : ℕ → Bool
accepted status = status == 200 || status == 204 || status == 404

module _ {W : Type 0} (http : Httpx W) (client : ClerkClient) where
  abbrev pub user_url : Text → Text
  user_url user_id = client.base_url ++ (codes "/users/" ++ user_id)

  abbrev pub authorization : Text
  authorization = codes "Bearer " ++ client.secret_key

  abbrev pub refused_message : Reply → Text
  refused_message r =
      codes "Clerk delete_user failed: HTTP "
      ++ (decimal r.status_code ++ (codes " body=" ++ http.repr (take 300 r.text)))

  unfoldable pub on_reply : Reply → Action W Bool
  on_reply r =
      if r.status_code == 200 || r.status_code == 204
      then pure true
      else if r.status_code == 404
      then pure true
      else raise (clerk_error (refused_message r))

  -- `ClerkClient.delete_user`
  unfoldable pub delete_user : Text → Action W Bool
  unfolding on_reply
  delete_user user_id =
      catch_if is_httpx_error (http.delete (user_url user_id) authorization)
        (λ e. raise (clerk_error (codes "Clerk delete_user network error: " ++ http.describe e)))
      >>= on_reply
