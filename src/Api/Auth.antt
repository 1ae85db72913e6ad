-- ===== src/Api/Auth.antt =====
-- The request gate (apps/api/src/anime_api/auth.py). What PyJWT does with a token is an argument: the
-- claims of a token that it accepts, or an exception.
pub mod Closed
mod Tests
use anime_recommendation_eng.Base.{
  ℕ, Bool, true, false, Option, none, some, List, [], ◌∷◌, drop, is_empty, if◌then◌else◌,
}
use anime_recommendation_eng.Base.Action.{
  Action, Exc, Kind, jwt_error, http_exception, pure, raise, catch_if, ◌>>=◌,
}
use anime_recommendation_eng.Base.Text.{Text, Unicode, codes, starts_with, strip}

-- `AuthedUser`
pub record AuthedUser : Type 0 where
  pub id : Text
  pub email : Option Text

-- The claims that are read; `sub` is a text, as PyJWT checks.
pub record Claims : Type 0 where
  pub sub : Option Text
  pub email : Option Text

pub record Settings : Type 0 where
  pub clerk_jwks_url : Text

abbrev pub is_jwt_error : Kind → Bool
is_jwt_error jwt_error = true
is_jwt_error _ = false

abbrev pub http_error : ℕ → Text → Exc
http_error status detail = record { kind = http_exception status; message = detail }

-- `text or None`
abbrev pub or_none : Text → Option Text
or_none t = if is_empty t then none else some t

-- `_bearer_token`, of the Authorization header, which is empty where it is missing
unfoldable pub bearer_token : Unicode → Text → Option Text
bearer_token u header =
    if starts_with (codes "bearer ") (u.lower header)
    then or_none (strip u (drop 7 header))
    else none

module _ {W : Type 0} (verify_token : Text → Action W Claims) where
  unfoldable pub user_of : Claims → Option Text → Action W AuthedUser
  user_of claims none = raise (http_error 401 (codes "token missing subject"))
  user_of claims (some sub) =
      if is_empty sub
      then raise (http_error 401 (codes "token missing subject"))
      else pure (record { id = sub; email = claims.email })

  unfoldable pub with_token : Settings → Option Text → Action W AuthedUser
  unfolding user_of
  with_token settings none = raise (http_error 401 (codes "missing or malformed bearer token"))
  with_token settings (some token) =
      if is_empty settings.clerk_jwks_url
      then raise (http_error 503 (codes "authentication not configured"))
      else catch_if is_jwt_error (verify_token token)
          (λ _. raise (http_error 401 (codes "invalid token")))
        >>= λ claims. user_of claims claims.sub

  -- `get_current_user`
  unfoldable pub get_current_user : Unicode → Settings → Text → Action W AuthedUser
  unfolding bearer_token with_token
  get_current_user u settings header = with_token settings (bearer_token u header)

  abbrev pub if_token : Settings → Option Text → Action W (Option AuthedUser)
  if_token settings none = pure none
  if_token settings (some token) = with_token settings (some token) >>= λ user. pure (some user)

  -- `get_optional_user`
  unfoldable pub get_optional_user : Unicode → Settings → Text → Action W (Option AuthedUser)
  unfolding bearer_token with_token
  get_optional_user u settings header = if_token settings (bearer_token u header)
