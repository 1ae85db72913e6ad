-- ===== src/Api/Auth/Tests.antt =====
-- Tests of the request gate.
use anime_recommendation_eng.Base.{◌≡◌, ◌↔◌, refl, none, some, if◌then◌else◌}
use anime_recommendation_eng.Base.Action.{Action, ok, raised, raise, pure, jwt_error}
use anime_recommendation_eng.Base.Text.{Text, codes, latin, text_eq}
use anime_recommendation_eng.Api.Auth.{
  AuthedUser, Claims, Settings, http_error, bearer_token, get_current_user, get_optional_user,
}
use anime_recommendation_eng.Api.Auth.Closed.{Vouches, get_current_user_iff}

abbrev settings : Settings
settings = record { clerk_jwks_url = codes "https://clerk" }

-- One token is good; the world does not matter.
abbrev verify : Text → Action (Unit {0}) Claims
verify token =
    if text_eq token (codes "good")
    then pure (record { sub = some (codes "ann"); email = none })
    else raise (record { kind = jwt_error; message = codes "bad signature" })

abbrev ann : AuthedUser
ann = record { id = codes "ann"; email = none }

accepts : get_current_user verify latin settings (codes "BEARER  good ") tt ≡ (ok ann, tt)
unfolding get_current_user
accepts = refl

rejects :
    get_current_user verify latin settings (codes "Bearer forged") tt
    ≡ (raised (http_error 401 (codes "invalid token")), tt)
unfolding get_current_user
rejects = refl

optional : get_optional_user verify latin settings (codes "Basic x") tt ≡ (ok none, tt)
unfolding get_optional_user
optional = refl

get_current_user_iff_example :
    (get_current_user verify latin settings (codes "Bearer good") tt ≡ (ok ann, tt)) ↔ (
      (token : Text) × (bearer_token latin (codes "Bearer good") ≡ some token)
      × Vouches verify settings token ann tt tt)
get_current_user_iff_example =
    get_current_user_iff verify settings latin (codes "Bearer good") ann tt tt
