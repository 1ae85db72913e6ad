-- ===== src/Api/Auth/Closed.antt =====
-- The request gate fails closed (apps/api/src/anime_api/auth.py).
use anime_recommendation_eng.Base.{
  ◌≡◌, refl, ◌↔◌, inl, inr, false, Option, none, some, is_empty, if◌then◌else◌, Bool-cases, arith,
}
use anime_recommendation_eng.Base.Action.{
  Action, Outcome, ok, raised, cancelled, raise, proceed, resume,
}
use anime_recommendation_eng.Base.Text.{Text, Unicode, codes}
use anime_recommendation_eng.Api.Auth.{
  AuthedUser, Claims, Settings, is_jwt_error, http_error, bearer_token, user_of, with_token,
  get_current_user,
}

module _ {W : Type 0} (verify_token : Text → Action W Claims) (settings : Settings) where
  -- The token was verified, and its claims name the user.
  pub record Vouches (token : Text) (user : AuthedUser) (w w' : W) : Type 0 where
    pub claims : Claims
    pub verified : verify_token token w ≡ (ok claims, w')
    pub subject : claims.sub ≡ some user.id
    pub named : is_empty user.id ≡ false
    pub mailed : claims.email ≡ user.email
    pub configured : is_empty settings.clerk_jwks_url ≡ false

  user_of_iff :
      (claims : Claims) (sub : Option Text) (user : AuthedUser) (w w' : W)
      → user_of verify_token claims sub w ≡ (ok user, w')
      → (sub ≡ some user.id) × (is_empty user.id ≡ false) × (claims.email ≡ user.email) × (w ≡ w')
  unfolding user_of
  user_of_iff claims none user w w' h = cc
  user_of_iff claims (some sub) user w w' h = ground arith

  -- What follows the verification.
  abbrev vouched_for : Outcome Claims × W → Outcome AuthedUser × W
  vouched_for p =
      proceed (λ claims. user_of verify_token claims claims.sub)
        (resume
          (λ e.
            if is_jwt_error e.kind then raise (http_error 401 (codes "invalid token")) else raise e)
          p)

  vouched_for-ok :
      (p : Outcome Claims × W) (user : AuthedUser) (w' : W)
      → vouched_for p ≡ (ok user, w')
      → (claims : Claims) × (p ≡ (ok claims, w'))
        × (claims.sub ≡ some user.id)
        × (is_empty user.id ≡ false)
        × (claims.email ≡ user.email)
  vouched_for-ok (ok claims, w1) user w' h =
      let (a, b, c, d) = user_of_iff claims claims.sub user w1 w' h in (claims, rw d refl, a, b, c)
  vouched_for-ok (raised e, w1) user w' h = elim (Bool-cases (is_jwt_error e.kind)) [
    | inl jwt ↦ cc (rw jwt at h)
    | inr other ↦ cc (rw other at h)
  ]
  vouched_for-ok (cancelled, w1) user w' h = cc

  with_token-Vouches :
      (t : Option Text) (user : AuthedUser) (w w' : W)
      → with_token verify_token settings t w ≡ (ok user, w')
      → (token : Text) × (t ≡ some token) × Vouches token user w w'
  unfolding with_token
  with_token-Vouches none user w w' h = cc
  with_token-Vouches (some token) user w w' h =
      elim (Bool-cases (is_empty settings.clerk_jwks_url)) [
        | inl missing ↦ cc (rw missing at h)
        | inr there ↦
            let (claims, a, b, c, d) =
              vouched_for-ok (verify_token token w) user w' (rw there at h) in
            (
              token,
              refl,
              record {
                claims = claims;
                verified = a;
                subject = b;
                named = c;
                mailed = d;
                configured = there;
              },
            )
      ]

  Vouches-with_token :
      (token : Text) (user : AuthedUser) (w w' : W)
      → Vouches token user w w'
      → with_token verify_token settings (some token) w ≡ (ok user, w')
  unfolding with_token user_of
  Vouches-with_token token user w w' v =
      rw (v.configured, v.verified, v.subject, v.named, v.mailed) refl

  -- A request has a user exactly where its header has a bearer token, authentication is configured,
  -- PyJWT accepts that token, and its subject is not empty. The user is then that subject, with the
  -- claims' address.
  pub get_current_user_iff :
      (u : Unicode) (header : Text) (user : AuthedUser) (w w' : W)
      → (get_current_user verify_token u settings header w ≡ (ok user, w'))
        ↔ ((token : Text) × (bearer_token u header ≡ some token) × Vouches token user w w')
  unfolding get_current_user
  get_current_user_iff u header user w w' = (
    with_token-Vouches (bearer_token u header) user w w',
    λ (token, found, v). rw found (Vouches-with_token token user w w' v),
  )
