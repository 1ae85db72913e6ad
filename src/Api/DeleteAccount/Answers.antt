-- ===== src/Api/DeleteAccount/Answers.antt =====
-- What a request for deletion does, for each answer of Clerk (apps/api/src/anime_api/routes/account.py).
use anime_recommendation_eng.Base.{
  ◌≡◌, refl, inl, inr, Bool, true, false, some, if◌then◌else◌, Bool-cases, arith,
}
use anime_recommendation_eng.Base.Action.{
  Slot, Outcome, ok, raised, cancelled, http_exception, pure, raise, proceed, resume,
}
use anime_recommendation_eng.Base.Text.{codes}
use anime_recommendation_eng.Core.Session.{end_session, session_scope}
use anime_recommendation_eng.Account.{Db, DeletionSummary, has_audit, delete_user}
use anime_recommendation_eng.Account.Rows.{IsErased}
use anime_recommendation_eng.Account.Erasure.{Erases, delete_user-Erases}
use anime_recommendation_eng.Api.Auth.{AuthedUser, http_error}
use anime_recommendation_eng.Api.Clerk.{
  Httpx, ClerkClient, Reply, is_httpx_error, clerk_error, accepted, user_url, authorization,
  refused_message, on_reply, delete_user as clerk_delete,
}
use anime_recommendation_eng.Api.DeleteAccount.{
  is_clerk_error, delete_my_account, delete_account_request,
}

-- How a request to Clerk can end: with a reply, or an exception of httpx.
abbrev pub IsReply : Outcome Reply → Type 0
IsReply (ok r) = Unit
IsReply (raised e) = is_httpx_error e.kind ≡ true
IsReply cancelled = ⊥

-- Clerk has no such user any more.
abbrev pub confirmed : Outcome Reply → Bool
confirmed (ok r) = accepted r.status_code
confirmed (raised e) = false
confirmed cancelled = false

module _ {W : Type 0} (db : Slot W Db) (http : Httpx W) (client : ClerkClient)
    (user : AuthedUser) where
  -- If Clerk confirms: 204, with the account erased and evidence of that. If not: 502, and the tables
  -- are as they were.
  abbrev pub Answers : Db → Bool → Outcome (Unit {0}) × W → Type 0
  Answers before true (ok _, w) =
      IsErased user.id (db.read w) × (has_audit user.id (db.read w) ≡ true)
  Answers before true (raised _, w) = ⊥
  Answers before true (cancelled, w) = ⊥
  Answers before false (ok _, w) = ⊥
  Answers before false (raised e, w) = (e.kind ≡ http_exception 502) × (db.read w ≡ before)
  Answers before false (cancelled, w) = ⊥

  on_reply-accepted :
      (r : Reply) (w : W) → accepted r.status_code ≡ true → on_reply http client r w ≡ (ok true, w)
  unfolding on_reply
  on_reply-accepted r w h = ground arith

  on_reply-refused :
      (r : Reply) (w : W)
      → accepted r.status_code ≡ false
      → on_reply http client r w ≡ (raised (clerk_error (refused_message http client r)), w)
  unfolding on_reply
  on_reply-refused r w h = ground arith

  -- What the route and its session make of the end of `delete_user`.
  abbrev answered : W → Outcome DeletionSummary × W → Outcome (Unit {0}) × W
  answered w p = end_session db w (
      proceed (λ _. pure tt)
        (resume
          (λ e.
            if is_clerk_error e.kind
            then raise
                (http_error 502 (codes "Identity provider unavailable; please try again shortly."))
            else raise e)
          p))

  answered-Erases :
      (w : W) (p : Outcome DeletionSummary × W)
      → Erases db user.id (codes "user-initiated via DELETE /v1/account") (codes "self_service") p
      → Answers (db.read w) true (answered w p)
  answered-Erases w (ok summary, w') h = h
  answered-Erases w (raised e, w') h = absurd h
  answered-Erases w (cancelled, w') h = absurd h

  clerk_delete-confirmed :
      (r : Reply) (w w' : W)
      → http.delete (user_url http client user.id) (authorization http client) w ≡ (ok r, w')
      → accepted r.status_code ≡ true
      → clerk_delete http client user.id w ≡ (ok true, w')
  unfolding clerk_delete
  clerk_delete-confirmed r w w' says yes_code = rw says (on_reply-accepted r w' yes_code)

  -- Whatever Clerk answers, the request ends with one of two answers: without an error, where Clerk
  -- confirms that it has deleted the user or does not know him, and the account is then erased, with
  -- evidence; or with status 502, at any other status and at an exception of httpx, and then the
  -- tables are as they were before the request.
  pub delete_account_request-Answers :
      (out : Outcome Reply) (w w' : W)
      → http.delete (user_url http client user.id) (authorization http client) w ≡ (out, w')
      → IsReply out
      → Answers (db.read w) (confirmed out) (delete_account_request db http user (some client) w)
  unfolding delete_account_request delete_my_account session_scope
  delete_account_request-Answers (ok r) w w' says h = elim (Bool-cases (accepted r.status_code)) [
    | inl yes_code ↦ rw yes_code (
        answered-Erases w _
          (delete_user-Erases db user.id (codes "user-initiated via DELETE /v1/account")
            (codes "self_service") w w' (clerk_delete http client) true
            (clerk_delete-confirmed r w w' says yes_code)).1)
    | inr no_code ↦
        unfold delete_user clerk_delete in
        rw (no_code, says, on_reply-refused r w' no_code) (refl, db.read-write (db.read w) w')
  ]
  delete_account_request-Answers (raised e) w w' says h =
      unfold delete_user clerk_delete in rw (says, h) (refl, db.read-write (db.read w) w')
  delete_account_request-Answers cancelled w w' says h = absurd h
