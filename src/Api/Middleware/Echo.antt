-- ===== src/Api/Middleware/Echo.antt =====
-- What the server gets from the request-id middleware (apps/api/src/anime_api/middleware.py).
use anime_recommendation_eng.Base.{◌≡◌, ap, ◌∙◌, true, List, [], ◌∷◌, ◌++◌, map, refl}
use anime_recommendation_eng.Base.Action.{Action, Outcome, ok, raised, cancelled, proceed}
use anime_recommendation_eng.Base.Text.{Text, codes}
use anime_recommendation_eng.Api.Middleware.{
  Message, response_start, other_message, Scope, Send, App, send_all, end_with, run_app,
  request_id_header, request_id_of, send_with_id, request_id_call,
}

-- The start of a response has the id as its last header; any other message is as it was.
abbrev pub stamp : Text → Message → Message
stamp id (response_start status headers) =
    response_start status (headers ++ (request_id_header, id) ∷ [])
stamp id (other_message type) = other_message type

module _ {W : Type 0} (log : Text → Action W (Unit {0})) (send : Send W)
    (silent : (t : Text) (w : W) → log t w ≡ (ok tt, w)) where
  send_with_id-stamp :
      (id : Text) (m : Message) (w : W) → send_with_id log id send m w ≡ send (stamp id m) w
  unfolding send_with_id
  send_with_id-stamp id (response_start status headers) w = rw (silent (codes "request.end") w) refl
  send_with_id-stamp id (other_message type) w = refl

  proceed-same :
      (f g : Unit {0} → Action W (Unit {0}))
      → ((w : W) → f tt w ≡ g tt w)
      → (x : Outcome (Unit {0}) × W) → proceed f x ≡ proceed g x
  proceed-same f g h (ok tt, w) = h w
  proceed-same f g h (raised e, w) = refl
  proceed-same f g h (cancelled, w) = refl

  send_all-stamp :
      (id : Text) (ms : List Message) (w : W)
      → send_all (send_with_id log id send) ms w ≡ send_all send (map (stamp id) ms) w
  unfolding send_all
  send_all-stamp id [] w = refl
  send_all-stamp id (m ∷ ms) w =
      ap (proceed (λ _. send_all (send_with_id log id send) ms)) (send_with_id-stamp id m w)
      ∙ proceed-same (λ _. send_all (send_with_id log id send) ms)
          (λ _. send_all send (map (stamp id) ms)) (send_all-stamp id ms) (send (stamp id m) w)

  -- Over HTTP, and with a log that raises nothing, the call does what the application alone would do
  -- if it added the header with the request's id, or the new id, to each start of a response itself:
  -- the bodies reach the server untouched and in their order, and the call ends in the same way.
  pub request_id_call-stamp :
      (fresh : Text) (scope : Scope) (app : App) (w : W)
      → scope.is_http ≡ true
      → request_id_call log fresh scope app send w
        ≡ run_app
            (record app { messages = map (stamp (request_id_of fresh scope.headers)) app.messages })
            send
            w
  unfolding request_id_call run_app
  request_id_call-stamp fresh scope app w http =
      let id = request_id_of fresh scope.headers in
      rw (http, silent (codes "request.start") w)
        (ap (proceed (λ _. end_with app.ending)) (send_all-stamp id app.messages w))
