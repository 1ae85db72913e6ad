-- ===== src/Api/Middleware.antt =====
-- The ASGI middlewares (apps/api/src/anime_api/middleware.py). The application below is the sequence
-- of the messages that it sends and the way in which it ends; when the server refuses a message, the
-- exception of `send` ends it there. The time that a request takes, and the tracing, are left out.
pub mod Once
pub mod Echo
mod Tests
use anime_recommendation_eng.Base.{
  ℕ, Bool, true, false, not, ◌&&◌, ◌||◌, Option, none, some, List, [], ◌∷◌, ◌++◌, any, is_empty,
  if◌then◌else◌,
}
use anime_recommendation_eng.Base.Action.{
  Action, Exc, Outcome, ok, raised, cancelled, pure, raise, catch, ◌>>=◌, ◌>>◌,
}
use anime_recommendation_eng.Base.Text.{Text, codes, text_eq}

pub data Message : Type 0 where
  -- `http.response.start`, with its status and its headers
  response_start : ℕ → List (Text × Text) → Message
  -- Any other type of message
  other_message : Text → Message

-- `scope`, with the default of a member that is missing
pub record Scope : Type 0 where
  pub is_http : Bool
  pub path : Text
  pub method : Text
  pub headers : List (Text × Text)

abbrev pub Send : Type 0 → Type 0
Send W = Message → Action W (Unit {0})

-- `app(scope, receive, send)`
pub record App : Type 0 where
  pub messages : List Message
  pub ending : Outcome (Unit {0})

abbrev pub excluded_paths : List Text
excluded_paths = codes "/health" ∷ codes "/ready" ∷ codes "/metrics" ∷ codes "/favicon.ico" ∷ []

module _ {W : Type 0} where
  unfoldable pub send_all : Send W → List Message → Action W (Unit {0})
  send_all send [] = pure tt
  send_all send (m ∷ ms) = send m >> send_all send ms

  abbrev pub end_with : Outcome (Unit {0}) → Action W (Unit {0})
  end_with o w = (o, w)

  unfoldable pub run_app : App → Send W → Action W (Unit {0})
  unfolding send_all
  run_app app send = send_all send app.messages >> end_with app.ending

abbrev pub request_id_header : Text
request_id_header = codes "x-request-id"

-- The first value of the header that the request has, or else a new id.
abbrev pub request_id_of : Text → List (Text × Text) → Text
request_id_of fresh [] = fresh
request_id_of fresh ((key, value) ∷ headers) =
    if text_eq key request_id_header then value else request_id_of fresh headers

module _ {W : Type 0} (log : Text → Action W (Unit {0})) where
  -- The `send_wrapper` of `RequestIDMiddleware`.
  unfoldable pub send_with_id : Text → Send W → Send W
  send_with_id request_id send (response_start status headers) =
      log (codes "request.end")
      >> send (response_start status (headers ++ (request_id_header, request_id) ∷ []))
  send_with_id request_id send (other_message type) = send (other_message type)

  -- `RequestIDMiddleware.__call__`
  unfoldable pub request_id_call : Text → Scope → App → Send W → Action W (Unit {0})
  unfolding send_with_id run_app
  request_id_call fresh scope app send =
      if scope.is_http
      then log (codes "request.start")
        >> run_app app (send_with_id (request_id_of fresh scope.headers) send)
      else run_app app send

-- `record_http_request`, without the duration
pub record HttpRequest : Type 0 where
  pub route : Text
  pub method : Text
  pub status_code : ℕ

-- The world, the requests that are recorded, and the variable `recorded` of the call.
pub record Metered (W : Type 0) : Type 0 where
  pub world : W
  pub requests : List HttpRequest
  pub recorded : Bool

module _ {W : Type 0} where
  abbrev pub put_world : Metered W → Outcome (Unit {0}) × W → Outcome (Unit {0}) × Metered W
  put_world s (o, w) = (o, record s { world = w })

  -- A call that does not see the metrics.
  abbrev pub outside : Action W (Unit {0}) → Action (Metered W) (Unit {0})
  outside call s = put_world s (call s.world)

  module _ (route_of : W → Option Text) where
    abbrev pub or_unmatched : Option Text → Text
    or_unmatched none = codes "unmatched"
    or_unmatched (some path) = if is_empty path then codes "unmatched" else path

    abbrev pub request_at : Text → ℕ → W → HttpRequest
    request_at method status w = record {
      route = or_unmatched (route_of w);
      method = method;
      status_code = status;
    }

    abbrev pub record_once : Text → ℕ → Action (Metered W) (Unit {0})
    record_once method status s = if s.recorded then (ok tt, s) else (
      ok tt,
      record s { requests = s.requests ++ request_at method status s.world ∷ []; recorded = true },
    )

    -- The `send_wrapper` of `MetricsMiddleware`.
    unfoldable pub send_recording : Text → Send W → Send (Metered W)
    send_recording method send (response_start status headers) =
        record_once method status >> outside (send (response_start status headers))
    send_recording method send (other_message type) = outside (send (other_message type))

    abbrev pub start_call : Action (Metered W) (Unit {0})
    start_call s = (ok tt, record s { recorded = false })

    -- `MetricsMiddleware.__call__`
    unfoldable pub metrics_call : Scope → App → Send W → Action (Metered W) (Unit {0})
    unfolding send_recording run_app
    metrics_call scope app send =
        if not scope.is_http || any (text_eq scope.path) excluded_paths
        then run_app app (λ m. outside (send m))
        else start_call
          >> catch (run_app app (send_recording scope.method send))
              (λ e. record_once scope.method 500 >> raise e)
