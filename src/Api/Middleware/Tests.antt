-- ===== src/Api/Middleware/Tests.antt =====
-- Tests of the middlewares. The world is the list of the messages that the server has got.
use anime_recommendation_eng.Base.{
  ◌+◌, ◌≡◌, refl, true, false, Option, none, List, [], ◌∷◌, ◌++◌, map, length,
}
use anime_recommendation_eng.Base.Action.{Action, ok, raised, other_error}
use anime_recommendation_eng.Base.Text.{Text, codes}
use anime_recommendation_eng.Api.Middleware.{
  Message, response_start, other_message, Scope, Send, App, run_app, send_all, request_id_call,
  Metered, send_recording, metrics_call,
}
use anime_recommendation_eng.Api.Middleware.Once.{metrics_call-Counted}
use anime_recommendation_eng.Api.Middleware.Echo.{stamp, request_id_call-stamp}

abbrev server : Send (List Message)
server m w = (ok tt, w ++ m ∷ [])

abbrev quiet : Text → Action (List Message) (Unit {0})
quiet t w = (ok tt, w)

abbrev no_route : List Message → Option Text
no_route w = none

abbrev scope : Scope
scope = record {
  is_http = true;
  path = codes "/v1/recommend";
  method = codes "POST";
  headers = (codes "x-request-id", codes "abc") ∷ [];
}

-- An application that raises in the middle of its answer.
abbrev breaks : App
breaks = record {
  messages = response_start 200 [] ∷ other_message (codes "http.response.body") ∷ [];
  ending = raised (record { kind = other_error; message = codes "boom" });
}

abbrev start : Metered (List Message)
start = record { world = []; requests = []; recorded = false }

counts_status :
    (metrics_call no_route scope breaks server start).1.requests
    ≡ record { route = codes "unmatched"; method = codes "POST"; status_code = 200 } ∷ []
unfolding metrics_call run_app send_all send_recording
counts_status = refl

skips_probes :
    (metrics_call no_route (record scope { path = codes "/health" }) breaks server start).1.requests
    ≡ []
unfolding metrics_call run_app send_all send_recording
skips_probes = refl

metrics_call-Counted_example :
    length (metrics_call no_route scope breaks server start).1.requests ≡ 0 + 1
unfolding metrics_call run_app send_all send_recording
metrics_call-Counted_example = metrics_call-Counted no_route server scope breaks start refl refl

request_id_call-stamp_test :
    request_id_call quiet (codes "new") scope breaks server []
    ≡ run_app (record breaks { messages = map (stamp (codes "abc")) breaks.messages }) server []
request_id_call-stamp_test =
    request_id_call-stamp quiet server (λ t w. refl) (codes "new") scope breaks [] refl
