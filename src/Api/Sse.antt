-- ===== src/Api/Sse.antt =====
-- Server-sent events (packages/core/src/anime_core/streaming.py) and the stream of the recommend
-- route (apps/api/src/anime_api/routes/recommend.py).
pub mod Decode
pub mod RoundTrip
mod Tests
use anime_recommendation_eng.Base.{
  ℕ, Bool, true, false, ◌==◌, Option, none, some, List, [], ◌∷◌, ◌++◌, map, if◌then◌else◌,
}
use anime_recommendation_eng.Base.Action.{Outcome, ok, raised, cancelled}
use anime_recommendation_eng.Base.Text.{Text, codes, join}

abbrev pub cons_to : ℕ → List Text → List Text
cons_to c [] = (c ∷ []) ∷ []
cons_to c (l ∷ ls) = (c ∷ l) ∷ ls

-- `data.split("\n")`
unfoldable pub split_newlines : Text → List Text
split_newlines [] = [] ∷ []
split_newlines (c ∷ s) =
    let rest = split_newlines s in if c == b'\n' then [] ∷ rest else cons_to c rest

abbrev pub newline : Text
newline = b'\n' ∷ []

abbrev pub event_lines : Option Text → List Text
event_lines none = []
event_lines (some event) = (codes "event: " ++ event) ∷ []

abbrev pub data_line : Text → Text
data_line chunk = codes "data: " ++ chunk

-- `sse_event`
unfoldable pub sse_event : Text → Option Text → Text
unfolding split_newlines join
sse_event text event =
    join newline (event_lines event ++ map data_line (split_newlines text)) ++ (newline ++ newline)

-- `accumulate`, read to its end: what it yields, and what is in the sink then.
unfoldable pub accumulate : List Text → List Text → List Text × List Text
accumulate [] sink = ([], sink)
accumulate (token ∷ tokens) sink =
    let (yielded, filled) = accumulate tokens (sink ++ token ∷ []) in (token ∷ yielded, filled)

-- The loop of `event_stream`: the answer of `request.is_disconnected()` for each token, and the
-- frames up to the first one that is true. The second component says that the loop met it.
unfoldable pub token_frames : (ℕ → Bool) → List Text → List Text × Bool
unfolding sse_event
token_frames gone [] = ([], false)
token_frames gone (token ∷ tokens) =
    let (frames, left) = token_frames (λ i. gone (ℕ.suc i)) tokens in
    if gone 0 then ([], true) else (sse_event token (some (codes "token")) ∷ frames, left)

abbrev pub done_frame : Text
done_frame = sse_event (codes "[DONE]") (some (codes "done"))

-- Behind the loop: the last frame, unless the service's stream broke off before the client left.
unfoldable pub finish_stream : Outcome (Unit {0}) → List Text × Bool → List Text
unfolding sse_event
finish_stream ending (frames, true) = frames ++ done_frame ∷ []
finish_stream (ok _) (frames, false) = frames ++ done_frame ∷ []
finish_stream (raised _) (frames, false) = frames
finish_stream cancelled (frames, false) = frames

-- `event_stream`, over the tokens of `service.astream` and how it ends.
unfoldable pub event_stream : (ℕ → Bool) → List Text → Outcome (Unit {0}) → List Text
unfolding token_frames finish_stream
event_stream gone tokens ending = finish_stream ending (token_frames gone tokens)
