-- ===== src/Api/Sse/Tests.antt =====
-- Tests of the streamed events.
use anime_recommendation_eng.Base.{
  ◌≡◌, refl, ◌==◌, false, none, some, List, [], ◌∷◌, concat, map, arith,
}
use anime_recommendation_eng.Base.Action.{Exc, ok, raised, other_error}
use anime_recommendation_eng.Base.Text.{Text, codes}
use anime_recommendation_eng.Api.Sse.{sse_event, event_stream}
use anime_recommendation_eng.Api.Sse.Decode.{decode}
use anime_recommendation_eng.Api.Sse.RoundTrip.{
  event_of, frame_of, done_event, token_event, decode-frames, event_stream-decoded,
}

frame : sse_event (codes "a\nb") (some (codes "token")) ≡ codes "event: token\ndata: a\ndata: b\n\n"
unfolding sse_event
frame = refl

reads :
    decode (codes "event: token\r\ndata: a\r\ndata:b\n\n")
    ≡ record { type = codes "token"; body = codes "a\nb" } ∷ []
unfolding decode
reads = refl

-- A carriage return in a token ends its line, and the client loses what follows.
loses_after_cr :
    decode (sse_event (codes "a\rb") (some (codes "token"))) ≡ token_event (codes "a") ∷ []
unfolding decode sse_event
loses_after_cr = refl

decode-frames_test :
    decode (concat (map frame_of ((codes "a\nb", some (codes "t")) ∷ (codes "", none) ∷ [])))
    ≡ map event_of ((codes "a\nb", some (codes "t")) ∷ (codes "", none) ∷ [])
decode-frames_test =
    decode-frames ((codes "a\nb", some (codes "t")) ∷ (codes "", none) ∷ [])
      (((refl, (refl, (refl, tt))), (((refl, refl), tt), refl)), ((tt, tt), tt))

abbrev tokens : List Text
tokens = codes "Try" ∷ codes " Monster" ∷ []

abbrev broken : Exc
broken = record { kind = other_error; message = [] }

event_stream-decoded_example :
    (decode (concat (event_stream (λ _. false) (codes "a" ∷ []) (ok tt)))
      ≡ token_event (codes "a") ∷ done_event ∷ [])
    × (decode (concat (event_stream (λ _. false) (codes "a" ∷ []) (raised broken)))
        ≡ token_event (codes "a") ∷ [])
    × (decode (
          concat
            (event_stream (λ i. i == 1) (codes "a" ∷ codes "b" ∷ codes "c" ∷ []) (raised broken)))
        ≡ token_event (codes "a") ∷ done_event ∷ [])
event_stream-decoded_example =
    event_stream-decoded (λ _. false) (λ i. i == 1) (codes "a" ∷ []) (codes "b") (codes "c" ∷ [])
      (raised broken) broken ((refl, tt), tt) (λ i h. refl) (λ i h. ground arith) refl
