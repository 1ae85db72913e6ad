-- ===== src/Api/Sse/RoundTrip.antt =====
-- A client reads back what is streamed (packages/core/src/anime_core/streaming.py, and the stream of
-- apps/api/src/anime_api/routes/recommend.py).
use mathlib.Core.List.{append-nil, append_assoc}
use anime_recommendation_eng.Base.{
  ℕ, suc, ◌<◌, ◌≡◌, refl, ap, ◌∙◌, inl, inr, Bool, true, false, ◌==◌, Option, none, some, List, [],
  ◌∷◌, ◌++◌, map, is_empty, length, concat, concat-append, All, Bool-cases, arith,
}
use anime_recommendation_eng.Base.Action.{Exc, Outcome, ok, raised}
use anime_recommendation_eng.Base.Text.{Text, codes, text_eq, join}
use anime_recommendation_eng.Api.Sse.{
  split_newlines, newline, data_line, sse_event, token_frames, done_frame, finish_stream,
  event_stream,
}
use anime_recommendation_eng.Api.Sse.Decode.{
  Event, Decoder, start, field_of, on_field, dispatched, init_of, type_of, on_line, read, decode,
}

-- No character ends a line.
abbrev pub Plain : Text → Type 0
Plain = All (λ c. (c == b'\n' ≡ false) × (c == b'\r' ≡ false))

abbrev pub HasNoCr : Text → Type 0
HasNoCr = All (λ c. c == b'\r' ≡ false)

abbrev between : Text → Text → Text → Decoder
between line type body = record { after_cr = false; line = line; type = type; body = body }

on_line-line :
    (l line type body : Text)
    → on_line l (between line type body) ≡ on_line l (between [] type body)
unfolding on_line on_field dispatched
on_line-line [] line type body = refl
on_line-line (c ∷ l) line type body =
    elim (Bool-cases (text_eq (field_of [] (c ∷ l)).0 (codes "event"))) [
      | inl event ↦ rw event refl
      | inr other ↦ rw other (elim (Bool-cases (text_eq (field_of [] (c ∷ l)).0 (codes "data"))) [
        | inl body_line ↦ rw body_line refl
        | inr ignored ↦ rw ignored refl
      ])
    ]

read-line :
    (l line type body s : Text)
    → Plain l
    → read (l ++ (b'\n' ∷ s)) (between line type body)
      ≡ (on_line (line ++ l) (between [] type body)).0
        ++ read s (record ((on_line (line ++ l) (between [] type body)).1) { after_cr = false })
unfolding read
read-line [] line type body s h = rw (append-nil, on_line-line line line type body) refl
read-line (c ∷ l) line type body s h =
    rw (h.0.0, h.0.1)
      (read-line l (line ++ c ∷ []) type body s h.1 ∙ rw (append_assoc line (c ∷ []) l) refl)

data_line-Plain : (l : Text) → Plain l → Plain (data_line l)
data_line-Plain l h = (
  (refl, refl),
  ((refl, refl), ((refl, refl), ((refl, refl), ((refl, refl), ((refl, refl), h))))),
)

event_line-Plain : (l : Text) → Plain l → Plain (codes "event: " ++ l)
event_line-Plain l h = (
  (refl, refl),
  ((refl, refl), ((refl, refl), ((refl, refl), ((refl, refl), ((refl, refl), ((refl, refl), h)))))),
)

read-data :
    (l type body s : Text)
    → Plain l
    → read (data_line l ++ (b'\n' ∷ s)) (between [] type body)
      ≡ read s (between [] type (body ++ (l ++ b'\n' ∷ [])))
unfolding on_line on_field field_of
read-data l type body s h = read-line (data_line l) [] type body s (data_line-Plain l h)

read-event :
    (e type body s : Text)
    → Plain e
    → read ((codes "event: " ++ e) ++ (b'\n' ∷ s)) (between [] type body)
      ≡ read s (between [] e body)
unfolding on_line on_field field_of
read-event e type body s h = read-line (codes "event: " ++ e) [] type body s (event_line-Plain e h)

abbrev unlines : List Text → Text
unlines [] = []
unlines (l ∷ ls) = l ++ (b'\n' ∷ unlines ls)

read-chunks :
    (l : Text) (ls : List Text) (type body s : Text)
    → All Plain (l ∷ ls)
    → read (join newline (map data_line (l ∷ ls)) ++ (b'\n' ∷ s)) (between [] type body)
      ≡ read s (between [] type (body ++ unlines (l ∷ ls)))
unfolding join
read-chunks l [] type body s h = read-data l type body s h.0
read-chunks l (l' ∷ ls) type body s h =
    let more = join newline (map data_line (l' ∷ ls)) in
    rw (append_assoc (data_line l) (newline ++ more) (b'\n' ∷ s)) (
      read-data l type body (more ++ (b'\n' ∷ s)) h.0
      ∙ read-chunks l' ls type (body ++ (l ++ b'\n' ∷ [])) s h.1
      ∙ rw
          (
            append_assoc body (l ++ b'\n' ∷ []) (unlines (l' ∷ ls)),
            append_assoc l (b'\n' ∷ []) (unlines (l' ∷ ls)),
          )
          refl)

-- The lines of a text: at least one, without a line end, and together the text.
abbrev IsCut : Text → Type 0
IsCut s =
    (l : Text) × (ls : List Text) × (split_newlines s ≡ l ∷ ls)
    × All Plain (l ∷ ls)
    × (unlines (l ∷ ls) ≡ s ++ b'\n' ∷ [])

split_newlines-IsCut : (s : Text) → HasNoCr s → IsCut s
unfolding split_newlines
split_newlines-IsCut [] h = ([], [], refl, (tt, tt), refl)
split_newlines-IsCut (c ∷ s) h =
    let (l, ls, e, p, u) = split_newlines-IsCut s h.1 in
    elim (Bool-cases (c == b'\n')) [
      | inl cut ↦
          let same : c ≡ b'\n' = ground (arith, cut) in
          ([], l ∷ ls, rw (cut, e) refl, (tt, p), rw (u, same) refl)
      | inr kept ↦ (c ∷ l, ls, rw (kept, e) refl, (((kept, h.0), p.0), p.1), ap (λ t. c ∷ t) u)
    ]

init_of-append : (s : Text) (c : ℕ) → init_of (s ++ c ∷ []) ≡ s
unfolding init_of
init_of-append [] c = refl
init_of-append (a ∷ []) c = refl
init_of-append (a ∷ b ∷ s) c = ap (λ t. a ∷ t) (init_of-append (b ∷ s) c)

is_empty-append : (s : Text) (c : ℕ) → is_empty (s ++ c ∷ []) ≡ false
is_empty-append [] c = refl
is_empty-append (_ ∷ _) c = refl

-- The blank line behind a frame.
read-blank :
    (type body s : Text)
    → read (b'\n' ∷ s) (between [] type (body ++ b'\n' ∷ []))
      ≡ record { type = type_of type; body = body } ∷ read s start
unfolding read on_line dispatched
read-blank type body s = rw (is_empty-append body b'\n', init_of-append body b'\n') refl

abbrev event_type : Option Text → Text
event_type none = codes "message"
event_type (some e) = e

-- A name that a frame can have: one line, and not empty.
abbrev pub IsName : Option Text → Type 0
IsName none = Unit
IsName (some e) = Plain e × (is_empty e ≡ false)

abbrev pub event_of : Text × Option Text → Event
event_of (text, event) = record { type = event_type event; body = text }

abbrev pub frame_of : Text × Option Text → Text
frame_of (text, event) = sse_event text event

-- An event's first line stands before its lines of data.
join-event :
    (x l : Text) (ls : List Text) (s : Text)
    → (join newline (x ∷ map data_line (l ∷ ls)) ++ (newline ++ newline)) ++ s
      ≡ x ++ (b'\n' ∷ (join newline (map data_line (l ∷ ls)) ++ (b'\n' ∷ b'\n' ∷ s)))
unfolding join
join-event x l ls s =
    let chunks = join newline (map data_line (l ∷ ls)) in
    append_assoc (x ++ (newline ++ chunks)) (newline ++ newline) s
    ∙ append_assoc x (newline ++ chunks) (newline ++ (newline ++ s))

-- One frame, with a rest behind it.
read-frame :
    (text : Text) (event : Option Text) (s : Text)
    → HasNoCr text
    → IsName event
    → read (sse_event text event ++ s) start ≡ event_of (text, event) ∷ read s start
unfolding sse_event
read-frame text none s h n =
    let (l, ls, e, p, u) = split_newlines-IsCut text h in
    rw (e, append_assoc (join newline (map data_line (l ∷ ls))) (newline ++ newline) s)
      (read-chunks l ls [] [] (b'\n' ∷ s) p ∙ rw u (read-blank [] text s))
read-frame text (some name) s h n =
    let (l, ls, e, p, u) = split_newlines-IsCut text h in
    let chunks = join newline (map data_line (l ∷ ls)) in
    rw (e, join-event (codes "event: " ++ name) l ls s)
      (read-event name [] [] (chunks ++ (b'\n' ∷ b'\n' ∷ s)) n.0
        ∙ read-chunks l ls name [] (b'\n' ∷ s) p
        ∙ rw u (read-blank name text s ∙ rw n.1 refl))

-- Frames that are streamed one behind the other are read back as the events that they were made of:
-- each with its name, `message` where it has none, and its text, with its lines. The names are not
-- empty and have no line end; the texts may have LF, but no CR.
pub decode-frames :
    (frames : List (Text × Option Text))
    → All (λ f. HasNoCr f.0 × IsName f.1) frames
    → decode (concat (map frame_of frames)) ≡ map event_of frames
unfolding decode
decode-frames [] h = unfold read in refl
decode-frames ((text, event) ∷ frames) h =
    read-frame text event (concat (map frame_of frames)) h.0.0 h.0.1
    ∙ ap (λ es. event_of (text, event) ∷ es) (decode-frames frames h.1)

abbrev pub token_event : Text → Event
token_event token = record { type = codes "token"; body = token }

abbrev pub done_event : Event
done_event = record { type = codes "done"; body = codes "[DONE]" }

abbrev token_frame : Text → Text
token_frame token = sse_event token (some (codes "token"))

-- The answers for the first n tokens are that the client is there.
abbrev pub Stays : (ℕ → Bool) → ℕ → Type 0
Stays gone n = (i : ℕ) → i < n → gone i ≡ false

token_frames-Stays :
    (gone : ℕ → Bool) (tokens : List Text)
    → Stays gone (length tokens)
    → token_frames gone tokens ≡ (map token_frame tokens, false)
unfolding token_frames
token_frames-Stays gone [] h = refl
token_frames-Stays gone (t ∷ ts) h =
    rw
      (
        h 0 (omega arith),
        token_frames-Stays (λ i. gone (suc i)) ts (λ i k. h (suc i) (omega arith)),
      )
      refl

token_frames-leaves :
    (gone : ℕ → Bool) (seen : List Text) (t : Text) (rest : List Text)
    → Stays gone (length seen)
    → gone (length seen) ≡ true
    → token_frames gone (seen ++ t ∷ rest) ≡ (map token_frame seen, true)
unfolding token_frames
token_frames-leaves gone [] t rest h g = rw g refl
token_frames-leaves gone (s ∷ seen) t rest h g =
    rw
      (
        h 0 (omega arith),
        token_frames-leaves (λ i. gone (suc i)) seen t rest (λ i k. h (suc i) (omega arith)) g,
      )
      refl

-- The frames of tokens, and what is streamed behind them.
read-tokens :
    (tokens : List Text) (s : Text)
    → All HasNoCr tokens
    → read (concat (map token_frame tokens) ++ s) start ≡ map token_event tokens ++ read s start
read-tokens [] s h = refl
read-tokens (t ∷ ts) s h = rw (append_assoc (token_frame t) (concat (map token_frame ts)) s) (
    read-frame t (some (codes "token")) _ h.0
      (((refl, refl), ((refl, refl), ((refl, refl), ((refl, refl), ((refl, refl), tt))))), refl)
    ∙ ap (λ es. token_event t ∷ es) (read-tokens ts s h.1))

read-done : read (done_frame ++ []) start ≡ done_event ∷ []
unfolding read sse_event
read-done = refl

-- A client that stays gets every token as its own event, and then the closing event, if the service's
-- stream ends, and every token and no closing event, if that breaks off. A client that leaves is sent
-- the tokens before it left and the closing event, and no token that follows. Tokens may have LF, but
-- no CR.
pub event_stream-decoded :
    (here leaves : ℕ → Bool) (seen : List Text) (t : Text) (rest : List Text)
    (ending : Outcome (Unit {0})) (exc : Exc)
    → All HasNoCr seen
    → Stays here (length seen)
    → Stays leaves (length seen)
    → leaves (length seen) ≡ true
    → (decode (concat (event_stream here seen (ok tt))) ≡ map token_event seen ++ done_event ∷ [])
      × (decode (concat (event_stream here seen (raised exc))) ≡ map token_event seen)
      × (decode (concat (event_stream leaves (seen ++ t ∷ rest) ending))
          ≡ map token_event seen ++ done_event ∷ [])
unfolding event_stream finish_stream decode
event_stream-decoded here leaves seen t rest ending exc h stays stays' left =
    let whole = read-tokens seen (done_frame ++ []) h ∙ rw read-done refl in
    let together = concat-append (map token_frame seen) (done_frame ∷ []) in
    (
      rw (token_frames-Stays here seen stays, together) whole,
      rw (token_frames-Stays here seen stays, ← append-nil (concat (map token_frame seen)))
          (read-tokens seen [] h ∙ append-nil (map token_event seen)),
      rw (token_frames-leaves leaves seen t rest stays' left, together) whole,
    )
