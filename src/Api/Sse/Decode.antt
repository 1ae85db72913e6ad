-- ===== src/Api/Sse/Decode.antt =====
-- A client's reading of a text/event-stream, as the HTML standard describes it: lines end with LF, CR
-- or both; an empty line dispatches the event that the `event` and `data` fields before it have built.
-- The stream of packages/core/src/anime_core/streaming.py is read by it.
use anime_recommendation_eng.Base.{
  Bool, true, false, ◌==◌, List, [], ◌∷◌, ◌++◌, is_empty, if◌then◌else◌,
}
use anime_recommendation_eng.Base.Text.{Text, codes, text_eq}

pub record Event : Type 0 where
  pub type : Text
  pub body : Text

pub record Decoder : Type 0 where
  pub after_cr : Bool
  pub line : Text
  pub type : Text
  pub body : Text

abbrev pub start : Decoder
start = record { after_cr = false; line = []; type = []; body = [] }

-- "If value starts with a U+0020 SPACE character, remove it."
abbrev pub unspace : Text → Text
unspace [] = []
unspace (c ∷ s) = if c == b' ' then s else c ∷ s

-- The name of a field and its value; `name` is what stands before.
unfoldable pub field_of : Text → Text → Text × Text
field_of name [] = (name, [])
field_of name (c ∷ s) =
    let more = field_of (name ++ c ∷ []) s in if c == b':' then (name, unspace s) else more

unfoldable pub on_field : Text × Text → Decoder → Decoder
on_field (name, value) d =
    if text_eq name (codes "event")
    then record d { type = value; line = [] }
    else if text_eq name (codes "data")
    then record d { body = d.body ++ (value ++ b'\n' ∷ []); line = [] }
    else record d { line = [] }

-- All but the last character.
unfoldable pub init_of : Text → Text
init_of [] = []
init_of (c ∷ []) = []
init_of (c ∷ c' ∷ s) = c ∷ init_of (c' ∷ s)

abbrev pub type_of : Text → Text
type_of type = if is_empty type then codes "message" else type

-- An event with no data is dropped.
unfoldable pub dispatched : Decoder → List Event
unfolding init_of
dispatched d =
    if is_empty d.body then [] else record { type = type_of d.type; body = init_of d.body } ∷ []

-- A line that has ended: the events that it dispatches, and the decoder behind it.
unfoldable pub on_line : Text → Decoder → List Event × Decoder
unfolding field_of on_field dispatched
on_line [] d = (dispatched d, record d { line = []; type = []; body = [] })
on_line (c ∷ s) d = ([], on_field (field_of [] (c ∷ s)) d)

unfoldable pub read : Text → Decoder → List Event
unfolding on_line
read [] d = []
read (c ∷ s) d =
    let ended = on_line d.line d in
    let skipped = read s (record d { after_cr = false }) in
    let at_lf = ended.0 ++ read s (record (ended.1) { after_cr = false }) in
    let at_cr = ended.0 ++ read s (record (ended.1) { after_cr = true }) in
    let more = read s (record d { after_cr = false; line = d.line ++ c ∷ [] }) in
    if c == b'\n'
    then (if d.after_cr then skipped else at_lf)
    else (if c == b'\r' then at_cr else more)

unfoldable pub decode : Text → List Event
unfolding read
decode s = read s start
