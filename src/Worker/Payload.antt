-- ===== src/Worker/Payload.antt =====
-- The payload of a job (packages/core/src/anime_core/jobs.py): a dict of JSON values, of which the
-- handlers read numbers and texts.
use anime_recommendation_eng.Base.{Option, none, some, List, [], ◌∷◌, if◌then◌else◌}
use anime_recommendation_eng.Base.Int.{ℤ}
use anime_recommendation_eng.Base.Text.{Text, text_eq}

pub data Value : Type 0 where
  int : ℤ → Value
  text : Text → Value
  null : Value

abbrev pub Payload : Type 0
Payload = List (Text × Value)

-- `payload.get(key)`, `none` where the key is missing
abbrev pub get : Text → Payload → Option Value
get key [] = none
get key ((k, v) ∷ p) = if text_eq k key then some v else get key p
