-- ===== src/Eval/Dict.antt =====
-- Names and dictionaries, as packages/eval/src/anime_eval/compare.py uses them.
use anime_recommendation_eng.Base.{
  Bool, true, false, Option, none, some, List, [], ◌∷◌, map, any, if◌then◌else◌, ltb, ◌==◌,
}
use anime_recommendation_eng.Base.Text.{Text, text_eq}

-- `name in names`
abbrev pub has : Text → List Text → Bool
has name names = any (text_eq name) names

module _ {F : Type 0} where
  -- `d.get(name)`, of a dictionary as the list of its entries
  abbrev pub lookup : Text → List (Text × F) → Option F
  lookup name [] = none
  lookup name ((k, v) ∷ d) = if text_eq name k then some v else lookup name d

  abbrev pub keys : List (Text × F) → List Text
  keys d = map (λ e. e.0) d

  abbrev pub in_dict : Text → List (Text × F) → Bool
  in_dict name d = has name (keys d)

-- `s <= t` of texts
abbrev pub text_leb : Text → Text → Bool
text_leb [] t = true
text_leb (a ∷ s) [] = false
text_leb (a ∷ s) (b ∷ t) = if a == b then text_leb s t else ltb a b

unfoldable pub insert_name : Text → List Text → List Text
insert_name n [] = n ∷ []
insert_name n (m ∷ ms) = if text_leb n m then n ∷ m ∷ ms else m ∷ insert_name n ms

-- `sorted(names)`
unfoldable pub sorted : List Text → List Text
unfolding insert_name
sorted [] = []
sorted (n ∷ ns) = insert_name n (sorted ns)

-- A row in front of the others, where there is one.
abbrev pub prepend_row : {B : Type 0} → Option B → List B → List B
prepend_row none rows = rows
prepend_row (some y) rows = y ∷ rows

-- `[g(x) for x in xs if …]`, where g gives nothing for an x that is passed over.
abbrev pub collect : {A B : Type 0} → (A → Option B) → List A → List B
collect g [] = []
collect g (x ∷ xs) = prepend_row (g x) (collect g xs)

-- What is made of two values, where both are there.
abbrev pub of_both : {F B : Type 0} → (F → F → B) → Option F → Option F → Option B
of_both k (some b) (some c) = some (k b c)
of_both k none c = none
of_both k (some b) none = none
