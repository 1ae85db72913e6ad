-- ===== src/Retrieval/Catalog.antt =====
-- The catalogue of titles (packages/retrieval/src/anime_retrieval/catalog.py). The patterns that find
-- a named title and split it, Unicode's folding, the quotient of two counts, and the ratio of
-- `difflib` are arguments.
pub mod Missing
mod Tests
use anime_recommendation_eng.Base.{
  ℕ, Bool, true, false, not, ◌&&◌, ◌||◌, ◌==◌, Option, none, some, List, [], ◌∷◌, ◌++◌, map, any,
  keep, reverse, length, is_empty, leb, if◌then◌else◌,
}
use anime_recommendation_eng.Base.Action.{Action, Exc, Outcome, pure, catch, ◌>>=◌}
use anime_recommendation_eng.Base.Float.{FloatOps}
use anime_recommendation_eng.Base.Text.{Text, Unicode, codes, strip, text_eq}

-- `_STOPWORDS`
abbrev pub stopwords : List Text
stopwords =
    codes "the"
    ∷ codes "a"
    ∷ codes "an"
    ∷ codes "of"
    ∷ codes "no"
    ∷ codes "wo"
    ∷ codes "ni"
    ∷ codes "to"
    ∷ codes "and"
    ∷ codes "in"
    ∷ codes "on"
    ∷ codes "season"
    ∷ codes "movie"
    ∷ codes "tv"
    ∷ []

-- `[a-z0-9 ]`
abbrev pub is_plain : ℕ → Bool
is_plain c = (leb b'a' c && leb c b'z') || ((leb b'0' c && leb c b'9') || c == b' ')

-- `re.sub(r"…+", " ", text)`: `inside` says that the run has been replaced already.
unfoldable pub sub_runs : (ℕ → Bool) → Bool → Text → Text
sub_runs p inside [] = []
sub_runs p inside (c ∷ s) =
    let within = sub_runs p true s in
    let outside = sub_runs p false s in
    if p c then (if inside then within else b' ' ∷ within) else c ∷ outside

abbrev pub add_word : Text → List Text → List Text
add_word word words = if is_empty word then words else word ∷ words

-- `s.split()`, of a text whose only white space is the space; `word` is the word so far.
unfoldable pub words_of : Text → Text → List Text
words_of word [] = add_word word []
words_of word (c ∷ s) =
    let next = words_of [] s in
    let more = words_of (word ++ c ∷ []) s in if c == b' ' then add_word word next else more

-- A set is a list without duplicates.
abbrev pub has_text : Text → List Text → Bool
has_text t ts = any (text_eq t) ts

unfoldable pub set_of : List Text → List Text
set_of [] = []
set_of (t ∷ ts) = let rest = set_of ts in if has_text t rest then rest else t ∷ rest

-- `t.rstrip("?.!")`
abbrev pub drop_marks : Text → Text
drop_marks [] = []
drop_marks (c ∷ s) = if c == b'?' || (c == b'.' || c == b'!') then drop_marks s else c ∷ s

-- What the module takes from elsewhere: `unicodedata.normalize("NFKD", t).lower()`, group 1 of the
-- first of `_PATTERNS` that matches, `_SPLIT.split`, `SequenceMatcher(None, a, b).ratio()`, `a / b`,
-- and `MATCH_CUTOFF`.
pub record Matcher (F : Type 0) : Type 0 where
  pub fold : Text → Text
  pub named_part : Text → Option Text
  pub split_names : Text → List Text
  pub ratio : Text → Text → F
  pub quotient : ℕ → ℕ → F
  pub cutoff : F

module _ (u : Unicode) (f : FloatOps) (m : Matcher f.F) where
  -- `_normalise`. Only spaces are left of the white space, so `strip` takes off spaces.
  unfoldable pub normalise : Text → Text
  unfolding sub_runs
  normalise text =
      strip u
        (sub_runs (λ c. c == b' ') false (sub_runs (λ c. not (is_plain c)) false (m.fold text)))

  -- `_content_tokens`
  unfoldable pub content_tokens : Text → List Text
  unfolding normalise words_of set_of
  content_tokens text =
      set_of (keep (λ t. not (has_text t stopwords)) (words_of [] (normalise text)))

  abbrev pub parts_of : Option Text → List Text
  parts_of none = []
  parts_of (some part) = keep (λ t. not (is_empty t)) (map (strip u) (m.split_names part))

  unfoldable pub extract_named_titles : Text → List Text
  extract_named_titles query =
      parts_of (m.named_part (reverse (drop_marks (reverse (strip u query)))))

  -- `max(a, b)`, and `max(…, default=0.0)`
  abbrev pub max_f : f.F → f.F → f.F
  max_f a b = if f.lt a b then b else a

  abbrev pub max_from : f.F → List f.F → f.F
  max_from best [] = best
  max_from best (x ∷ xs) = max_from (max_f best x) xs

  abbrev pub max_of : List f.F → f.F
  max_of [] = f.zero_f
  max_of (x ∷ xs) = max_from x xs

  -- `len(tokens & _content_tokens(t)) / len(tokens)`
  unfoldable pub containment : List Text → Text → f.F
  unfolding content_tokens
  containment tokens t =
      m.quotient (length (keep (λ w. has_text w (content_tokens t)) tokens)) (length tokens)

  unfoldable pub similarity : Text → Text → f.F
  unfolding normalise
  similarity normalised t = m.ratio normalised (normalise t)

  -- `TitleCatalog.best_match`
  unfoldable pub best_match : List Text → Text → f.F
  unfolding containment similarity
  best_match names name =
      let tokens = content_tokens name in
      let normalised = normalise name in
      let best = max_of (map (similarity normalised) names) in
      if is_empty normalised
      then f.zero_f
      else (if is_empty tokens then best else max_f best (max_of (map (containment tokens) names)))

  -- `TitleCatalog.missing_titles`
  unfoldable pub missing_titles : List Text → Text → List Text
  unfolding best_match extract_named_titles
  missing_titles names query =
      if is_empty names
      then []
      else keep (λ n. f.lt (best_match names n) m.cutoff) (extract_named_titles query)

-- `load_catalog`: the names of the catalogue, none of them when the query fails.
unfoldable pub load_catalog : {W : Type 0} → Action W (List Text) → Action W (List Text)
load_catalog execute =
    catch (execute >>= λ rows. pure (keep (λ n. not (is_empty n)) rows)) (λ exc. pure [])
