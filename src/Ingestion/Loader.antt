-- ===== src/Ingestion/Loader.antt =====
-- The loader of the corpus (packages/ingestion/src/anime_ingestion/loader.py). What pandas reads is an
-- argument: the columns' names, and the rows, with `none` for a missing cell. The type of a score is a
-- parameter.
use anime_recommendation_eng.Base.{
  ℕ, Bool, not, ◌&&◌, ◌==◌, Option, none, some, List, [], ◌∷◌, ◌++◌, map, any, keep, is_empty,
  is_some, if◌then◌else◌,
}
use anime_recommendation_eng.Base.Action.{Outcome, ok, raised, cancelled, value_error}
use anime_recommendation_eng.Base.Text.{Text, Unicode, codes, strip, text_eq, join}
use anime_recommendation_eng.Ingestion.{Anime}

pub record CsvRow (S : Type 0) : Type 0 where
  pub mal_id : ℕ
  pub name : Option Text
  pub score : Option S
  pub genres : Option Text
  pub sypnopsis : Option Text

pub record Frame (S : Type 0) : Type 0 where
  pub columns : List Text
  pub rows : List (CsvRow S)

-- `REQUIRED_COLUMNS`, sorted
abbrev pub required_columns : List Text
required_columns =
    codes "Genres" ∷ codes "MAL_ID" ∷ codes "Name" ∷ codes "Score" ∷ codes "sypnopsis" ∷ []

abbrev pub prepend : ℕ → List Text → List Text
prepend c [] = (c ∷ []) ∷ []
prepend c (t ∷ ts) = (c ∷ t) ∷ ts

-- `s.split(",")`
unfoldable pub split_commas : Text → List Text
split_commas [] = [] ∷ []
split_commas (c ∷ s) = let rest = split_commas s in if c == b',' then [] ∷ rest else prepend c rest

abbrev pub or_empty : Option Text → Text
or_empty none = []
or_empty (some t) = t

abbrev pub missing_columns : List Text → List Text
missing_columns columns = keep (λ c. not (any (text_eq c) columns)) required_columns

-- `str(names)`, of a list of names without quotes in them
abbrev pub list_text : List Text → Text
list_text names =
    codes "[" ++ (join (codes ", ") (map (λ n. codes "'" ++ (n ++ codes "'")) names) ++ codes "]")

unfoldable pub genres_of : Unicode → Option Text → List Text
unfolding split_commas
genres_of u none = []
genres_of u (some raw) = keep (λ g. not (is_empty g)) (map (strip u) (split_commas raw))

module _ (u : Unicode) {S : Type 0} where
  abbrev pub anime_of : CsvRow S → Anime (Option S)
  anime_of r = record {
    mal_id = r.mal_id;
    name = strip u (or_empty r.name);
    score = r.score;
    genres = genres_of u r.genres;
    synopsis = strip u (or_empty r.sypnopsis);
  }

  -- `df.dropna(subset=["Name", "sypnopsis"])`
  abbrev pub complete : CsvRow S → Bool
  complete r = is_some r.name && is_some r.sypnopsis

  abbrev pub animes_of : Frame S → Outcome (List (Anime (Option S)))
  animes_of df =
      if is_empty (missing_columns df.columns)
      then ok (map anime_of (keep complete df.rows))
      else raised (record {
        kind = value_error;
        message = codes "CSV missing required columns: " ++ list_text (missing_columns df.columns);
      })

  abbrev pub of_frame : Outcome (Frame S) → Outcome (List (Anime (Option S)))
  of_frame (ok df) = animes_of df
  of_frame (raised e) = raised e
  of_frame cancelled = cancelled

  -- `load_anime_csv`
  unfoldable pub load_anime_csv :
      (Text → Outcome (Frame S)) → Text → Outcome (List (Anime (Option S)))
  unfolding genres_of join
  load_anime_csv read_csv path = of_frame (read_csv path)
