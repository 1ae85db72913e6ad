-- ===== src/Ingestion/Indexer/Tests.antt =====
-- Tests of the loader and the indexer. The world is the pair of tables; a vector is the length of its
-- text.
use anime_recommendation_eng.Base.{
  ℕ, ◌≡◌, refl, false, none, some, List, [], ◌∷◌, map, length, elem, keep, if◌then◌else◌,
}
use anime_recommendation_eng.Base.Action.{Slot, ok, raised, value_error}
use anime_recommendation_eng.Base.Text.{codes, latin, join}
use anime_recommendation_eng.Ingestion.{Anime, chunk_anime}
use anime_recommendation_eng.Ingestion.Loader.{CsvRow, genres_of, split_commas, load_anime_csv}
use anime_recommendation_eng.Ingestion.Indexer.{Index, Embedder, ingest, all_chunks}
use anime_recommendation_eng.Ingestion.Indexer.Rebuild.{chunk_of}
use anime_recommendation_eng.Ingestion.Indexer.Titles.{title_at, last_of}
use anime_recommendation_eng.Ingestion.Indexer.Run.{ingest-rebuilds, stats, new_rows}
use anime_recommendation_eng.Ingestion.Indexer.Again.{ingest-idempotent, Same}

splits_genres :
    genres_of latin (some (codes "Drama, ,Mystery ")) ≡ codes "Drama" ∷ codes "Mystery" ∷ []
unfolding genres_of split_commas
splits_genres = refl

abbrev no_rows : List (CsvRow ℕ)
no_rows = []

misses_a_column :
    load_anime_csv latin
      (λ path. ok (record {
        columns = codes "MAL_ID" ∷ codes "Name" ∷ codes "Score" ∷ codes "synopsis" ∷ [];
        rows = no_rows;
      }))
      (codes "anime.csv")
    ≡ raised (record {
      kind = value_error;
      message = codes "CSV missing required columns: ['Genres', 'sypnopsis']";
    })
unfolding load_anime_csv genres_of join
misses_a_column = refl

abbrev tables : Slot (Index ℕ ℕ) (Index ℕ ℕ)
tables = record {
  read = λ i. i;
  write = λ i j. i;
  read-write = λ i j. refl;
  write-read = λ j. refl;
  write-write = λ i j k. refl;
}

abbrev by_length : Embedder (Index ℕ ℕ) ℕ
by_length = record {
  embed =
      λ texts w. (ok (record { embeddings = map length texts; total_tokens = length texts }), w);
  model = codes "by-length";
}

abbrev monster : Anime ℕ
monster = record {
  mal_id = 19;
  name = codes "Monster";
  score = 8;
  genres = codes "Drama" ∷ [];
  synopsis = codes "A surgeon.";
}

-- The second entry has the id of the first one.
abbrev two : List (Anime ℕ)
two = monster ∷ record monster { score = 9 } ∷ []

abbrev empty : Index ℕ ℕ
empty = record { titles = []; chunks = [] }

abbrev vectors : List ℕ
vectors = map length (map (λ c. c.text) (all_chunks latin two))

abbrev filled : Index ℕ ℕ
filled = (ingest latin tables by_length false (ok two) empty).1

abbrev tokens : ℕ
tokens = length (map (λ c. c.text) (all_chunks latin two))

one_each : length vectors ≡ length (all_chunks latin two)
unfolding all_chunks chunk_anime
one_each = refl

ingest-rebuilds_example :
    let after = ingest latin tables by_length false (ok two) empty in
    (after.0 ≡ ok (stats latin tables by_length two vectors tokens))
    × ((id : ℕ)
        → (title_at id after.1.titles ≡ last_of id two none)
          × (keep (chunk_of id) after.1.chunks
              ≡ keep (chunk_of id) (
                  if elem id (map (λ a. a.mal_id) two)
                  then new_rows latin tables by_length two vectors
                  else [])))
ingest-rebuilds_example =
    ingest-rebuilds latin tables by_length two vectors false tokens empty empty empty one_each refl
      refl refl

ingest-idempotent_example : Same (ingest latin tables by_length false (ok two) filled).1 filled
ingest-idempotent_example =
    ingest-idempotent latin tables by_length two vectors one_each false false tokens tokens empty
      empty empty filled filled filled refl refl refl refl refl refl refl
