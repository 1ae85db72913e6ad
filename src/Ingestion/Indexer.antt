-- ===== src/Ingestion/Indexer.antt =====
-- The indexer (packages/ingestion/src/anime_ingestion/indexer.py) over the tables anime_titles and
-- anime_chunks (packages/core/src/anime_core/db/models.py). A statement of SQL is the function on the
-- tables that it stands for. The numbers of the rows and the latencies are left out; the calls of the
-- embedder that measure a latency are made.
pub mod Rebuild
pub mod Titles
pub mod Run
pub mod Again
mod Tests
use anime_recommendation_eng.Base.{
  ℕ, Bool, true, false, not, ◌==◌, Option, none, some, List, [], ◌∷◌, ◌++◌, map, concat, length,
  elem, keep, if◌then◌else◌,
}
use anime_recommendation_eng.Base.Action.{
  Action, Slot, Exc, Outcome, ok, runtime_error, pure, raise, ◌>>=◌, ◌>>◌,
}
use anime_recommendation_eng.Base.Text.{Text, Unicode, codes, decimal}
use anime_recommendation_eng.Core.Embedder.{EmbedResult}
use anime_recommendation_eng.Ingestion.{Anime, AnimeChunk, chunk_anime}

-- A row of anime_chunks. The chunk holds its metadata.
pub record ChunkRow (S V : Type 0) : Type 0 where
  pub chunk : AnimeChunk S
  pub embedding : V
  pub embedding_model : Text

pub record Index (S V : Type 0) : Type 0 where
  pub titles : List (Anime S)
  pub chunks : List (ChunkRow S V)

pub record Embedder (W V : Type 0) : Type 0 where
  pub embed : List Text → Action W (EmbedResult V)
  pub model : Text

pub record Stats : Type 0 where
  pub anime_count : ℕ
  pub chunk_count : ℕ
  pub embed_total_tokens : ℕ

-- `_LATENCY_PROBE_QUERIES`
abbrev pub latency_probe_queries : List Text
latency_probe_queries =
    codes "light hearted school anime"
    ∷ codes "psychological thriller with a twist"
    ∷ codes "samurai action with humor"
    ∷ codes "slice of life cooking show"
    ∷ codes "isekai with overpowered protagonist"
    ∷ codes "romance high school drama"
    ∷ codes "mecha post-apocalyptic survival"
    ∷ codes "sports underdog story"
    ∷ codes "supernatural mystery investigation"
    ∷ codes "comedy with strong female lead"
    ∷ []

abbrev pub count_error : ℕ → ℕ → Exc
count_error embeddings chunks = record {
  kind = runtime_error;
  message =
      codes "Embedding count "
      ++ (decimal embeddings ++ (codes " != chunk count " ++ decimal chunks));
}

module _ {S : Type 0} where
  -- `INSERT … ON CONFLICT (mal_id) DO UPDATE SET name, score, genres, synopsis`
  unfoldable pub upsert_title : Anime S → List (Anime S) → List (Anime S)
  upsert_title a [] = a ∷ []
  upsert_title a (t ∷ ts) = if t.mal_id == a.mal_id then a ∷ ts else t ∷ upsert_title a ts

  unfoldable pub upsert_titles : List (Anime S) → List (Anime S) → List (Anime S)
  unfolding upsert_title
  upsert_titles [] titles = titles
  upsert_titles (a ∷ animes) titles = upsert_titles animes (upsert_title a titles)

  unfoldable pub all_chunks : Unicode → List (Anime S) → List (AnimeChunk S)
  unfolding chunk_anime
  all_chunks u animes = concat (map (chunk_anime u) animes)

  module _ {V : Type 0} where
    -- `zip(chunks, embeddings, strict=True)`, of lists that are equally long
    unfoldable pub rows_of : Text → List (AnimeChunk S) → List V → List (ChunkRow S V)
    rows_of model (c ∷ chunks) (v ∷ vectors) =
        record { chunk = c; embedding = v; embedding_model = model } ∷ rows_of model chunks vectors
    rows_of model _ _ = []

    -- `DELETE … WHERE mal_id IN mal_ids`, and the insertions
    unfoldable pub rebuild_chunks :
        List ℕ → List (ChunkRow S V) → List (ChunkRow S V) → List (ChunkRow S V)
    rebuild_chunks mal_ids rows table = keep (λ r. not (elem r.chunk.mal_id mal_ids)) table ++ rows

    module _ {W : Type 0} (u : Unicode) (index : Slot W (Index S V)) (embedder : Embedder W V) where
      unfoldable pub probe : List Text → Action W (Unit {0})
      probe [] = pure tt
      probe (q ∷ queries) = embedder.embed (q ∷ []) >> probe queries

      abbrev pub write_index : List (Anime S) → List (AnimeChunk S) → EmbedResult V → Action W Stats
      write_index animes chunks result w =
          let rows = rows_of embedder.model chunks result.embeddings in
          let i = index.read w in
          (
            ok (record {
              anime_count = length animes;
              chunk_count = length chunks;
              embed_total_tokens = result.total_tokens;
            }),
            index.write
                (record {
                  titles = upsert_titles animes i.titles;
                  chunks = rebuild_chunks (map (λ c. c.mal_id) chunks) rows i.chunks;
                })
                w,
          )

      abbrev pub with_embeddings :
          Bool → List (Anime S) → List (AnimeChunk S) → EmbedResult V → Action W Stats
      with_embeddings measure animes chunks result =
          if length result.embeddings == length chunks
          then (if measure then probe latency_probe_queries else pure tt)
            >> write_index animes chunks result
          else raise (count_error (length result.embeddings) (length chunks))

      abbrev pub of_animes : Bool → List (Anime S) → Action W Stats
      of_animes measure animes =
          embedder.embed (map (λ c. c.text) (all_chunks u animes))
          >>= with_embeddings measure animes (all_chunks u animes)

      abbrev pub loaded : Outcome (List (Anime S)) → Action W (List (Anime S))
      loaded animes w = (animes, w)

      -- `ingest`, of what `load_anime_csv` gives
      unfoldable pub ingest : Bool → Outcome (List (Anime S)) → Action W Stats
      unfolding probe all_chunks rows_of rebuild_chunks upsert_titles
      ingest measure_per_query_latency animes =
          loaded animes >>= of_animes measure_per_query_latency
