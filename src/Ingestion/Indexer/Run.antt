-- ===== src/Ingestion/Indexer/Run.antt =====
-- Whole runs of the indexer (packages/ingestion/src/anime_ingestion/indexer.py).
use anime_recommendation_eng.Base.{
  ℕ, ◌≡◌, ap, ◌∙◌, Bool, true, ◌==◌, List, map, length, elem, keep, if◌then◌else◌, arith,
}
use anime_recommendation_eng.Base.Action.{Slot, ok, pure}
use anime_recommendation_eng.Base.Text.{Unicode}
use anime_recommendation_eng.Ingestion.{Anime, AnimeChunk}
use anime_recommendation_eng.Ingestion.Indexer.{
  ChunkRow, Index, Embedder, Stats, latency_probe_queries, upsert_titles, all_chunks, rows_of,
  rebuild_chunks, probe, ingest,
}
use anime_recommendation_eng.Ingestion.Indexer.Rebuild.{
  chunk_of, rebuild_chunks-kept, rows_of-Within, ids-Within,
}
use anime_recommendation_eng.Ingestion.Indexer.Titles.{
  title_at, last_of, upsert_titles-at, elem-all_chunks,
}

module _ {W S V : Type 0} (u : Unicode) (index : Slot W (Index S V)) (embedder : Embedder W V)
    (animes : List (Anime S)) (vectors : List V) where
  abbrev pub chunks : List (AnimeChunk S)
  chunks = all_chunks u animes

  abbrev pub new_rows : List (ChunkRow S V)
  new_rows = rows_of embedder.model chunks vectors

  -- The tables that a run leaves behind, from those that it finds.
  abbrev pub rebuilt : Index S V → Index S V
  rebuilt i = record {
    titles = upsert_titles animes i.titles;
    chunks = rebuild_chunks (map (λ c. c.mal_id) chunks) new_rows i.chunks;
  }

  abbrev pub stats : ℕ → Stats
  stats tokens = record {
    anime_count = length animes;
    chunk_count = length chunks;
    embed_total_tokens = tokens;
  }

  module _ (measure : Bool) (tokens : ℕ) (w w1 w2 : W) (one_each : length vectors ≡ length chunks)
      (embeds : embedder.embed (map (λ c. c.text) chunks) w
        ≡ (ok (record { embeddings = vectors; total_tokens = tokens }), w1))
      (probes : (if measure then probe u index embedder latency_probe_queries else pure tt) w1
        ≡ (ok tt, w2))
      (unmoved : index.read w2 ≡ index.read w) where
    ingest-run :
        ingest u index embedder measure (ok animes) w
        ≡ (ok (stats tokens), index.write (rebuilt (index.read w)) w2)
    unfolding ingest
    ingest-run =
        let equal : (length vectors == length chunks) ≡ true = ground (arith, one_each) in
        rw (embeds, equal, probes)
          (ap (λ i. (ok (stats tokens), index.write (rebuilt i) w2)) unmoved)

    pub ingest-read :
        index.read (ingest u index embedder measure (ok animes) w).1 ≡ rebuilt (index.read w)
    ingest-read = rw ingest-run (index.read-write (rebuilt (index.read w)) w2)

    -- A run with one vector for each chunk, whose embedder leaves the tables as they are, succeeds
    -- and counts what it wrote. For every id, the title that is looked up is then the last anime of
    -- the run with this id, or the old title if there is none, and the chunks are exactly those of
    -- the run, with its vectors, if the run has an anime with the id, and the old ones otherwise.
    pub ingest-rebuilds :
        let after = ingest u index embedder measure (ok animes) w in
        let found = index.read w in
        (after.0 ≡ ok (stats tokens))
        × ((id : ℕ)
            → (title_at id (index.read after.1).titles
                ≡ last_of id animes (title_at id found.titles))
              × (keep (chunk_of id) (index.read after.1).chunks
                  ≡ keep
                      (chunk_of id)
                      (if elem id (map (λ a. a.mal_id) animes) then new_rows else found.chunks)))
    ingest-rebuilds =
        let found = index.read w in
        let ids = map (λ c. c.mal_id) chunks in
        let within = rows_of-Within embedder.model ids chunks vectors (ids-Within chunks) in
        (
          ap (λ r. r.0) ingest-run,
          λ id. (
            ap (λ i. title_at id i.titles) ingest-read ∙ upsert_titles-at id animes found.titles,
            ap (λ i. keep (chunk_of id) i.chunks) ingest-read
                ∙ rebuild_chunks-kept ids id new_rows found.chunks within
                ∙ ap (λ b. keep (chunk_of id) (if b then new_rows else found.chunks))
                    (elem-all_chunks u id animes),
          ),
        )
