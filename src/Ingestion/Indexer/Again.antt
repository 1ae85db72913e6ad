-- ===== src/Ingestion/Indexer/Again.antt =====
-- A second run of the indexer (packages/ingestion/src/anime_ingestion/indexer.py).
use anime_recommendation_eng.Base.{ℕ, ◌≡◌, sym, ap, ◌∙◌, Bool, List, map, length, if◌then◌else◌}
use anime_recommendation_eng.Base.Action.{Slot, ok, pure}
use anime_recommendation_eng.Base.Text.{Unicode}
use anime_recommendation_eng.Ingestion.{Anime}
use anime_recommendation_eng.Ingestion.Indexer.{
  Index, Embedder, latency_probe_queries, upsert_titles, all_chunks, probe, ingest,
}
use anime_recommendation_eng.Ingestion.Indexer.Rebuild.{
  rebuild_chunks-twice, rows_of-Within, ids-Within,
}
use anime_recommendation_eng.Ingestion.Indexer.Titles.{
  title_at, last_of, upsert_titles-at, last_of-twice,
}
use anime_recommendation_eng.Ingestion.Indexer.Run.{new_rows, rebuilt, ingest-read}

module _ {S V : Type 0} where
  -- The same rows of chunks, and the same title for every id.
  abbrev pub Same : Index S V → Index S V → Type 0
  Same i j = (i.chunks ≡ j.chunks) × ((id : ℕ) → title_at id i.titles ≡ title_at id j.titles)

module _ {W S V : Type 0} (u : Unicode) (index : Slot W (Index S V)) (embedder : Embedder W V)
    (animes : List (Anime S)) (vectors : List V)
    (one_each : length vectors ≡ length (all_chunks u animes)) where
  rebuilt-twice :
      (i : Index S V)
      → let once = rebuilt u index embedder animes vectors i in
        Same (rebuilt u index embedder animes vectors once) once
  rebuilt-twice i =
      let chunks = all_chunks u animes in
      let ids = map (λ c. c.mal_id) chunks in
      (
        rebuild_chunks-twice ids (new_rows u index embedder animes vectors) i.chunks
            (rows_of-Within embedder.model ids chunks vectors (ids-Within chunks)),
        λ id.
            upsert_titles-at id animes (upsert_titles animes i.titles)
            ∙ ap (last_of id animes) (upsert_titles-at id animes i.titles)
            ∙ last_of-twice id animes (title_at id i.titles)
            ∙ sym (upsert_titles-at id animes i.titles),
      )

  -- Two runs over the same anime with the same vectors, the second from the tables that the first
  -- one left: the second leaves the table of the chunks as it was, row for row, and each title that
  -- can be looked up. In both runs the embedder succeeds and leaves the tables as they are.
  pub ingest-idempotent :
      (measure measure' : Bool) (tokens tokens' : ℕ) (w w1 w2 v v1 v2 : W)
      (embeds : embedder.embed (map (λ c. c.text) (all_chunks u animes)) w
        ≡ (ok (record { embeddings = vectors; total_tokens = tokens }), w1))
      (probes : (if measure then probe u index embedder latency_probe_queries else pure tt) w1
        ≡ (ok tt, w2))
      (unmoved : index.read w2 ≡ index.read w)
      (embeds' : embedder.embed (map (λ c. c.text) (all_chunks u animes)) v
        ≡ (ok (record { embeddings = vectors; total_tokens = tokens' }), v1))
      (probes' : (if measure' then probe u index embedder latency_probe_queries else pure tt) v1
        ≡ (ok tt, v2))
      (unmoved' : index.read v2 ≡ index.read v)
      → let once = index.read (ingest u index embedder measure (ok animes) w).1 in
        index.read v ≡ once
        → Same (index.read (ingest u index embedder measure' (ok animes) v).1) once
  ingest-idempotent measure measure' tokens tokens' w w1 w2 v v1 v2 e p n e' p' n' left =
      let first =
        ingest-read u index embedder animes vectors measure tokens w w1 w2 one_each e p n in
      let second =
        ingest-read u index embedder animes vectors measure' tokens' v v1 v2 one_each e' p' n' in
      rw (second, left, first) (rebuilt-twice (index.read w))
