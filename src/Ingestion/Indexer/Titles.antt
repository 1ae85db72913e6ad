-- ===== src/Ingestion/Indexer/Titles.antt =====
-- The titles that a run of the indexer leaves behind (packages/ingestion/src/anime_ingestion/indexer.py).
use anime_recommendation_eng.Base.{
  ℕ, suc, ◌≡◌, ◌≤◌, refl, ap, ◌∙◌, inl, inr, false, ◌||◌, ◌==◌, Option, none, some, List, [], ◌∷◌,
  ◌++◌, map, concat, length, elem, if◌then◌else◌, Bool-cases, arith,
}
use anime_recommendation_eng.Base.Text.{Unicode}
use anime_recommendation_eng.Ingestion.{Anime, AnimeChunk, chunk_anime}
use anime_recommendation_eng.Ingestion.Chunks.{Indexed, chunk_anime-Indexed}
use anime_recommendation_eng.Ingestion.Indexer.{upsert_title, upsert_titles, all_chunks}

module _ {S : Type 0} where
  -- `SELECT … FROM anime_titles WHERE mal_id = id`
  abbrev pub title_at : ℕ → List (Anime S) → Option (Anime S)
  title_at id [] = none
  title_at id (t ∷ ts) = if t.mal_id == id then some t else title_at id ts

  -- The last of the anime with the id, or else the given one.
  abbrev pub last_of : ℕ → List (Anime S) → Option (Anime S) → Option (Anime S)
  last_of id [] old = old
  last_of id (a ∷ animes) old = last_of id animes (if a.mal_id == id then some a else old)

  upsert_title-at :
      (id : ℕ) (a : Anime S) (ts : List (Anime S))
      → title_at id (upsert_title a ts) ≡ (if a.mal_id == id then some a else title_at id ts)
  unfolding upsert_title
  upsert_title-at id a [] = refl
  upsert_title-at id a (t ∷ ts) = elim (Bool-cases (t.mal_id == a.mal_id)) [
    | inl same ↦
        let e : t.mal_id ≡ a.mal_id = ground (arith, same) in
        rw same (elim (Bool-cases (a.mal_id == id)) [
          | inl hit ↦ rw hit refl
          | inr miss ↦ let gone : (t.mal_id == id) ≡ false = rw e miss in rw (miss, gone) refl
        ])
    | inr apart ↦ rw apart (elim (Bool-cases (t.mal_id == id)) [
      | inl hit ↦
          let other : (a.mal_id == id) ≡ false = ground (arith, apart, hit) in rw (hit, other) refl
      | inr miss ↦ rw miss (upsert_title-at id a ts)
    ])
  ]

  -- After the upserts, a title that is looked up is the last one of the run, and the old one if the
  -- run has none.
  pub upsert_titles-at :
      (id : ℕ) (animes ts : List (Anime S))
      → title_at id (upsert_titles animes ts) ≡ last_of id animes (title_at id ts)
  unfolding upsert_titles
  upsert_titles-at id [] ts = refl
  upsert_titles-at id (a ∷ animes) ts =
      upsert_titles-at id animes (upsert_title a ts)
      ∙ ap (last_of id animes) (upsert_title-at id a ts)

  pub last_of-twice :
      (id : ℕ) (animes : List (Anime S)) (old : Option (Anime S))
      → last_of id animes (last_of id animes old) ≡ last_of id animes old
  last_of-twice id [] old = refl
  last_of-twice id (a ∷ animes) old = elim (Bool-cases (a.mal_id == id)) [
    | inl hit ↦ rw hit refl
    | inr miss ↦ rw miss (last_of-twice id animes old)
  ]

module _ {S : Type 0} (u : Unicode) where
  elem-append :
      (id : ℕ) (cs ds : List (AnimeChunk S))
      → elem id (map (λ c. c.mal_id) (cs ++ ds))
        ≡ (elem id (map (λ c. c.mal_id) cs) || elem id (map (λ c. c.mal_id) ds))
  elem-append id [] ds = refl
  elem-append id (c ∷ cs) ds = elim (Bool-cases (id == c.mal_id)) [
    | inl hit ↦ rw hit refl
    | inr miss ↦ rw miss (elem-append id cs ds)
  ]

  none-Indexed :
      (a : Anime S) (id n i : ℕ) (cs : List (AnimeChunk S))
      → Indexed u a n i cs
      → (id == a.mal_id) ≡ false
      → elem id (map (λ c. c.mal_id) cs) ≡ false
  none-Indexed a id n i [] h miss = refl
  none-Indexed a id n i (c ∷ cs) h miss = rw (h.0, miss) (none-Indexed a id n (suc i) cs h.4 miss)

  elem-Indexed :
      (a : Anime S) (id n i : ℕ) (cs : List (AnimeChunk S))
      → 1 ≤ length cs
      → Indexed u a n i cs
      → elem id (map (λ c. c.mal_id) cs) ≡ (id == a.mal_id)
  elem-Indexed a id n i [] full h = absurd (omega (arith, full))
  elem-Indexed a id n i (c ∷ cs) full h = elim (Bool-cases (id == a.mal_id)) [
    | inl hit ↦ rw (h.0, hit) refl
    | inr miss ↦ rw (h.0, miss) (none-Indexed a id n (suc i) cs h.4 miss)
  ]

  -- Each anime of the run has a chunk, and each chunk is of an anime of the run.
  pub elem-all_chunks :
      (id : ℕ) (animes : List (Anime S))
      → elem id (map (λ c. c.mal_id) (all_chunks u animes)) ≡ elem id (map (λ a. a.mal_id) animes)
  unfolding all_chunks
  elem-all_chunks id [] = refl
  elem-all_chunks id (a ∷ animes) =
      let chunks = chunk_anime u a in
      let numbered = chunk_anime-Indexed u a in
      elem-append id chunks (concat (map (chunk_anime u) animes))
      ∙ rw
          (
            elem-Indexed a id (length chunks) 0 chunks numbered.0 numbered.1,
            elem-all_chunks id animes,
          )
          refl
