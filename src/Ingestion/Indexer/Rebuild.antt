-- ===== src/Ingestion/Indexer/Rebuild.antt =====
-- A run of the indexer rebuilds its anime (packages/ingestion/src/anime_ingestion/indexer.py).
use mathlib.Core.List.{append-nil}
use anime_recommendation_eng.Base.{
  ℕ, ◌≡◌, refl, ap, ◌∙◌, inl, inr, Bool, true, false, not, ◌==◌, List, [], ◌∷◌, ◌++◌, map, elem,
  keep, if◌then◌else◌, Bool-cases, All, arith,
}
use anime_recommendation_eng.Base.Text.{Text}
use anime_recommendation_eng.Ingestion.{AnimeChunk}
use anime_recommendation_eng.Ingestion.Indexer.{ChunkRow, rows_of, rebuild_chunks}

module _ {S V : Type 0} where
  abbrev pub chunk_of : ℕ → ChunkRow S V → Bool
  chunk_of id r = r.chunk.mal_id == id

  -- The row belongs to a run with these ids.
  abbrev pub Within : List ℕ → ChunkRow S V → Type 0
  Within ids r = elem r.chunk.mal_id ids ≡ true

  keep-append :
      (p : ChunkRow S V → Bool) (xs ys : List (ChunkRow S V))
      → keep p (xs ++ ys) ≡ keep p xs ++ keep p ys
  keep-append p [] ys = refl
  keep-append p (x ∷ xs) ys = elim (Bool-cases (p x)) [
    | inl hit ↦ rw hit (ap (λ t. x ∷ t) (keep-append p xs ys))
    | inr miss ↦ rw miss (keep-append p xs ys)
  ]

  abbrev outside : List ℕ → ChunkRow S V → Bool
  outside ids r = not (elem r.chunk.mal_id ids)

  keep-outside-Within :
      (ids : List ℕ) (rows : List (ChunkRow S V))
      → All (Within ids) rows
      → keep (outside ids) rows ≡ []
  keep-outside-Within ids [] h = refl
  keep-outside-Within ids (r ∷ rs) h = rw h.0 (keep-outside-Within ids rs h.1)

  keep-outside-twice :
      (ids : List ℕ) (rows : List (ChunkRow S V))
      → keep (outside ids) (keep (outside ids) rows) ≡ keep (outside ids) rows
  keep-outside-twice ids [] = refl
  keep-outside-twice ids (r ∷ rs) = elim (Bool-cases (elem r.chunk.mal_id ids)) [
    | inl inside ↦ rw inside (keep-outside-twice ids rs)
    | inr other ↦ rw other (rw other (ap (λ t. r ∷ t) (keep-outside-twice ids rs)))
  ]

  pub rebuild_chunks-twice :
      (ids : List ℕ) (rows table : List (ChunkRow S V))
      → All (Within ids) rows
      → rebuild_chunks ids rows (rebuild_chunks ids rows table) ≡ rebuild_chunks ids rows table
  unfolding rebuild_chunks
  rebuild_chunks-twice ids rows table h =
      rw
        (
          keep-append (outside ids) (keep (outside ids) table) rows,
          keep-outside-Within ids rows h,
          keep-outside-twice ids table,
          append-nil (keep (outside ids) table),
        )
        refl

  -- The chunks of one anime: those of the run, or those that were there.
  keep_id-outside :
      (ids : List ℕ) (id : ℕ) (rows : List (ChunkRow S V))
      → keep (chunk_of id) (keep (outside ids) rows)
        ≡ (if elem id ids then [] else keep (chunk_of id) rows)
  keep_id-outside ids id [] = ground arith
  keep_id-outside ids id (r ∷ rs) =
      let rest = keep_id-outside ids id rs in
      elim (Bool-cases (r.chunk.mal_id == id)) [
        | inl same ↦
            let e : r.chunk.mal_id ≡ id = ground (arith, same) in
            elim (Bool-cases (elem id ids)) [
              | inl inside ↦
                  let there : elem r.chunk.mal_id ids ≡ true = rw e inside in
                  rw (there, inside) (rest ∙ rw inside refl)
              | inr other ↦
                  let away : elem r.chunk.mal_id ids ≡ false = rw e other in
                  rw (away, other) (rw same (ap (λ t. r ∷ t) (rest ∙ rw other refl)))
            ]
        | inr apart ↦ elim (Bool-cases (elem r.chunk.mal_id ids)) [
          | inl inside ↦ rw (inside, apart) rest
          | inr other ↦ rw (other, apart) rest
        ]
      ]

  keep_id-Within :
      (ids : List ℕ) (id : ℕ) (rows : List (ChunkRow S V))
      → All (Within ids) rows
      → elem id ids ≡ false
      → keep (chunk_of id) rows ≡ []
  keep_id-Within ids id [] h out = refl
  keep_id-Within ids id (r ∷ rs) h out = elim (Bool-cases (r.chunk.mal_id == id)) [
    | inl same ↦
        let e : r.chunk.mal_id ≡ id = ground (arith, same) in cc (out, h.0, ap (λ i. elem i ids) e)
    | inr apart ↦ rw apart (keep_id-Within ids id rs h.1 out)
  ]

  -- Of the rows of one anime: after the rebuild they are those of the run, if it is one of the run,
  -- and the old ones otherwise.
  pub rebuild_chunks-kept :
      (ids : List ℕ) (id : ℕ) (rows table : List (ChunkRow S V))
      → All (Within ids) rows
      → keep (chunk_of id) (rebuild_chunks ids rows table)
        ≡ keep (chunk_of id) (if elem id ids then rows else table)
  unfolding rebuild_chunks
  rebuild_chunks-kept ids id rows table h =
      rw (keep-append (chunk_of id) (keep (outside ids) table) rows, keep_id-outside ids id table)
        elim (Bool-cases (elem id ids)) [
          | inl inside ↦ rw inside refl
          | inr other ↦
              rw other
                (rw (keep_id-Within ids id rows h other) (append-nil (keep (chunk_of id) table)))
        ]

  pub rows_of-Within :
      (model : Text) (ids : List ℕ) (chunks : List (AnimeChunk S)) (vectors : List V)
      → All (λ c. elem c.mal_id ids ≡ true) chunks
      → All (Within ids) (rows_of model chunks vectors)
  unfolding rows_of
  rows_of-Within model ids [] vs h = tt
  rows_of-Within model ids (c ∷ cs) [] h = tt
  rows_of-Within model ids (c ∷ cs) (v ∷ vs) h = (h.0, rows_of-Within model ids cs vs h.1)

module _ {S : Type 0} where
  elem_later :
      (id : ℕ) (ids : List ℕ) (cs : List (AnimeChunk S))
      → All (λ c. elem c.mal_id ids ≡ true) cs
      → All (λ c. elem c.mal_id (id ∷ ids) ≡ true) cs
  elem_later id ids [] h = tt
  elem_later id ids (c ∷ cs) h = (rw h.0 (ground arith), elem_later id ids cs h.1)

  pub ids-Within :
      (cs : List (AnimeChunk S)) → All (λ c. elem c.mal_id (map (λ d. d.mal_id) cs) ≡ true) cs
  ids-Within [] = tt
  ids-Within (c ∷ cs) =
      (ground arith, elem_later c.mal_id (map (λ d. d.mal_id) cs) cs (ids-Within cs))
