-- ===== src/Ingestion/Chunks.antt =====
-- The chunks of one anime (packages/ingestion/src/anime_ingestion/chunker.py).
use anime_recommendation_eng.Base.{
  ℕ, suc, ◌+◌, ◌≤◌, ◌≡◌, refl, sym, inl, inr, false, not, ◌&&◌, List, reverse, ltb, length-append,
  [], ◌∷◌, ◌++◌, arith, length, is_empty, Bool-cases,
}
use mathlib.Core.Path.{subst}
use anime_recommendation_eng.Base.Text.{Text, Unicode}
use anime_recommendation_eng.Ingestion.{
  no_chunks, Anime, AnimeChunk, Packing, add_sentence, add_all, flush, pack_sentences, overlap_of,
  split_sentences, header, text_pieces, chunks_from, chunk_anime, joined, target_chars,
}

is_empty-append : (buf : List Text) (s : Text) → is_empty (buf ++ s ∷ []) ≡ false
is_empty-append [] s = refl
is_empty-append (t ∷ ts) s = refl

add_sentence-full : (p : Packing) (s : Text) → is_empty (add_sentence p s).buf ≡ false
unfolding add_sentence
add_sentence-full p s =
    elim (Bool-cases (ltb target_chars (p.size + length s + 1) && not (is_empty p.buf))) [
      | inl over ↦ rw over (is_empty-append (overlap_of (reverse p.buf) [] 0).0 s)
      | inr fits ↦ rw fits (is_empty-append p.buf s)
    ]

add_all-full :
    (p : Packing) (ss : List Text) → is_empty p.buf ≡ false → is_empty (add_all p ss).buf ≡ false
unfolding add_all
add_all-full p [] h = h
add_all-full p (s ∷ ss) h = add_all-full (add_sentence p s) ss (add_sentence-full p s)

flush-some : (p : Packing) → is_empty p.buf ≡ false → 1 ≤ length (flush p)
flush-some p h = rw h (omega (arith, length-append p.chunks (joined p.buf ∷ [])))

pack_sentences-some : (ss : List Text) → is_empty ss ≡ false → 1 ≤ length (pack_sentences ss)
unfolding pack_sentences add_all
pack_sentences-some [] h = cc
pack_sentences-some (s ∷ ss) h =
    flush-some (add_all no_chunks (s ∷ ss))
      (add_all-full (add_sentence no_chunks s) ss (add_sentence-full no_chunks s))

module _ {S : Type 0} (u : Unicode) (anime : Anime S) where
  -- The chunks are those of the anime, numbered from `idx`, each a piece behind the header, with the
  -- number of all of them.
  abbrev pub Indexed : ℕ → ℕ → List (AnimeChunk S) → Type 0
  Indexed n idx [] = idx ≡ n
  Indexed n idx (c ∷ cs) =
      (c.mal_id ≡ anime.mal_id)
      × (c.chunk_index ≡ idx)
      × (c.num_chunks ≡ n)
      × ((piece : Text) × (c.text ≡ header u anime ++ piece))
      × Indexed n (suc idx) cs

  chunks_from-Indexed :
      (n idx : ℕ) (ps : List Text)
      → idx + length ps ≡ n
      → Indexed n idx (chunks_from u anime n idx ps)
  unfolding chunks_from
  chunks_from-Indexed n idx [] h = omega (arith, h)
  chunks_from-Indexed n idx (p ∷ ps) h =
      (refl, refl, refl, (p, refl), chunks_from-Indexed n (suc idx) ps (omega (arith, h)))

  length-chunks_from :
      (n idx : ℕ) (ps : List Text) → length (chunks_from u anime n idx ps) ≡ length ps
  unfolding chunks_from
  length-chunks_from n idx [] = refl
  length-chunks_from n idx (p ∷ ps) = omega (arith, length-chunks_from n (suc idx) ps)

  chunks-Indexed :
      (ps : List Text)
      → 1 ≤ length ps
      → let chunks = chunks_from u anime (length ps) 0 ps in
        (1 ≤ length chunks) × Indexed (length chunks) 0 chunks
  chunks-Indexed ps some_piece =
      let same = length-chunks_from (length ps) 0 ps in
      (
        omega (arith, same, some_piece),
        subst (λ n. Indexed n 0 (chunks_from u anime (length ps) 0 ps)) (sym same)
            (chunks_from-Indexed (length ps) 0 ps (omega arith)),
      )

  text_pieces-some : 1 ≤ length (text_pieces u anime)
  text_pieces-some = elim (Bool-cases (is_empty (split_sentences u anime.synopsis))) [
    | inl none_found ↦ rw none_found (omega arith)
    | inr some_found ↦
        rw some_found (pack_sentences-some (split_sentences u anime.synopsis) some_found)
  ]

  -- An anime has at least one chunk, also without a synopsis. Its chunks have its id and are numbered
  -- from zero without a gap, each text begins with the header of title and genres, and `num_chunks`
  -- is how many there are.
  pub chunk_anime-Indexed :
      (1 ≤ length (chunk_anime u anime))
      × Indexed (length (chunk_anime u anime)) 0 (chunk_anime u anime)
  unfolding chunk_anime
  chunk_anime-Indexed = chunks-Indexed (text_pieces u anime) text_pieces-some
