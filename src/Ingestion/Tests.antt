-- ===== src/Ingestion/Tests.antt =====
-- Tests of the chunker.
use anime_recommendation_eng.Base.{ℕ, ◌+◌, ◌≤◌, ◌≡◌, refl, arith, [], ◌∷◌, length, All}
use anime_recommendation_eng.Base.Text.{codes, latin, join}
use anime_recommendation_eng.Ingestion.{
  Anime, split_sentences, pieces, pack_sentences, add_all, add_sentence, chunk_anime, target_chars,
  overlap_chars,
}
use anime_recommendation_eng.Ingestion.Bounds.{pack_sentences-bounded}
use anime_recommendation_eng.Ingestion.Chunks.{Indexed, chunk_anime-Indexed}

splits :
    split_sentences latin (codes "He ran.  She hid! 3.5 hours? ")
    ≡ codes "He ran." ∷ codes "She hid!" ∷ codes "3.5 hours?" ∷ []
unfolding split_sentences pieces
splits = refl

packs : pack_sentences (codes "He ran." ∷ codes "She hid!" ∷ []) ≡ codes "He ran. She hid!" ∷ []
unfolding pack_sentences add_all add_sentence join
packs = refl

pack_sentences-bounded_example :
    All
      (λ c. length c ≤ target_chars + overlap_chars)
      (pack_sentences (codes "He ran." ∷ codes "She hid!" ∷ []))
pack_sentences-bounded_example =
    pack_sentences-bounded (codes "He ran." ∷ codes "She hid!" ∷ [])
      (omega arith, (omega arith, tt))

abbrev monster : Anime ℕ
monster = record {
  mal_id = 19;
  name = codes "Monster";
  score = 8;
  genres = codes "Drama" ∷ codes "Mystery" ∷ [];
  synopsis = codes "A surgeon saves a boy. The boy grows up.";
}

chunk_anime-Indexed_example :
    (1 ≤ length (chunk_anime latin monster))
    × Indexed latin monster (length (chunk_anime latin monster)) 0 (chunk_anime latin monster)
chunk_anime-Indexed_example = chunk_anime-Indexed latin monster
