-- ===== src/Ingestion.antt =====
-- The chunker (packages/ingestion/src/anime_ingestion/chunker.py), with the models of
-- packages/core/src/anime_core/models.py. The type of an anime's score is an argument.
pub mod Bounds
pub mod Chunks
pub mod Loader
pub mod Indexer
mod Tests
use anime_recommendation_eng.Base.{
  ℕ, suc, ◌+◌, Bool, true, false, not, ◌&&◌, ◌||◌, ◌==◌, Option, none, some, List, [], ◌∷◌, ◌++◌,
  map, keep, reverse, length, take, ltb, is_empty, if◌then◌else◌,
}
use anime_recommendation_eng.Base.Text.{Text, Unicode, codes, strip, join}

abbrev pub target_chars : ℕ
target_chars = 2000

abbrev pub overlap_chars : ℕ
overlap_chars = 300

abbrev pub ends_sentence : ℕ → Bool
ends_sentence c = c == b'.' || c == b'!' || c == b'?'

module _ (u : Unicode) where
  -- `_SENTENCE_END.split(text)`: `cur` is the piece so far; `ended` says that its last character ends
  -- a sentence, and `gap` that the white space behind a piece is being passed over.
  unfoldable pub pieces : Text → Bool → Bool → Text → List Text
  pieces cur ended gap [] = cur ∷ []
  pieces cur ended gap (c ∷ t) =
      let passed = pieces cur false true t in
      let cut = cur ∷ pieces [] false true t in
      let kept = pieces (cur ++ c ∷ []) (ends_sentence c) false t in
      if gap && u.is_space c then passed else (if ended && u.is_space c then cut else kept)

  -- `_split_sentences`
  unfoldable pub split_sentences : Text → List Text
  unfolding pieces
  split_sentences text = keep (λ s. not (is_empty s)) (map (strip u) (pieces [] false false text))

-- The variables of the loop of `_pack_sentences`.
pub record Packing : Type 0 where
  pub chunks : List Text
  pub buf : List Text
  pub size : ℕ

-- The inner loop, over `reversed(buf)`: the overlap and its size.
unfoldable pub overlap_of : List Text → List Text → ℕ → List Text × ℕ
overlap_of [] overlap osize = (overlap, osize)
overlap_of (t ∷ ts) overlap osize =
    let more = overlap_of ts (t ∷ overlap) (osize + length t + 1) in
    if ltb overlap_chars (osize + length t + 1) then (overlap, osize) else more

abbrev pub joined : List Text → Text
joined buf = join (codes " ") buf

-- `buf.append(s); size += len(s) + 1`
abbrev pub append_to : List Text → Text → List Text × ℕ → Packing
append_to chunks s (buf, size) = record {
  chunks = chunks;
  buf = buf ++ s ∷ [];
  size = size + length s + 1;
}

-- One round of the loop.
unfoldable pub add_sentence : Packing → Text → Packing
unfolding overlap_of join
add_sentence p s =
    if ltb target_chars (p.size + length s + 1) && not (is_empty p.buf)
    then append_to (p.chunks ++ joined p.buf ∷ []) s (overlap_of (reverse p.buf) [] 0)
    else append_to p.chunks s (p.buf, p.size)

unfoldable pub add_all : Packing → List Text → Packing
unfolding add_sentence
add_all p [] = p
add_all p (s ∷ ss) = add_all (add_sentence p s) ss

abbrev pub flush : Packing → List Text
flush p = if is_empty p.buf then p.chunks else p.chunks ++ joined p.buf ∷ []

abbrev pub no_chunks : Packing
no_chunks = record { chunks = []; buf = []; size = 0 }

-- `_pack_sentences`
unfoldable pub pack_sentences : List Text → List Text
unfolding add_all join
pack_sentences sentences = flush (add_all no_chunks sentences)

-- `Anime`
pub record Anime (S : Type 0) : Type 0 where
  pub mal_id : ℕ
  pub name : Text
  pub score : S
  pub genres : List Text
  pub synopsis : Text

-- `AnimeChunk`, with the entries of its metadata
pub record AnimeChunk (S : Type 0) : Type 0 where
  pub mal_id : ℕ
  pub chunk_index : ℕ
  pub text : Text
  pub name : Text
  pub score : S
  pub genres_csv : Text
  pub num_chunks : ℕ

module _ {S : Type 0} (u : Unicode) (anime : Anime S) where
  abbrev pub header : Text
  header =
      let genres =
        if is_empty anime.genres then codes "unknown" else join (codes ", ") anime.genres in
      codes "Title: " ++ (anime.name ++ (codes "\nGenres: " ++ (genres ++ codes "\n\n")))

  abbrev pub text_pieces : List Text
  text_pieces =
      let sentences = split_sentences u anime.synopsis in
      if is_empty sentences then take target_chars anime.synopsis ∷ [] else pack_sentences sentences

  -- The loop over `enumerate(pieces)`, from the index `idx`.
  unfoldable pub chunks_from : ℕ → ℕ → List Text → List (AnimeChunk S)
  unfolding join
  chunks_from num_chunks idx [] = []
  chunks_from num_chunks idx (piece ∷ rest) =
      record {
        mal_id = anime.mal_id;
        chunk_index = idx;
        text = header ++ piece;
        name = anime.name;
        score = anime.score;
        genres_csv = join (codes ",") anime.genres;
        num_chunks = num_chunks;
      }
      ∷ chunks_from num_chunks (suc idx) rest

  -- `chunk_anime`
  unfoldable pub chunk_anime : List (AnimeChunk S)
  unfolding chunks_from split_sentences pack_sentences join
  chunk_anime = chunks_from (length text_pieces) 0 text_pieces
