-- ===== src/Retrieval.antt =====
-- The retrieval package (packages/retrieval/src/anime_retrieval).
pub mod Catalog
pub mod Fusion
pub mod Mmr
pub mod Hybrid
pub mod Pipeline
pub mod Grounding
pub mod Service
pub mod Cached
pub mod Engine
use anime_recommendation_eng.Base.{ℕ, Option, none, Bool, ◌&&◌, ◌==◌}
use anime_recommendation_eng.Base.Text.{Text}

-- `Candidate` (types.py), over the type of the floats.
pub record Candidate (F : Type 0) : Type 0 where
  pub mal_id : ℕ
  pub chunk_index : ℕ
  pub text : Text
  pub dense_score : Option F
  pub sparse_score : Option F
  pub hybrid_score : Option F
  pub rerank_score : Option F
  pub mmr_score : Option F
  pub rank : Option ℕ

abbrev pub Key : Type 0
Key = ℕ × ℕ

-- `Candidate.key`
abbrev pub key_of : {F : Type 0} → Candidate F → Key
key_of c = (c.mal_id, c.chunk_index)

abbrev pub key_eq : Key → Key → Bool
key_eq (a, i) (b, j) = a == b && i == j

-- A hit of one leg: `VectorMatch` and `BM25Match` have the same fields.
pub record Hit (F : Type 0) : Type 0 where
  pub mal_id : ℕ
  pub chunk_index : ℕ
  pub text : Text
  pub score : F

abbrev pub hit_key : {F : Type 0} → Hit F → Key
hit_key h = (h.mal_id, h.chunk_index)
