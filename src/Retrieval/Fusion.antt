-- ===== src/Retrieval/Fusion.antt =====
-- `reciprocal_rank_fusion` (packages/retrieval/src/anime_retrieval/hybrid.py).
-- The dict of accumulators is the list of its items, in insertion order.
pub mod Table
pub mod Score
pub mod Order
mod Tests
use anime_recommendation_eng.Base.{
  ℕ, suc, ◌+◌, Option, none, some, List, [], ◌∷◌, map, take, if◌then◌else◌,
}
use anime_recommendation_eng.Base.Float.{FloatOps}
use anime_recommendation_eng.Base.Sort.{sort_desc}
use anime_recommendation_eng.Base.Text.{Text}
use anime_recommendation_eng.Retrieval.{Candidate, Key, key_eq, Hit, hit_key}

-- `_Accumulator`
pub record Accumulator (F : Type 0) : Type 0 where
  pub text : Text
  pub rrf : F
  pub dense_score : Option F
  pub sparse_score : Option F

module _ (f : FloatOps) where
  open f use {F}

  abbrev pub Table : Type 0
  Table = List (Key × Accumulator F)

  abbrev pub new_accumulator : Text → Accumulator F
  new_accumulator text = record {
    text = text;
    rrf = f.zero_f;
    dense_score = none;
    sparse_score = none;
  }

  -- `entry = acc.setdefault(key, _Accumulator(text=text))`, then the changes `g` to the entry.
  unfoldable pub upsert : Key → Text → (Accumulator F → Accumulator F) → Table → Table
  upsert key text g [] = (key, g (new_accumulator text)) ∷ []
  upsert key text g ((k, e) ∷ acc) =
      if key_eq k key then (k, g e) ∷ acc else (k, e) ∷ upsert key text g acc

  abbrev pub add_dense : ℕ → Hit F → Accumulator F → Accumulator F
  add_dense n hit e = record e { rrf = f.add e.rrf (f.reciprocal n); dense_score = some hit.score }

  abbrev pub add_sparse : ℕ → Hit F → Accumulator F → Accumulator F
  add_sparse n hit e = record e {
    rrf = f.add e.rrf (f.reciprocal n);
    sparse_score = some hit.score;
  }

  -- One of the two loops over `enumerate(hits)`, from the rank `rank`.
  unfoldable pub absorb :
      (ℕ → Hit F → Accumulator F → Accumulator F) → ℕ → ℕ → List (Hit F) → Table → Table
  unfolding upsert
  absorb change k_rrf rank [] acc = acc
  absorb change k_rrf rank (hit ∷ hits) acc =
      absorb change k_rrf (rank + 1) hits
        (upsert (hit_key hit) hit.text (change (k_rrf + rank + 1) hit) acc)

  abbrev pub candidate_of : Key × Accumulator F → Candidate F
  candidate_of (key, e) = record {
    mal_id = key.0;
    chunk_index = key.1;
    text = e.text;
    dense_score = e.dense_score;
    sparse_score = e.sparse_score;
    hybrid_score = some e.rrf;
    rerank_score = none;
    mmr_score = none;
    rank = none;
  }

  -- `c.hybrid_score or 0.0`
  abbrev pub or_zero : Option F → F
  or_zero none = f.zero_f
  or_zero (some s) = s

  abbrev pub hybrid_key : Candidate F → F
  hybrid_key c = or_zero c.hybrid_score

  -- The dict after both loops.
  unfoldable pub fused_table : List (Hit F) → List (Hit F) → ℕ → Table
  unfolding absorb
  fused_table dense sparse k_rrf =
      absorb add_sparse k_rrf 0 sparse (absorb add_dense k_rrf 0 dense [])

  unfoldable pub reciprocal_rank_fusion : List (Hit F) → List (Hit F) → ℕ → ℕ → List (Candidate F)
  unfolding fused_table sort_desc
  reciprocal_rank_fusion dense sparse k_rrf top_k =
      take top_k (sort_desc f hybrid_key (map candidate_of (fused_table dense sparse k_rrf)))
