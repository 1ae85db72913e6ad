-- ===== src/Retrieval/Hybrid.antt =====
-- `HybridRetriever` (packages/retrieval/src/anime_retrieval/hybrid.py). The two indexes, the embedder
-- and the recovery hook are arguments; the metrics of the stages are left out.
pub mod Legs
pub mod Samples
mod Tests
use anime_recommendation_eng.Base.{
  ℕ, Bool, true, false, not, ◌&&◌, ◌||◌, Option, none, some, List, [], ◌∷◌, if◌then◌else◌,
}
use anime_recommendation_eng.Base.Action.{
  Action, Slot, Exc, Outcome, ok, raised, cancelled, pure, raise, proceed, resume, ◌>>=◌, ◌>>◌,
  catch, retrieval_unavailable, other_error,
}
use anime_recommendation_eng.Base.Float.{FloatOps}
use anime_recommendation_eng.Base.Text.{Text, codes}
use anime_recommendation_eng.Core.Breaker.{Breaker, guarded, new_breaker}
use anime_recommendation_eng.Retrieval.{Candidate, Hit}
use anime_recommendation_eng.Retrieval.Fusion.{reciprocal_rank_fusion}

pub record HybridRetriever (W V F : Type 0) : Type 0 where
  pub clock : W → ℕ
  -- `self._vector.search` and `self._bm25.search`
  pub search_dense : V → ℕ → Action W (List (Hit F))
  pub search_sparse : Text → ℕ → Action W (List (Hit F))
  -- `self._embedder.embed(texts)`, its vectors
  pub embed : List Text → Action W (List V)
  pub rrf_k : ℕ
  pub timeout : ℕ
  pub on_leg_failure : Option (Action W (Unit {0}))
  pub dense_breaker : Slot W Breaker
  pub sparse_breaker : Slot W Breaker

abbrev pub unavailable : Exc
unavailable = record {
  kind = retrieval_unavailable;
  message = codes "both dense and sparse retrieval failed";
}

-- The two breakers that the constructor makes, with the defaults of `AsyncCircuitBreaker`.
abbrev pub default_dense_breaker : Breaker
default_dense_breaker = new_breaker (codes "pgvector") 5 30

abbrev pub default_sparse_breaker : Breaker
default_sparse_breaker = new_breaker (codes "bm25_fts") 5 30

-- `xs[0]`, which raises `IndexError`
unfoldable pub first_of_list : {W A : Type 0} → List A → Action W A
first_of_list [] w =
    (raised (record { kind = other_error; message = codes "list index out of range" }), w)
first_of_list (x ∷ _) w = (ok x, w)

abbrev pub run_hook : {W : Type 0} → Option (Action W (Unit {0})) → Action W (Unit {0})
run_hook none = pure tt
run_hook (some hook) = catch hook (λ _. pure tt)

module _ {W V : Type 0} (f : FloatOps) (r : HybridRetriever W V f.F) where
  -- `_recover_after_failed_leg`
  unfoldable pub recover : Action W (Unit {0})
  recover = run_hook r.on_leg_failure

  -- How one leg goes on from the end of its search: its hits, and whether it succeeded.
  unfoldable pub after_leg : Outcome (List (Hit f.F)) × W → Outcome (List (Hit f.F) × Bool) × W
  unfolding recover
  after_leg (ok hits, w) = (ok (hits, true), w)
  after_leg (raised exc, w) = proceed (λ _. pure ([], false)) (recover w)
  after_leg (cancelled, w) = (cancelled, w)

  unfoldable pub dense_leg : V → ℕ → Action W (List (Hit f.F) × Bool)
  unfolding after_leg guarded
  dense_leg query_embedding k w =
      after_leg (guarded r.clock r.dense_breaker r.timeout (r.search_dense query_embedding k) w)

  unfoldable pub sparse_leg : Text → ℕ → Action W (List (Hit f.F) × Bool)
  unfolding after_leg guarded
  sparse_leg query k w =
      after_leg (guarded r.clock r.sparse_breaker r.timeout (r.search_sparse query k) w)

  unfoldable pub fuse :
      ℕ → List (Hit f.F) × Bool → List (Hit f.F) × Bool → Action W (List (Candidate f.F))
  unfolding reciprocal_rank_fusion
  fuse k (dense_hits, dense_ok) (sparse_hits, sparse_ok) =
      if not dense_ok && not sparse_ok
      then raise unavailable
      else pure (reciprocal_rank_fusion f dense_hits sparse_hits r.rrf_k k)

  -- `HybridRetriever.retrieve`
  unfoldable pub retrieve : Text → ℕ → Option V → Action W (List (Candidate f.F))
  unfolding dense_leg sparse_leg fuse first_of_list
  retrieve query k given =
      elim given [ none ↦ r.embed (query ∷ []) >>= first_of_list | some v ↦ pure v ] >>= λ v.
      dense_leg v k >>= λ dense. sparse_leg query k >>= λ sparse. fuse k dense sparse
