-- ===== src/Retrieval/Hybrid/Tests.antt =====
-- Tests of the hybrid retriever.
use anime_recommendation_eng.Base.{◌≡◌, refl, some, [], false}
use anime_recommendation_eng.Base.Action.{ok, raised}
use anime_recommendation_eng.Base.Float.{millionths}
use anime_recommendation_eng.Base.Raises.{Raises}
use anime_recommendation_eng.Base.Text.{codes}
use anime_recommendation_eng.Core.Breaker.{
  Breaker, new_breaker, call, settle, guarded, with_timeout, read_state, on_success, on_failure,
  is_open,
}
use anime_recommendation_eng.Retrieval.Fusion.{reciprocal_rank_fusion}
use anime_recommendation_eng.Retrieval.Hybrid.{
  default_dense_breaker, default_sparse_breaker, retrieve,
}
use anime_recommendation_eng.Retrieval.Hybrid.Samples.{
  dense_slot, broken, hits, searching, rollback, over, fresh,
}
use anime_recommendation_eng.Retrieval.Hybrid.Legs.{
  IsUnavailable, retrieve-Raises, retrieve-sparse_only, retrieve-dense_only, call-never_trips,
}

-- The breakers after one failure and one success.
abbrev dense_failed : Breaker
dense_failed = record default_dense_breaker { failures = 1 }

abbrev sparse_failed : Breaker
sparse_failed = record default_sparse_breaker { failures = 1 }

retrieve-Raises_test :
    Raises
      (IsUnavailable millionths (over (raised broken) (raised broken)))
      (retrieve millionths (over (raised broken) (raised broken)) (codes "q") 50 (some 0) fresh)
retrieve-Raises_test =
    retrieve-Raises millionths (over (raised broken) (raised broken)) (codes "q") 50 0 fresh

retrieve-sparse_only_test :
    retrieve millionths (over (raised broken) (ok hits)) (codes "q") 50 (some 0) fresh ≡ (
      ok (reciprocal_rank_fusion millionths [] hits 60 50),
      (112, (dense_failed, default_sparse_breaker)),
    )
unfolding guarded call settle with_timeout read_state on_success on_failure new_breaker
retrieve-sparse_only_test =
    retrieve-sparse_only millionths (over (raised broken) (ok hits)) (codes "q") 50 0 fresh
      (101, (dense_failed, default_sparse_breaker)) (111, (dense_failed, default_sparse_breaker))
      (112, (dense_failed, default_sparse_breaker)) broken rollback hits refl refl refl refl

retrieve-dense_only_test :
    retrieve millionths (over (ok hits) (raised broken)) (codes "q") 50 (some 0) fresh ≡ (
      ok (reciprocal_rank_fusion millionths hits [] 60 50),
      (112, (default_dense_breaker, sparse_failed)),
    )
unfolding guarded call settle with_timeout read_state on_success on_failure new_breaker
retrieve-dense_only_test =
    retrieve-dense_only millionths (over (ok hits) (raised broken)) (codes "q") 50 0 fresh
      (101, (default_dense_breaker, default_sparse_breaker))
      (102, (default_dense_breaker, sparse_failed)) (112, (default_dense_breaker, sparse_failed))
      broken rollback hits refl refl refl refl

call-never_trips_test :
    (call (λ w. w.0) dense_slot (searching (raised broken)) fresh
      ≡ settle (λ w. w.0) dense_slot (searching (raised broken) fresh))
    × (is_open
          (dense_slot.read (call (λ w. w.0) dense_slot (searching (raised broken)) fresh).1).state
        ≡ false)
call-never_trips_test =
    call-never_trips (λ w. w.0) dense_slot (codes "pgvector") (searching (raised broken)) fresh refl
      refl
