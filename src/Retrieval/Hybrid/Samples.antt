-- ===== src/Retrieval/Hybrid/Samples.antt =====
-- Test data for the hybrid retriever: the world is a clock and the two breakers.
use anime_recommendation_eng.Base.{ℕ, ◌+◌, refl, some, List, [], ◌∷◌}
use anime_recommendation_eng.Base.Action.{Action, Slot, Outcome, ok, Exc, other_error}
use anime_recommendation_eng.Base.Text.{codes}
use anime_recommendation_eng.Core.Breaker.{Breaker}
use anime_recommendation_eng.Retrieval.{Hit}
use anime_recommendation_eng.Retrieval.Hybrid.{
  HybridRetriever, default_dense_breaker, default_sparse_breaker,
}

abbrev pub World : Type 0
World = ℕ × (Breaker × Breaker)

abbrev pub dense_slot : Slot World Breaker
dense_slot = record {
  read = λ w. w.1.0;
  write = λ b w. (w.0, (b, w.1.1));
  read-write = λ b w. refl;
  write-read = λ w. refl;
  write-write = λ b c w. refl;
}

abbrev pub sparse_slot : Slot World Breaker
sparse_slot = record {
  read = λ w. w.1.1;
  write = λ b w. (w.0, (w.1.0, b));
  read-write = λ b w. refl;
  write-read = λ w. refl;
  write-write = λ b c w. refl;
}

abbrev pub broken : Exc
broken = record { kind = other_error; message = codes "connection reset" }

abbrev pub hits : List (Hit ℕ)
hits = record { mal_id = 1; chunk_index = 0; text = codes "t"; score = 9 } ∷ []

abbrev pub searching : Outcome (List (Hit ℕ)) → Action World (List (Hit ℕ))
searching end w = (end, (w.0 + 1, w.1))

abbrev pub rollback : Action World (Unit {0})
rollback w = (ok tt, (w.0 + 10, w.1))

abbrev pub over : Outcome (List (Hit ℕ)) → Outcome (List (Hit ℕ)) → HybridRetriever World ℕ ℕ
over dense sparse = record {
  clock = λ w. w.0;
  search_dense = λ v k. searching dense;
  search_sparse = λ query k. searching sparse;
  embed = λ texts w. (ok (0 ∷ []), w);
  rrf_k = 60;
  timeout = 5;
  on_leg_failure = some rollback;
  dense_breaker = dense_slot;
  sparse_breaker = sparse_slot;
}

abbrev pub fresh : World
fresh = (100, (default_dense_breaker, default_sparse_breaker))
