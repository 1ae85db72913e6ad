-- ===== src/Retrieval/Service/Gates.antt =====
-- What is decided before the model is asked (packages/retrieval/src/anime_retrieval/service.py).
use anime_recommendation_eng.Base.{◌≡◌, refl, true, some, List, [], ◌∷◌}
use anime_recommendation_eng.Base.Action.{ok}
use anime_recommendation_eng.Base.Float.{FloatOps}
use anime_recommendation_eng.Base.Text.{Text, Unicode}
use anime_recommendation_eng.Core.Schemas.{refusal_result}
use anime_recommendation_eng.Retrieval.{Candidate}
use anime_recommendation_eng.Retrieval.Service.{
  Service, top_rerank_confidence, out_of_scope_refusal, refusal_for, below_floor, after_retriever,
  find, from_candidates, unless_named, recommend, astream, stream_candidates, stream_unless_named,
  stream_after,
}

module _ {W : Type 0} (u : Unicode) (f : FloatOps) (s : Service W f) (query : Text) where
  open f use {F}

  -- With generation on, a query that names an absent title is refused by both calls with the same
  -- text, which lists the titles. Nothing was retrieved and no model was asked: the world is the one
  -- that the check of the kill switch left.
  pub recommend-named :
      (w w' : W) (title : Text) (titles : List Text)
      → s.generation_enabled w ≡ (ok true, w')
      → s.named_but_absent query ≡ title ∷ titles
      → (recommend u f s query w ≡ (ok (refusal_result (some (refusal_for (title ∷ titles)))), w'))
        × (astream u f s query w ≡ (refusal_for (title ∷ titles) ∷ [], ok tt, w'))
  unfolding recommend unless_named astream stream_after stream_unless_named
  recommend-named w w' title titles on named = (rw on (rw named refl), rw on (rw named refl))

  module _ (w w1 w2 : W) (c : Candidate F) (cs : List (Candidate F))
      (on : s.generation_enabled w ≡ (ok true, w1)) (unnamed : s.named_but_absent query ≡ [])
      (found : s.retriever query w1 ≡ (ok (c ∷ cs), w2)) where
    -- With generation on, no absent title named and something retrieved: where the best rerank score
    -- is below the floor, both calls decline with the same text, and the model is not asked. The
    -- score is published.
    pub recommend-below_floor :
        below_floor u f s (top_rerank_confidence (c ∷ cs)) ≡ true
        → let w3 = s.confidence.write (top_rerank_confidence (c ∷ cs)) w2 in
          (recommend u f s query w ≡ (ok (refusal_result (some out_of_scope_refusal)), w3))
          × (astream u f s query w ≡ (out_of_scope_refusal ∷ [], ok tt, w3))
    unfolding recommend unless_named find after_retriever from_candidates astream stream_after
        stream_unless_named stream_candidates
    recommend-below_floor low =
        (rw on (rw unnamed (rw found (rw low refl))), rw on (rw unnamed (rw found (rw low refl))))
