-- ===== src/Retrieval/Fusion/Order.antt =====
-- The fused list: no chunk twice, best score first, and no longer than asked for.
use mathlib.Core.List.{Nodup, Sublist, nil-sublist}
use mathlib.Core.List.Nodup
use mathlib.Core.List.Perm
use mathlib.Core.List.Sublist
use anime_recommendation_eng.Base.{
  ℕ, zero, suc, ◌≤◌, ◌≡◌, refl, ap, List, [], ◌∷◌, arith, map, take, length, length-take, All-take,
}
use anime_recommendation_eng.Base.Float.{FloatOps, IsOrdered}
use anime_recommendation_eng.Base.Sort.{
  sort_desc, sort_desc-perm, IsDescending, AtMost, sort_desc-IsDescending,
}
use anime_recommendation_eng.Retrieval.{Candidate, key_of, Hit}
use anime_recommendation_eng.Retrieval.Fusion.{
  Table, candidate_of, hybrid_key, fused_table, reciprocal_rank_fusion,
}
use anime_recommendation_eng.Retrieval.Fusion.Table.{fused_table-Distinct, keys-Nodup}

map-take-sublist :
    {A B : Type 0} (g : A → B) (n : ℕ) (xs : List A) → Sublist (map g (take n xs)) (map g xs)
map-take-sublist g zero xs = nil-sublist (map g xs)
map-take-sublist g (suc n) [] = nil-sublist []
map-take-sublist g (suc n) (x ∷ xs) = Sublist.cons-cons (g x) (map-take-sublist g n xs)

module _ (f : FloatOps) where
  open f use {F}

  keys-candidates : (acc : Table f) → map key_of (map (candidate_of f) acc) ≡ map (λ p. p.0) acc
  keys-candidates [] = refl
  keys-candidates (p ∷ acc) = ap (◌∷◌ p.0) (keys-candidates acc)

  take-IsDescending :
      (n : ℕ) (xs : List (Candidate F))
      → IsDescending f (hybrid_key f) xs
      → IsDescending f (hybrid_key f) (take n xs)
  take-IsDescending zero xs d = tt
  take-IsDescending (suc n) [] d = tt
  take-IsDescending (suc n) (x ∷ xs) d =
      (All-take (AtMost f (hybrid_key f) x) n xs d.0, take-IsDescending n xs d.1)

  -- With an order on the scores the fused list is sorted by hybrid score, best first, holds at most
  -- `top_k` candidates, and holds no chunk twice, however often the two lists name it.
  pub reciprocal_rank_fusion-IsRanked :
      IsOrdered f
      → (dense sparse : List (Hit F)) (k_rrf top_k : ℕ)
      → let fused = reciprocal_rank_fusion f dense sparse k_rrf top_k in
        IsDescending f (hybrid_key f) fused × Nodup (map key_of fused) × (length fused ≤ top_k)
  unfolding reciprocal_rank_fusion
  reciprocal_rank_fusion-IsRanked o dense sparse k_rrf top_k =
      let acc = fused_table f dense sparse k_rrf in
      let all = map (candidate_of f) acc in
      let sorted = sort_desc f (hybrid_key f) all in
      let distinct : Nodup (map key_of all) =
        rw (keys-candidates acc) (keys-Nodup f acc (fused_table-Distinct f dense sparse k_rrf)) in
      (
        take-IsDescending top_k sorted (sort_desc-IsDescending f (hybrid_key f) o all),
        Nodup.sublist (map-take-sublist key_of top_k sorted) (
            Perm.nodup (Perm.symm (Perm.map key_of (sort_desc-perm f (hybrid_key f) all)))
              distinct),
        omega (arith, length-take top_k sorted),
      )
