-- ===== src/Retrieval/Mmr.antt =====
-- `mmr_select` (packages/retrieval/src/anime_retrieval/mmr.py).
-- The vectors and their products are numpy's, and so arguments. The picks are listed with their
-- scores, which the source keeps in a dict beside the list of indices.
pub mod Greedy
mod Tests
use anime_recommendation_eng.Base.{
  ℕ, zero, suc, ◌+◌, Bool, true, false, not, ◌&&◌, ◌||◌, ◌==◌, Option, none, some, List, [], ◌∷◌,
  ◌++◌, leb, ltb, if◌then◌else◌, length, is_empty, map,
}
use anime_recommendation_eng.Base.Float.{FloatOps}
use anime_recommendation_eng.Retrieval.{Candidate}

-- What numpy gives: vectors, the division of a vector by its norm (by one where that is zero), and
-- the inner product.
pub record Vectors (F : Type 0) : Type 1 where
  pub V : Type 0
  pub normalize : V → V
  pub dot : V → V → F

pub data MmrError : Type 0 where
  misaligned lambda_out_of_range : MmrError

pub data Selected (A : Type 0) : Type 0 where
  picks : A → Selected A
  value_error : MmrError → Selected A

module _ {ℓ} {A : Type ℓ} where
  -- `xs[i]`, at an index that is in range
  abbrev pub get_or : List A → ℕ → A → A
  get_or [] i d = d
  get_or (x ∷ xs) zero d = x
  get_or (x ∷ xs) (suc i) d = get_or xs i d

-- `list(range(n))`
abbrev pub range_from : ℕ → ℕ → List ℕ
range_from i zero = []
range_from i (suc n) = i ∷ range_from (suc i) n

-- `remaining.remove(i)`
unfoldable pub remove : ℕ → List ℕ → List ℕ
remove i [] = []
remove i (j ∷ js) = if i == j then js else j ∷ remove i js

module _ (f : FloatOps) where
  open f use {F}

  abbrev pub max_f : F → F → F
  max_f a b = if f.lt a b then b else a

  -- `sims_to_selected.max()`
  unfoldable pub max_of : F → List F → F
  max_of best [] = best
  max_of best (s ∷ sims) = max_of (max_f best s) sims

  module _ (lambda_ : F) (relevance : ℕ → F) (similarity : ℕ → ℕ → F) where
    -- The score of the item `i` while `selected` are chosen.
    unfoldable pub mmr_value : List ℕ → ℕ → F
    unfolding max_of
    mmr_value [] i = relevance i
    mmr_value (j ∷ js) i =
        let max_sim = max_of (similarity j i) (map (λ s. similarity s i) js) in
        f.sub (f.mul lambda_ (relevance i)) (f.mul (f.sub f.one_f lambda_) max_sim)

    abbrev pub best_mmr : Option (ℕ × F) → F
    best_mmr none = f.neg_inf
    best_mmr (some (i, m)) = m

    -- The `for` loop: the first item whose score is above all before it.
    unfoldable pub pick : List ℕ → List ℕ → Option (ℕ × F) → Option (ℕ × F)
    unfolding mmr_value
    pick selected [] best = best
    pick selected (i ∷ remaining) best = pick selected remaining (
        if f.lt (best_mmr best) (mmr_value selected i)
        then some (i, mmr_value selected i)
        else best)

    -- The `while` loop, with fuel for its rounds: the picks that are still to be made.
    unfoldable pub select : ℕ → ℕ → List ℕ → List ℕ → List (ℕ × F)
    unfolding pick remove
    select zero k remaining selected = []
    select (suc fuel) k remaining selected =
        if is_empty remaining || leb k (length selected)
        then []
        else (elim (pick selected remaining none) [
          | none ↦ []
          | some (i, m) ↦ (i, m) ∷ select fuel k (remove i remaining) (selected ++ i ∷ [])
        ])

  module _ (v : Vectors F) where
    open v use {V, normalize, dot}

    abbrev pub relevance_of : V → List V → ℕ → F
    relevance_of query embeddings i = dot (normalize (get_or embeddings i query)) (normalize query)

    abbrev pub similarity_of : V → List V → ℕ → ℕ → F
    similarity_of query embeddings s i =
        dot (normalize (get_or embeddings s query)) (normalize (get_or embeddings i query))

    -- `dataclasses.replace(candidates[i], mmr_score=mmr_scores[i])`
    abbrev pub place : List (Candidate F) → ℕ × F → List (Candidate F)
    place [] p = []
    place (c ∷ cs) (zero, m) = record c { mmr_score = some m } ∷ []
    place (c ∷ cs) (suc i, m) = place cs (i, m)

    unfoldable pub placed : List (Candidate F) → List (ℕ × F) → List (Candidate F)
    placed candidates [] = []
    placed candidates (p ∷ ps) = place candidates p ++ placed candidates ps

    unfoldable pub mmr_select :
        List (Candidate F) → V → List V → ℕ → F → Selected (List (Candidate F))
    unfolding select placed
    mmr_select candidates query embeddings k lambda_ =
        if is_empty candidates
        then picks []
        else (if not (length candidates == length embeddings)
            then value_error misaligned
            else (if not (f.le f.zero_f lambda_ && f.le lambda_ f.one_f)
                then value_error lambda_out_of_range
                else picks (
                    placed candidates (
                      select lambda_ (relevance_of query embeddings)
                        (similarity_of query embeddings) (length candidates) k
                        (range_from 0 (length candidates)) []))))
