-- ===== src/Eval/Metrics.antt =====
-- The retrieval metrics (packages/eval/src/anime_eval/metrics.py). A set of ids is a list without
-- duplicates, and k is not negative. The quotient of two counts, `1.0 / math.log2(i + 1)` and the
-- float operations are arguments.
pub mod Share
mod Tests
use anime_recommendation_eng.Base.{
  ℕ, zero, suc, ◌+◌, ◌==◌, Bool, List, [], ◌∷◌, take, any, keep, length, elem, is_empty, min,
  if◌then◌else◌,
}
use anime_recommendation_eng.Base.Float.{FloatOps}

pub record Quotients (F : Type 0) : Type 0 where
  pub quotient : ℕ → ℕ → F
  pub gain : ℕ → F
  pub div : F → F → F

-- `sum(1 for mal_id in … if mal_id in expected)`
unfoldable pub hits_in : List ℕ → List ℕ → ℕ
hits_in [] expected = 0
hits_in (id ∷ ids) expected =
    if elem id expected then suc (hits_in ids expected) else hits_in ids expected

-- `set(ids)`
unfoldable pub set_of : List ℕ → List ℕ
set_of [] = []
set_of (id ∷ ids) = let rest = set_of ids in if elem id rest then rest else id ∷ rest

module _ (f : FloatOps) (q : Quotients f.F) where
  unfoldable pub success_at_k : List ℕ → List ℕ → ℕ → f.F
  success_at_k retrieved expected k =
      if is_empty expected
      then f.zero_f
      else (if any (λ id. elem id expected) (take k retrieved) then f.one_f else f.zero_f)

  unfoldable pub precision_at_k : List ℕ → List ℕ → ℕ → f.F
  unfolding hits_in
  precision_at_k retrieved expected k =
      if k == 0 then f.zero_f else q.quotient (hits_in (take k retrieved) expected) k

  unfoldable pub recall_at_k : List ℕ → List ℕ → ℕ → f.F
  unfolding hits_in
  recall_at_k retrieved expected k =
      if is_empty expected
      then f.zero_f
      else q.quotient (hits_in (take k retrieved) expected) (length expected)

  -- The loop of `mrr`, from a rank on.
  unfoldable pub mrr_from : ℕ → List ℕ → List ℕ → f.F
  mrr_from rank [] expected = f.zero_f
  mrr_from rank (id ∷ ids) expected =
      let rest = mrr_from (suc rank) ids expected in
      if elem id expected then q.quotient 1 rank else rest

  unfoldable pub mrr : List ℕ → List ℕ → f.F
  unfolding mrr_from
  mrr retrieved expected = if is_empty expected then f.zero_f else mrr_from 1 retrieved expected

  -- The loop of `ndcg_at_k`, from the index i on.
  unfoldable pub dcg_from : ℕ → List ℕ → List ℕ → f.F → f.F
  dcg_from i [] expected dcg = dcg
  dcg_from i (id ∷ ids) expected dcg =
      dcg_from (suc i) ids expected (if elem id expected then f.add dcg (q.gain i) else dcg)

  -- `sum(1.0 / math.log2(i + 1) for i in range(i, i + n))`
  unfoldable pub ideal_from : ℕ → ℕ → f.F → f.F
  ideal_from i zero sum = sum
  ideal_from i (suc n) sum = ideal_from (suc i) n (f.add sum (q.gain i))

  unfoldable pub ndcg_at_k : List ℕ → List ℕ → ℕ → f.F
  unfolding dcg_from ideal_from
  ndcg_at_k retrieved expected k =
      let dcg = dcg_from 1 (take k retrieved) expected f.zero_f in
      let idcg = ideal_from 1 (min k (length expected)) f.zero_f in
      if is_empty expected
      then f.zero_f
      else (if f.lt f.zero_f idcg then q.div dcg idcg else f.zero_f)

  unfoldable pub distinct_ratio : List ℕ → f.F
  unfolding set_of
  distinct_ratio retrieved =
      if is_empty retrieved
      then f.zero_f
      else q.quotient (length (set_of retrieved)) (length retrieved)
