-- ===== src/Eval/Metrics/Share.antt =====
-- The bounds of the metrics (packages/eval/src/anime_eval/metrics.py).
use mathlib.Core.Path.{subst}
use anime_recommendation_eng.Base.{
  ℕ, zero, suc, ◌≤◌, ◌≡◌, refl, inl, inr, Bool, Bool-cases, true, false, ◌==◌, List, [], ◌∷◌, take,
  length, length-take, any, not, elem, is_empty, if◌then◌else◌, arith,
}
use anime_recommendation_eng.Base.Float.{FloatOps}
use anime_recommendation_eng.Eval.Metrics.{
  Quotients, hits_in, precision_at_k, recall_at_k, success_at_k,
}

-- No id stands in the list twice.
abbrev pub IsDistinct : List ℕ → Type 0
IsDistinct [] = Unit
IsDistinct (id ∷ ids) = (elem id ids ≡ false) × IsDistinct ids

hits_in-le : (ids expected : List ℕ) → hits_in ids expected ≤ length ids
unfolding hits_in
hits_in-le [] expected = omega arith
hits_in-le (id ∷ ids) expected = elim (Bool-cases (elem id expected)) [
  | inl hit ↦ rw hit (omega (arith, hits_in-le ids expected))
  | inr miss ↦ rw miss (omega (arith, hits_in-le ids expected))
]

hits_in-none : (ids : List ℕ) → hits_in ids [] ≡ 0
unfolding hits_in
hits_in-none [] = refl
hits_in-none (id ∷ ids) = hits_in-none ids

-- One more expected id that is not retrieved adds no hit.
hits_in-absent :
    (a : ℕ) (ids expected : List ℕ)
    → elem a ids ≡ false
    → hits_in ids (a ∷ expected) ≡ hits_in ids expected
unfolding hits_in
hits_in-absent a [] expected h = refl
hits_in-absent a (id ∷ ids) expected h =
    let apart : (id == a) ≡ false = ground (arith, h) in
    let later : elem a ids ≡ false = ground (arith, h) in
    rw (apart, hits_in-absent a ids expected later) refl

-- One more expected id adds at most one hit among distinct ids.
hits_in-one_more :
    (a : ℕ) (ids expected : List ℕ)
    → IsDistinct ids
    → hits_in ids (a ∷ expected) ≤ suc (hits_in ids expected)
unfolding hits_in
hits_in-one_more a [] expected h = omega arith
hits_in-one_more a (id ∷ ids) expected h = elim (Bool-cases (id == a)) [
  | inl same ↦
      let e : id ≡ a = ground (arith, same) in
      let away : elem a ids ≡ false = subst (λ i. elem i ids ≡ false) e h.0 in
      rw (same, hits_in-absent a ids expected away)
        (elim (Bool-cases (elem id expected)) [
          | inl hit ↦ rw hit (omega arith)
          | inr miss ↦ rw miss (omega arith)
        ])
  | inr apart ↦ rw apart (elim (Bool-cases (elem id expected)) [
    | inl hit ↦ rw hit (omega (arith, hits_in-one_more a ids expected h.1))
    | inr miss ↦ rw miss (hits_in-one_more a ids expected h.1)
  ])
]

hits_in-share : (ids expected : List ℕ) → IsDistinct ids → hits_in ids expected ≤ length expected
hits_in-share ids [] h = omega (arith, hits_in-none ids)
hits_in-share ids (a ∷ expected) h =
    omega (arith, hits_in-one_more a ids expected h, hits_in-share ids expected h)

elem-take : (a k : ℕ) (ids : List ℕ) → elem a ids ≡ false → elem a (take k ids) ≡ false
elem-take a zero ids h = refl
elem-take a (suc k) [] h = refl
elem-take a (suc k) (id ∷ ids) h =
    let apart : (a == id) ≡ false = ground (arith, h) in
    let later : elem a ids ≡ false = ground (arith, h) in rw apart (elem-take a k ids later)

take-IsDistinct : (k : ℕ) (ids : List ℕ) → IsDistinct ids → IsDistinct (take k ids)
take-IsDistinct zero ids h = tt
take-IsDistinct (suc k) [] h = tt
take-IsDistinct (suc k) (id ∷ ids) h = (elem-take id k ids h.0, take-IsDistinct k ids h.1)

full_of : (ids : List ℕ) → 1 ≤ length ids → is_empty ids ≡ false
full_of [] h = absurd (omega (arith, h))
full_of (id ∷ ids) h = refl

any-hits :
    (ids expected : List ℕ) → any (λ id. elem id expected) ids ≡ not (0 == hits_in ids expected)
unfolding hits_in
any-hits [] expected = refl
any-hits (id ∷ ids) expected = elim (Bool-cases (elem id expected)) [
  | inl hit ↦ rw hit (ground arith)
  | inr miss ↦ rw miss (any-hits ids expected)
]

if-flip : {A : Type 0} (b : Bool) (x y : A) → (if not b then y else x) ≡ (if b then x else y)
if-flip true x y = refl
if-flip false x y = refl

module _ (f : FloatOps) (q : Quotients f.F) where
  -- For expected ids and k from 1, and retrieved ids that are distinct: precision and recall are the
  -- quotients of one number of hits by k and by the number of the expected ids, and that number is at
  -- most either of them, so neither metric exceeds 1. The success is 1 where there is a hit, and 0
  -- otherwise.
  pub recall_at_k-share :
      (retrieved expected : List ℕ) (k : ℕ)
      → IsDistinct retrieved
      → 1 ≤ length expected
      → 1 ≤ k
      → (hits : ℕ) × (precision_at_k f q retrieved expected k ≡ q.quotient hits k)
        × (recall_at_k f q retrieved expected k ≡ q.quotient hits (length expected))
        × (success_at_k f q retrieved expected k ≡ (if 0 == hits then f.zero_f else f.one_f))
        × (hits ≤ k)
        × (hits ≤ length expected)
  unfolding precision_at_k recall_at_k success_at_k
  recall_at_k-share retrieved expected k distinct some_expected some_k =
      let top = take k retrieved in
      let hits = hits_in top expected in
      let full : is_empty expected ≡ false = full_of expected some_expected in
      let positive : (k == 0) ≡ false = ground (arith, some_k) in
      (
        hits,
        rw positive refl,
        rw full refl,
        rw (full, any-hits top expected) (if-flip (0 == hits) f.zero_f f.one_f),
        omega (arith, hits_in-le top expected, length-take k retrieved),
        hits_in-share top expected (take-IsDistinct k retrieved distinct),
      )
