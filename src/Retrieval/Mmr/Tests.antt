-- ===== src/Retrieval/Mmr/Tests.antt =====
-- Tests of the selection, over millionths.
use anime_recommendation_eng.Base.{
  ℕ, ◌+◌, ◌-◌, ◌*◌, ◌≡◌, refl, arith, true, ltb, ◌==◌, if◌then◌else◌, List, [], ◌∷◌, map, length,
  min,
}
use anime_recommendation_eng.Base.Float.{millionths, millionths-IsOrdered}
use anime_recommendation_eng.Retrieval.Mmr.{select, pick, mmr_value, max_of, remove}
use anime_recommendation_eng.Retrieval.Mmr.Greedy.{IsGreedy, select-IsGreedy, length-select}

abbrev relevance : ℕ → ℕ
relevance i = 900_000 - i * 100_000

-- The first two items are alike.
abbrev similarity : ℕ → ℕ → ℕ
similarity s i = if s + i == 1 then 1_000_000 else 100_000

diversifies :
    map (λ p. p.0) (select millionths 500_000 relevance similarity 3 2 (0 ∷ 1 ∷ 2 ∷ []) [])
    ≡ 0 ∷ 2 ∷ []
unfolding select pick mmr_value max_of remove
diversifies = refl

select-IsGreedy_example :
    IsGreedy millionths 500_000 relevance similarity []
      (0 ∷ 1 ∷ 2 ∷ [])
      (select millionths 500_000 relevance similarity 3 2 (0 ∷ 1 ∷ 2 ∷ []) [])
select-IsGreedy_example =
    select-IsGreedy millionths 500_000 relevance similarity millionths-IsOrdered 3 2
      (0 ∷ 1 ∷ 2 ∷ []) []

-- With a λ of one, each item scores its own relevance.
positive :
    (selected : List ℕ) (i : ℕ)
    → ltb 0 (mmr_value millionths 1_000_000 (λ i. 900_000) similarity selected i) ≡ true
unfolding mmr_value
positive [] i = refl
positive (j ∷ js) i = ground arith

length-select_example :
    length (select millionths 1_000_000 (λ i. 900_000) similarity 3 2 (0 ∷ 1 ∷ 2 ∷ []) [])
    ≡ min (2 - 0) 3
length-select_example =
    length-select millionths 1_000_000 (λ i. 900_000) similarity positive millionths-IsOrdered 3 2
      (0 ∷ 1 ∷ 2 ∷ []) [] (omega arith)
