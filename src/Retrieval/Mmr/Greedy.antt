-- ===== src/Retrieval/Mmr/Greedy.antt =====
-- The selection is greedy, and it is complete.
use anime_recommendation_eng.Base.{
  ℕ, zero, suc, ◌+◌, ◌-◌, ◌≤◌, min, ◌≡◌, refl, ◌⊎◌, inl, inr, true, false, ◌||◌, Option, none, some,
  List, [], ◌∷◌, ◌++◌, arith, leb, Bool-cases, Option-cases, length, length-append, is_empty, elem,
  All,
}
use anime_recommendation_eng.Base.Float.{FloatOps, IsOrdered, lt_asymm, not_lt_trans}
use anime_recommendation_eng.Retrieval.Mmr.{remove, mmr_value, best_mmr, pick, select}

length-remove : (i : ℕ) (js : List ℕ) → elem i js ≡ true → length (remove i js) + 1 ≡ length js
unfolding remove
length-remove i [] h = cc
length-remove i (j ∷ js) h = ground (arith, length-remove i js)

elem-remove : (k i : ℕ) (js : List ℕ) → elem k (remove i js) ≡ true → elem k js ≡ true
unfolding remove
elem-remove k i [] h = h
elem-remove k i (j ∷ js) h = ground (arith, elem-remove k i js)

module _ (f : FloatOps) (lambda_ : f.F) (relevance : ℕ → f.F) (similarity : ℕ → ℕ → f.F) where
  open f use {F}

  abbrev value : List ℕ → ℕ → F
  value = mmr_value f lambda_ relevance similarity

  abbrev best_of : Option (ℕ × F) → F
  best_of = best_mmr f lambda_ relevance similarity

  -- What `pick` has found: an item of the list with its score, which none in the list exceeds.
  abbrev IsBest : List ℕ → List ℕ → ℕ × F → Type 0
  IsBest selected remaining (i, m) =
      (elem i remaining ≡ true)
      × (m ≡ value selected i)
      × All (λ j. f.lt m (value selected j) ≡ false) remaining

  module _ (o : IsOrdered f) where
    -- The running maximum never falls.
    pick-keeps :
        (selected remaining : List ℕ) (best : Option (ℕ × F)) (i : ℕ) (m : F)
        → pick f lambda_ relevance similarity selected remaining best ≡ some (i, m)
        → (f.lt m (best_of best) ≡ false) × All (λ j. f.lt m (value selected j) ≡ false) remaining
    unfolding pick
    pick-keeps selected [] best i m e = (rw e (o.lt_irrefl m), tt)
    pick-keeps selected (j ∷ js) best i m e =
        elim (Bool-cases (f.lt (best_of best) (value selected j))) [
          | inl above ↦
              let (high, rest) =
                pick-keeps selected js (some (j, value selected j)) i m (rw above at e) in
              (
                not_lt_trans f o m (value selected j) (best_of best) high (lt_asymm f o _ _ above),
                (high, rest),
              )
          | inr below ↦
              let (high, rest) = pick-keeps selected js best i m (rw below at e) in
              (high, (not_lt_trans f o m (best_of best) (value selected j) high below, rest))
        ]

  pick-source :
      (selected remaining : List ℕ) (best : Option (ℕ × F)) (i : ℕ) (m : F)
      → pick f lambda_ relevance similarity selected remaining best ≡ some (i, m)
      → (best ≡ some (i, m)) ⊎ ((elem i remaining ≡ true) × (m ≡ value selected i))
  unfolding pick
  pick-source selected [] best i m e = inl e
  pick-source selected (j ∷ js) best i m e =
      elim (Bool-cases (f.lt (best_of best) (value selected j))) [
        | inl above ↦
            from_new (pick-source selected js (some (j, value selected j)) i m (rw above at e))
        | inr below ↦ from_old (pick-source selected js best i m (rw below at e))
      ]
    where
      later : elem i js ≡ true → elem i (j ∷ js) ≡ true
      later h = ground arith

      from_new :
          (◌≡◌ {A = Option (ℕ × F)} (some (j, value selected j)) (some (i, m)))
            ⊎ ((elem i js ≡ true) × (m ≡ value selected i))
          → (best ≡ some (i, m)) ⊎ ((elem i (j ∷ js) ≡ true) × (m ≡ value selected i))
      from_new (inl now) = let here : j ≡ i = cc in inr (ground arith, cc)
      from_new (inr (h, v)) = inr (later h, v)

      from_old :
          (best ≡ some (i, m)) ⊎ ((elem i js ≡ true) × (m ≡ value selected i))
          → (best ≡ some (i, m)) ⊎ ((elem i (j ∷ js) ≡ true) × (m ≡ value selected i))
      from_old (inl now) = inl now
      from_old (inr (h, v)) = inr (later h, v)

  pick-IsBest :
      IsOrdered f
      → (selected remaining : List ℕ) (i : ℕ) (m : F)
      → pick f lambda_ relevance similarity selected remaining none ≡ some (i, m)
      → IsBest selected remaining (i, m)
  pick-IsBest o selected remaining i m e =
      let high = pick-keeps o selected remaining none i m e in
      elim (pick-source selected remaining none i m e) [
        | inl nothing ↦ cc
        | inr (h, v) ↦ (h, v, high.1)
      ]

  -- Each pick is the best of what is left, given the picks before it.
  abbrev pub IsGreedy : List ℕ → List ℕ → List (ℕ × F) → Type 0
  IsGreedy selected remaining [] = Unit
  IsGreedy selected remaining ((i, m) ∷ rest) =
      IsBest selected remaining (i, m) × IsGreedy (selected ++ i ∷ []) (remove i remaining) rest

  -- For any order on the scores, each item that the loop selects is one of those that remain, has
  -- the recorded MMR score against the items selected before it, and no remaining item scores
  -- higher.
  pub select-IsGreedy :
      IsOrdered f
      → (fuel k : ℕ) (remaining selected : List ℕ)
      → IsGreedy selected remaining
          (select f lambda_ relevance similarity fuel k remaining selected)
  unfolding select
  select-IsGreedy o zero k remaining selected = tt
  select-IsGreedy o (suc fuel) k remaining selected =
      elim (Bool-cases (is_empty remaining || leb k (length selected))) [
        | inl done ↦ rw done tt
        | inr more ↦
            elim (Option-cases (pick f lambda_ relevance similarity selected remaining none)) [
              | inl nothing ↦ rw (more, nothing) tt
              | inr ((i, m), found) ↦
                  rw (more, found)
                    (
                      pick-IsBest o selected remaining i m found,
                      select-IsGreedy o fuel k (remove i remaining) (selected ++ i ∷ []),
                    )
            ]
      ]

  module _ (finite : (s : List ℕ) (i : ℕ) → f.lt f.neg_inf (value s i) ≡ true) where
    pick-some :
        (selected remaining : List ℕ) (p : ℕ × F)
        → (q : ℕ × F) × (pick f lambda_ relevance similarity selected remaining (some p) ≡ some q)
    unfolding pick
    pick-some selected [] p = (p, refl)
    pick-some selected (j ∷ js) p = elim (Bool-cases (f.lt p.1 (value selected j))) [
      | inl above ↦ rw above (pick-some selected js (j, value selected j))
      | inr below ↦ rw below (pick-some selected js p)
    ]

    pick-found :
        (selected remaining : List ℕ)
        → is_empty remaining ≡ false
        → (q : ℕ × F) × (pick f lambda_ relevance similarity selected remaining none ≡ some q)
    unfolding pick
    pick-found selected [] h = cc
    pick-found selected (j ∷ js) h =
        rw (finite selected j) (pick-some selected js (j, value selected j))

    -- Where no score is minus infinity, enough fuel gives all the picks there are: `k` in all,
    -- or every item if there are fewer.
    pub length-select :
        IsOrdered f
        → (fuel k : ℕ) (remaining selected : List ℕ) → length remaining ≤ fuel
        → length (select f lambda_ relevance similarity fuel k remaining selected)
          ≡ min (k - length selected) (length remaining)
    unfolding select
    length-select o zero k [] selected enough = omega arith
    length-select o zero k (j ∷ js) selected enough = absurd (omega arith)
    length-select o (suc fuel) k [] selected enough = omega arith
    length-select o (suc fuel) k (j ∷ js) selected enough =
        elim (Bool-cases (leb k (length selected))) [
          | inl full ↦ rw full (ground arith)
          | inr room ↦
              let ((i, m), found) = pick-found selected (j ∷ js) refl in
              let left = length-remove i (j ∷ js) (pick-IsBest o selected (j ∷ js) i m found).0 in
              rw (room, found)
                (ground (
                  arith,
                  left,
                  length-append selected (i ∷ []),
                  length-select o fuel k (remove i (j ∷ js)) (selected ++ i ∷ [])
                      (omega (arith, left)),
                ))
        ]
